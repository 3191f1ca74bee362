-- ===== src/Storage/Visitor/Alone.antt =====
-- A visit that no other thread disturbs: its steps do what `visit` does.
use metrics.Common.{
  ℕ, zero, suc, ◌+◌, ◌≡◌, refl, ap, List, [], ◌∷◌, ◌++◌, ◌∙◌, sym, subst, some, get_elem?,
  append-nil, append_assoc,
}
use metrics.Common.Panic.{Outcome, ok, index, ◌>>=◌, >>=-ok, ok-injective, index-ok}
use metrics.Storage.{MetaChunk, Storage, chunk_get, chunk_scan, visit_chunk, visit_chunks, visit}
use metrics.Storage.Visitor.{Visitor, start, between, inside, done, visitor_step}

module _ {S T : Type 0} (s : Storage S T) where
  -- So many steps of the visitor
  unfoldable pub alone : ℕ → Visitor T → Outcome (Visitor T)
  alone zero v = ok v
  alone (suc n) v = visitor_step s v >>= alone n

  -- Some number of the visitor's steps takes it to the end.
  abbrev pub EndsWith : Visitor T → List T → Type 0
  EndsWith v seen = (n : ℕ) × (alone n v ≡ ok (done seen))

  abbrev pub Ends : Visitor T → Type 0
  Ends v = (seen : List T) × EndsWith v seen

  pub EndsWith-step :
      (v v' : Visitor T) (seen : List T)
      → visitor_step s v ≡ ok v'
      → EndsWith v' seen
      → EndsWith v seen
  unfolding alone
  EndsWith-step v v' seen e (n, f) = (suc n, rw e f)

  pub Ends-done : (seen : List T) → Ends (done seen)
  unfolding alone
  Ends-done seen = (seen, (0, refl))

  pub Ends-step : (v v' : Visitor T) → visitor_step s v ≡ ok v' → Ends v' → Ends v
  Ends-step v v' e (seen, ends) = (seen, EndsWith-step v v' seen e ends)

  -- The scan of a chunk's entries shows them one by one.
  scan-EndsWith :
      (i : ℕ) (c : MetaChunk T) (is : List ℕ) (rest : List T)
      → get_elem? s.meta_chunks i ≡ some c
      → (left offset : ℕ) (seen xs : List T) → chunk_scan left offset c ≡ ok xs
      → EndsWith (between is (seen ++ xs)) rest
      → EndsWith (inside i offset left is seen) rest
  unfolding chunk_scan visitor_step
  scan-EndsWith i c is rest found zero offset seen xs h e =
      EndsWith-step _ (between is seen) rest refl (
        subst (λ l. EndsWith (between is l) rest)
          (ap (◌++◌ seen) (sym (ok-injective h)) ∙ append-nil seen) e)
  scan-EndsWith i c is rest found (suc left) offset seen xs h e =
      let (t, got, h1) = >>=-ok (chunk_get offset c) _ xs h in
      let (ts, scanned, h2) = >>=-ok (chunk_scan left (offset + 1) c) _ xs h1 in
      EndsWith-step _ (inside i (offset + 1) left is (seen ++ t ∷ [])) rest (rw (found, got)) (
        scan-EndsWith i c is rest found left (offset + 1) (seen ++ t ∷ []) ts scanned (
          subst (λ l. EndsWith (between is l) rest)
            (ap (◌++◌ seen) (sym (ok-injective h2)) ∙ sym (append_assoc seen (t ∷ []) ts)) e))

  visit_chunks-EndsWith :
      (is : List ℕ) (seen xs : List T)
      → visit_chunks is s ≡ ok xs
      → EndsWith (between is seen) (seen ++ xs)
  unfolding visit_chunks visit_chunk visitor_step alone
  visit_chunks-EndsWith [] seen xs h =
      (1, ap (λ l. ok (done l)) (sym (append-nil seen) ∙ ap (◌++◌ seen) (ok-injective h)))
  visit_chunks-EndsWith (i ∷ is) seen xs h =
      let (here, visited, h1) = >>=-ok (visit_chunk i s) _ xs h in
      let (there, others, h2) = >>=-ok (visit_chunks is s) _ xs h1 in
      let (c, found, h3) = >>=-ok (index (get_elem? s.meta_chunks i)) _ here visited in
      let all : (seen ++ here) ++ there ≡ seen ++ xs =
        append_assoc seen here there ∙ ap (◌++◌ seen) (ok-injective h2) in
      let e = index-ok (get_elem? s.meta_chunks i) found in
      EndsWith-step _ (inside i 0 c.published_len is seen) (seen ++ xs) (rw found) (
        scan-EndsWith i c is (seen ++ xs) e c.published_len 0 seen here h3 (
          subst (EndsWith (between is (seen ++ here))) all
            (visit_chunks-EndsWith is (seen ++ here) there others)))

  -- Where `visit` succeeds, the visitor's steps end, and have shown the same.
  pub alone-visit : (xs : List T) → visit s ≡ ok xs → EndsWith start xs
  unfolding visit visitor_step
  alone-visit xs h =
      EndsWith-step start _ xs refl (visit_chunks-EndsWith s.published_index.chunks [] xs h)
