-- ===== src/Storage/Visitor/Progress.antt =====
-- The visitor's steps: none panics or reads what was not written, and they come to an end.
use metrics.Common.{
  ℕ, zero, suc, ◌+◌, ◌≤◌, ◌≡◌, refl, ap, List, [], ◌∷◌, ◌++◌, arith, length, ◌∙◌, length-append,
  get_elem?_lt,
}
use metrics.Common.Panic.{ok}
use metrics.Storage.{Storage, count_up}
use metrics.Storage.Lists.{length-count_up}
use metrics.Storage.Holds.{row_of}
use metrics.Storage.Prefix.{IsPrefix-next, length-IsPrefix, get_elem?-row_of, length-row_of}
use metrics.Storage.Visitor.{Visitor, start, between, inside, done, visitor_step}
use metrics.Storage.Visitor.Alone.{Ends, Ends-step, Ends-done}
use metrics.Storage.Visitor.Readable.{Readable}
use metrics.Storage.Visitor.Seen.{Ahead, SeenAt}

count_up-cons :
    (i j n : ℕ) (is : List ℕ)
    → j ∷ is ≡ count_up i n
    → (m : ℕ) × (n ≡ suc m) × (j ≡ i) × (is ≡ count_up (i + 1) m)
count_up-cons i j zero is h = absurd (ground arith)
count_up-cons i j (suc n) is h = (n, refl, cc h, cc h)

module _ {S T : Type 0} (s : Storage S T) (items ps old : List T) (r : Readable s items ps)
    (newer : length old ≤ length items) where
  abbrev chunks : ℕ
  chunks = length s.meta_chunks

  -- The loaded index is ahead.
  start-SeenAt : SeenAt chunks old ps (between s.published_index.chunks [])
  unfolding SeenAt
  start-SeenAt = (
    0,
    record {
      count = r.indexed.count;
      is_eq = r.indexed.chunks_eq;
      prefix = (ps, refl);
      fits = omega arith;
      aligned = λ _. refl;
      in_range = omega (arith, r.indexed.in_range);
      full = λ _. omega (arith, r.indexed.full);
      covers = omega (arith, newer, r.indexed.covers);
    },
  )

  -- The next chunk's published length is what the visit will read of it.
  next_chunk :
      (i j : ℕ) (is : List ℕ) (seen : List T)
      → Ahead chunks old ps i 0 (j ∷ is) seen
      → (len : ℕ) × (visitor_step s (between (j ∷ is) seen) ≡ ok (inside j 0 len is seen))
        × SeenAt chunks old ps (inside j 0 len is seen)
  unfolding visitor_step SeenAt
  next_chunk i j is seen a =
      let (m, some_left, here, rest) = count_up-cons i j a.count is a.is_eq in
      let (c, found) = get_elem?_lt s.meta_chunks j (omega (arith, a.in_range)) in
      let size = length-row_of ps j in
      let at = a.aligned (omega arith) in
      let full = a.full (omega arith) in
      let len = (r.shows j c found).len in
      (
        c.published_len,
        rw found,
        (
          omega arith,
          omega arith,
          record {
            count = m;
            is_eq = rw here rest;
            prefix = a.prefix;
            fits = omega (arith, a.fits);
            aligned = λ h. omega arith;
            in_range = omega (arith, a.in_range);
            full = λ h. omega arith;
            covers = omega (arith, a.covers, newer, length-IsPrefix items ps r.front);
          },
        ),
      )

  -- The next entry was published, and is the one behind those seen.
  next_entry :
      (j offset left : ℕ) (is : List ℕ) (seen : List T)
      → SeenAt chunks old ps (inside j offset (suc left) is seen)
      → (t : T) × (visitor_step s (inside j offset (suc left) is seen)
          ≡ ok (inside j (offset + 1) left is (seen ++ t ∷ [])))
        × SeenAt chunks old ps (inside j (offset + 1) left is (seen ++ t ∷ []))
  unfolding visitor_step SeenAt
  next_entry j offset left is seen (at, room, a) =
      let (c, found) = get_elem?_lt s.meta_chunks j (omega (arith, a.in_range)) in
      let size = length-row_of ps j in
      let (t, there) = get_elem?_lt (row_of j ps) offset (omega (arith, size, a.fits)) in
      let next = get_elem?-row_of ps j offset (length seen) (omega arith) (omega arith) ∙ there in
      let more = length-append seen (t ∷ []) in
      (
        t,
        rw (found, (r.shows j c found).entry offset t there),
        (
          omega (arith, more),
          omega arith,
          record {
            count = a.count;
            is_eq = a.is_eq;
            prefix = IsPrefix-next seen ps t a.prefix next;
            fits = omega (arith, more, a.fits);
            aligned = λ h. omega (arith, more, a.aligned h);
            in_range = a.in_range;
            full = a.full;
            covers = omega (arith, more, a.covers);
          },
        ),
      )

  -- Every step of the visit is defined, and keeps what was seen.
  pub visitor_step-SeenAt :
      (v : Visitor T)
      → SeenAt chunks old ps v
      → (v' : Visitor T) × (visitor_step s v ≡ ok v') × SeenAt chunks old ps v'
  unfolding visitor_step SeenAt
  visitor_step-SeenAt start h = (_, refl, start-SeenAt)
  visitor_step-SeenAt (between [] seen) (i, a) = (
    done seen,
    refl,
    (a.prefix, omega (arith, a.covers, length-count_up i a.count, ap length a.is_eq)),
  )
  visitor_step-SeenAt (between (j ∷ is) seen) (i, a) =
      let (len, e, h) = next_chunk i j is seen a in (_, e, h)
  visitor_step-SeenAt (inside j offset zero is seen) (at, room, a) =
      (between is seen, refl, (j + 1, a))
  visitor_step-SeenAt (inside j offset (suc left) is seen) h =
      let (t, e, h') = next_entry j offset left is seen h in (_, e, h')
  visitor_step-SeenAt (done seen) h = (done seen, refl, h)

  Ends-inside :
      (is : List ℕ)
      → ((i : ℕ) (seen : List T) → Ahead chunks old ps i 0 is seen → Ends s (between is seen))
      → (left offset j : ℕ) (seen : List T) → SeenAt chunks old ps (inside j offset left is seen)
      → Ends s (inside j offset left is seen)
  unfolding visitor_step SeenAt
  Ends-inside is rest zero offset j seen (at, room, a) =
      Ends-step s _ (between is seen) refl (rest (j + 1) seen a)
  Ends-inside is rest (suc left) offset j seen h =
      let (t, e, h') = next_entry j offset left is seen h in
      Ends-step s _ _ e (Ends-inside is rest left (offset + 1) j (seen ++ t ∷ []) h')

  Ends-between :
      (is : List ℕ) (i : ℕ) (seen : List T)
      → Ahead chunks old ps i 0 is seen
      → Ends s (between is seen)
  unfolding visitor_step
  Ends-between [] i seen a = Ends-step s _ (done seen) refl (Ends-done s seen)
  Ends-between (j ∷ is) i seen a =
      let (len, e, h) = next_chunk i j is seen a in
      Ends-step s _ _ e (Ends-inside is (Ends-between is) len 0 j seen h)

  pub Ends-SeenAt : (v : Visitor T) → SeenAt chunks old ps v → Ends s v
  unfolding visitor_step SeenAt
  Ends-SeenAt start h = let (i, a) = start-SeenAt in Ends-step s _ _ refl (Ends-between _ i [] a)
  Ends-SeenAt (between is seen) (i, a) = Ends-between is i seen a
  Ends-SeenAt (inside j offset left is seen) h =
      Ends-inside is (Ends-between is) left offset j seen h
  Ends-SeenAt (done seen) h = Ends-done s seen
