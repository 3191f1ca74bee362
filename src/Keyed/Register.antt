-- ===== src/Keyed/Register.antt =====
-- Registration over lawful maps refines its specification: look the identity up among what is
-- registered, and put a new one behind the others.
use metrics.Common.{
  ℕ, ◌<◌, ◌≡◌, refl, sym, ap, subst, ◌∙◌, List, [], ◌∷◌, ◌++◌, Option, none, some, arith, length,
  Option-cases, inl, inr,
}
use metrics.Common.Panic.{ok}
use metrics.Storage.{ItemPtr, Storage, read_slot}
use metrics.Storage.Append.{append-Holds}
use metrics.Storage.Holds.{Holds, ptr_of}
use metrics.Storage.Slots.{append-slots}
use metrics.Keyed.{Maps, MapsLaws, register, register_new}
use metrics.Keyed.Find.{find_by, find_by-append_self, find_by-append_old}
use metrics.Keyed.Registered.{RegisteredIn, RegisteredIn-append}

module _ {Shard S T K : Type 0} (m : Maps Shard S T K) (laws : MapsLaws m) (default : S)
    (dec : Discrete K) (key : T → K) (item : T → ItemPtr) where
  abbrev pub RegisteredOn : Shard → List T → Type 0
  RegisteredOn shard ms =
      RegisteredIn default dec key item (λ k. m.existing k shard) (m.storage shard) ms

  -- The specification: the item's place, and what is registered after it.
  abbrev pub remembered : Option ℕ → (ItemPtr → T) → ℕ → List T → ItemPtr × List T
  remembered (some n) meta region ms = (ptr_of region n, ms)
  remembered none meta region ms =
      (ptr_of region (length ms), ms ++ meta (ptr_of region (length ms)) ∷ [])

  unfoldable pub remember_in : K → (ItemPtr → T) → ℕ → List T → ItemPtr × List T
  remember_in k meta region ms = remembered (find_by dec key k ms) meta region ms

  -- What a registration leaves, beside its result.
  pub record Remembers (k : K) (shard shard' : Shard) (ms ms' : List T) : Type 0 where
    pub registered : RegisteredOn shard' ms'
    pub region : (m.storage shard').region ≡ (m.storage shard).region
    pub kept :
        (i : ℕ)
        → i < length ms
        → read_slot (ptr_of (m.storage shard).region i) (m.storage shard')
          ≡ read_slot (ptr_of (m.storage shard).region i) (m.storage shard)
    pub fresh :
        find_by dec key k ms ≡ none
        → read_slot (ptr_of (m.storage shard).region (length ms)) (m.storage shard') ≡ ok default

  pub register-remember_in :
      (k : K) (meta : ItemPtr → T) (shard : Shard) (ms : List T)
      → ((p : ItemPtr) → key (meta p) ≡ k)
      → ((p : ItemPtr) → item (meta p) ≡ p)
      → RegisteredOn shard ms
      → (shard' : Shard) × (register m default k meta shard
          ≡ ok ((remember_in k meta (m.storage shard).region ms).0, shard'))
        × Remembers k shard shard' ms (remember_in k meta (m.storage shard).region ms).1
  unfolding remember_in register register_new
  register-remember_in k meta shard ms keyed at r = elim (Option-cases (find_by dec key k ms)) [
    | inr (n, found) ↦
        let there = r.mapped k in
        (
          shard,
          rw (found, there, found),
          record {
            registered = rw found r;
            region = refl;
            kept = λ i lt. refl;
            fresh = λ none_found. absurd (ground arith);
          },
        )
    | inl new ↦
        let s = m.storage shard in
        let p = ptr_of s.region (length ms) in
        let t = meta p in
        let (s', e, holds, same, kept, fresh) = append-Holds default s ms meta r.holds in
        let slots = append-slots default s s' ms t r.holds holds same kept fresh in
        let absent = r.mapped k in
        let shard' = m.put k p s' shard in
        let stored = laws.put-storage k p s' shard in
        let same' = ap (λ (x : Storage S T). x.region) stored ∙ same in
        (
          shard',
          rw (new, absent, new, e),
          record {
            registered = rw new (
                RegisteredIn-append default dec key item (λ j. m.existing j shard)
                  (λ j. m.existing j shard') s (m.storage shard') ms t r (at p) (rw (keyed p) new)
                  (subst (λ x. Holds default x (ms ++ t ∷ [])) (sym stored) holds) same'
                  (rw (keyed p, at p) (laws.put_self k p s' shard))
                  (λ j other. laws.put_other k j p s' shard (λ e. other (keyed p ∙ e))));
            region = same';
            kept = λ i lt. ap (read_slot (ptr_of s.region i)) stored ∙ slots.0 i lt;
            fresh = λ _. ap (read_slot (ptr_of s.region (length ms))) stored ∙ slots.1;
          },
        )
  ]

  -- Afterwards the key is found at the item's place, and every key that was found is found where it
  -- was.
  pub remember_in-found :
      (k : K) (meta : ItemPtr → T) (region : ℕ) (ms : List T)
      → ((p : ItemPtr) → key (meta p) ≡ k)
      → (n : ℕ) × ((remember_in k meta region ms).0 ≡ ptr_of region n)
        × (find_by dec key k (remember_in k meta region ms).1 ≡ some n)
  unfolding remember_in
  remember_in-found k meta region ms keyed = elim (Option-cases (find_by dec key k ms)) [
    | inr (n, found) ↦ (n, rw found, rw (found, found))
    | inl new ↦ (
      length ms,
      rw new,
      rw new (find_by-append_self dec key k ms (meta (ptr_of region (length ms))) new (keyed _)),
    )
  ]

  pub remember_in-kept :
      (k j : K) (meta : ItemPtr → T) (region : ℕ) (ms : List T) {n : ℕ}
      → find_by dec key j ms ≡ some n
      → find_by dec key j (remember_in k meta region ms).1 ≡ some n
  unfolding remember_in
  remember_in-kept k j meta region ms h = elim (Option-cases (find_by dec key k ms)) [
    | inr (n, found) ↦ rw (found, h)
    | inl new ↦ rw new (find_by-append_old dec key j ms (meta (ptr_of region (length ms))) h)
  ]
