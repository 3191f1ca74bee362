-- ===== src/Keyed/Shown.antt =====
-- What is in the slots of the identities of a shard, while others are registered.
use metrics.Common.{
  ℕ, ◌≡◌, ◌∙◌, refl, sym, subst, List, Option, none, some, length, Option-cases, inl, inr,
}
use metrics.Common.Panic.{ok}
use metrics.Storage.{ItemPtr, Storage, read_slot}
use metrics.Storage.Holds.{ptr_of}
use metrics.Keyed.{Maps, MapsLaws}
use metrics.Keyed.Find.{find_by, find_by_lt, find_by-append_self, find_by-append_ne}
use metrics.Keyed.Register.{remember_in, Remembers}

module _ {S T : Type 0} (default : S) where
  -- The slot of an item holds a value; without an item the value is the default.
  abbrev pub ShownAt : Option ℕ → Storage S T → S → Type 0
  ShownAt none s v = v ≡ default
  ShownAt (some n) s v = read_slot (ptr_of s.region n) s ≡ ok v

  ShownAt-kept :
      (o : Option ℕ) (s s' : Storage S T) (v : S)
      → s'.region ≡ s.region
      → ((n : ℕ) → o ≡ some n → read_slot (ptr_of s.region n) s' ≡ read_slot (ptr_of s.region n) s)
      → ShownAt o s v
      → ShownAt o s' v
  unfolding read_slot
  ShownAt-kept none s s' v same kept h = h
  ShownAt-kept (some n) s s' v same kept h = rw same (kept n refl ∙ h)

module _ {Shard S T K : Type 0} (m : Maps Shard S T K) (laws : MapsLaws m) (default : S)
    (dec : Discrete K) (key : T → K) (item : T → ItemPtr) where
  -- A registration leaves what the identities show, a new one included.
  pub Remembers-ShownAt :
      (k : K) (meta : ItemPtr → T) (shard shard' : Shard) (ms : List T)
      → let ms' = (remember_in m laws default dec key item k meta (m.storage shard).region ms).1 in
        ((p : ItemPtr) → key (meta p) ≡ k)
        → Remembers m laws default dec key item k shard shard' ms ms'
        → (j : K) (v : S) → ShownAt default (find_by dec key j ms) (m.storage shard) v
        → ShownAt default (find_by dec key j ms') (m.storage shard') v
  unfolding remember_in read_slot
  Remembers-ShownAt k meta shard shard' ms keyed after j v h =
      elim (Option-cases (find_by dec key k ms)) [
        | inr (n, found) ↦ rw found stays
        | inl new ↦
            let t = meta (ptr_of (m.storage shard).region (length ms)) in
            elim (dec k j) [
              | no other ↦
                  rw (new, find_by-append_ne dec key j ms t (λ e. other (sym (keyed _) ∙ e))) stays
              | yes same ↦
                  let unseen : find_by dec key j ms ≡ none =
                    subst (λ (g : K). find_by dec key g ms ≡ none) same new in
                  let zero_yet : v ≡ default = rw unseen at h in
                  rw
                    (
                      new,
                      find_by-append_self dec key j ms t unseen (keyed _ ∙ same),
                      after.region,
                      zero_yet,
                    )
                    (after.fresh new)
            ]
      ]
    where
      stays : ShownAt default (find_by dec key j ms) (m.storage shard') v
      stays =
          ShownAt-kept default (find_by dec key j ms) (m.storage shard) (m.storage shard') v
            after.region (λ n found. after.kept n (find_by_lt dec key j ms found)) h
