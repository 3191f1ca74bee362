-- ===== src/Registry/Places.antt =====
-- Where a request finds or puts its item.
use metrics.Common.{ℕ, ◌≡◌, ◌≢◌, refl, List, Option, none, some, length, Option-cases, inl, inr}
use metrics.Storage.Holds.{ptr_of}
use metrics.Registry.{MetricMeta, from_item}
use metrics.Keyed.Find.{find_by-append_self, find_by-append_ne}
use metrics.Registry.Keys.{Key, find_key, Key-discrete, meta_key}
use metrics.Registry.Refinement.{Request, request_key, policy_of, new_meta, remember}

abbrev place_or : Option ℕ → ℕ → ℕ
place_or (some n) end = n
place_or none end = end

-- The place of the item that a request returns.
abbrev pub place_of : Request → List MetricMeta → ℕ
place_of request ms = place_or (find_key (request_key request) ms) (length ms)

module _ (region : ℕ) (request : Request) (ms : List MetricMeta) where
  pub remember-handle :
      (remember region request ms).0
      ≡ from_item (ptr_of region (place_of request ms)) (policy_of request)
  unfolding remember
  remember-handle = elim (Option-cases (find_key (request_key request) ms)) [
    | inl new ↦ rw new
    | inr (n, found) ↦ rw found
  ]

  -- Afterwards the identity is found at that place.
  pub find_key-remember_self :
      find_key (request_key request) (remember region request ms).1 ≡ some (place_of request ms)
  unfolding remember
  find_key-remember_self = elim (Option-cases (find_key (request_key request) ms)) [
    | inl new ↦ rw (
      new,
      find_by-append_self Key-discrete meta_key (request_key request) ms
          (new_meta region ms request) new refl,
    )
    | inr (n, found) ↦ rw (found, found)
  ]

  -- And every other identity is found where it was.
  pub find_key-remember_ne :
      (k : Key)
      → request_key request ≢ k
      → find_key k (remember region request ms).1 ≡ find_key k ms
  unfolding remember
  find_key-remember_ne k other = elim (Option-cases (find_key (request_key request) ms)) [
    | inl new ↦
        rw (new, find_by-append_ne Key-discrete meta_key k ms (new_meta region ms request) other)
    | inr (n, found) ↦ rw found
  ]
