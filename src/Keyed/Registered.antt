-- ===== src/Keyed/Registered.antt =====
-- The invariant of a shard: its map, its storage and its index agree on what was registered.
use metrics.Common.{
  ℕ, ◌≡◌, ◌≢◌, ◌∙◌, refl, sym, ap, List, [], ◌∷◌, ◌++◌, Option, none, some, arith, length,
  get_elem?, inl, inr,
}
use metrics.Storage.{ItemPtr, Storage, empty}
use metrics.Storage.Holds.{Holds, ptr_of, empty-Holds}
use metrics.Storage.Lists.{get_elem?-append_cases}
use metrics.Keyed.Find.{find_by, find_by-append_old, find_by-append_self, find_by-append_ne}

-- The pointer of the item that was found, if one was.
abbrev pub at_place : ℕ → Option ℕ → Option ItemPtr
at_place region none = none
at_place region (some n) = some (ptr_of region n)

module _ {S T K : Type 0} (default : S) (dec : Discrete K) (key : T → K) (item : T → ItemPtr) where
  -- `ms` is what the shard with this storage and this map has registered, in order.
  pub record RegisteredIn (existing : K → Option ItemPtr) (s : Storage S T) (ms : List T)
      : Type 0 where
    pub holds : Holds default s ms
    pub items : (n : ℕ) (m : T) → get_elem? ms n ≡ some m → item m ≡ ptr_of s.region n
    pub mapped : (k : K) → existing k ≡ at_place s.region (find_by dec key k ms)
    pub once : (n : ℕ) (m : T) → get_elem? ms n ≡ some m → find_by dec key (key m) ms ≡ some n

  pub empty-RegisteredIn :
      (existing : K → Option ItemPtr) (region : ℕ)
      → ((k : K) → existing k ≡ none)
      → RegisteredIn existing (empty region) []
  unfolding empty find_by
  empty-RegisteredIn existing region unknown = record {
    holds = empty-Holds default region;
    items = λ n m h. absurd (ground arith);
    mapped = unknown;
    once = λ n m h. absurd (ground arith);
  }

  -- One more item under a new key, whose pointer the map now gives for that key and for no other.
  pub RegisteredIn-append :
      (existing existing' : K → Option ItemPtr) (s s' : Storage S T) (ms : List T) (m : T)
      → RegisteredIn existing s ms
      → item m ≡ ptr_of s.region (length ms)
      → find_by dec key (key m) ms ≡ none
      → Holds default s' (ms ++ m ∷ [])
      → s'.region ≡ s.region
      → existing' (key m) ≡ some (item m)
      → ((k : K) → key m ≢ k → existing' k ≡ existing k)
      → RegisteredIn existing' s' (ms ++ m ∷ [])
  RegisteredIn-append existing existing' s s' ms m r at new h same self other = record {
    holds = h;
    items = λ n x e. elim (get_elem?-append_cases ms m n e) [
      | inl old ↦ r.items n x old ∙ ap (λ (g : ℕ). ptr_of g n) (sym same)
      | inr (last, eq) ↦ rw (← eq, at, same, last)
    ];
    mapped = λ k. elim (dec (key m) k) [
      | yes p ↦ rw (← p, self, find_by-append_self dec key (key m) ms m new refl, at, same)
      | no p ↦ rw (other k p, r.mapped k, find_by-append_ne dec key k ms m p, same)
    ];
    once = λ n x e. elim (get_elem?-append_cases ms m n e) [
      | inl old ↦ find_by-append_old dec key (key x) ms m (r.once n x old)
      | inr (last, eq) ↦ rw (← eq, last) (find_by-append_self dec key (key m) ms m new refl)
    ];
  }

  -- A shard with its slots updated has registered what it had.
  pub RegisteredIn-storage :
      (existing existing' : K → Option ItemPtr) (s s' : Storage S T) (ms : List T)
      → RegisteredIn existing s ms
      → Holds default s' ms
      → s'.region ≡ s.region
      → ((k : K) → existing' k ≡ existing k)
      → RegisteredIn existing' s' ms
  RegisteredIn-storage existing existing' s s' ms r h same kept = record {
    holds = h;
    items = λ n m e. r.items n m e ∙ ap (λ (g : ℕ). ptr_of g n) (sym same);
    mapped =
        λ k. kept k ∙ r.mapped k ∙ ap (λ (g : ℕ). at_place g (find_by dec key k ms)) (sym same);
    once = r.once;
  }
