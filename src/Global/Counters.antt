-- ===== src/Global/Counters.antt =====
-- The registry as a map from identities to counters.
use metrics.Common.{
  update, update_self, update_ne, ℕ, ◌<◌, ◌≡◌, ◌≢◌, ◌∙◌, sym, ap, subst, refl, Option, none, some,
  arith, length, ite, Option-cases, inl, inr, ℕ_discrete,
}
use mathlib.Core.Logic.{if_pos, if_neg}
use metrics.Common.Panic.{Outcome, ok}
use metrics.Slot.{Slot, default}
use metrics.Storage.Holds.{ptr_of}
use metrics.Registry.{from_item}
use metrics.Keyed.Find.{find_by_lt}
use metrics.Registry.Keys.{Key, Key-discrete, find_key, meta_key}
use metrics.Registry.Refinement.{Request, request_key, policy_of, remember}
use metrics.Registry.Places.{
  place_of, remember-handle, find_key-remember_self, find_key-remember_ne,
}
use metrics.Global.{Registry, shard_of, serve, read_item}
use metrics.Global.Defined.{Contents, Serves, requested, serve-Serves}

-- The counters of each identity that is registered.
abbrev pub View : Type 0
View = Key → Option Slot

abbrev pub put : View → Key → Slot → View
put view key slot k = ite (Key-discrete key k) (some slot) (view k)

abbrev pub or_default : Option Slot → Slot
or_default none = default
or_default (some slot) = slot

-- What stands behind a place that was found.
abbrev pub at : Registry → ℕ → Option ℕ → Option (Outcome Slot)
at registry i none = none
at registry i (some n) = some (read_item (ptr_of i n) registry)

abbrev pub lift : Option Slot → Option (Outcome Slot)
lift none = none
lift (some slot) = some (ok slot)

or_default-none : (o : Option Slot) → none ≡ lift o → or_default o ≡ default
or_default-none none h = refl
or_default-none (some slot) h = absurd (ground arith)

pub some-or_default :
    (o : Option Slot) {x : Outcome Slot} → some x ≡ lift o → some x ≡ lift (some (or_default o))
some-or_default none h = absurd (ground arith)
some-or_default (some slot) h = h

module _ (hash : Key → ℕ) where
  abbrev pub find : Contents → Key → Option ℕ
  find c key = find_key key (c (shard_of hash key))

  -- The registry is in good order and shows these counters.
  pub record Views (registry : Registry) (c : Contents) (view : View) : Type 0 where
    pub serves : Serves hash registry c
    pub shown : (key : Key) → at registry (shard_of hash key) (find c key) ≡ lift (view key)

  pub find-requested_self :
      (request : Request) (c : Contents)
      → find (requested hash request c) (request_key request)
        ≡ some (place_of request (c (shard_of hash (request_key request))))
  find-requested_self request c =
      let i = shard_of hash (request_key request) in
      ap (find_key (request_key request)) (update_self c i (remember i request (c i)).1)
      ∙ find_key-remember_self i request (c i)

  pub find-requested_ne :
      (request : Request) (c : Contents) (key : Key)
      → request_key request ≢ key
      → find (requested hash request c) key ≡ find c key
  find-requested_ne request c key other =
      let i = shard_of hash (request_key request) in
      let j = shard_of hash key in
      let ms = (remember i request (c i)).1 in
      elim (ℕ_discrete i j) [
        | yes same ↦
            ap (λ (g : ℕ). find_key key (update c i ms g)) (sym same)
            ∙ ap (find_key key) (update_self c i ms)
            ∙ find_key-remember_ne i request (c i) key other
            ∙ ap (λ (g : ℕ). find_key key (c g)) same
        | no apart ↦ ap (find_key key) (update_ne c i j ms apart)
      ]

  -- The counters behind a place that a request leaves alone.
  at-kept :
      (registry registry' : Registry) (c : Contents) (key : Key)
      → ((j k : ℕ)
          → k < length (c j)
          → read_item (ptr_of j k) registry' ≡ read_item (ptr_of j k) registry)
      → at registry' (shard_of hash key) (find c key) ≡ at registry (shard_of hash key) (find c key)
  at-kept registry registry' c key kept = elim (Option-cases (find c key)) [
    | inl new ↦ rw new
    | inr (n, found) ↦ rw (
      found,
      kept (shard_of hash key) n
          (find_by_lt Key-discrete meta_key key (c (shard_of hash key)) found),
    )
  ]

  own_counters :
      (request : Request) (registry registry' : Registry) (c : Contents) (view : View)
      → Views registry c view
      → let key = request_key request in
        let i = shard_of hash key in
        ((j k : ℕ)
          → k < length (c j)
          → read_item (ptr_of j k) registry' ≡ read_item (ptr_of j k) registry)
        → (find_key key (c i) ≡ none → read_item (ptr_of i (length (c i))) registry' ≡ ok default)
        → at registry' i (some (place_of request (c i))) ≡ lift (some (or_default (view key)))
  own_counters request registry registry' c view v kept fresh =
      let key = request_key request in
      let i = shard_of hash key in
      elim (Option-cases (find c key)) [
        | inl new ↦
            let unseen : none ≡ lift (view key) = rw new at (v.shown key) in
            rw (new, fresh new, or_default-none (view key) unseen)
        | inr (n, found) ↦
            let seen : some (read_item (ptr_of i n) registry) ≡ lift (view key) =
              rw found at (v.shown key) in
            rw (found, kept i n (find_by_lt Key-discrete meta_key key (c i) found))
              (some-or_default (view key) seen)
      ]

  -- A request returns the handle of its identity's counters: those that stood already, or new ones
  -- that are zero. No other counters change.
  pub serve-Views :
      (request : Request) (registry : Registry) (c : Contents) (view : View)
      → Views registry c view
      → let key = request_key request in
        (registry' : Registry) × (n : ℕ) × (serve hash request registry
          ≡ ok (from_item (ptr_of (shard_of hash key) n) (policy_of request), registry'))
        × (find (requested hash request c) key ≡ some n)
        × Views registry' (requested hash request c) (put view key (or_default (view key)))
  serve-Views request registry c view v =
      let key = request_key request in
      let i = shard_of hash key in
      let (registry', served, serves', kept, fresh) =
        serve-Serves hash request registry c v.serves in
      let own : at registry' i (some (place_of request (c i)))
          ≡ lift (some (or_default (view key))) =
        own_counters request registry registry' c view v kept fresh in
      (
        registry',
        place_of request (c i),
        rw served (ap (λ m. ok (m, registry')) (remember-handle i request (c i))),
        find-requested_self request c,
        record {
          serves = serves';
          shown = λ k. elim (Key-discrete key k) [
            | yes same ↦
                subst
                  (λ (k : Key).
                    at registry' (shard_of hash k) (find (requested hash request c) k)
                    ≡ lift (some (or_default (view key))))
                  same (ap (at registry' i) (find-requested_self request c) ∙ own)
                ∙ ap lift (sym (if_pos (Key-discrete key k) same _ _))
            | no other ↦
                ap (at registry' (shard_of hash k)) (find-requested_ne request c k other)
                ∙ at-kept registry registry' c k kept
                ∙ v.shown k
                ∙ ap lift (sym (if_neg (Key-discrete key k) other _ _))
          ];
        },
      )
