-- ===== src/Global/Defined.antt =====
-- The invariant of the registry: every shard has registered its own part, and no other shard's.
use metrics.Common.{
  ℕ, ◌+◌, ◌<◌, ◌≡◌, ◌≢◌, ◌∙◌, sym, refl, subst, List, [], none, some, arith, length, get_elem?, set,
  get_elem?_lt, get_elem?-set_self, length-set, lt_of_get_elem?, ℕ_discrete, Option-cases, inl, inr,
  get_elem?-set_ne, update, update_eq, update_ne,
}
use metrics.Common.Panic.{ok}
use metrics.Slot.{default}
use metrics.Storage
use metrics.Storage.{count_up, read_slot}
use metrics.Storage.Holds.{ptr_of}
use metrics.Storage.Lists.{
  get_elem?-set_cases, get_elem?-append_cases, get_elem?-map-count_up, length-map-count_up,
}
use metrics.Registry.{MetricMeta, Shard, new_shard}
use metrics.Registry.Keys.{Key, meta_key, find_key}
use metrics.Registry.Registered.{Registered, new_shard-Registered}
use metrics.Registry.Refinement.{Request, request_key, new_meta, remember, perform-remember}
use metrics.Global.{shard_count, Registry, new_registry, shard_of, serve, read_item}

-- What each shard has registered.
abbrev pub Contents : Type 0
Contents = ℕ → List MetricMeta

-- The slot of a place is the slot in the shard of its region.
pub read_item-at :
    (registry : Registry) (j k : ℕ) (shard : Shard)
    → get_elem? registry.shards j ≡ some shard
    → read_item (ptr_of j k) registry ≡ read_slot (ptr_of j k) shard.storage
unfolding read_item ptr_of
read_item-at registry j k shard h = rw h

pub read_item-set_ne :
    (registry : Registry) (i j k : ℕ) (shard : Shard)
    → i ≢ j
    → read_item (ptr_of j k) (record { shards = set registry.shards i shard })
      ≡ read_item (ptr_of j k) registry
unfolding read_item ptr_of
read_item-set_ne registry i j k shard other = rw (get_elem?-set_ne registry.shards shard other)

module _ (hash : Key → ℕ) where
  pub record Serves (registry : Registry) (c : Contents) : Type 0 where
    pub count : length registry.shards ≡ shard_count
    pub each :
        (i : ℕ) (shard : Shard)
        → get_elem? registry.shards i ≡ some shard
        → Registered shard (c i) × (shard.storage.region ≡ i)
    pub routed :
        (i n : ℕ) (m : MetricMeta) → get_elem? (c i) n ≡ some m → shard_of hash (meta_key m) ≡ i

  -- The fresh registry is in good order and has registered nothing.
  pub new_registry-Serves : Serves new_registry (λ i. [])
  unfolding new_registry
  new_registry-Serves = record {
    count = length-map-count_up new_shard 0 shard_count;
    each = λ i shard h.
        let e = get_elem?-map-count_up new_shard 0 shard_count i h in
        let z : 0 + i ≡ i = omega arith in
        rw (e, z) (new_shard-Registered i, unfold new_shard Storage.empty in refl);
    routed = λ i n m h. absurd (ground arith);
  }

  -- Replacing one shard by another in good order.
  pub set-Serves :
      (registry : Registry) (c : Contents) (i : ℕ) (shard : Shard) (ms : List MetricMeta)
      → Serves registry c
      → Registered shard ms
      → shard.storage.region ≡ i
      → ((n : ℕ) (m : MetricMeta) → get_elem? ms n ≡ some m → shard_of hash (meta_key m) ≡ i)
      → Serves (record { shards = set registry.shards i shard }) (update c i ms)
  set-Serves registry c i shard ms s r region routed = record {
    count = length-set registry.shards i shard ∙ s.count;
    each = λ j x e. elim (get_elem?-set_cases registry.shards i shard j e) [
      | inl (other, old) ↦ rw (update_ne c i j ms (λ same. other (sym same))) (s.each j x old)
      | inr (same, eq) ↦ rw (← eq, update_eq c i j ms (sym same)) (r, region ∙ sym same)
    ];
    routed = λ j n m e. elim (ℕ_discrete i j) [
      | yes same ↦ routed n m (rw (update_eq c i j ms same) at e) ∙ same
      | no other ↦ s.routed j n m (rw (update_ne c i j ms other) at e)
    ];
  }

  -- The contents after a request.
  abbrev pub requested : Request → Contents → Contents
  requested request c =
      let i = shard_of hash (request_key request) in update c i (remember i request (c i)).1

  remember-routed :
      (request : Request) (registry : Registry) (c : Contents)
      → Serves registry c
      → (n : ℕ) (m : MetricMeta)
      → get_elem?
          (remember
            (shard_of hash (request_key request))
            request
            (c (shard_of hash (request_key request)))).1
          n
        ≡ some m
      → shard_of hash (meta_key m) ≡ shard_of hash (request_key request)
  unfolding remember
  remember-routed request registry c s n m =
      let i = shard_of hash (request_key request) in
      elim (Option-cases (find_key (request_key request) (c i))) [
        | inr (k, found) ↦ λ e. s.routed i n m (rw found at e)
        | inl new ↦ λ e.
            elim (get_elem?-append_cases (c i) (new_meta i (c i) request) n (rw new at e)) [
              | inl old ↦ s.routed i n m old
              | inr (last, eq) ↦ rw (← eq)
            ]
      ]

  -- Every request succeeds on a registry in good order and leaves one in good order: the handle is the
  -- one that the specification gives on the shard that the hash of the identity selects, the counters
  -- of every item registered before are what they were, and those of a new item are zero.
  pub serve-Serves :
      (request : Request) (registry : Registry) (c : Contents)
      → Serves registry c
      → let i = shard_of hash (request_key request) in
        (registry' : Registry) × (serve hash request registry
          ≡ ok ((remember i request (c i)).0, registry'))
        × Serves registry' (requested request c)
        × ((j k : ℕ)
            → k < length (c j)
            → read_item (ptr_of j k) registry' ≡ read_item (ptr_of j k) registry)
        × (find_key (request_key request) (c i) ≡ none
            → read_item (ptr_of i (length (c i))) registry' ≡ ok default)
  unfolding serve
  serve-Serves request registry c s =
      let i = shard_of hash (request_key request) in
      let (shard, found) = get_elem?_lt registry.shards i (omega (arith, s.count)) in
      let (r, region) = s.each i shard found in
      let (shard', done, r', region', kept, fresh) = perform-remember request shard (c i) r in
      let there =
        get_elem?-set_self registry.shards i shard' (lt_of_get_elem? registry.shards i found) in
      (
        record { shards = set registry.shards i shard' },
        rw (found, done, region),
        set-Serves registry c i shard' (remember i request (c i)).1 s
            (subst (λ (g : ℕ). Registered shard' (remember g request (c i)).1) region r')
            (region' ∙ region) (remember-routed request registry c s),
        λ j k k_lt. elim (ℕ_discrete i j) [
          | yes same ↦
              subst
                (λ (g : ℕ).
                  k < length (c g)
                  → read_item (ptr_of g k) (record { shards = set registry.shards i shard' })
                    ≡ read_item (ptr_of g k) registry)
                same
                (λ k_lt'.
                  read_item-at (record { shards = set registry.shards i shard' }) i k shard' there
                  ∙ subst
                      (λ (g : ℕ).
                        read_slot (ptr_of g k) shard'.storage
                        ≡ read_slot (ptr_of g k) shard.storage)
                      region (kept k k_lt')
                  ∙ sym (read_item-at registry i k shard found))
                k_lt
          | no other ↦ read_item-set_ne registry i j k shard' other
        ],
        λ new.
            read_item-at (record { shards = set registry.shards i shard' }) i (length (c i)) shard'
              there
            ∙ subst (λ (g : ℕ). read_slot (ptr_of g (length (c i))) shard'.storage ≡ ok default)
                region (fresh new),
      )
