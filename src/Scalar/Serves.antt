-- ===== src/Scalar/Serves.antt =====
-- The registry of counters and gauges: every shard registers its own part, as the hash says.
use metrics.Common.{
  ℕ, ◌+◌, ◌%◌, ◌<◌, ◌≡◌, ◌∙◌, sym, refl, subst, List, [], Bytes, Option, none, some, arith, length,
  get_elem?, set, get_elem?_lt, length-set, inl, inr, update, update_eq, update_ne,
}
use metrics.Common.Panic.{Outcome, ok}
use metrics.Kind.{MetricType, validate}
use metrics.Resource.{ResourceLabels}
use metrics.Storage
use metrics.Storage.{ItemPtr}
use metrics.Storage.Holds.{ptr_of}
use metrics.Storage.Lists.{get_elem?-set_cases, get_elem?-map-count_up, length-map-count_up}
use metrics.Keyed.Find.{find_by}
use metrics.Keyed.Shown.{ShownAt, Remembers-ShownAt}
use metrics.Keyed.Register.{remember_in-found, remember_in-kept}
use metrics.Scalar.{
  ScalarKind, ScalarMeta, Shard, new_shard, shards, ScalarRegistry, new_registry, HashKey, by_name,
  by_labels, serve, register_name, register_resource,
}
use metrics.Scalar.Keys.{
  HashKey-discrete, meta_key, maps, maps-MapsLaws, Registered, new_shard-Registered,
}
use metrics.Scalar.Registration.{new_meta, remember, register-remember, key}

-- The two ways to register.
pub data Request : Type 0 where
  named : MetricType → ScalarKind → Bytes → Request
  labelled : MetricType → ScalarKind → ResourceLabels → Request

abbrev pub key_of : Request → HashKey
key_of (named kind mode name) = by_name kind mode name
key_of (labelled kind mode labels) = by_labels kind mode labels

abbrev pub kind_of : Request → MetricType
kind_of (named kind mode name) = kind
kind_of (labelled kind mode labels) = kind

-- Only the business kind can be refused.
abbrev pub IsValid : Request → Type 0
IsValid request = validate (kind_of request) ≡ ok tt

abbrev pub Contents : Type 0
Contents = ℕ → List ScalarMeta

abbrev pub find : HashKey → List ScalarMeta → Option ℕ
find k ms = find_by HashKey-discrete meta_key k ms

unfoldable pub remember_request : Request → ℕ → List ScalarMeta → ItemPtr × List ScalarMeta
remember_request (named kind mode name) = remember kind mode name none
remember_request (labelled kind mode labels) = remember kind mode labels.name (some labels)

pub remember_request-found :
    (request : Request) (region : ℕ) (ms : List ScalarMeta)
    → (n : ℕ) × ((remember_request request region ms).0 ≡ ptr_of region n)
      × (find (key_of request) (remember_request request region ms).1 ≡ some n)
unfolding remember_request
remember_request-found (named kind mode name) region ms =
    remember_in-found maps maps-MapsLaws 0 HashKey-discrete meta_key (λ m. m.item)
      (by_name kind mode name) (new_meta kind mode name none) region ms (λ p. refl)
remember_request-found (labelled kind mode labels) region ms =
    remember_in-found maps maps-MapsLaws 0 HashKey-discrete meta_key (λ m. m.item)
      (by_labels kind mode labels) (new_meta kind mode labels.name (some labels)) region ms
      (λ p. refl)

pub remember_request-kept :
    (request : Request) (j : HashKey) (region : ℕ) (ms : List ScalarMeta) {n : ℕ}
    → find j ms ≡ some n
    → find j (remember_request request region ms).1 ≡ some n
unfolding remember_request
remember_request-kept (named kind mode name) j region ms h =
    remember_in-kept maps maps-MapsLaws 0 HashKey-discrete meta_key (λ m. m.item)
      (by_name kind mode name) j (new_meta kind mode name none) region ms h
remember_request-kept (labelled kind mode labels) j region ms h =
    remember_in-kept maps maps-MapsLaws 0 HashKey-discrete meta_key (λ m. m.item)
      (by_labels kind mode labels) j (new_meta kind mode labels.name (some labels)) region ms h

-- Every shard has registered its contents, in the region of its number.
pub record Serves (registry : ScalarRegistry) (c : Contents) : Type 0 where
  pub count : length registry.shards ≡ shards
  pub each :
      (i : ℕ) (shard : Shard)
      → get_elem? registry.shards i ≡ some shard
      → Registered shard (c i) × (shard.storage.region ≡ i)

-- The pointer of an item that is registered.
pub record InUse (c : Contents) (p : ItemPtr) : Type 0 where
  pub shard : ℕ
  pub place : ℕ
  pub shard_lt : shard < shards
  pub place_lt : place < length (c shard)
  pub at : p ≡ ptr_of shard place

pub new_registry-Serves : Serves new_registry (λ i. [])
unfolding new_registry
new_registry-Serves = record {
  count = length-map-count_up new_shard 0 shards;
  each = λ i shard h.
      let e = get_elem?-map-count_up new_shard 0 shards i h in
      let z : 0 + i ≡ i = omega arith in
      rw (e, z) (new_shard-Registered i, unfold new_shard Storage.empty in refl);
}

set-Serves :
    (registry : ScalarRegistry) (c : Contents) (i : ℕ) (shard : Shard) (ms : List ScalarMeta)
    → Serves registry c
    → Registered shard ms
    → shard.storage.region ≡ i
    → Serves (record { shards = set registry.shards i shard }) (update c i ms)
set-Serves registry c i shard ms s r region = record {
  count = length-set registry.shards i shard ∙ s.count;
  each = λ j x e. elim (get_elem?-set_cases registry.shards i shard j e) [
    | inl (other, old) ↦ rw (update_ne c i j ms (λ same. other (sym same))) (s.each j x old)
    | inr (same, eq) ↦ rw (← eq, update_eq c i j ms (sym same)) (r, region ∙ sym same)
  ];
}

-- What is read behind an item in a shard.
abbrev Shown : Option ℕ → Shard → ℕ → Type 0
Shown o shard v = ShownAt 0 o shard.storage v

-- The value of an identity in the shard of a number; zero where it is not registered.
abbrev pub Shows : ScalarRegistry → Contents → ℕ → HashKey → ℕ → Type 0
Shows registry c j k v =
    (shard : Shard) → get_elem? registry.shards j ≡ some shard → Shown (find k (c j)) shard v

-- Every identity keeps its value.
abbrev pub KeepsWords : ScalarRegistry → ScalarRegistry → Contents → Contents → Type 0
KeepsWords registry registry' c c' =
    (j : ℕ) (k : HashKey) (v : ℕ) → Shows registry c j k v → Shows registry' c' j k v

module _ (hash : HashKey → ℕ) where
  abbrev pub shard_of : HashKey → ℕ
  shard_of k = hash k % shards

  serve-Serves :
      (i : ℕ) (kind : MetricType) (mode : ScalarKind) (name : Bytes)
      (resource : Option ResourceLabels) (registry : ScalarRegistry) (c : Contents)
      → i < shards
      → Serves registry c
      → (registry' : ScalarRegistry) × (serve hash i kind mode name resource registry
          ≡ ok ((remember kind mode name resource i (c i)).0, registry'))
        × Serves registry' (update c i (remember kind mode name resource i (c i)).1)
        × KeepsWords registry registry' c (update c i (remember kind mode name resource i (c i)).1)
  unfolding serve
  serve-Serves i kind mode name resource registry c lt s =
      let (shard, found) = get_elem?_lt registry.shards i (omega (arith, s.count)) in
      let (r, region) = s.each i shard found in
      let (shard', done, after) = register-remember kind mode name resource shard (c i) r in
      (
        record { shards = set registry.shards i shard' },
        rw (found, done, region),
        set-Serves registry c i shard' _ s
            (subst (λ (g : ℕ). Registered shard' (remember kind mode name resource g (c i)).1)
              region after.registered)
            (after.region ∙ region),
        λ j k v h x e. elim (get_elem?-set_cases registry.shards i shard' j e) [
          | inl (other, old) ↦
              rw
                (update_ne c i j (remember kind mode name resource i (c i)).1
                  (λ same. other (sym same)))
                (h x old)
          | inr (same, eq) ↦
              rw (← eq, update_eq c i j (remember kind mode name resource i (c i)).1 (sym same))
                (subst
                  (λ (g : ℕ). Shown (find k (remember kind mode name resource g (c i)).1) shard' v)
                  region
                  (Remembers-ShownAt maps maps-MapsLaws 0 HashKey-discrete meta_key (λ m. m.item)
                    (key kind mode name resource) (new_meta kind mode name resource) shard shard'
                    (c i) (λ p. refl) after k v
                    (subst (λ (g : ℕ). Shown (find k (c g)) shard v) same
                      (h shard (
                        subst (λ (g : ℕ). get_elem? registry.shards g ≡ some shard) (sym same)
                          found)))))
        ],
      )

  unfoldable pub perform : Request → ScalarRegistry → Outcome (ItemPtr × ScalarRegistry)
  perform (named kind mode name) = register_name hash kind mode name
  perform (labelled kind mode labels) = register_resource hash kind mode labels

  abbrev pub requested : Request → Contents → Contents
  requested request c =
      let i = shard_of (key_of request) in update c i (remember_request request i (c i)).1

  -- A valid request succeeds and gives what the specification gives on the shard of its hash.
  pub perform-Serves :
      (request : Request) (registry : ScalarRegistry) (c : Contents)
      → IsValid request
      → Serves registry c
      → let i = shard_of (key_of request) in
        (registry' : ScalarRegistry) × (perform request registry
          ≡ ok ((remember_request request i (c i)).0, registry'))
        × Serves registry' (requested request c)
        × KeepsWords registry registry' c (requested request c)
  unfolding perform register_name register_resource remember_request
  perform-Serves (named kind mode name) registry c valid s =
      let (registry', e, s', kept) =
        serve-Serves (hash (by_name kind mode name) % shards) kind mode name none registry c
          (omega arith) s in
      (registry', rw (valid, e), s', kept)
  perform-Serves (labelled kind mode labels) registry c valid s =
      let (registry', e, s', kept) =
        serve-Serves (hash (by_labels kind mode labels) % shards) kind mode labels.name
          (some labels) registry c (omega arith) s in
      (registry', rw (valid, e), s', kept)
