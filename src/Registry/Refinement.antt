-- ===== src/Registry/Refinement.antt =====
-- Registration refines its specification: look the identity up among what is registered, and put a
-- new one behind the others.
use metrics.Common.{
  ℕ, ◌<◌, ◌≡◌, refl, List, [], ◌∷◌, ◌++◌, Option, none, some, Bytes, length, Option-cases, inl, inr,
}
use metrics.Common.Assoc
use metrics.Common.Panic.{Outcome, ok, panic, undefined, ◌>>=◌}
use metrics.Kind.{MetricType, MetricPolicy, policy}
use metrics.Kind.Classes.{MetricType-discrete, MetricPolicy-discrete}
use metrics.Resource.{ResourceLabels}
use metrics.Plan.{ProfilePlan, ProfileMeta, single, resource, fanout}
use metrics.Slot.{Slot, default}
use metrics.Storage.{ItemPtr, Storage, append, read_slot}
use metrics.Storage.Holds.{ptr_of}
use metrics.Registry.{
  MetricMeta, Metric, from_item, Shard, Bytes-discrete, Labelled-discrete, existing,
  existing_resource, existing_profile, allocate, insert, insert_profile, insert_resource, register,
  register_profile, register_resource, known,
}
use metrics.Registry.Keys.{Key, key_of, existing_key, find_key, Key-discrete, meta_key}
use metrics.Registry.Registered.{Registered}
use metrics.Registry.Maps.{maps, maps-MapsLaws}
use metrics.Keyed
use metrics.Keyed.Register.{register-remember_in, remember_in}

-- The three ways to register.
pub data Request : Type 0 where
  named : Bytes → MetricType → Request
  labelled : MetricType → ResourceLabels → Request
  planned : ProfilePlan → Request

unfoldable pub perform : Request → Shard → Outcome (Metric × Shard)
perform (named name kind) = register name kind
perform (labelled kind labels) = register_resource kind labels
perform (planned plan) = register_profile plan

abbrev pub profile_of : Request → ProfileMeta
profile_of (named name kind) = single name kind
profile_of (labelled kind labels) = resource labels kind
profile_of (planned plan) = fanout plan

abbrev pub policy_of : Request → MetricPolicy
policy_of (named name kind) = policy kind
policy_of (labelled kind labels) = policy kind
policy_of (planned plan) = plan.policy

abbrev pub request_key : Request → Key
request_key request = key_of (profile_of request)

abbrev pub new_meta : ℕ → List MetricMeta → Request → MetricMeta
new_meta region ms request = record {
  item = ptr_of region (length ms);
  profile = profile_of request;
}

abbrev remembered : Option ℕ → ℕ → Request → List MetricMeta → Metric × List MetricMeta
remembered (some n) region request ms = (from_item (ptr_of region n) (policy_of request), ms)
remembered none region request ms = (
  from_item (ptr_of region (length ms)) (policy_of request),
  ms ++ new_meta region ms request ∷ [],
)

-- The specification over the list of what is registered.
unfoldable pub remember : ℕ → Request → List MetricMeta → Metric × List MetricMeta
remember region request ms = remembered (find_key (request_key request) ms) region request ms

-- What the three ways to register share: the early return, and the insertion `put` behind `allocate`.
known-register :
    (found : Option ItemPtr) (appended : Outcome (Storage Slot MetricMeta × ItemPtr))
    (pol : MetricPolicy) (shard : Shard) (put : ItemPtr → Shard → Shard)
    → known found pol shard (
        (appended >>= λ (s, item). ok (from_item item pol, item, record shard { storage = s }))
        >>= λ (metric, item, shard'). ok (metric, put item shard'))
      ≡ (Keyed.known_or maps default found shard
            (appended >>= λ (s, item). ok (item, put item (record shard { storage = s })))
          >>= λ (item, shard'). ok (from_item item pol, shard'))
unfolding known
known-register (some item) appended pol shard put = refl
known-register none (ok (s, item)) pol shard put = refl
known-register none panic pol shard put = refl
known-register none undefined pol shard put = refl

-- Each of the three ways to register is a registration over these maps.
perform-register :
    (request : Request) (shard : Shard)
    → perform request shard ≡ (
        Keyed.register maps default
          (request_key request)
          (λ item. record { item = item; profile = profile_of request })
          shard
        >>= λ (item, shard'). ok (from_item item (policy_of request), shard'))
unfolding perform register register_resource register_profile insert insert_resource insert_profile
    allocate key_of existing_key Keyed.register Keyed.register_new
perform-register (named name kind) shard =
    known-register (existing name kind shard) (append default _ shard.storage) (policy kind) shard
      (λ item shard'. record shard' {
        by_type =
            Assoc.insert_under MetricType-discrete Bytes-discrete kind name item shard'.by_type;
      })
perform-register (labelled kind labels) shard =
    known-register (existing_resource kind labels shard) (append default _ shard.storage)
      (policy kind) shard
      (λ item shard'. record shard' {
        by_resource = Assoc.insert Labelled-discrete (kind, labels) item shard'.by_resource;
      })
perform-register (planned plan) shard =
    known-register (existing_profile plan.identity plan.policy shard)
      (append default _ shard.storage) plan.policy shard
      (λ item shard'. record shard' {
        by_profile =
            Assoc.insert_under MetricPolicy-discrete Bytes-discrete plan.policy plan.identity item
              shard'.by_profile;
      })

remember-remember_in :
    (region : ℕ) (request : Request) (ms : List MetricMeta)
    → let spec =
        remember_in maps maps-MapsLaws default Key-discrete meta_key
          (λ m. m.item)
          (request_key request)
          (λ item. record { item = item; profile = profile_of request })
          region
          ms in
      ((remember region request ms).0 ≡ from_item spec.0 (policy_of request))
      × ((remember region request ms).1 ≡ spec.1)
unfolding remember remember_in
remember-remember_in region request ms = elim (Option-cases (find_key (request_key request) ms)) [
  | inl new ↦ (rw new, rw new)
  | inr (n, found) ↦ (rw found, rw found)
]

-- On a shard that has registered `ms`, each of the three ways to register succeeds and does what the
-- specification says: it returns the handle of the item under the same identity if there is one and
-- changes nothing, and otherwise registers one more item; the invariant holds after it, and the
-- counters of every item registered before are what they were.
pub perform-remember :
    (request : Request) (shard : Shard) (ms : List MetricMeta)
    → Registered shard ms
    → (shard' : Shard) × (perform request shard
        ≡ ok ((remember shard.storage.region request ms).0, shard'))
      × Registered shard' (remember shard.storage.region request ms).1
      × (shard'.storage.region ≡ shard.storage.region)
      × ((k : ℕ)
          → k < length ms
          → read_slot (ptr_of shard.storage.region k) shard'.storage
            ≡ read_slot (ptr_of shard.storage.region k) shard.storage)
      × (find_key (request_key request) ms ≡ none
          → read_slot (ptr_of shard.storage.region (length ms)) shard'.storage ≡ ok default)
perform-remember request shard ms r =
    let meta : ItemPtr → MetricMeta =
      λ item. record { item = item; profile = profile_of request } in
    let (shard', e, after) =
      register-remember_in maps maps-MapsLaws default Key-discrete meta_key (λ m. m.item)
        (request_key request) meta shard ms (λ p. refl) (λ p. refl) r in
    let (same_item, same_ms) = remember-remember_in shard.storage.region request ms in
    (
      shard',
      rw (perform-register request shard, e, same_item),
      rw same_ms after.registered,
      after.region,
      after.kept,
      after.fresh,
    )
