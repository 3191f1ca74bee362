-- ===== src/Scalar/Registration.antt =====
-- Registration of counters and gauges refines its specification.
use metrics.Common.{ℕ, ◌≡◌, ◌∙◌, refl, List, Bytes, Option, none, some}
use metrics.Common.Panic.{Outcome, ok}
use metrics.Kind.{MetricType}
use metrics.Resource.{ResourceLabels}
use metrics.Storage.{ItemPtr}
use metrics.Keyed
use metrics.Keyed.Register.{register-remember_in, remember_in, Remembers}
use metrics.Scalar.{
  ScalarKind, ScalarMeta, Shard, existing, insert_key, add_item, known, register, HashKey,
}
use metrics.Scalar.Keys.{
  HashKey-discrete, request_key, meta_key, existing_key, maps, maps-MapsLaws, Registered,
}

module _ (kind : MetricType) (mode : ScalarKind) (name : Bytes)
    (resource : Option ResourceLabels) where
  abbrev pub new_meta : ItemPtr → ScalarMeta
  new_meta item = record { name = name; resource = resource; kind = kind; mode = mode; item = item }

  abbrev pub key : HashKey
  key = request_key kind mode name resource

known-register :
    (found : Option ItemPtr) (shard : Shard) (rest : Outcome (ItemPtr × Shard))
    → known found shard rest ≡ Keyed.known_or maps 0 found shard rest
unfolding known
known-register (some item) shard rest = refl
known-register none shard rest = refl

-- `Shard::register` is a registration over the shard's maps.
register-maps :
    (kind : MetricType) (mode : ScalarKind) (name : Bytes) (resource : Option ResourceLabels)
    (shard : Shard)
    → register kind mode name resource shard
      ≡ Keyed.register maps 0 (key kind mode name resource) (new_meta kind mode name resource) shard
unfolding register add_item insert_key existing existing_key Keyed.register Keyed.register_new
register-maps kind mode name none shard =
    known-register (existing kind mode name none shard) shard (add_item kind mode name none shard)
register-maps kind mode name (some labels) shard =
    known-register (existing kind mode name (some labels) shard) shard
      (add_item kind mode name (some labels) shard)

-- The specification over the list of what is registered.
abbrev pub remember :
    MetricType
    → ScalarKind
    → Bytes
    → Option ResourceLabels
    → ℕ
    → List ScalarMeta
    → ItemPtr × List ScalarMeta
remember kind mode name resource =
    remember_in maps maps-MapsLaws 0 HashKey-discrete meta_key (λ m. m.item)
      (key kind mode name resource) (new_meta kind mode name resource)

-- On a shard that has registered `ms`, a registration of a counter or a gauge succeeds and does what
-- the specification says: it returns the item under the same kind, mode and name or labels if there
-- is one and changes nothing, and otherwise registers one more item, whose word is zero; the invariant
-- holds after it, and the words of all items registered before are what they were.
pub register-remember :
    (kind : MetricType) (mode : ScalarKind) (name : Bytes) (resource : Option ResourceLabels)
    (shard : Shard) (ms : List ScalarMeta)
    → Registered shard ms
    → (shard' : Shard) × (register kind mode name resource shard
        ≡ ok ((remember kind mode name resource shard.storage.region ms).0, shard'))
      × Remembers maps maps-MapsLaws 0 HashKey-discrete meta_key
          (λ m. m.item)
          (key kind mode name resource)
          shard
          shard'
          ms
          (remember kind mode name resource shard.storage.region ms).1
register-remember kind mode name resource shard ms r =
    let (shard', e, after) =
      register-remember_in maps maps-MapsLaws 0 HashKey-discrete meta_key (λ m. m.item)
        (key kind mode name resource) (new_meta kind mode name resource) shard ms (λ p. refl)
        (λ p. refl) r in
    (shard', register-maps kind mode name resource shard ∙ e, after)
