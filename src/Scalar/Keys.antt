-- ===== src/Scalar/Keys.antt =====
-- The identities of counters and gauges, and a scalar shard's maps as registrations use them.
use metrics.Common.{ℕ, ◌≡◌, ◌≢◌, refl, List, [], Bytes, Option, none, some, ℕ_discrete}
use metrics.Common.Assoc
use metrics.Kind.{MetricType}
use metrics.Kind.Classes.{MetricType-discrete}
use metrics.Resource.{ResourceLabels, ResourceLabels-discrete}
use metrics.Storage.{ItemPtr, Storage}
use metrics.Keyed.{Maps, MapsLaws}
use metrics.Keyed.Registered.{RegisteredIn, empty-RegisteredIn}
use metrics.Scalar.{
  ScalarKind, ScalarKind-discrete, Moded-discrete, Labelled-discrete, Bytes-discrete, ScalarMeta,
  Shard, new_shard, existing, HashKey, by_name, by_labels,
}

unfoldable pub HashKey-discrete : Discrete HashKey
unfolding MetricType-discrete ScalarKind-discrete ResourceLabels-discrete ℕ_discrete
HashKey-discrete =
    hlevel (MetricType-discrete, ScalarKind-discrete, ResourceLabels-discrete, ℕ_discrete)

abbrev pub request_key : MetricType → ScalarKind → Bytes → Option ResourceLabels → HashKey
request_key kind mode name none = by_name kind mode name
request_key kind mode name (some labels) = by_labels kind mode labels

abbrev pub meta_key : ScalarMeta → HashKey
meta_key m = request_key m.kind m.mode m.name m.resource

-- The lookup under a key, and the insertion; a lookup of labels does not read the name.
unfoldable pub existing_key : HashKey → Shard → Option ItemPtr
existing_key (by_name kind mode name) shard = existing kind mode name none shard
existing_key (by_labels kind mode labels) shard = existing kind mode labels.name (some labels) shard

abbrev put_key : HashKey → ItemPtr → Storage ℕ ScalarMeta → Shard → Shard
put_key (by_name kind mode name) item s shard = record shard {
  by_type = Assoc.insert_under Moded-discrete Bytes-discrete (kind, mode) name item shard.by_type;
  storage = s;
}
put_key (by_labels kind mode labels) item s shard = record shard {
  by_resource = Assoc.insert Labelled-discrete (kind, mode, labels) item shard.by_resource;
  storage = s;
}

abbrev pub maps : Maps Shard ℕ ScalarMeta HashKey
maps = record { storage = λ shard. shard.storage; existing = existing_key; put = put_key }

put_key-storage :
    (k : HashKey) (item : ItemPtr) (s : Storage ℕ ScalarMeta) (shard : Shard)
    → (put_key k item s shard).storage ≡ s
put_key-storage (by_name kind mode name) item s shard = refl
put_key-storage (by_labels kind mode labels) item s shard = refl

put_key_self :
    (k : HashKey) (item : ItemPtr) (s : Storage ℕ ScalarMeta) (shard : Shard)
    → existing_key k (put_key k item s shard) ≡ some item
unfolding existing_key existing
put_key_self (by_name kind mode name) item s shard =
    Assoc.get_under-insert_under_self Moded-discrete Bytes-discrete (kind, mode) name item
      shard.by_type
put_key_self (by_labels kind mode labels) item s shard =
    Assoc.get-insert_self Labelled-discrete (kind, mode, labels) item shard.by_resource

put_key_other :
    (k k' : HashKey) (item : ItemPtr) (s : Storage ℕ ScalarMeta) (shard : Shard)
    → k ≢ k'
    → existing_key k' (put_key k item s shard) ≡ existing_key k' shard
unfolding existing_key existing
put_key_other (by_name kind mode name) (by_name kind' mode' name') item s shard h =
    Assoc.get_under-insert_under_ne Moded-discrete Bytes-discrete (kind, mode) (kind', mode') name
      name' item shard.by_type (λ e. h (cc (e.0, e.1)))
put_key_other (by_labels kind mode labels) (by_labels kind' mode' labels') item s shard h =
    Assoc.get-insert_ne Labelled-discrete (kind', mode', labels') (kind, mode, labels) item
      shard.by_resource (λ e. h (cc e))
put_key_other (by_name _ _ _) (by_labels _ _ _) item s shard h = refl
put_key_other (by_labels _ _ _) (by_name _ _ _) item s shard h = refl

pub maps-MapsLaws : MapsLaws maps
maps-MapsLaws = record {
  put-storage = put_key-storage;
  put_self = put_key_self;
  put_other = put_key_other;
}

-- `ms` is what the shard has registered, in order.
abbrev pub Registered : Shard → List ScalarMeta → Type 0
Registered shard ms =
    RegisteredIn 0 HashKey-discrete meta_key (λ m. m.item) (λ k. existing_key k shard) shard.storage
      ms

new_shard_empty : (region : ℕ) (k : HashKey) → existing_key k (new_shard region) ≡ none
unfolding new_shard existing_key existing Assoc.get Assoc.get_under
new_shard_empty region (by_name kind mode name) = refl
new_shard_empty region (by_labels kind mode labels) = refl

pub new_shard-Registered : (region : ℕ) → Registered (new_shard region) []
unfolding new_shard
new_shard-Registered region =
    empty-RegisteredIn 0 HashKey-discrete meta_key (λ m. m.item)
      (λ k. existing_key k (new_shard region)) region (new_shard_empty region)

-- A lookup reads the maps alone.
pub existing_key-storage :
    (k : HashKey) (shard : Shard) (s' : Storage ℕ ScalarMeta)
    → existing_key k (record shard { storage = s' }) ≡ existing_key k shard
unfolding existing_key existing
existing_key-storage (by_name kind mode name) shard s' = refl
existing_key-storage (by_labels kind mode labels) shard s' = refl
