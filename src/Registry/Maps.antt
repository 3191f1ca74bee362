-- ===== src/Registry/Maps.antt =====
-- The maps of a shard as registrations use them, and their laws.
use metrics.Common.{◌≡◌, ◌≢◌, refl, some}
use metrics.Common.Assoc
use metrics.Kind.{policy}
use metrics.Kind.Classes.{MetricType-discrete, MetricPolicy-discrete}
use metrics.Slot.{Slot}
use metrics.Storage.{ItemPtr, Storage}
use metrics.Registry.{
  MetricMeta, Shard, Bytes-discrete, Labelled-discrete, existing, existing_resource,
  existing_profile,
}
use metrics.Registry.Keys.{Key, by_name, by_labels, by_identity, existing_key}
use metrics.Keyed.{Maps, MapsLaws}

-- The maps of a shard: what a request changes, and how a key is looked up after it.
abbrev put_key : Key → ItemPtr → Storage Slot MetricMeta → Shard → Shard
put_key (by_name kind name) item s shard = record shard {
  by_type = Assoc.insert_under MetricType-discrete Bytes-discrete kind name item shard.by_type;
  storage = s;
}
put_key (by_labels kind labels) item s shard = record shard {
  by_resource = Assoc.insert Labelled-discrete (kind, labels) item shard.by_resource;
  storage = s;
}
put_key (by_identity policy identity) item s shard = record shard {
  by_profile =
      Assoc.insert_under MetricPolicy-discrete Bytes-discrete policy identity item shard.by_profile;
  storage = s;
}

abbrev pub maps : Maps Shard Slot MetricMeta Key
maps = record { storage = λ shard. shard.storage; existing = existing_key; put = put_key }

put_key-storage :
    (k : Key) (item : ItemPtr) (s : Storage Slot MetricMeta) (shard : Shard)
    → (put_key k item s shard).storage ≡ s
put_key-storage (by_name kind name) item s shard = refl
put_key-storage (by_labels kind labels) item s shard = refl
put_key-storage (by_identity policy identity) item s shard = refl

put_key_self :
    (k : Key) (item : ItemPtr) (s : Storage Slot MetricMeta) (shard : Shard)
    → existing_key k (put_key k item s shard) ≡ some item
unfolding existing_key existing existing_resource existing_profile
put_key_self (by_name kind name) item s shard =
    Assoc.get_under-insert_under_self MetricType-discrete Bytes-discrete kind name item
      shard.by_type
put_key_self (by_labels kind labels) item s shard =
    Assoc.get-insert_self Labelled-discrete (kind, labels) item shard.by_resource
put_key_self (by_identity policy identity) item s shard =
    Assoc.get_under-insert_under_self MetricPolicy-discrete Bytes-discrete policy identity item
      shard.by_profile

put_key_other :
    (k k' : Key) (item : ItemPtr) (s : Storage Slot MetricMeta) (shard : Shard)
    → k ≢ k'
    → existing_key k' (put_key k item s shard) ≡ existing_key k' shard
unfolding existing_key existing existing_resource existing_profile
put_key_other (by_name kind name) (by_name kind' name') item s shard h =
    Assoc.get_under-insert_under_ne MetricType-discrete Bytes-discrete kind kind' name name' item
      shard.by_type (λ e. h (cc (e.0, e.1)))
put_key_other (by_labels kind labels) (by_labels kind' labels') item s shard h =
    Assoc.get-insert_ne Labelled-discrete (kind', labels') (kind, labels) item shard.by_resource
      (λ e. h (cc e))
put_key_other (by_identity policy identity) (by_identity policy' identity') item s shard h =
    Assoc.get_under-insert_under_ne MetricPolicy-discrete Bytes-discrete policy policy' identity
      identity' item shard.by_profile (λ e. h (cc (e.0, e.1)))
put_key_other (by_name _ _) (by_labels _ _) item s shard h = refl
put_key_other (by_name _ _) (by_identity _ _) item s shard h = refl
put_key_other (by_labels _ _) (by_name _ _) item s shard h = refl
put_key_other (by_labels _ _) (by_identity _ _) item s shard h = refl
put_key_other (by_identity _ _) (by_name _ _) item s shard h = refl
put_key_other (by_identity _ _) (by_labels _ _) item s shard h = refl

pub maps-MapsLaws : MapsLaws maps
maps-MapsLaws = record {
  put-storage = put_key-storage;
  put_self = put_key_self;
  put_other = put_key_other;
}

-- A lookup reads the maps alone.
pub existing_key-storage :
    (k : Key) (shard : Shard) (s' : Storage Slot MetricMeta)
    → existing_key k (record shard { storage = s' }) ≡ existing_key k shard
unfolding existing_key existing existing_resource existing_profile
existing_key-storage (by_name kind name) shard s' = refl
existing_key-storage (by_labels kind labels) shard s' = refl
existing_key-storage (by_identity policy identity) shard s' = refl
