-- ===== src/Registry/Keys.antt =====
-- The identity under which a metric is registered, and its place in the order of registration.
use metrics.Common.{ℕ, List, Option, Bytes, ℕ_discrete}
use metrics.Kind.{MetricType, MetricPolicy}
use metrics.Kind.Classes.{MetricType-discrete, MetricPolicy-discrete}
use metrics.Resource.{ResourceLabels, ResourceLabels-discrete}
use metrics.Plan.{ProfileMeta, single, resource, fanout}
use metrics.Storage.{ItemPtr}
use metrics.Keyed.Find.{find_by}
use metrics.Registry.{MetricMeta, Shard, existing, existing_profile, existing_resource}

pub data Key : Type 0 where
  by_name : MetricType → Bytes → Key
  by_labels : MetricType → ResourceLabels → Key
  by_identity : MetricPolicy → Bytes → Key

pub Key-discrete : Discrete Key
Key-discrete =
    hlevel (MetricType-discrete, MetricPolicy-discrete, ResourceLabels-discrete, ℕ_discrete)

-- What a stored profile was registered under.
unfoldable pub key_of : ProfileMeta → Key
key_of (single name kind) = by_name kind name
key_of (resource labels kind) = by_labels kind labels
key_of (fanout plan) = by_identity plan.policy plan.identity

-- What the maps of a shard say of a key.
unfoldable pub existing_key : Key → Shard → Option ItemPtr
existing_key (by_name kind name) shard = existing name kind shard
existing_key (by_labels kind labels) shard = existing_resource kind labels shard
existing_key (by_identity policy identity) shard = existing_profile identity policy shard

abbrev pub meta_key : MetricMeta → Key
meta_key m = key_of m.profile

-- The place of the first item that was registered under a key.
abbrev pub find_key : Key → List MetricMeta → Option ℕ
find_key k ms = find_by Key-discrete meta_key k ms
