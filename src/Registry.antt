-- ===== src/Registry.antt =====
-- Registration of timing metrics: `MetricMeta`, `ShardState` and `Shard` of src/registry.rs. What a
-- shard's mutex guards is a value that an operation takes and returns, beside the published index.
pub mod Keys
pub mod Registered
pub mod Maps
pub mod Refinement
pub mod Places
pub mod Tests
use metrics.Common.{ℕ, List, [], Option, none, some, Bytes, ℕ_discrete, replicate}
use metrics.Common.Assoc
use metrics.Common.Assoc.{HashMap}
use metrics.Common.Panic.{Outcome, ok, ◌>>=◌}
use metrics.Kind.{MetricType, MetricPolicy, policy}
use metrics.Kind.Classes.{MetricType-discrete, MetricPolicy-discrete}
use metrics.Resource.{ResourceLabels, ResourceLabels-discrete}
use metrics.Plan.{ProfilePlan, ProfileMeta}
use metrics.Slot.{Slot, default}
use metrics.Storage
use metrics.Storage.{ItemPtr, Storage}

pub record MetricMeta : Type 0 where
  pub item : ItemPtr
  pub profile : ProfileMeta

-- The handle that producers keep.
pub record Metric : Type 0 where
  pub item : ItemPtr
  pub policy : MetricPolicy

-- `Metric::from_item`
abbrev pub from_item : ItemPtr → MetricPolicy → Metric
from_item item policy = record { item = item; policy = policy }

unfoldable pub Bytes-discrete : Discrete Bytes
unfolding ℕ_discrete
Bytes-discrete = hlevel ℕ_discrete

unfoldable pub Labelled-discrete : Discrete (MetricType × ResourceLabels)
unfolding MetricType-discrete ResourceLabels-discrete
Labelled-discrete = hlevel (MetricType-discrete, ResourceLabels-discrete)

-- `Shard`: the three maps of `ShardState`, and its slots, chunks, length and published index.
pub record Shard : Type 0 where
  pub by_type : HashMap MetricType (HashMap Bytes ItemPtr)
  pub by_resource : HashMap (MetricType × ResourceLabels) ItemPtr
  pub by_profile : HashMap MetricPolicy (HashMap Bytes ItemPtr)
  pub storage : Storage Slot MetricMeta

-- `Shard::new`, for the shard whose boxes form the given region
unfoldable pub new_shard : ℕ → Shard
new_shard region = record {
  by_type = [];
  by_resource = [];
  by_profile = [];
  storage = Storage.empty region;
}

-- `ShardState::existing`
unfoldable pub existing : Bytes → MetricType → Shard → Option ItemPtr
existing name kind shard =
    Assoc.get_under MetricType-discrete Bytes-discrete kind name shard.by_type

-- `ShardState::existing_profile`
unfoldable pub existing_profile : Bytes → MetricPolicy → Shard → Option ItemPtr
existing_profile identity policy shard =
    Assoc.get_under MetricPolicy-discrete Bytes-discrete policy identity shard.by_profile

-- `state.by_resource.get(&key)`
unfoldable pub existing_resource : MetricType → ResourceLabels → Shard → Option ItemPtr
existing_resource kind labels shard = Assoc.get Labelled-discrete (kind, labels) shard.by_resource

-- `ShardState::allocate`: the metric with its pointer, and the shard after it.
unfoldable pub allocate : ProfileMeta → MetricPolicy → Shard → Outcome (Metric × ItemPtr × Shard)
allocate profile policy shard = do
  (storage', item) ←
      Storage.append default (λ item. record { item = item; profile = profile }) shard.storage
  ok (from_item item policy, item, record shard { storage = storage' })

-- `ShardState::insert`
unfoldable pub insert : Bytes → MetricType → Shard → Outcome (Metric × Shard)
insert name kind shard = do
  (metric, item, shard') ← allocate (ProfileMeta.single name kind) (policy kind) shard
  ok (
    metric,
    record shard' {
      by_type = Assoc.insert_under MetricType-discrete Bytes-discrete kind name item shard'.by_type;
    },
  )

-- `ShardState::insert_profile`
unfoldable pub insert_profile : ProfilePlan → Shard → Outcome (Metric × Shard)
insert_profile plan shard = do
  (metric, item, shard') ← allocate (ProfileMeta.fanout plan) plan.policy shard
  ok (
    metric,
    record shard' {
      by_profile =
          Assoc.insert_under MetricPolicy-discrete Bytes-discrete plan.policy plan.identity item
            shard'.by_profile;
    },
  )

-- The end of `Registry::register_resource`
unfoldable pub insert_resource : MetricType → ResourceLabels → Shard → Outcome (Metric × Shard)
insert_resource kind labels shard = do
  (metric, item, shard') ← allocate (ProfileMeta.resource labels kind) (policy kind) shard
  ok (
    metric,
    record shard' {
      by_resource = Assoc.insert Labelled-discrete (kind, labels) item shard'.by_resource;
    },
  )

-- An early return with the handle of an item that exists.
known : Option ItemPtr → MetricPolicy → Shard → Outcome (Metric × Shard) → Outcome (Metric × Shard)
known none policy shard rest = rest
known (some item) policy shard rest = ok (from_item item policy, shard)

-- `Shard::register`
unfoldable pub register : Bytes → MetricType → Shard → Outcome (Metric × Shard)
unfolding known
register name kind shard =
    known (existing name kind shard) (policy kind) shard (insert name kind shard)

-- `Shard::register_profile`
unfoldable pub register_profile : ProfilePlan → Shard → Outcome (Metric × Shard)
unfolding known
register_profile plan shard =
    known (existing_profile plan.identity plan.policy shard) plan.policy shard
      (insert_profile plan shard)

-- The part of `Registry::register_resource` behind the choice of the shard
unfoldable pub register_resource : MetricType → ResourceLabels → Shard → Outcome (Metric × Shard)
unfolding known
register_resource kind labels shard =
    known (existing_resource kind labels shard) (policy kind) shard
      (insert_resource kind labels shard)
