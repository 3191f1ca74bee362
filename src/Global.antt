-- ===== src/Global.antt =====
-- The registry of 64 shards: `Registry` of src/registry.rs, `visit` and `len` of src/lib.rs, and the
-- constructors of `Metric`. The keyed hasher is a parameter: a function of the identity.
pub mod Defined
pub mod Counters
pub mod Updates
pub mod Handles
pub mod Totals
pub mod Producer
pub mod Visits
pub mod Shown
pub mod Tests
use metrics.Common.{ℕ, ◌+◌, ◌%◌, Bool, not, List, [], ◌∷◌, ◌++◌, map, Bytes, get_elem?, set}
use metrics.Common.Panic.{Outcome, ok, panic, ◌>>=◌, ◌>>◌, check, index, deref}
use metrics.Kind.{MetricType, is_conn, validate, output}
use metrics.Plan.{ProfileOutput, ProfilePlan, ProfileMeta, single, resource, fanout}
use metrics.Resource.{ResourceLabels}
use metrics.Slot
use metrics.Slot.{Slot, Duration, MetricSnapshot, record_operation, increment, snapshot}
use metrics.Storage.{ItemPtr, count_up, read_slot, update_slot, visit, published_sum}
use metrics.Registry.{MetricMeta, Metric, Shard, new_shard}
use metrics.Scalar
use metrics.Scalar.{ScalarRegistry}
use metrics.Registry.Keys.{Key}
use metrics.Registry.Refinement.{Request, named, labelled, planned, perform, request_key}

abbrev pub shard_count : ℕ
shard_count = 64

pub record Registry : Type 0 where
  pub shards : List Shard

-- `Registry::new`, as far as timing metrics go
unfoldable pub new_registry : Registry
new_registry = record { shards = map new_shard (count_up 0 shard_count) }

module _ (hash : Key → ℕ) where
  -- `(hash as usize) & (SHARD_COUNT - 1)`: the low six bits
  abbrev pub shard_of : Key → ℕ
  shard_of key = hash key % shard_count

  -- `Registry::register`, `Registry::register_resource` and `Registry::register_profile`
  unfoldable pub serve : Request → Registry → Outcome (Metric × Registry)
  serve request registry = do
    let i = shard_of (request_key request)
    shard ← index (get_elem? registry.shards i)
    (metric, shard') ← perform request shard
    ok (metric, record { shards = set registry.shards i shard' })

  -- `Metric::new`
  unfoldable pub new : MetricType → Bytes → Registry → Outcome (Metric × Registry)
  unfolding serve
  new kind name registry = do
    validate kind
    check (not (is_conn kind))
    serve (named name kind) registry

  -- `Metric::new_resource`
  unfoldable pub new_resource : MetricType → ResourceLabels → Registry → Outcome (Metric × Registry)
  unfolding serve
  new_resource kind labels registry = do
    validate kind
    check (not (is_conn kind))
    serve (labelled kind labels) registry

  -- `producer::register_profile`
  unfoldable pub register_profile : ProfilePlan → Registry → Outcome (Metric × Registry)
  unfolding serve
  register_profile plan registry = serve (planned plan) registry

-- The slot behind a handle. A region that is no shard's is a dangling pointer.
unfoldable pub read_item : ItemPtr → Registry → Outcome Slot
read_item item registry = do
  shard ← deref (get_elem? registry.shards item.region)
  read_slot item shard.storage

unfoldable pub update_item : ItemPtr → (Slot → Slot) → Registry → Outcome Registry
update_item item f registry = do
  shard ← deref (get_elem? registry.shards item.region)
  storage' ← update_slot item f shard.storage
  ok (record { shards = set registry.shards item.region (record shard { storage = storage' }) })

-- `Metric::record`
unfoldable pub record_metric : Metric → Duration → Bool → Registry → Outcome Registry
unfolding update_item
record_metric metric elapsed success =
    update_item metric.item (record_operation metric.policy elapsed success)

-- `Metric::increment`
unfoldable pub increment_metric : Metric → Registry → Outcome Registry
unfolding update_item
increment_metric metric = update_item metric.item increment

-- `Metric::snapshot`
unfoldable pub snapshot_metric : Metric → Registry → Outcome MetricSnapshot
snapshot_metric metric registry = do slot ← read_item metric.item registry; ok (snapshot slot)

-- `Registry::for_each_meta`: what the visitor is called with.
unfoldable pub visit_shards : List Shard → Outcome (List MetricMeta)
visit_shards [] = ok []
visit_shards (shard ∷ rest) = do
  here ← visit shard.storage
  others ← visit_shards rest
  ok (here ++ others)

unfoldable pub for_each_meta : Registry → Outcome (List MetricMeta)
unfolding visit_shards
for_each_meta registry = visit_shards registry.shards

-- The timing metrics' part of `Registry::len`
unfoldable pub sum_shards : List Shard → Outcome ℕ
sum_shards [] = ok 0
sum_shards (shard ∷ rest) = do
  here ← published_sum shard.storage.published_index.chunks shard.storage
  others ← sum_shards rest
  ok (here + others)

-- `Registry::len`, and `len` of src/lib.rs
unfoldable pub len : ScalarRegistry → Registry → Outcome ℕ
unfolding sum_shards Scalar.len
len scalars registry = do
  counters ← Scalar.len scalars
  timings ← sum_shards registry.shards
  ok (counters + timings)

-- A call of the visitor of `visit` of src/lib.rs: the name, the type, and the snapshot.
abbrev pub Visited : Type 0
Visited = Bytes × Bytes × MetricSnapshot

-- The calls of that visitor for one item.
unfoldable pub visited_rows : ProfileMeta → MetricSnapshot → List Visited
visited_rows (single name kind) s = (name, (output kind).0, s) ∷ []
visited_rows (resource labels kind) s = (labels.name, (output kind).0, s) ∷ []
visited_rows (fanout plan) s = map (λ o. (o.name, o.metric_type, s)) plan.outputs

-- `Registry::visit` with that visitor
unfoldable pub visit_metas : List MetricMeta → Registry → Outcome (List Visited)
unfolding visited_rows
visit_metas [] registry = ok []
visit_metas (m ∷ ms) registry = do
  slot ← read_item m.item registry
  rest ← visit_metas ms registry
  ok (visited_rows m.profile (snapshot slot) ++ rest)

-- `visit`
unfoldable pub visit_all : Registry → Outcome (List Visited)
unfolding visit_metas for_each_meta
visit_all registry = do metas ← for_each_meta registry; visit_metas metas registry
