-- ===== src/Scalar.antt =====
-- Counters and gauges: src/scalar.rs. A shard's mutex-guarded state is a value, as in the registry of
-- timing metrics, and its slots, chunks, length and index are the same storage.
pub mod Keys
pub mod Registration
pub mod Serves
pub mod Identity
pub mod Handles
pub mod Words
pub mod Programs
pub mod Executed
pub mod Totals
pub mod Visits
pub mod Value
pub mod Connection
pub mod Tests
use metrics.Common.{
  ◌+◌, ℕ, ◌%◌, Bytes, List, [], ◌∷◌, ◌++◌, map, Option, none, some, ℕ_discrete, get_elem?, set, not,
}
use metrics.Common.Assoc
use metrics.Common.Assoc.{HashMap}
use metrics.Common.Panic.{Outcome, ok, ◌>>=◌, ◌>>◌, index, check}
use metrics.Kind.{MetricType, validate, is_conn}
use metrics.Kind.Classes.{MetricType-discrete}
use metrics.Resource.{ResourceLabels, ResourceLabels-discrete}
use metrics.Storage
use metrics.Storage.{ItemPtr, Storage, count_up, visit, published_sum}

pub data ScalarKind : Type 0 where
  counter gauge : ScalarKind

unfoldable pub ScalarKind-discrete : Discrete ScalarKind
ScalarKind-discrete = hlevel

unfoldable pub Moded-discrete : Discrete (MetricType × ScalarKind)
unfolding MetricType-discrete ScalarKind-discrete
Moded-discrete = hlevel (MetricType-discrete, ScalarKind-discrete)

unfoldable pub Labelled-discrete : Discrete (MetricType × ScalarKind × ResourceLabels)
unfolding MetricType-discrete ScalarKind-discrete ResourceLabels-discrete
Labelled-discrete = hlevel (MetricType-discrete, ScalarKind-discrete, ResourceLabels-discrete)

unfoldable pub Bytes-discrete : Discrete Bytes
unfolding ℕ_discrete
Bytes-discrete = hlevel ℕ_discrete

pub record ScalarMeta : Type 0 where
  pub name : Bytes
  pub resource : Option ResourceLabels
  pub kind : MetricType
  pub mode : ScalarKind
  pub item : ItemPtr

-- A `ScalarSlot` is one 64-bit word.
pub record Shard : Type 0 where
  pub by_type : HashMap (MetricType × ScalarKind) (HashMap Bytes ItemPtr)
  pub by_resource : HashMap (MetricType × ScalarKind × ResourceLabels) ItemPtr
  pub storage : Storage ℕ ScalarMeta

-- `Shard::new`
unfoldable pub new_shard : ℕ → Shard
new_shard region = record { by_type = []; by_resource = []; storage = Storage.empty region }

-- The lookup of `Shard::register`
unfoldable pub existing :
    MetricType → ScalarKind → Bytes → Option ResourceLabels → Shard → Option ItemPtr
existing kind mode name none shard =
    Assoc.get_under Moded-discrete Bytes-discrete (kind, mode) name shard.by_type
existing kind mode name (some labels) shard =
    Assoc.get Labelled-discrete (kind, mode, labels) shard.by_resource

-- The `match resource_key` that inserts.
unfoldable pub insert_key :
    MetricType → ScalarKind → Bytes → Option ResourceLabels → ItemPtr → Shard → Shard
insert_key kind mode name none item shard = record shard {
  by_type = Assoc.insert_under Moded-discrete Bytes-discrete (kind, mode) name item shard.by_type;
}
insert_key kind mode name (some labels) item shard = record shard {
  by_resource = Assoc.insert Labelled-discrete (kind, mode, labels) item shard.by_resource;
}

-- The part of `Shard::register` behind the early return
unfoldable pub add_item :
    MetricType → ScalarKind → Bytes → Option ResourceLabels → Shard → Outcome (ItemPtr × Shard)
unfolding insert_key
add_item kind mode name resource shard = do
  (storage', item) ←
      Storage.append 0
        (λ item. record { name = name; resource = resource; kind = kind; mode = mode; item = item })
        shard.storage
  ok (item, insert_key kind mode name resource item (record shard { storage = storage' }))

known : Option ItemPtr → Shard → Outcome (ItemPtr × Shard) → Outcome (ItemPtr × Shard)
known none shard rest = rest
known (some item) shard rest = ok (item, shard)

-- `Shard::register`
unfoldable pub register :
    MetricType → ScalarKind → Bytes → Option ResourceLabels → Shard → Outcome (ItemPtr × Shard)
unfolding existing add_item known
register kind mode name resource shard =
    known (existing kind mode name resource shard) shard (add_item kind mode name resource shard)

abbrev pub shards : ℕ
shards = 64

pub record ScalarRegistry : Type 0 where
  pub shards : List Shard

-- `ScalarRegistry::new`
unfoldable pub new_registry : ScalarRegistry
new_registry = record { shards = map new_shard (count_up 0 shards) }

-- What the hasher is given.
pub data HashKey : Type 0 where
  by_name : MetricType → ScalarKind → Bytes → HashKey
  by_labels : MetricType → ScalarKind → ResourceLabels → HashKey

module _ (hash : HashKey → ℕ) where
  serve :
      ℕ
      → MetricType
      → ScalarKind
      → Bytes
      → Option ResourceLabels
      → ScalarRegistry
      → Outcome (ItemPtr × ScalarRegistry)
  serve i kind mode name resource registry = do
    shard ← index (get_elem? registry.shards i)
    (item, shard') ← register kind mode name resource shard
    ok (item, record { shards = set registry.shards i shard' })

  -- `ScalarRegistry::register`
  unfoldable pub register_name :
      MetricType → ScalarKind → Bytes → ScalarRegistry → Outcome (ItemPtr × ScalarRegistry)
  unfolding serve
  register_name kind mode name registry = do
    validate kind
    serve (hash (by_name kind mode name) % shards) kind mode name none registry

  -- `ScalarRegistry::register_resource`
  unfoldable pub register_resource :
      MetricType → ScalarKind → ResourceLabels → ScalarRegistry → Outcome (ItemPtr × ScalarRegistry)
  unfolding serve
  register_resource kind mode labels registry = do
    validate kind
    serve (hash (by_labels kind mode labels) % shards) kind mode labels.name (some labels) registry

-- `ScalarRegistry::for_each`: what the visitor is called with.
unfoldable pub visit_shards : List Shard → Outcome (List ScalarMeta)
visit_shards [] = ok []
visit_shards (shard ∷ rest) = do
  here ← visit shard.storage
  others ← visit_shards rest
  ok (here ++ others)

unfoldable pub for_each : ScalarRegistry → Outcome (List ScalarMeta)
unfolding visit_shards
for_each registry = visit_shards registry.shards

-- `ScalarRegistry::len`
unfoldable pub sum_shards : List Shard → Outcome ℕ
sum_shards [] = ok 0
sum_shards (shard ∷ rest) = do
  here ← published_sum shard.storage.published_index.chunks shard.storage
  others ← sum_shards rest
  ok (here + others)

unfoldable pub len : ScalarRegistry → Outcome ℕ
unfolding sum_shards
len registry = sum_shards registry.shards
