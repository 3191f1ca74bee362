-- ===== src/Process.antt =====
-- The process-wide registry: the whole `Registry` of src/registry.rs with its scalars and its states,
-- `registry`, `record_rpc_state` and `len` of src/lib.rs, and `PrometheusReader::new` of
-- src/prometheus.rs.
pub mod Scrape
pub mod Tests
use metrics.Common.{ℕ, [], Bytes, Option, none, some}
use metrics.Common.Panic.{Outcome, ok, ◌>>=◌}
use metrics.Storage.{ItemPtr}
use metrics.Global
use metrics.Global.{Registry, new_registry}
use metrics.Scalar
use metrics.Scalar.{ScalarRegistry}
use metrics.State.{StateMap, record_state, rpc, snapshot}
use metrics.Prometheus.Source.{sources}
use metrics.Prometheus.Reader.{PrometheusReader, new_reader}

pub record Process : Type 0 where
  pub timings : Registry
  pub scalars : ScalarRegistry
  pub states : StateMap

-- `Registry::new`
unfoldable pub new_process : Process
unfolding new_registry Scalar.new_registry
new_process = record { timings = new_registry; scalars = Scalar.new_registry; states = [] }

-- `registry()`: the first call puts a new registry into the `OnceLock`; the result, and the lock.
unfoldable pub registry_of : Option Process → Process × Option Process
registry_of none = (new_process, some new_process)
registry_of (some process) = (process, some process)

-- `record_rpc_state`, over what `Display` writes for the key and for the value
unfoldable pub record_rpc_state :
    {K V : Type 0} → (K → Bytes) → (V → Bytes) → Bytes → K → V → Process → Process
record_rpc_state key_text value_text name key value process = record process {
  states = record_state rpc name (key_text key) (value_text value) process.states;
}

-- `len`
unfoldable pub len : Process → Outcome ℕ
len process = Global.len process.scalars process.timings

-- `PrometheusReader::from_registry`: the visits of the timing metrics and of the scalars give the
-- sources, and the states are taken once.
unfoldable pub from_registry : (ItemPtr → ℕ) → Process → Outcome PrometheusReader
from_registry address process = do
  timings ← Global.for_each_meta process.timings
  scalars ← Scalar.for_each process.scalars
  ok (new_reader (sources address timings scalars) (snapshot process.states))

-- `PrometheusReader::new`: the reader, and the `OnceLock`.
unfoldable pub new_scrape :
    (ItemPtr → ℕ) → Option Process → Outcome (PrometheusReader × Option Process)
unfolding registry_of from_registry
new_scrape address lock = do
  let (process, lock') = registry_of lock
  reader ← from_registry address process
  ok (reader, lock')
