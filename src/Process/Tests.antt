-- ===== src/Process/Tests.antt =====
-- A process with a timing metric, a counter and a state.
use metrics.Common.{ℕ, ◌+◌, ◌≡◌, refl, [], ◌∷◌, Bytes, Option, some, length, take, codes}
use metrics.Common.Panic.{ok}
use metrics.Kind.{redis, req, validate}
use metrics.Storage.{ItemPtr}
use metrics.Keyed.Visits.{all_of}
use metrics.Registry.Keys.{Key}
use metrics.Registry.Refinement.{Request, named}
use metrics.Global.{new_registry}
use metrics.Global.Defined
use metrics.Global.Defined.{serve-Serves, new_registry-Serves}
use metrics.Scalar
use metrics.Scalar.{HashKey, counter}
use metrics.Scalar.Serves
use metrics.Scalar.Serves.{perform-Serves}
use metrics.State.{snapshot}
use metrics.Slot.{default}
use metrics.Prometheus.Sample.{Memory}
use metrics.Prometheus.Reader.{PrometheusReader, read_all}
use metrics.Prometheus.Reader.Text.{exposition}
use metrics.Process.{Process, record_rpc_state, from_registry, len}
use metrics.Process.Scrape.{Populated, process_sources, scrape-exposition}

abbrev hash : Key → ℕ
hash k = 5

abbrev scalar_hash : HashKey → ℕ
scalar_hash k = 70

abbrev address : ItemPtr → ℕ
address p = p.region

abbrev cache : Request
cache = named (codes "cache") (redis req)

abbrev hits : Serves.Request
hits = Serves.named (redis req) counter (codes "hits")

abbrev timed : Defined.Contents
timed = Defined.requested hash cache (λ i. [])

abbrev counted : Serves.Contents
counted = Serves.requested scalar_hash hits (λ i. [])

populated : (process : Process) × Populated hash process timed counted
unfolding validate record_rpc_state
populated =
    let (timings, e, serves, kept, fresh) =
      serve-Serves hash cache new_registry (λ i. []) (new_registry-Serves hash) in
    let (scalars, e', serves', words) =
      perform-Serves scalar_hash hits Scalar.new_registry (λ i. []) refl
        Serves.new_registry-Serves in
    (
      record_rpc_state (λ k. k) (λ v. v) (codes "pool") (codes "live") (codes "3")
          (record { timings = timings; scalars = scalars; states = [] }),
      record { timings = serves; scalars = serves' },
    )

abbrev memory : ℕ → ℕ → Memory
memory family i = record { slot = λ item. default; scalar = λ item. 0 }

abbrev finite_text : Bytes → Option Bytes
finite_text bytes = some bytes

scrape-exposition_example :
    (reader : PrometheusReader) × (behind : PrometheusReader) × (from_registry address populated.0
      ≡ ok reader)
    × (read_all memory finite_text (10 ∷ 4_096 ∷ []) reader
        ≡ some (
          take 4_106 (
              exposition memory finite_text
                (process_sources hash address populated.0 timed counted populated.1)
                (snapshot populated.0.states)),
          behind,
        ))
    × (len populated.0 ≡ ok (length (all_of counted 0 64) + length (all_of timed 0 64)))
scrape-exposition_example =
    scrape-exposition hash address populated.0 timed counted populated.1 memory finite_text
      (10 ∷ 4_096 ∷ [])
