-- ===== src/Process/Scrape.antt =====
-- A scrape of the whole process, from the registrations to the text.
use metrics.Common.{ℕ, ◌+◌, ◌≡◌, List, Bytes, Option, some, length, take, sum_of}
use metrics.Common.Panic.{ok}
use metrics.Storage.{ItemPtr}
use metrics.Keyed.Visits.{all_of}
use metrics.Registry.Keys.{Key}
use metrics.Global
use metrics.Global.Defined
use metrics.Global.Visits.{for_each_meta-Serves}
use metrics.Scalar.Serves
use metrics.Scalar.Visits.{for_each-Serves}
use metrics.State.{snapshot}
use metrics.Prometheus.Sample.{Memory}
use metrics.Prometheus.Source.{Source, sources}
use metrics.Prometheus.Reader.{PrometheusReader, new_reader, read_all}
use metrics.Prometheus.Reader.Text.{exposition}
use metrics.Prometheus.Reader.Reads.{read_all-exposition}
use metrics.Process.{Process, from_registry, len}

-- What the process has registered: its timing metrics, and its counters and gauges.
pub record Populated (hash : Key → ℕ) (process : Process) (c : Defined.Contents)
    (d : Serves.Contents) : Type 0 where
  pub timings : Defined.Serves hash process.timings c
  pub scalars : Serves.Serves process.scalars d

module _ (hash : Key → ℕ) (address : ItemPtr → ℕ) (process : Process) (c : Defined.Contents)
    (d : Serves.Contents) (populated : Populated hash process c d) where
  abbrev pub process_sources : List Source
  process_sources = sources address (all_of c 0 64) (all_of d 0 64)

  -- On a process whose registries satisfy their invariants, a scrape begins without a panic, over the
  -- sources of all that was registered and the states as they are. Then reads into buffers of any sizes
  -- all end and give the front of the text of these sources and states; and the length of the registry
  -- is the number of the timing metrics, counters and gauges that were registered.
  pub scrape-exposition :
      (memory : ℕ → ℕ → Memory) (finite_text : Bytes → Option Bytes) (wants : List ℕ)
      → (reader : PrometheusReader) × (behind : PrometheusReader) × (from_registry address process
          ≡ ok reader)
        × (read_all memory finite_text wants reader
            ≡ some (
              take
                  (sum_of (λ n. n) wants)
                  (exposition memory finite_text process_sources (snapshot process.states)),
              behind,
            ))
        × (len process ≡ ok (length (all_of d 0 64) + length (all_of c 0 64)))
  unfolding from_registry len Global.len
  scrape-exposition memory finite_text wants =
      let (shown, distinct, counted) =
        for_each_meta-Serves hash process.timings c populated.timings in
      let (shown', counted') = for_each-Serves process.scalars d populated.scalars in
      let (behind, e) =
        read_all-exposition memory finite_text process_sources (snapshot process.states) wants in
      (
        new_reader process_sources (snapshot process.states),
        behind,
        rw (shown, shown'),
        e,
        rw (counted', counted),
      )
