-- ===== src/Lib.antt =====
-- Models and theorems for the metrics crate: counters for timing, counts, gauges and connections that
-- any thread may update, a registry that hands out handles to them, and their Prometheus exposition.
--
-- The parts of the program, and the files that model them:
--   * src/metric.rs. Kind: `MetricType`, `MetricSpec` and their functions. Slot: `Slot`, `Metric::record`,
--     `Metric::increment`, `snapshot`, `Counter::read` on the value of a slot. Slot/Atomic, Slot/Totals,
--     Slot/Interleave, Slot/Invariant and Slot/Snapshot: the same calls as lists of `fetch_add`, and
--     threads whose atomic calls interleave in any order.
--   * src/resource.rs in Resource, src/plan.rs in Plan (its policies and formats in Kind).
--   * src/registry.rs. Storage: `MetaChunk`, `ShardIndex` and the allocation and visit of a shard, which
--     the scalar shards of src/scalar.rs repeat. Storage/Writer: the same allocation as steps, with the
--     stores that publish apart; Storage/Visitor: the same visit as steps, and both interleaved. Keyed:
--     the interface of a shard's maps, and registration over it. Registry: the maps of `ShardState` and
--     the three ways to register. Global: the 64 shards, records and snapshots through handles, visits
--     and the length.
--   * src/lib.rs. Global (`visit`), Global/Producer (the constructors of `Metric`), and Process (the
--     `OnceLock`, `record_rpc_state`, `len`, and the whole registry that a scrape reads).
--   * src/scalar.rs. Scalar: `ScalarRegistry`. Scalar/Serves and Scalar/Identity: all of its shards.
--     Scalar/Handles: the constructors of the three handles, and Scalar/Words: the words behind them.
--     Scalar/Value: `CounterMetric` and `GaugeMetric`. Scalar/Connection: `ConnMetric` and
--     `ConnectionGuard`. Scalar/Programs: client programs over counters and gauges.
--   * src/state.rs in State.
--   * src/prometheus.rs. Prometheus/Label, Prometheus/Number and
--     Prometheus/Labels: `label`, the numbers, and the labels of a sample.
--     Prometheus/Source: the sources of `from_registry`, and Prometheus/Source/Listed the relation that
--     says which they are to be. Prometheus/Sample and Prometheus/Reader: `next_sample` and `Read::read`;
--     Prometheus/Reader/Text describes the whole text, with no reference to `skip`, and
--     Prometheus/Reader/Printed reads the numbers back. Prometheus/Reader/Poll: `AsyncRead::poll_read`.
--   * Compare: the derived orders, `sort_unstable` and `dedup`; Common: shared names and lemmas.
--
-- How they interact: a request names an identity; the registry hashes it to a shard, whose maps give an
-- item that exists, or which appends a slot and its metadata to its storage. A handle points to the slot.
-- The reader visits the metadata of all shards once, then loads the slots sample by sample.
--
-- State is passed explicitly: what a mutex guards is a value that an operation takes and returns. An
-- `Outcome` is a result, a panic (`assert!`, an index out of bounds), or undefined behaviour (a pointer
-- to no slot, an entry that was not written). A pointer is the number of its shard, its box and its place
-- in the box. Words are natural numbers with `% 2 ^ 64` written out; text is a list of bytes.
--
-- A visit of a shard interleaves with its registrations as a relation on the two threads' states; a
-- registration is four steps, each up to and with one store that another thread can see, and a visit's
-- steps are its loads. The shard's mutex admits one writer, so there is one.
--
-- Parameters: the keyed hashers are functions of the identity; the address of a pointer, for the order
-- of the sources, is a function that tells pointers apart; the memory that a reader's load sees is a
-- function of the family and the source, so counting goes on during a scrape; and `parse::<f64>` with
-- the printing of the finite result is a function from text to optional text. The `ReadBuf` of tokio
-- is an interface of `remaining` and `put_slice`, whose law is that what fits is appended.
--
-- Bounds: `digits` writes up to twenty digits, as many as a `u64` has; the rounds of a read are bounded
-- by the bytes asked for, since every round fills at least one; the families left bound the family loop.
--
-- Not modelled: mutex poisoning, the reordering of relaxed loads, tests, benchmarks and build scripts.
pub mod Common
pub mod Kind
pub mod Slot
pub mod Resource
pub mod Plan
pub mod Storage
pub mod Keyed
pub mod Registry
pub mod Global
pub mod Scalar
pub mod Compare
pub mod State
pub mod Prometheus
pub mod Process
