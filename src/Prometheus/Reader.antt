-- ===== src/Prometheus/Reader.antt =====
-- `PrometheusReader` of src/prometheus.rs: the next sample, and the reads that cut the text up.
--
-- What a reader loads from the registry is a parameter: the memory as it is when the source at an
-- index is loaded for a family. Each is loaded at most once in a scrape, so any counting that goes on
-- at the same time is covered. The parsing and printing of `f64` is a parameter as well.
pub mod Text
pub mod Skip
pub mod Lines
pub mod States
pub mod Step
pub mod Reads
pub mod Poll
pub mod Ends
pub mod Values
pub mod Printed
pub mod Series
pub mod Tests
use metrics.Common.{
  ℕ, zero, suc, ◌+◌, ◌-◌, ◌/◌, ◌%◌, ◌^◌, min, Bool, true, false, ltb, leb, ◌==◌, if◌then◌else◌, ite,
  Bytes, codes, List, [], ◌∷◌, ◌++◌, Option, none, some, ℕ_discrete, length, get_elem?, take, drop,
}
use metrics.Common.Int.{ℤ, pos, negsuc, ◌+ℤ◌}
use metrics.Resource.{MetricAccess, access_label, ConnectionRole, role_label, ResourceLabels}
use metrics.Plan.{ProfileOutput, ProfileOutput-discrete}
use metrics.Slot.{Slot, Counter, total, read, u64_max}
use metrics.Storage.{ItemPtr}
use metrics.Scalar.Value.{to_i64}
use metrics.State
use metrics.State.{StateSnapshot}
use metrics.Prometheus.Label.{label}
use metrics.Prometheus.Number.{decimal, signed_decimal, seconds_text}
use metrics.Prometheus.Sample.{
  Group, Memory, SourceKind-discrete, add_item, family_row, same_series, sample_text,
  saturating_add, saturating_add_i64, state_header, state_labels, state_text, type_line, value_text,
  write_labels,
}
use metrics.Prometheus.Source.{
  families, SourceKind, supports, SourceItem, timing, counter, gauge, Source,
}

pub record PrometheusReader : Type 0 where
  pub sources : List Source
  pub states : List StateSnapshot
  pub family : ℕ
  pub source : ℕ
  pub header : Bool
  pub state : ℕ
  pub state_field : ℕ
  pub buffer : Bytes
  pub offset : ℕ

-- The end of `from_registry`
unfoldable pub new_reader : List Source → List StateSnapshot → PrometheusReader
new_reader sources states = record {
  sources = sources;
  states = states;
  family = 0;
  source = 0;
  header = false;
  state = 0;
  state_field = 0;
  buffer = [];
  offset = 0;
}

-- `while … !self.sources[self.source].kind.supports(self.family) { self.source += 1; }`, over the
-- sources from the index on
unfoldable pub skip : ℕ → ℕ → List Source → ℕ
skip family i [] = i
skip family i (s ∷ rest) =
    let next = skip family (i + 1) rest in if supports s.kind family then i else next

-- The bytes that a round copies, and the reader behind them
abbrev pub chunk : ℕ → PrometheusReader → Bytes
chunk want r = take (min want (length r.buffer - r.offset)) (drop r.offset r.buffer)

abbrev pub advance : ℕ → PrometheusReader → PrometheusReader
advance want r = record r { offset = r.offset + min want (length r.buffer - r.offset) }

abbrev pub prefixed : Bytes → Option (Bytes × PrometheusReader) → Option (Bytes × PrometheusReader)
prefixed front none = none
prefixed front (some (rest, r)) = some (front ++ rest, r)

abbrev pub and_then :
    (PrometheusReader → Option (Bytes × PrometheusReader))
    → Option (Bytes × PrometheusReader)
    → Option (Bytes × PrometheusReader)
and_then more none = none
and_then more (some (bytes, r)) = prefixed bytes (more r)

module _ (memory : ℕ → ℕ → Memory) (finite_text : Bytes → Option Bytes) where
  -- The inner loop, over the sources from the index `g.next` on
  unfoldable pub group : ℕ → Source → Group → List Source → Group
  unfolding add_item same_series
  group family first g [] = g
  group family first g (s ∷ rest) =
      let added = add_item (memory family g.next) (family_row family).1 s.item g in
      let more = group family first added rest in if same_series first s then more else g

  field_sample : StateSnapshot → Bytes → ℕ → Option (Bytes × ℕ) → Option Bytes → Option (Bytes × ℕ)
  unfolding state_text
  field_sample state field i later none = later
  field_sample state field i later (some value) = some (state_text state field value, i + 1)

  -- The rest of a state's fields: the next sample, with the index behind its field.
  unfoldable pub next_field : StateSnapshot → ℕ → List (Bytes × Bytes) → Option (Bytes × ℕ)
  unfolding field_sample
  next_field state i [] = none
  next_field state i ((field, value) ∷ rest) =
      field_sample state field i (next_field state (i + 1) rest) (finite_text value)

  state_sample :
      PrometheusReader → Bool × PrometheusReader → Option (Bytes × ℕ) → Bool × PrometheusReader
  state_sample r later none = later
  state_sample r later (some (text, i)) = (true, record r { state_field = i; buffer = text })

  -- The loop over the states from the index `self.state` on
  unfoldable pub state_loop : List StateSnapshot → PrometheusReader → Bool × PrometheusReader
  unfolding next_field state_sample
  state_loop [] r = (false, r)
  state_loop (state ∷ rest) r =
      state_sample r (state_loop rest (record r { state = r.state + 1; state_field = 0 }))
        (next_field state r.state_field (drop r.state_field state.fields))

  -- `next_sample` behind the families
  unfoldable pub state_part : PrometheusReader → Bool × PrometheusReader
  unfolding state_loop
  state_part r =
      let later = state_loop (drop r.state r.states) r in
      if r.header then later else (true, record r { header = true; buffer = state_header })

  -- The sample of the group that begins at the index `i`, if a source stands there.
  unfoldable pub sample_at :
      ℕ → PrometheusReader → Bool × PrometheusReader → Option Source → Bool × PrometheusReader
  unfolding group sample_text
  sample_at i r later none = later
  sample_at i r later (some first) =
      let g =
        group r.family first (record { value = 0; gauge = pos 0; next = i }) (drop i r.sources) in
      (true, record r { source = g.next; buffer = sample_text r.family first g })

  -- `while self.family < FAMILIES.len()`, and what follows; the number is of the families left.
  unfoldable pub family_loop : ℕ → PrometheusReader → Bool × PrometheusReader
  unfolding state_part sample_at skip type_line
  family_loop zero r = state_part r
  family_loop (suc left) r =
      let i = skip r.family r.source (drop r.source r.sources) in
      let later =
        family_loop left (record r { family = r.family + 1; source = 0; header = false }) in
      let found = sample_at i r later (get_elem? r.sources i) in
      if r.header then found else (true, record r { header = true; buffer = type_line r.family })

  -- `next_sample`
  unfoldable pub next_sample : PrometheusReader → Bool × PrometheusReader
  unfolding family_loop
  next_sample r = family_loop (10 - r.family) (record r { buffer = []; offset = 0 })

  -- The test at the head of a round: whether there is something to copy.
  unfoldable pub refill : PrometheusReader → Bool × PrometheusReader
  unfolding next_sample
  refill r = if r.offset == length r.buffer then next_sample r else (true, r)

  -- The loop of `Read::read` with `want` bytes of `buf` still to fill: what it puts there, or nothing
  -- if the fuel, a number of rounds, runs out.
  unfoldable pub read_loop : ℕ → ℕ → PrometheusReader → Option (Bytes × PrometheusReader)
  unfolding refill
  read_loop fuel zero r = some ([], r)
  read_loop zero (suc want) r = none
  read_loop (suc fuel) (suc want) r =
      let (more, r') = refill r in
      let n = min (suc want) (length r'.buffer - r'.offset) in
      let rest = read_loop fuel (suc want - n) (advance (suc want) r') in
      if more then prefixed (chunk (suc want) r') rest else some ([], r')

  -- `Read::read` into a buffer of `want` bytes
  unfoldable pub read_bytes : ℕ → PrometheusReader → Option (Bytes × PrometheusReader)
  unfolding read_loop
  read_bytes want r = read_loop want want r

  -- One read after another, into buffers of these sizes: all that was read.
  unfoldable pub read_all : List ℕ → PrometheusReader → Option (Bytes × PrometheusReader)
  unfolding read_bytes
  read_all [] r = some ([], r)
  read_all (want ∷ wants) r = and_then (read_all wants) (read_bytes want r)
