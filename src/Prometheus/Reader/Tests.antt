-- ===== src/Prometheus/Reader/Tests.antt =====
-- A scrape of two metrics and a state, in small reads.
use metrics.Storage.{ItemPtr}
use metrics.Compare.{cmp_on, cmp_pair, cmp_list, cmp_option}
use metrics.Compare.Sort.{Ascending}
use metrics.Prometheus.Source.{cmp_source, api_summary}
use metrics.Prometheus.Sample.{same_series}
use metrics.Prometheus.Reader.Text.{group_at}
use metrics.Prometheus.Reader.Series.{group_at-series}
use metrics.Common.{
  ◌↔◌, ◌<◌, refl, true, ℕ, ◌-◌, ◌^◌, ◌+◌, ◌≡◌, List, [], ◌∷◌, Bytes, Option, some, none, min, take,
  arith, codes, Bool, false, leb, length, ◌++◌, All,
}
use metrics.Common.Int.{pos}
use metrics.Slot.{Slot, default, u64_max}
use metrics.State.{StateSnapshot, rpc}
use metrics.Prometheus.Source.{Source, full, timing}
use metrics.Prometheus.Reader.{
  PrometheusReader, new_reader, next_sample, read_all, read_bytes, group,
}
use metrics.Prometheus.Sample.{Memory, Group, value_text, SourceKind-discrete}
use metrics.Prometheus.Reader.Text.{text, exposition}
use metrics.Prometheus.Reader.Step.{next_sample-Steps}
use metrics.Prometheus.Reader.States.{Steps}
use metrics.Common.Panic.{Outcome, ok, panic}
use metrics.Prometheus.Reader.Poll.{ReadBuf, IsLawful, poll_read, poll_read-read_bytes}
use metrics.Prometheus.Reader.Ends.{joined, IsSome, lines, lines-text}
use metrics.Prometheus.Reader.Reads.{read_all-exposition}
use metrics.Prometheus.Reader.Values.{
  run_sum, run_length, run_gauge, group-sums, nearest_i64, gauge_load,
}
use metrics.Prometheus.Reader.Printed.{number, read_number, value_text-group_at}
use metrics.Plan.{ProfileOutput-discrete}
use metrics.Common.Int.{◌+ℤ◌}
use metrics.Scalar.Value.{gauge_get, to_i64}
use metrics.Prometheus.Source.{SourceKind, SourceItem}

abbrev slot : Slot
slot = record default { count = 2 ^ 64 - 2; elapsed_us = 1_005_000 }

abbrev memory : ℕ → ℕ → Memory
memory family source = record { slot = λ item. slot; scalar = λ item. 7 }

-- Every value is a finite number as it stands.
abbrev finite_text : Bytes → Option Bytes
finite_text value = some value

-- Two slots of one series.
abbrev first : Source
first = record {
  output = record { metric_type = codes "REDIS"; name = codes "cache"; resource = none };
  kind = full;
  item = timing (record { region = 0; chunk = 0; offset = 0 });
}

abbrev second : Source
second = record first { item = timing (record { region = 1; chunk = 0; offset = 0 }) }

abbrev two : List Source
two = first ∷ second ∷ []

abbrev states : List StateSnapshot
states =
    record { state_type = rpc; name = codes "pool"; fields = (codes "live", codes "3") ∷ [] } ∷ []

next_sample-Steps_example :
    Steps memory finite_text
      (text memory finite_text (new_reader two states))
      (next_sample memory finite_text (new_reader two states))
next_sample-Steps_example = next_sample-Steps memory finite_text (new_reader two states)

read_all-exposition_example :
    (r : PrometheusReader) × (read_all memory finite_text
        (1 ∷ 64 ∷ 0 ∷ 4_096 ∷ [])
        (new_reader two states)
      ≡ some (take 4_161 (exposition memory finite_text two states), r))
read_all-exposition_example =
    read_all-exposition memory finite_text two states (1 ∷ 64 ∷ 0 ∷ 4_096 ∷ [])

-- A buffer with room for so many bytes.
record Room : Type 0 where
  held : Bytes
  room : ℕ

abbrev put_if : Bool → Bytes → Room → Outcome Room
put_if true bytes b = ok (record { held = b.held ++ bytes; room = b.room - length bytes })
put_if false bytes b = panic

abbrev room_buf : ReadBuf Room
room_buf = record {
  remaining = λ b. b.room;
  put_slice = λ bytes b. put_if (leb (length bytes) b.room) bytes b;
  filled = λ b. b.held;
}

room_buf-IsLawful : IsLawful room_buf
room_buf-IsLawful = record {
  put_slice-fits = λ bytes b fits.
      let e : leb (length bytes) b.room ≡ true = ground arith in
      (record { held = b.held ++ bytes; room = b.room - length bytes }, rw e, refl, refl);
}

abbrev hundred : Room
hundred = record { held = codes "x"; room = 100 }

poll_read-read_bytes_example :
    (bytes : Bytes) × (b : Room) × (r : PrometheusReader) × (read_bytes memory finite_text 100
        (new_reader two states)
      ≡ some (bytes, r))
    × (poll_read room_buf memory finite_text hundred (new_reader two states) ≡ some (ok (b, r)))
    × (b.held ≡ codes "x" ++ bytes)
poll_read-read_bytes_example =
    poll_read-read_bytes room_buf memory finite_text room_buf-IsLawful hundred
      (new_reader two states) (unfold new_reader in omega arith)

lines-text_example :
    (ls : List Bytes) × (lines memory finite_text
        (length (text memory finite_text (new_reader two states)) + 1)
        (new_reader two states)
      ≡ some ls)
    × (joined ls ≡ text memory finite_text (new_reader two states))
    × All IsSome ls
lines-text_example = lines-text memory finite_text (new_reader two states)

abbrev start : Group
start = record { value = 0; gauge = pos 0; next = 0 }

-- The two counts add up to more than a `u64` holds.
group-sums_example :
    ((group memory finite_text 0 first start two).value
      ≡ min (0 + run_sum memory finite_text 0 first 0 two) u64_max)
    × ((group memory finite_text 0 first start two).gauge
        ≡ run_gauge memory finite_text 0 first 0 (pos 0) two)
    × ((group memory finite_text 0 first start two).next
        ≡ 0 + run_length memory finite_text first two)
group-sums_example =
    group-sums memory finite_text 0 first start two (omega arith) (omega arith, omega arith)

-- Two gauges of one name.
abbrev level : Source
level = record {
  output = record { metric_type = codes "POOL"; name = codes "size"; resource = none };
  kind = SourceKind.gauge;
  item = SourceItem.gauge (record { region = 0; chunk = 0; offset = 0 });
}

abbrev levels : List Source
levels =
    level
    ∷ record level { item = SourceItem.gauge (record { region = 1; chunk = 0; offset = 0 }) }
    ∷ []

value_text-group_at_example :
    read_number 9 (value_text 9 (group_at memory finite_text levels 9 0 level) ++ codes "\n")
    ≡ some (
      number 9
          (min (run_sum memory finite_text 9 level 0 levels) u64_max)
          (run_gauge memory finite_text 9 level 0 (pos 0) levels),
      codes "\n",
    )
value_text-group_at_example =
    value_text-group_at memory finite_text levels 9 0 level (codes "\n") refl

-- The two sevens add up.
levels_sum : run_gauge memory finite_text 9 level 0 (pos 0) levels ≡ pos 14
unfolding run_gauge same_series nearest_i64 gauge_load gauge_get to_i64 ◌+ℤ◌ ProfileOutput-discrete
    SourceKind-discrete
levels_sum = refl

abbrev address : ItemPtr → ℕ
address p = p.region

-- A source of another series behind the two.
abbrev third : Source
third = record second { kind = api_summary }

abbrev three : List Source
three = first ∷ second ∷ third ∷ []

three-Ascending : Ascending (cmp_source address) three
unfolding cmp_source cmp_on cmp_pair cmp_list cmp_option
three-Ascending = ((refl, (refl, tt)), ((refl, tt), (tt, tt)))

group_at-series_example :
    (same_series first third ≡ true) ↔ (0 + 2 < (group_at memory finite_text three 0 0 first).next)
group_at-series_example =
    group_at-series memory finite_text address three 0 0 2 first third three-Ascending refl refl
