-- ===== src/Prometheus/Reader/Printed.antt =====
-- The number on a sample's line, as `next_sample` of src/prometheus.rs writes it.
use metrics.Common.{
  ℕ, ◌≤◌, ◌≡◌, ◌∙◌, ap, subst, sym, false, leb, Bytes, List, ◌++◌, Option, none, some, arith, inl,
  inr, Bool-cases, ◌&&◌, ltb, if◌then◌else◌, drop, min,
}
use metrics.Common.Int.{ℤ, pos}
use metrics.Slot.{u64_max}
use metrics.Scalar.Value.{IsI64}
use metrics.Prometheus.Number.{hundredths}
use metrics.Prometheus.Number.RoundTrip.{
  StopsDigits, read_digits, read_signed, read_digits-decimal, read_signed-signed_decimal,
}
use metrics.Prometheus.Number.Seconds.{read_seconds, read_seconds-seconds_text}
use metrics.Prometheus.Sample.{Memory, Group, family_row, value_text}
use metrics.Prometheus.Source.{Source}
use metrics.Prometheus.Reader.Text.{group_at}
use metrics.Prometheus.Reader.Values.{run_sum, run_gauge, group-sums, group-run_gauge}

-- A sample's number: a count, a duration in hundredths of a second, or a gauge.
pub data Number : Type 0 where
  count : ℕ → Number
  hundredths_of_second : ℕ → Number
  signed : ℤ → Number

-- Three families are of counts, three of durations, two of counts, and the last ones of gauges.
unfoldable pub number : ℕ → ℕ → ℤ → Number
number family value gauge =
    if leb 8 family
    then signed gauge
    else if leb 3 family && ltb family 6
    then hundredths_of_second (hundredths value)
    else count value

abbrev timed : Option (ℕ × Bytes) → Option (Number × Bytes)
timed none = none
timed (some (n, rest)) = some (hundredths_of_second n, rest)

-- Reads the number of a sample of a family.
unfoldable pub read_number : ℕ → Bytes → Option (Number × Bytes)
read_number family text =
    if leb 8 family
    then some (signed (read_signed text).0, (read_signed text).1)
    else if leb 3 family && ltb family 6
    then timed (read_seconds text)
    else some (count (read_digits 0 text).0, (read_digits 0 text).1)

family_row_seconds :
    (family : ℕ) → leb 8 family ≡ false → (family_row family).2 ≡ (leb 3 family && ltb family 6)
family_row_seconds family h = ground arith

value_text-read_number :
    (family : ℕ) (g : Group) (rest : Bytes)
    → g.value ≤ u64_max
    → IsI64 g.gauge
    → StopsDigits rest
    → read_number family (value_text family g ++ rest) ≡ some (number family g.value g.gauge, rest)
unfolding value_text read_number number
value_text-read_number family g rest h bound stops = elim (Bool-cases (leb 8 family)) [
  | inl e ↦ rw (e, read_signed-signed_decimal g.gauge rest (omega arith) stops)
  | inr e ↦ elim (Bool-cases (leb 3 family && ltb family 6)) [
    | inl t ↦
        rw (e, family_row_seconds family e, t, (read_seconds-seconds_text g.value rest stops).0)
    | inr f ↦
        rw (e, family_row_seconds family e, f, read_digits-decimal g.value rest (omega arith) stops)
  ]
]

-- On the line of the group that begins at an index stands the number that its sources add up to: in a
-- family of counts the sum of the counters, or the largest `u64`; in one of durations that sum in
-- hundredths of a second; and in one of gauges the sum of the gauges, each sum taken to the nearest
-- `i64`. A reader takes it back, whatever follows that is no digit.
pub value_text-group_at :
    (memory : ℕ → ℕ → Memory) (finite_text : Bytes → Option Bytes) (sources : List Source)
    (family i : ℕ) (first : Source) (rest : Bytes)
    → StopsDigits rest
    → read_number family
        (value_text family (group_at memory finite_text sources family i first) ++ rest)
      ≡ some (
        number family
            (min (run_sum memory finite_text family first i (drop i sources)) u64_max)
            (run_gauge memory finite_text family first i (pos 0) (drop i sources)),
        rest,
      )
value_text-group_at memory finite_text sources family i first rest stops =
    let start : Group = record { value = 0; gauge = pos 0; next = i } in
    let g = group_at memory finite_text sources family i first in
    let total = run_sum memory finite_text family first i (drop i sources) in
    let sums =
      group-sums memory finite_text family first start (drop i sources) (omega arith)
        (omega arith, omega arith) in
    let (gauges, bound) =
      group-run_gauge memory finite_text family first start (drop i sources)
        (omega arith, omega arith) in
    let value : g.value ≡ min total u64_max = omega (arith, sums.0) in
    value_text-read_number family g rest (omega (arith, value)) (subst IsI64 (sym gauges) bound)
      stops
    ∙ ap (λ (v : ℕ). some (number family v g.gauge, rest)) value
    ∙ ap (λ (z : ℤ). some (number family (min total u64_max) z, rest)) gauges
