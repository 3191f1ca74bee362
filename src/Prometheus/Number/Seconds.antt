-- ===== src/Prometheus/Number/Seconds.antt =====
-- The duration samples: what is written denotes the rounded sum exactly.
use metrics.Common.{
  ℕ, ◌+◌, ◌*◌, ◌/◌, ◌%◌, ◌^◌, ◌≤◌, ◌<◌, ◌≡◌, refl, [], ◌∷◌, ◌++◌, append_assoc, Option, none, some,
  arith, Bytes, ltb, ◌==◌, if◌then◌else◌, length, Bool-cases, inl, inr,
}
use metrics.Slot.{u64_max}
use metrics.Prometheus.Number.{digits, decimal, two_digits, hundredths, seconds_text}
use metrics.Prometheus.Number.RoundTrip.{
  read_digits, StopsDigits, read_digits-decimal, read_digits_zero,
}

abbrev read_fraction : ℕ × Bytes → Option (ℕ × Bytes)
read_fraction (whole, []) = none
read_fraction (whole, c ∷ input) =
    if c == b'.'
    then some (whole * 100 + (read_digits 0 input).0, (read_digits 0 input).1)
    else none

-- Reads a number with two decimal places, as a number of hundredths.
unfoldable pub read_seconds : Bytes → Option (ℕ × Bytes)
read_seconds input = read_fraction (read_digits 0 input)

two_digits-read :
    (n : ℕ) (rest : Bytes)
    → n < 100
    → StopsDigits rest
    → read_digits 0 (two_digits n ++ rest) ≡ (n, rest)
unfolding two_digits
two_digits-read n rest h stops = elim (Bool-cases (ltb n 10)) [
  | inl small ↦
      rw (small, read_digits_zero (decimal n ++ rest))
        (read_digits-decimal n rest (omega arith) stops)
  | inr large ↦ rw large (read_digits-decimal n rest (omega arith) stops)
]

length-two_digits : (n : ℕ) → n < 100 → length (two_digits n) ≡ 2
unfolding two_digits decimal digits
length-two_digits n h = ground arith

-- For a sum that is a `u64`, the rounded result is within half a hundredth of the sum, and half a
-- hundredth is rounded up: nothing overflows on the way.
pub hundredths-nearest :
    (value : ℕ)
    → value ≤ u64_max
    → (10_000 * hundredths value ≤ value + 5_000) × (value < 10_000 * hundredths value + 5_000)
unfolding hundredths
hundredths-nearest value h = ground arith

hundredths-le : (value : ℕ) → hundredths value < 2 ^ 64
unfolding hundredths
hundredths-le value = omega arith

-- The text of a duration sum is read back as the sum's hundredths of a second, whatever follows that
-- is no digit, and exactly two digits stand behind its point.
pub read_seconds-seconds_text :
    (value : ℕ) (rest : Bytes)
    → StopsDigits rest
    → (read_seconds (seconds_text value ++ rest) ≡ some (hundredths value, rest))
      × (length (two_digits (hundredths value % 100)) ≡ 2)
unfolding read_seconds seconds_text
read_seconds-seconds_text value rest stops =
    let h = hundredths value in
    let small : h / 100 < 10 ^ 20 = omega (arith, hundredths-le value) in
    let whole = read_digits-decimal (h / 100) (b'.' ∷ (two_digits (h % 100) ++ rest)) small refl in
    let part = two_digits-read (h % 100) rest (omega arith) stops in
    let sum : h / 100 * 100 + h % 100 ≡ h = omega arith in
    (
      rw (append_assoc (decimal (h / 100)) (b'.' ∷ two_digits (h % 100)) rest, whole, part, sum),
      length-two_digits (h % 100) (omega arith),
    )
