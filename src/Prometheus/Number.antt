-- ===== src/Prometheus/Number.antt =====
-- Numbers in the text exposition: the rounding of durations and the decimal forms that `next_sample`
-- of src/prometheus.rs writes.
pub mod RoundTrip
pub mod Seconds
use metrics.Common.{
  ℕ, zero, suc, ◌+◌, ◌*◌, ◌/◌, ◌%◌, ◌^◌, Bool, true, false, List, [], ◌∷◌, ◌++◌, Bytes, ltb, leb,
  if◌then◌else◌,
}
use metrics.Common.Int.{ℤ, pos, negsuc}

-- The digits of a number that has at most `width` of them, without leading zeros.
unfoldable pub digits : ℕ → ℕ → Bytes
digits zero n = []
digits (suc width) n =
    let front = digits width (n / 10) ++ (b'0' + n % 10) ∷ [] in
    if ltb n 10 then (b'0' + n) ∷ [] else front

-- `{value}` for a `u64`, which has at most twenty digits
unfoldable pub decimal : ℕ → Bytes
unfolding digits
decimal n = digits 20 n

-- `{gauge}` for an `i64`
unfoldable pub signed_decimal : ℤ → Bytes
unfolding decimal
signed_decimal (pos n) = decimal n
signed_decimal (negsuc n) = b'-' ∷ decimal (suc n)

-- `{:02}`
unfoldable pub two_digits : ℕ → Bytes
two_digits n = if ltb n 10 then b'0' ∷ decimal n else decimal n

abbrev pub from_bool : Bool → ℕ
from_bool true = 1
from_bool false = 0

-- `value / 10_000 + u64::from(value % 10_000 >= 5_000)`, in `u64`
unfoldable pub hundredths : ℕ → ℕ
hundredths value = (value / 10_000 + from_bool (leb 5_000 (value % 10_000))) % 2 ^ 64

-- `"{}.{:02}"` on the two parts of the hundredths
unfoldable pub seconds_text : ℕ → Bytes
unfolding hundredths two_digits
seconds_text value = decimal (hundredths value / 100) ++ b'.' ∷ two_digits (hundredths value % 100)
