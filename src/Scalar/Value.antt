-- ===== src/Scalar/Value.antt =====
-- The values of counters and gauges: `CounterMetric` and `GaugeMetric` of src/scalar.rs, on the word
-- that they share with all handles of one identity.
use metrics.Common.{
  All, ℕ, ◌+◌, ◌-◌, ◌%◌, ◌^◌, ◌≤◌, ◌<◌, ◌≡◌, refl, List, [], ◌∷◌, arith, ltb, if◌then◌else◌,
}
use metrics.Common.Int.{ℤ, pos, negsuc, pos_part, neg_part, ◌+ℤ◌, +ℤ_parts}
use metrics.Slot.{fetch_add}

-- `value as u64`, for an `i64`
unfoldable pub to_u64 : ℤ → ℕ
to_u64 (pos n) = n
to_u64 (negsuc n) = 2 ^ 64 - 1 - n

-- `value as i64`, for a `u64`
unfoldable pub to_i64 : ℕ → ℤ
to_i64 n = if ltb n (2 ^ 63) then pos n else negsuc (2 ^ 64 - 1 - n)

-- The integers that an `i64` holds.
abbrev pub IsI64 : ℤ → Type 0
IsI64 z = (pos_part z < 2 ^ 63) × (neg_part z ≤ 2 ^ 63)

-- `CounterMetric::add`, `inc` and `get`
unfoldable pub counter_add : ℕ → ℕ → ℕ
counter_add value word = fetch_add word value

unfoldable pub counter_inc : ℕ → ℕ
unfolding counter_add
counter_inc word = counter_add 1 word

unfoldable pub counter_get : ℕ → ℕ
counter_get word = word

-- `GaugeMetric::add`, `inc`, `dec`, `set` and `get`
unfoldable pub gauge_add : ℤ → ℕ → ℕ
unfolding to_u64
gauge_add value word = fetch_add word (to_u64 value)

unfoldable pub gauge_inc : ℕ → ℕ
unfolding gauge_add
gauge_inc word = gauge_add (pos 1) word

unfoldable pub gauge_dec : ℕ → ℕ
unfolding gauge_add
gauge_dec word = gauge_add (negsuc 0) word

unfoldable pub gauge_set : ℤ → ℕ → ℕ
unfolding to_u64
gauge_set value word = to_u64 value

unfoldable pub gauge_get : ℕ → ℤ
unfolding to_i64
gauge_get word = to_i64 word

-- A gauge reads what was set, for every `i64`.
pub gauge_get-set : (z : ℤ) (word : ℕ) → IsI64 z → gauge_get (gauge_set z word) ≡ z
unfolding gauge_get gauge_set
gauge_get-set z word h = ground arith

-- Updates of a gauge, by a positive or negative amount or to a given value.
pub data Update : Type 0 where
  add : ℤ → Update
  assign : ℤ → Update

unfoldable pub update_word : Update → ℕ → ℕ
update_word (add z) word = gauge_add z word
update_word (assign z) word = gauge_set z word

unfoldable pub update_all : List Update → ℕ → ℕ
update_all [] word = word
update_all (u ∷ us) word = update_all us (update_word u word)

-- The integer that the updates make of an integer, with no bound.
unfoldable pub meaning : List Update → ℤ → ℤ
meaning [] z = z
meaning (add y ∷ us) z = meaning us (z +ℤ y)
meaning (assign y ∷ us) z = meaning us y

abbrev pub UpdateFits : Update → Type 0
UpdateFits (add z) = IsI64 z
UpdateFits (assign z) = IsI64 z

-- The word stands for the integer, modulo 2 ^ 64.
abbrev Stands : ℕ → ℤ → Type 0
Stands word z = (word < 2 ^ 64) × ((word + neg_part z) % 2 ^ 64 ≡ pos_part z % 2 ^ 64)

Stands-update :
    (u : Update) (word : ℕ) (z : ℤ)
    → UpdateFits u
    → Stands word z
    → Stands (update_word u word) (meaning (u ∷ []) z)
unfolding update_word meaning gauge_add gauge_set
Stands-update (add (pos n)) word z fits h = omega (arith, +ℤ_parts z (pos n))
Stands-update (add (negsuc n)) word z fits h = omega (arith, +ℤ_parts z (negsuc n))
Stands-update (assign (pos n)) word z fits h = omega arith
Stands-update (assign (negsuc n)) word z fits h = omega arith

meaning-cons :
    (u : Update) (us : List Update) (z : ℤ) → meaning (u ∷ us) z ≡ meaning us (meaning (u ∷ []) z)
unfolding meaning
meaning-cons (add y) us z = refl
meaning-cons (assign y) us z = refl

Stands-update_all :
    (us : List Update) (word : ℕ) (z : ℤ)
    → All UpdateFits us
    → Stands word z
    → Stands (update_all us word) (meaning us z)
unfolding update_all
Stands-update_all [] word z fits h = unfold meaning in h
Stands-update_all (u ∷ us) word z (fits, rest) h = rw (meaning-cons u us z) (
    Stands-update_all us (update_word u word) (meaning (u ∷ []) z) rest
      (Stands-update u word z fits h))

Stands-get : (word : ℕ) (z : ℤ) → IsI64 z → Stands word z → gauge_get word ≡ z
unfolding gauge_get
Stands-get word (pos n) fits h = ground arith
Stands-get word (negsuc n) fits h = ground arith

-- A gauge that starts at zero reads the exact result of its updates, of either sign and in any number,
-- whenever that result is an `i64`: what wraps around on the way does not matter.
pub gauge_get-update_all :
    (us : List Update)
    → All UpdateFits us
    → IsI64 (meaning us (pos 0))
    → gauge_get (update_all us 0) ≡ meaning us (pos 0)
gauge_get-update_all us fits bound =
    Stands-get (update_all us 0) (meaning us (pos 0)) bound
      (Stands-update_all us 0 (pos 0) fits (omega arith))
