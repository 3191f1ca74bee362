-- ===== src/Prometheus/Number/RoundTrip.antt =====
-- What is written is read back: a reader of decimal numbers, and the rounding of durations.
use native.Mathlib.Nat.{pow-suc, zero-add}
use metrics.Common.{
  ℕ, zero, suc, ◌+◌, ◌-◌, ◌*◌, ◌/◌, ◌%◌, ◌^◌, ◌<◌, ◌≡◌, ◌∙◌, ap, refl, Bool, true, false, ◌&&◌, [],
  ◌∷◌, ◌++◌, append_assoc, arith, Bytes, ltb, leb, ◌==◌, if◌then◌else◌, Bool-cases, inl, inr,
}
use metrics.Common.Int.{ℤ, pos, negsuc, pos_part, neg_part}
use metrics.Prometheus.Number.{digits, decimal, signed_decimal}

abbrev pub is_digit : ℕ → Bool
is_digit c = leb b'0' c && leb c b'9'

-- Reads digits as long as there are any: the number, and the input behind it.
unfoldable pub read_digits : ℕ → Bytes → ℕ × Bytes
read_digits n [] = (n, [])
read_digits n (c ∷ input) =
    let more = read_digits (n * 10 + (c - b'0')) input in
    if is_digit c then more else (n, c ∷ input)

-- The input does not begin with a digit.
abbrev pub StopsDigits : Bytes → Type 0
StopsDigits [] = Unit
StopsDigits (c ∷ _) = is_digit c ≡ false

read_digits_one :
    (n d : ℕ) (rest : Bytes)
    → d < 10
    → read_digits n ((b'0' + d) ∷ rest) ≡ read_digits (n * 10 + d) rest
unfolding read_digits
read_digits_one n d rest h =
    let e : b'0' + d - b'0' ≡ d = omega arith in
    let t : is_digit (b'0' + d) ≡ true = ground arith in rw (t, e)

read_digits_last :
    (n : ℕ) (rest : Bytes) → read_digits (n / 10) ((b'0' + n % 10) ∷ rest) ≡ read_digits n rest
read_digits_last n rest =
    read_digits_one (n / 10) (n % 10) rest (omega arith)
    ∙ ap (λ m. read_digits m rest) (omega arith)

read_digits-digits :
    (width n : ℕ) (rest : Bytes)
    → n < 10 ^ width
    → 0 < width
    → read_digits 0 (digits width n ++ rest) ≡ read_digits n rest
unfolding digits
read_digits-digits zero n rest h p = absurd (omega arith)
read_digits-digits (suc width) n rest h p = elim (Bool-cases (ltb n 10)) [
  | inl small ↦ rw (small, read_digits_one 0 n rest (ground arith)) (rw zero-add)
  | inr large ↦
      let bound : n / 10 < 10 ^ width = omega (arith, pow-suc 10 width) in
      rw
        (
          large,
          append_assoc (digits width (n / 10)) ((b'0' + n % 10) ∷ []) rest,
          read_digits-digits width (n / 10) ((b'0' + n % 10) ∷ rest) bound (deep width n h large),
        )
        (read_digits_last n rest)
]
  where
    deep : (width n : ℕ) → n < 10 ^ suc width → ltb n 10 ≡ false → 0 < width
    deep zero n h large = ground arith
    deep (suc width) n h large = omega arith

read_digits_stop : (n : ℕ) (rest : Bytes) → StopsDigits rest → read_digits n rest ≡ (n, rest)
unfolding read_digits
read_digits_stop n [] h = refl
read_digits_stop n (c ∷ rest) h = rw h

-- A leading zero changes nothing.
pub read_digits_zero : (input : Bytes) → read_digits 0 (b'0' ∷ input) ≡ read_digits 0 input
unfolding read_digits
read_digits_zero input = refl

-- Every number of at most twenty digits, so every `u64`, is read back from its decimal form, if what
-- follows does not begin with a digit.
pub read_digits-decimal :
    (n : ℕ) (rest : Bytes)
    → n < 10 ^ 20
    → StopsDigits rest
    → read_digits 0 (decimal n ++ rest) ≡ (n, rest)
unfolding decimal
read_digits-decimal n rest h stops =
    read_digits-digits 20 n rest h (omega arith) ∙ read_digits_stop n rest stops

-- Reads a sign and a number.
unfoldable pub read_signed : Bytes → ℤ × Bytes
read_signed [] = (pos 0, [])
read_signed (c ∷ input) =
    if c == b'-'
    then (negsuc ((read_digits 0 input).0 - 1), (read_digits 0 input).1)
    else (pos (read_digits 0 (c ∷ input)).0, (read_digits 0 (c ∷ input)).1)

-- What `digits` writes begins with a digit.
abbrev HasDigit : Bytes → Type 0
HasDigit s = (c : ℕ) × (r : Bytes) × (s ≡ c ∷ r) × (is_digit c ≡ true)

digits-HasDigit : (width n : ℕ) → HasDigit (digits (suc width) n)
unfolding digits
digits-HasDigit zero n = elim (Bool-cases (ltb n 10)) [
  | inl small ↦ (b'0' + n, [], rw small, ground arith)
  | inr large ↦ (b'0' + n % 10, [], rw large, ground arith)
]
digits-HasDigit (suc k) n =
    let (c, r, e, d) = digits-HasDigit k (n / 10) in
    elim (Bool-cases (ltb n 10)) [
      | inl small ↦ (b'0' + n, [], rw small, ground arith)
      | inr large ↦ (c, r ++ (b'0' + n % 10) ∷ [], cc (large_front k n large, e), d)
    ]
  where
    large_front :
        (k n : ℕ)
        → ltb n 10 ≡ false
        → digits (suc (suc k)) n ≡ digits (suc k) (n / 10) ++ (b'0' + n % 10) ∷ []
    large_front k n large = rw large

-- Every integer of at most twenty digits, so every `i64`, is read back from its decimal form, if what follows does not begin with a digit.
pub read_signed-signed_decimal :
    (z : ℤ) (rest : Bytes)
    → pos_part z + neg_part z < 10 ^ 20
    → StopsDigits rest
    → read_signed (signed_decimal z ++ rest) ≡ (z, rest)
unfolding read_signed signed_decimal
read_signed-signed_decimal (pos n) rest h stops =
    let (c, r, e, d) = digits-HasDigit 19 n in
    let e' : decimal n ≡ c ∷ r = unfold decimal in e in
    let back = read_digits-decimal n rest (omega arith) stops in
    rw e' (ground (arith, rw e' at back))
read_signed-signed_decimal (negsuc n) rest h stops =
    let back = read_digits-decimal (suc n) rest (omega arith) stops in rw back (ground arith)
