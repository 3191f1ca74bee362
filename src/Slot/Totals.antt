-- ===== src/Slot/Totals.antt =====
-- What a history of calls leaves in the counters.
use metrics.Common.{
  ℕ, ◌+◌, ◌%◌, ◌^◌, ◌<◌, ◌≡◌, Bool, true, false, List, [], ◌∷◌, arith, leb, if◌then◌else◌,
  Bool-cases, inl, inr, sum_of,
}
use metrics.Kind.{MetricPolicy, spec}
use metrics.Slot.{
  Slot, Duration, clamped_us, Counter, total, failure, slow, elapsed, failure_elapsed, slow_elapsed,
  read,
}
use metrics.Slot.Atomic.{
  Add, add_to, apply, Call, recorded, incremented, run_call, adds, amount_of, amount_for,
  Counter-discrete, apply_all, read-apply, run_call-apply_all,
}

module _ (policy : MetricPolicy) where
  abbrev pub is_slow : Duration → Bool
  is_slow d = leb (spec policy).slow_threshold_us (clamped_us d)

  -- What a call means for a counter, from the description of the six counters.
  unfoldable pub contribution : Counter → Call → ℕ
  contribution total _ = 1
  contribution failure (recorded d success) = if success then 0 else 1
  contribution slow (recorded d success) = if is_slow d then 1 else 0
  contribution elapsed (recorded d success) = clamped_us d
  contribution failure_elapsed (recorded d success) = if success then 0 else clamped_us d
  contribution slow_elapsed (recorded d success) = if is_slow d then clamped_us d else 0
  contribution _ incremented = 0

  pub amount_of-adds :
      (c : Counter) (call : Call) → amount_of c (adds policy call) ≡ contribution c call
  unfolding adds amount_for contribution Counter-discrete
  amount_of-adds c (recorded d true) = elim (Bool-cases (is_slow d)) [
    | inl e ↦ ground arith
    | inr e ↦ ground arith
  ]
  amount_of-adds c (recorded d false) = elim (Bool-cases (is_slow d)) [
    | inl e ↦ ground arith
    | inr e ↦ ground arith
  ]
  amount_of-adds c incremented = ground arith

  -- The calls of one handle after another.
  unfoldable pub run_calls : List Call → Slot → Slot
  run_calls [] slot = slot
  run_calls (call ∷ rest) slot = run_calls rest (run_call policy call slot)

pub read-apply_all :
    (c : Counter) (slot : Slot) (list : List Add)
    → read c (apply_all slot list) % 2 ^ 64 ≡ (read c slot + amount_of c list) % 2 ^ 64
unfolding apply_all
read-apply_all c slot [] = omega arith
read-apply_all c slot (a ∷ rest) =
    omega (arith, read-apply c slot a, read-apply_all c (apply slot a) rest)

-- A counter holds a 64-bit word, and keeps doing so.
pub apply_word :
    (c : Counter) (slot : Slot) (a : Add) → read c slot < 2 ^ 64 → read c (apply slot a) < 2 ^ 64
unfolding read add_to
apply_word c slot a h = ground arith

pub apply_all_word :
    (c : Counter) (slot : Slot) (list : List Add)
    → read c slot < 2 ^ 64
    → read c (apply_all slot list) < 2 ^ 64
unfolding apply_all
apply_all_word c slot [] h = h
apply_all_word c slot (a ∷ rest) h = apply_all_word c (apply slot a) rest (apply_word c slot a h)

-- One call of `record` or `increment` adds its contribution to every counter, modulo 2 ^ 64.
pub read-run_call :
    (policy : MetricPolicy) (c : Counter) (call : Call) (slot : Slot)
    → read c slot < 2 ^ 64
    → read c (run_call policy call slot) ≡ (read c slot + contribution policy c call) % 2 ^ 64
read-run_call policy c call slot h = rw (run_call-apply_all policy call slot) (
    omega (
      arith,
      read-apply_all c slot (adds policy call),
      amount_of-adds policy c call,
      apply_all_word c slot (adds policy call) h,
    ))

pub run_call_word :
    (policy : MetricPolicy) (c : Counter) (call : Call) (slot : Slot)
    → read c slot < 2 ^ 64
    → read c (run_call policy call slot) < 2 ^ 64
run_call_word policy c call slot h = omega (arith, read-run_call policy c call slot h)

-- After any calls in sequence each counter holds its old value plus the sum of what the calls
-- contribute to it, modulo 2 ^ 64.
pub read-run_calls :
    (policy : MetricPolicy) (c : Counter) (calls : List Call) (slot : Slot)
    → read c slot < 2 ^ 64
    → read c (run_calls policy calls slot)
      ≡ (read c slot + sum_of (contribution policy c) calls) % 2 ^ 64
unfolding run_calls
read-run_calls policy c [] slot h = omega arith
read-run_calls policy c (call ∷ rest) slot h = omega (
  arith,
  read-run_call policy c call slot h,
  read-run_calls policy c rest (run_call policy call slot) (run_call_word policy c call slot h),
)
