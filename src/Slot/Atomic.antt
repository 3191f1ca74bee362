-- ===== src/Slot/Atomic.antt =====
-- The single `fetch_add` calls that `record` and `increment` are made of, in program order.
use metrics.Common.{
  ℕ, ◌+◌, ◌%◌, ◌^◌, ◌≡◌, Bool, true, false, List, [], ◌∷◌, ◌++◌, arith, leb, if◌then◌else◌,
  Bool-cases, inl, inr, sum_of, ite,
}
use metrics.Kind.{MetricPolicy, spec}
use metrics.Slot.{
  Slot, Duration, clamped_us, fetch_add, record_operation, increment, Counter, total, failure, slow,
  elapsed, failure_elapsed, slow_elapsed, read,
}

-- One `fetch_add(amount)` on one counter.
pub record Add : Type 0 where
  pub counter : Counter
  pub amount : ℕ

unfoldable pub add_to : Counter → ℕ → Slot → Slot
add_to total n slot = record slot { count = fetch_add slot.count n }
add_to failure n slot = record slot { failure_count = fetch_add slot.failure_count n }
add_to slow n slot = record slot { slow_count = fetch_add slot.slow_count n }
add_to elapsed n slot = record slot { elapsed_us = fetch_add slot.elapsed_us n }
add_to failure_elapsed n slot = record slot {
  failure_elapsed_us = fetch_add slot.failure_elapsed_us n;
}
add_to slow_elapsed n slot = record slot { slow_elapsed_us = fetch_add slot.slow_elapsed_us n }

abbrev pub apply : Slot → Add → Slot
apply slot a = add_to a.counter a.amount slot

-- The calls one after another.
unfoldable pub apply_all : Slot → List Add → Slot
apply_all slot [] = slot
apply_all slot (a ∷ rest) = apply_all (apply slot a) rest

abbrev pub one : Counter → ℕ → List Add
one c n = record { counter = c; amount = n } ∷ []

-- What one call asks of a slot.
pub data Call : Type 0 where
  recorded : Duration → Bool → Call
  incremented : Call

unfoldable pub run_call : MetricPolicy → Call → Slot → Slot
unfolding record_operation increment
run_call policy (recorded d success) slot = record_operation policy d success slot
run_call policy incremented slot = increment slot

-- The body of `record` as the list of its `fetch_add` calls.
unfoldable pub adds : MetricPolicy → Call → List Add
unfolding clamped_us spec
adds policy (recorded d success) =
    let us = clamped_us d in
    (if success then [] else one failure 1 ++ one failure_elapsed us)
    ++ (one elapsed us
        ++ ((if leb (spec policy).slow_threshold_us us
              then one slow 1 ++ one slow_elapsed us
              else [])
            ++ one total 1))
adds policy incremented = one total 1

-- The straight-line body and the list of its atomic calls do the same.
pub run_call-apply_all :
    (policy : MetricPolicy) (call : Call) (slot : Slot)
    → run_call policy call slot ≡ apply_all slot (adds policy call)
unfolding run_call adds apply_all add_to
run_call-apply_all policy (recorded d true) slot =
    elim (Bool-cases (leb (spec policy).slow_threshold_us (clamped_us d))) [
      | inl e ↦ ground arith
      | inr e ↦ ground arith
    ]
run_call-apply_all policy (recorded d false) slot =
    elim (Bool-cases (leb (spec policy).slow_threshold_us (clamped_us d))) [
      | inl e ↦ ground arith
      | inr e ↦ ground arith
    ]
run_call-apply_all policy incremented slot = ground arith

unfoldable pub Counter-discrete : Discrete Counter
Counter-discrete = hlevel

-- How much an atomic call adds to a counter.
unfoldable pub amount_for : Counter → Add → ℕ
unfolding Counter-discrete
amount_for c a = ite (Counter-discrete c a.counter) a.amount 0

abbrev pub amount_of : Counter → List Add → ℕ
amount_of c = sum_of (amount_for c)

pub read-apply :
    (c : Counter) (slot : Slot) (a : Add)
    → read c (apply slot a) % 2 ^ 64 ≡ (read c slot + amount_for c a) % 2 ^ 64
unfolding read add_to amount_for
read-apply c slot a = ground arith
