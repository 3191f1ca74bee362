-- ===== src/Slot/Invariant.antt =====
-- How the six counters of a slot relate to one another, and what a snapshot shows.
use metrics.Common.{
  ℕ, ◌+◌, ◌*◌, ◌%◌, ◌^◌, ◌≤◌, ◌<◌, ◌≡◌, List, [], ◌∷◌, map, arith, sum_of, sum_of_le,
}
use metrics.Kind.{MetricPolicy, spec}
use metrics.Slot.{
  Slot, default, Counter, total, failure, slow, elapsed, failure_elapsed, slow_elapsed, read,
  snapshot,
}
use metrics.Slot.Atomic.{Call}
use metrics.Slot.Totals.{contribution}
use metrics.Slot.Interleave.{Threads, Run, IsDone, thread, Run-no_lost_update}

-- Failed and slow operations are among all operations, their times are among all the time, and a
-- slow operation took at least the threshold.
pub record IsConsistent (policy : MetricPolicy) (s : Slot) : Type 0 where
  pub failures : read failure s ≤ read total s
  pub slows : read slow s ≤ read total s
  pub failure_time : read failure_elapsed s ≤ read elapsed s
  pub slow_time : read slow_elapsed s ≤ read elapsed s
  pub slow_each : (spec policy).slow_threshold_us * read slow s ≤ read slow_elapsed s

pub default-zero : (c : Counter) → read c default ≡ 0
unfolding read
default-zero c = ground arith

module _ (policy : MetricPolicy) where
  abbrev pub grand : Counter → List (List Call) → ℕ
  grand c = sum_of (sum_of (contribution policy c))

  grand_le :
      (c d : Counter)
      → ((call : Call) → contribution policy c call ≤ contribution policy d call)
      → (work : List (List Call)) → grand c work ≤ grand d work
  grand_le c d h = sum_of_le _ _ (sum_of_le _ _ h)

  failure-le : (call : Call) → contribution policy failure call ≤ contribution policy total call
  unfolding contribution
  failure-le call = ground arith

  slow-le : (call : Call) → contribution policy slow call ≤ contribution policy total call
  unfolding contribution
  slow-le call = ground arith

  failure_elapsed-le :
      (call : Call) → contribution policy failure_elapsed call ≤ contribution policy elapsed call
  unfolding contribution
  failure_elapsed-le call = ground arith

  slow_elapsed-le :
      (call : Call) → contribution policy slow_elapsed call ≤ contribution policy elapsed call
  unfolding contribution
  slow_elapsed-le call = ground arith

  threshold-le :
      (call : Call)
      → (spec policy).slow_threshold_us * contribution policy slow call
        ≤ contribution policy slow_elapsed call
  unfolding contribution
  threshold-le call = ground arith

  threshold-le-sum :
      (calls : List Call)
      → (spec policy).slow_threshold_us * sum_of (contribution policy slow) calls
        ≤ sum_of (contribution policy slow_elapsed) calls
  threshold-le-sum [] = omega arith
  threshold-le-sum (call ∷ rest) = omega (arith, threshold-le call, threshold-le-sum rest)

  threshold-le-grand :
      (work : List (List Call))
      → (spec policy).slow_threshold_us * grand slow work ≤ grand slow_elapsed work
  threshold-le-grand [] = omega arith
  threshold-le-grand (calls ∷ work) = omega (arith, threshold-le-sum calls, threshold-le-grand work)

snapshot_balanced :
    (s : Slot)
    → read failure s ≤ read total s
    → (snapshot s).success + (snapshot s).failure ≡ (snapshot s).total
unfolding snapshot read
snapshot_balanced s h = omega arith

-- A slot that starts empty is consistent once all threads have finished, in whatever order their
-- atomic calls interleaved, if fewer than 2 ^ 64 operations were counted and their durations add up
-- to less than 2 ^ 64 microseconds. Then a snapshot accounts for every operation as a success or a
-- failure.
pub Run-IsConsistent :
    (policy : MetricPolicy) (work : List (List Call)) {s : Slot} {us : Threads}
    → grand policy total work < 2 ^ 64
    → grand policy elapsed work < 2 ^ 64
    → Run default (map (thread policy) work) s us
    → IsDone us
    → IsConsistent policy s × ((snapshot s).success + (snapshot s).failure ≡ (snapshot s).total)
Run-IsConsistent policy work {s} counted timed r d = (fields, balanced)
  where
    value : (c : Counter) → read c s ≡ grand policy c work % 2 ^ 64
    value c = omega (
      arith,
      default-zero c,
      Run-no_lost_update policy c work {s = default} (omega (arith, default-zero c)) r d,
    )

    failures : grand policy failure work ≤ grand policy total work
    failures = grand_le policy failure total (failure-le policy) work

    slows : grand policy slow work ≤ grand policy total work
    slows = grand_le policy slow total (slow-le policy) work

    failure_time : grand policy failure_elapsed work ≤ grand policy elapsed work
    failure_time = grand_le policy failure_elapsed elapsed (failure_elapsed-le policy) work

    slow_time : grand policy slow_elapsed work ≤ grand policy elapsed work
    slow_time = grand_le policy slow_elapsed elapsed (slow_elapsed-le policy) work

    exact : (c : Counter) → grand policy c work < 2 ^ 64 → read c s ≡ grand policy c work
    exact c h = omega (arith, value c)

    exact_slow : read slow s ≡ grand policy slow work
    exact_slow = exact slow (omega (arith, slows))

    exact_slow_time : read slow_elapsed s ≡ grand policy slow_elapsed work
    exact_slow_time = exact slow_elapsed (omega (arith, slow_time))

    fields : IsConsistent policy s
    fields = record {
      failures =
          omega (arith, failures, exact failure (omega (arith, failures)), exact total counted);
      slows = omega (arith, slows, exact_slow, exact total counted);
      failure_time = omega (
        arith,
        failure_time,
        exact failure_elapsed (omega (arith, failure_time)),
        exact elapsed timed,
      );
      slow_time = omega (arith, slow_time, exact_slow_time, exact elapsed timed);
      slow_each = rw (exact_slow, exact_slow_time) (threshold-le-grand policy work);
    }

    balanced : (snapshot s).success + (snapshot s).failure ≡ (snapshot s).total
    balanced = snapshot_balanced s fields.failures
