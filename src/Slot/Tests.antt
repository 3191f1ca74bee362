-- ===== src/Slot/Tests.antt =====
-- Runs of the operations of one slot, alone and interleaved.
use metrics.Common.{
  ◌+◌, ◌%◌, ◌^◌, ◌<◌, ◌≤◌, ◌≡◌, refl, true, false, List, [], ◌∷◌, map, arith, sum_of,
}
use metrics.Kind.{service_policy, spec}
use metrics.Slot.{
  Slot, Duration, default, clamped_us, record_operation, increment, from_counters, snapshot,
  Counter, total, slow, read,
}
use metrics.Slot.Atomic.{
  Add, add_to, Call, recorded, incremented, adds, amount_for, Counter-discrete,
}
use metrics.Slot.Totals.{contribution, run_calls, read-run_calls}
use metrics.Slot.Interleave.{
  Threads, Run, here, there, stop, step, thread, pending, Run-no_lost_update,
}
use metrics.Slot.Invariant.{IsConsistent, Run-IsConsistent}
use metrics.Slot.Snapshot.{IsBelow, snapshot_during, snapshot_during-bounds}

abbrev quick : Duration
quick = record { secs = 0; nanos = 2_999 }

abbrev long : Duration
long = record { secs = 1; nanos = 0 }

-- A failure of a second is slow; two microseconds are not.
runs :
    snapshot (record_operation service_policy long false (increment default))
    ≡ from_counters 2 1_000_000 1 1_000_000 1 1_000_000
unfolding snapshot record_operation clamped_us spec increment from_counters
runs = refl

abbrev work : List (List Call)
work = (recorded quick true ∷ []) ∷ (incremented ∷ []) ∷ []

abbrev first : Slot
first = record default { elapsed_us = 2 }

abbrev second : Slot
second = record first { count = 1 }

abbrev final : Slot
final = record first { count = 2 }

abbrev finished : Threads
finished = [] ∷ [] ∷ []

abbrev one_total : Add
one_total = record { counter = total; amount = 1 }

-- The second thread counts between the two atomic calls of the first.
interleaved : Run default (map (thread service_policy) work) final finished
unfolding thread adds clamped_us spec add_to
interleaved =
    step {s = default} {s' = final} {vs = finished} here
      (step {s = first} (there here) (step {s = second} here stop))

Run-no_lost_update_example :
    read total final
    ≡ (read total default + sum_of (sum_of (contribution service_policy total)) work) % 2 ^ 64
Run-no_lost_update_example =
    Run-no_lost_update service_policy total work {s = default} {s' = final} {us = finished}
      (unfold read in omega arith) interleaved (refl, (refl, tt))

Run-IsConsistent_example :
    IsConsistent service_policy final
    × ((snapshot final).success + (snapshot final).failure ≡ (snapshot final).total)
Run-IsConsistent_example =
    Run-IsConsistent service_policy work {s = final} {us = finished}
      (unfold contribution in omega arith) (unfold contribution clamped_us in omega arith)
      interleaved (refl, (refl, tt))

read-run_calls_example :
    read slow (run_calls service_policy (recorded long false ∷ incremented ∷ []) default)
    ≡ (read slow default
        + sum_of (contribution service_policy slow) (recorded long false ∷ incremented ∷ []))
      % 2 ^ 64
read-run_calls_example =
    read-run_calls service_policy slow (recorded long false ∷ incremented ∷ []) default
      (unfold read in omega arith)

-- One thread with one call of `increment`, which falls between the first and the second load.
abbrev counted : Slot
counted = record default { count = 1 }

abbrev before : Threads
before = (one_total ∷ []) ∷ []

abbrev after : Threads
after = [] ∷ []

fits : (c : Counter) → read c default + pending c before < 2 ^ 64
unfolding read amount_for Counter-discrete
fits c = ground arith

counting : Run default before counted after
unfolding add_to
counting = step {s = default} {s' = counted} {vs = after} here stop

snapshot_during-bounds_example :
    IsBelow (snapshot default) (snapshot_during default counted counted counted counted counted)
    × IsBelow (snapshot_during default counted counted counted counted counted) (snapshot counted)
    × ((snapshot_during default counted counted counted counted counted).success
        ≤ (snapshot default).success)
    × ((snapshot default).total
        ≤ (snapshot_during default counted counted counted counted counted).success
          + (snapshot counted).failure)
snapshot_during-bounds_example =
    snapshot_during-bounds {t1 = before} {t2 = after} {t3 = after} {t4 = after} {t5 = after}
      {t6 = after} {t7 = after} fits stop counting stop stop stop stop stop
