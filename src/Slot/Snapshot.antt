-- ===== src/Slot/Snapshot.antt =====
-- Snapshots that are taken while other threads record.
use metrics.Common.{◌+◌, ◌≤◌, ◌<◌, ◌^◌, arith}
use metrics.Slot.{
  Slot, Counter, total, failure, slow, elapsed, failure_elapsed, slow_elapsed, read, MetricSnapshot,
  from_counters, snapshot,
}
use metrics.Slot.Interleave.{Threads, Run, pending, Run-monotone}

-- The loads of `snapshot` at six moments, with other threads recording in between.
abbrev pub snapshot_during : Slot → Slot → Slot → Slot → Slot → Slot → MetricSnapshot
unfolding from_counters
snapshot_during s1 s2 s3 s4 s5 s6 =
    from_counters s1.count s2.elapsed_us s3.slow_count s4.slow_elapsed_us s5.failure_count
      s6.failure_elapsed_us

-- Every field but `success` of the first is at most that of the second.
pub record IsBelow (a b : MetricSnapshot) : Type 0 where
  pub total : a.total ≤ b.total
  pub failure : a.failure ≤ b.failure
  pub elapsed_us : a.elapsed_us ≤ b.elapsed_us
  pub slow : a.slow ≤ b.slow
  pub slow_elapsed_us : a.slow_elapsed_us ≤ b.slow_elapsed_us
  pub failure_elapsed_us : a.failure_elapsed_us ≤ b.failure_elapsed_us

-- Six loads with other threads at work before, between and after them.
module _ {s0 s1 s2 s3 s4 s5 s6 s7 : Slot} {t0 t1 t2 t3 t4 t5 t6 t7 : Threads}
    (fits : (c : Counter) → read c s0 + pending c t0 < 2 ^ 64) (r1 : Run s0 t0 s1 t1)
    (r2 : Run s1 t1 s2 t2) (r3 : Run s2 t2 s3 t3) (r4 : Run s3 t3 s4 t4) (r5 : Run s4 t4 s5 t5)
    (r6 : Run s5 t5 s6 t6) (r7 : Run s6 t6 s7 t7) where
  abbrev Chain : Counter → Type 0
  Chain c =
      (read c s0 ≤ read c s1)
      × (read c s1 ≤ read c s2)
      × (read c s2 ≤ read c s3)
      × (read c s3 ≤ read c s4)
      × (read c s4 ≤ read c s5)
      × (read c s5 ≤ read c s6)
      × (read c s6 ≤ read c s7)

  chain : (c : Counter) → Chain c
  chain c =
      let m1 = Run-monotone c (fits c) r1 in
      let m2 = Run-monotone c (omega arith) r2 in
      let m3 = Run-monotone c (omega arith) r3 in
      let m4 = Run-monotone c (omega arith) r4 in
      let m5 = Run-monotone c (omega arith) r5 in
      let m6 = Run-monotone c (omega arith) r6 in
      let m7 = Run-monotone c (omega arith) r7 in (m1.0, m2.0, m3.0, m4.0, m5.0, m6.0, m7.0)

  -- If no counter reaches 2 ^ 64 with what is still to be added, a snapshot whose loads interleave with
  -- other threads lies, in every field but `success`, between a snapshot taken before and one taken
  -- after. Its `success` is at most the one at the moment of its first load, and with the failures of
  -- the snapshot taken after it is at least the total of the one before.
  pub snapshot_during-bounds :
      IsBelow (snapshot s0) (snapshot_during s1 s2 s3 s4 s5 s6)
      × IsBelow (snapshot_during s1 s2 s3 s4 s5 s6) (snapshot s7)
      × ((snapshot_during s1 s2 s3 s4 s5 s6).success ≤ (snapshot s1).success)
      × ((snapshot s0).total ≤ (snapshot_during s1 s2 s3 s4 s5 s6).success + (snapshot s7).failure)
  unfolding snapshot from_counters read
  snapshot_during-bounds =
      let a = chain total in
      let b = chain failure in
      let c = chain slow in
      let d = chain elapsed in
      let e = chain failure_elapsed in
      let f = chain slow_elapsed in (omega arith, omega arith, omega arith, omega arith)
