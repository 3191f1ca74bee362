-- ===== src/Slot.antt =====
-- One counter slot and what is recorded in it: `Slot`, `Metric::record`, `Metric::increment`,
-- `snapshot`, `Counter::read` and `MetricSnapshot` of src/metric.rs. A slot is a value here, and an
-- operation returns the slot after it.
pub mod Atomic
pub mod Totals
pub mod Interleave
pub mod Invariant
pub mod Snapshot
pub mod Tests
use metrics.Common.{ℕ, ◌+◌, ◌-◌, ◌*◌, ◌/◌, ◌%◌, ◌^◌, min, Bool, leb, if◌then◌else◌}
use metrics.Kind.{MetricPolicy, spec}

-- The six `AtomicU64` of a slot.
pub record Slot : Type 0 where
  pub count : ℕ
  pub elapsed_us : ℕ
  pub slow_count : ℕ
  pub slow_elapsed_us : ℕ
  pub failure_count : ℕ
  pub failure_elapsed_us : ℕ

-- `Slot::default()`
abbrev pub default : Slot
default = record {
  count = 0;
  elapsed_us = 0;
  slow_count = 0;
  slow_elapsed_us = 0;
  failure_count = 0;
  failure_elapsed_us = 0;
}

abbrev pub u64_max : ℕ
u64_max = 2 ^ 64 - 1

-- What `fetch_add` leaves in an `AtomicU64`: it wraps around.
abbrev pub fetch_add : ℕ → ℕ → ℕ
fetch_add value n = (value + n) % 2 ^ 64

-- `std::time::Duration`: whole seconds, and nanoseconds below a second.
pub record Duration : Type 0 where
  pub secs : ℕ
  pub nanos : ℕ

-- `Duration::as_micros`, a `u128`
abbrev pub as_micros : Duration → ℕ
as_micros d = d.secs * 1_000_000 + d.nanos / 1_000

-- `elapsed.as_micros().min(u64::MAX as u128) as u64`
unfoldable pub clamped_us : Duration → ℕ
clamped_us elapsed = min (as_micros elapsed) u64_max

-- `Metric::record`: each step is one or two `fetch_add`, in the order of the source.
unfoldable pub record_operation : MetricPolicy → Duration → Bool → Slot → Slot
unfolding clamped_us spec
record_operation policy elapsed success slot =
    let us = clamped_us elapsed in
    let failed = if success then slot else record slot {
      failure_count = fetch_add slot.failure_count 1;
      failure_elapsed_us = fetch_add slot.failure_elapsed_us us;
    } in
    let timed = record failed { elapsed_us = fetch_add failed.elapsed_us us } in
    let slowed =
      if leb (spec policy).slow_threshold_us us
      then record timed {
        slow_count = fetch_add timed.slow_count 1;
        slow_elapsed_us = fetch_add timed.slow_elapsed_us us;
      }
      else timed in
    record slowed { count = fetch_add slowed.count 1 }

-- `Metric::increment`
unfoldable pub increment : Slot → Slot
increment slot = record slot { count = fetch_add slot.count 1 }

pub record MetricSnapshot : Type 0 where
  pub total : ℕ
  pub success : ℕ
  pub failure : ℕ
  pub elapsed_us : ℕ
  pub slow : ℕ
  pub slow_elapsed_us : ℕ
  pub failure_elapsed_us : ℕ

-- `MetricSnapshot::from_counters`; `-` on ℕ is `saturating_sub`.
unfoldable pub from_counters : ℕ → ℕ → ℕ → ℕ → ℕ → ℕ → MetricSnapshot
from_counters total elapsed_us slow slow_elapsed_us failure failure_elapsed_us = record {
  total = total;
  success = total - failure;
  failure = failure;
  elapsed_us = elapsed_us;
  slow = slow;
  slow_elapsed_us = slow_elapsed_us;
  failure_elapsed_us = failure_elapsed_us;
}

-- `snapshot`, with nothing recorded between its loads
unfoldable pub snapshot : Slot → MetricSnapshot
unfolding from_counters
snapshot slot =
    from_counters slot.count slot.elapsed_us slot.slow_count slot.slow_elapsed_us slot.failure_count
      slot.failure_elapsed_us

pub data Counter : Type 0 where
  total failure slow elapsed failure_elapsed slow_elapsed : Counter

-- `Counter::read`
unfoldable pub read : Counter → Slot → ℕ
read total slot = slot.count
read failure slot = slot.failure_count
read slow slot = slot.slow_count
read elapsed slot = slot.elapsed_us
read failure_elapsed slot = slot.failure_elapsed_us
read slow_elapsed slot = slot.slow_elapsed_us
