-- ===== src/Prometheus/Source/Families.antt =====
-- `FAMILIES` and `SourceKind::supports` of src/prometheus.rs: which sources stand in which families.
use mathlib.Core.List.{Memᴰ}
use metrics.Common.{ℕ, ◌≤◌, ◌<◌, ◌≡◌, ◌↔◌, Bool, true, false, List, arith}
use metrics.Kind.{MetricType}
use metrics.Plan.{ProfileOutput}
use metrics.Slot.{Counter, total, failure, slow, elapsed, failure_elapsed, slow_elapsed}
use metrics.Storage.{ItemPtr}
use metrics.Registry.{MetricMeta}
use metrics.Scalar.{ScalarMeta}
use metrics.Prometheus.Source.{
  Source, SourceKind, SourceItem, timing, counter, gauge, supports, sources,
}
use metrics.Prometheus.Source.Listed.{
  IsTimingKind, IsCounterKind, IsGaugeKind, IsViewKind, IsSource,
}
use metrics.Prometheus.Source.Members.{sources-IsSource}

abbrev pub is_duration : Counter → Bool
is_duration elapsed = true
is_duration failure_elapsed = true
is_duration slow_elapsed = true
is_duration c = false

abbrev family_of : Counter → ℕ
family_of total = 0
family_of failure = 1
family_of slow = 2
family_of elapsed = 3
family_of failure_elapsed = 4
family_of slow_elapsed = 5

abbrev pub IsGauge : SourceItem → Type 0
IsGauge (timing item) = ⊥
IsGauge (counter item) = ⊥
IsGauge (gauge item) = Unit

-- What a kind of source is shown in: the families of counters, or those of gauges.
IsTimingKind-early :
    (kind : MetricType) (k : SourceKind) (f : ℕ) → IsTimingKind kind k → supports k f ≡ true → f < 8
unfolding supports
IsTimingKind-early kind k f (IsTimingKind.of_code code) h = ground arith
IsTimingKind-early kind k f IsTimingKind.of_timeout h = ground arith
IsTimingKind-early kind k f IsTimingKind.of_all h = ground arith
IsTimingKind-early kind k f (IsTimingKind.of_other _ n d) h = ground arith

IsCounterKind-early :
    (kind : MetricType) (k : SourceKind) (f : ℕ)
    → IsCounterKind kind k
    → supports k f ≡ true
    → f < 8
unfolding supports
IsCounterKind-early kind k f (IsCounterKind.of_code code) h = ground arith
IsCounterKind-early kind k f IsCounterKind.of_timeout h = ground arith
IsCounterKind-early kind k f (IsCounterKind.of_conn _ e) h = ground arith
IsCounterKind-early kind k f (IsCounterKind.of_other _ n e) h = ground arith

IsViewKind-early :
    (o : ProfileOutput) (k : SourceKind) (f : ℕ) → IsViewKind o k → supports k f ≡ true → f < 8
unfolding supports
IsViewKind-early o k f (IsViewKind.of_api e) h = ground arith
IsViewKind-early o k f (IsViewKind.of_other n) h = ground arith

IsGaugeKind-late :
    (kind : MetricType) (k : SourceKind) (f : ℕ)
    → IsGaugeKind kind k
    → supports k f ≡ true
    → (8 ≤ f) × (f < 10)
unfolding supports
IsGaugeKind-late kind k f (IsGaugeKind.of_conn e) h = ground arith
IsGaugeKind-late kind k f (IsGaugeKind.of_other e) h = ground arith

abbrev Apart : ℕ → SourceItem → Type 0
Apart f item = (f < 10) × ((8 ≤ f) ↔ IsGauge item)

before : (f : ℕ) → f < 8 → (f < 10) × ((8 ≤ f) ↔ ⊥)
before f h = (omega arith, (λ k. absurd (omega arith), λ k. absurd k))

IsSource-Apart :
    (timings : List MetricMeta) (scalars : List ScalarMeta) (s : Source) (f : ℕ)
    → IsSource timings scalars s
    → supports s.kind f ≡ true
    → Apart f s.item
IsSource-Apart timings scalars s f (IsSource.of_timing m t name labels kind k i named typed kinded)
      h =
    before f (IsTimingKind-early kind k f kinded h)
IsSource-Apart timings scalars s f (IsSource.of_plan m plan o k i e is kinded) h =
    before f (IsViewKind-early o k f kinded h)
IsSource-Apart timings scalars s f (IsSource.of_counter m t k i e typed kinded) h =
    before f (IsCounterKind-early m.kind k f kinded h)
IsSource-Apart timings scalars s f (IsSource.of_gauge m t k i e typed kinded) h =
    let (late, bound) = IsGaugeKind-late m.kind k f kinded h in (bound, (λ k. tt, λ k. late))

-- Where a source of a scrape is shown, it is in one of the ten families, and in one of those that are
-- written as gauges exactly if it is a gauge: so the sum that a sample prints is that of its sources.
pub sources-Apart :
    (address : ItemPtr → ℕ) (timings : List MetricMeta) (scalars : List ScalarMeta) (s : Source)
    (family : ℕ)
    → ((p q : ItemPtr) → address p ≡ address q → p ≡ q)
    → Memᴰ s (sources address timings scalars)
    → supports s.kind family ≡ true
    → (family < 10) × ((8 ≤ family) ↔ IsGauge s.item)
sources-Apart address timings scalars s family distinct there shown =
    let (ascending, same) = sources-IsSource address timings scalars distinct in
    IsSource-Apart timings scalars s family ((same s).0 there) shown
