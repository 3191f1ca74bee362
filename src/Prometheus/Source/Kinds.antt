-- ===== src/Prometheus/Source/Kinds.antt =====
-- The types and the source kinds that `from_registry` of src/prometheus.rs takes are those of the metrics.
use metrics.Common.{
  ◌≡◌, refl, sym, subst, true, Bytes, codes, arith, Bool-cases, inl, inr, if◌then◌else◌,
}
use mathlib.Core.Logic.{if_pos, if_neg}
use metrics.Kind.{MetricType, api, api_timeout, api_all, is_conn}
use metrics.Plan.{ProfileOutput}
use metrics.Registry.{Bytes-discrete}
use metrics.Scalar.{ScalarKind}
use metrics.Prometheus.Source.{
  SourceKind, full, api_summary, conn_counter, count, output_type, timing_kind, fanout_kind,
  scalar_kind,
}
use metrics.Prometheus.Source.Listed.{
  IsResponse, IsTypeOf, IsTimingKind, IsCounterKind, IsGaugeKind, IsViewKind,
}

pub output_type-IsTypeOf : (kind : MetricType) → IsTypeOf kind (output_type kind)
output_type-IsTypeOf (api code) = IsTypeOf.of_code code
output_type-IsTypeOf api_timeout = IsTypeOf.of_timeout
output_type-IsTypeOf kind = IsTypeOf.of_other kind (λ h. h)

pub IsTypeOf-output_type : (kind : MetricType) (t : Bytes) → IsTypeOf kind t → output_type kind ≡ t
IsTypeOf-output_type (api code) t (IsTypeOf.of_code _) = refl
IsTypeOf-output_type api_timeout t IsTypeOf.of_timeout = refl
IsTypeOf-output_type (api code) t (IsTypeOf.of_other _ n) = absurd (n tt)
IsTypeOf-output_type api_timeout t (IsTypeOf.of_other _ n) = absurd (n tt)
IsTypeOf-output_type kind t (IsTypeOf.of_other _ n) = refl

pub timing_kind-IsTimingKind : (kind : MetricType) → IsTimingKind kind (timing_kind kind)
timing_kind-IsTimingKind (api code) = IsTimingKind.of_code code
timing_kind-IsTimingKind api_timeout = IsTimingKind.of_timeout
timing_kind-IsTimingKind api_all = IsTimingKind.of_all
timing_kind-IsTimingKind kind = IsTimingKind.of_other kind (λ h. h) (λ e. ground arith)

pub IsTimingKind-timing_kind :
    (kind : MetricType) (k : SourceKind) → IsTimingKind kind k → timing_kind kind ≡ k
IsTimingKind-timing_kind (api code) k (IsTimingKind.of_code _) = refl
IsTimingKind-timing_kind api_timeout k IsTimingKind.of_timeout = refl
IsTimingKind-timing_kind api_all k IsTimingKind.of_all = refl
IsTimingKind-timing_kind (api code) k (IsTimingKind.of_other _ n d) = absurd (n tt)
IsTimingKind-timing_kind api_timeout k (IsTimingKind.of_other _ n d) = absurd (n tt)
IsTimingKind-timing_kind api_all k (IsTimingKind.of_other _ n d) = absurd (d refl)
IsTimingKind-timing_kind kind k (IsTimingKind.of_other _ n d) = refl

conn_other : (kind : MetricType) → is_conn kind ≡ true → ¬ IsResponse kind
unfolding is_conn
conn_other (api code) e h = ground arith
conn_other api_timeout e h = ground arith
conn_other kind e h = h

-- A kind that is not of a response, by whether it is of connections.
counter_kind_other :
    (kind : MetricType)
    → ¬ IsResponse kind
    → scalar_kind ScalarKind.counter kind ≡ (if is_conn kind then conn_counter else count)
unfolding scalar_kind
counter_kind_other (api code) n = absurd (n tt)
counter_kind_other api_timeout n = absurd (n tt)
counter_kind_other kind n = refl

counter_other :
    (kind : MetricType)
    → ¬ IsResponse kind
    → IsCounterKind kind (scalar_kind ScalarKind.counter kind)
counter_other kind n = subst (IsCounterKind kind) (sym (counter_kind_other kind n)) either
  where
    either : IsCounterKind kind (if is_conn kind then conn_counter else count)
    either = elim (Bool-cases (is_conn kind)) [
      | inl e ↦ rw e (IsCounterKind.of_conn kind e)
      | inr e ↦ rw e (IsCounterKind.of_other kind n e)
    ]

pub scalar_kind-IsCounterKind :
    (kind : MetricType) → IsCounterKind kind (scalar_kind ScalarKind.counter kind)
unfolding scalar_kind
scalar_kind-IsCounterKind (api code) = IsCounterKind.of_code code
scalar_kind-IsCounterKind api_timeout = IsCounterKind.of_timeout
scalar_kind-IsCounterKind kind = counter_other kind (λ h. h)

pub IsCounterKind-scalar_kind :
    (kind : MetricType) (k : SourceKind)
    → IsCounterKind kind k
    → scalar_kind ScalarKind.counter kind ≡ k
unfolding scalar_kind
IsCounterKind-scalar_kind kind k (IsCounterKind.of_code _) = refl
IsCounterKind-scalar_kind kind k IsCounterKind.of_timeout = refl
IsCounterKind-scalar_kind kind k (IsCounterKind.of_conn _ e) =
    rw (counter_kind_other kind (conn_other kind e), e)
IsCounterKind-scalar_kind kind k (IsCounterKind.of_other _ n e) = rw (counter_kind_other kind n, e)

pub scalar_kind-IsGaugeKind :
    (kind : MetricType) → IsGaugeKind kind (scalar_kind ScalarKind.gauge kind)
unfolding scalar_kind
scalar_kind-IsGaugeKind kind = elim (Bool-cases (is_conn kind)) [
  | inl e ↦ rw e (IsGaugeKind.of_conn e)
  | inr e ↦ rw e (IsGaugeKind.of_other e)
]

pub IsGaugeKind-scalar_kind :
    (kind : MetricType) (k : SourceKind)
    → IsGaugeKind kind k
    → scalar_kind ScalarKind.gauge kind ≡ k
unfolding scalar_kind
IsGaugeKind-scalar_kind kind k (IsGaugeKind.of_conn e) = rw e
IsGaugeKind-scalar_kind kind k (IsGaugeKind.of_other e) = rw e

pub fanout_kind-IsViewKind : (o : ProfileOutput) → IsViewKind o (fanout_kind o)
unfolding fanout_kind
fanout_kind-IsViewKind o = elim (Bytes-discrete o.metric_type (codes "API")) [
  | yes e ↦
      rw (if_pos (Bytes-discrete o.metric_type (codes "API")) e api_summary full)
        (IsViewKind.of_api e)
  | no n ↦
      rw (if_neg (Bytes-discrete o.metric_type (codes "API")) n api_summary full)
        (IsViewKind.of_other n)
]

pub IsViewKind-fanout_kind :
    (o : ProfileOutput) (k : SourceKind) → IsViewKind o k → fanout_kind o ≡ k
unfolding fanout_kind
IsViewKind-fanout_kind o k (IsViewKind.of_api e) =
    if_pos (Bytes-discrete o.metric_type (codes "API")) e _ _
IsViewKind-fanout_kind o k (IsViewKind.of_other n) =
    if_neg (Bytes-discrete o.metric_type (codes "API")) n _ _
