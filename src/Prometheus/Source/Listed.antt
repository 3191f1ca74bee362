-- ===== src/Prometheus/Source/Listed.antt =====
-- Which sources `from_registry` of src/prometheus.rs makes of the metadata.
use mathlib.Core.List.{Memᴰ}
use metrics.Common.{ℕ, ◌≡◌, ◌≢◌, true, false, Bytes, codes, List, Option, none, some}
use metrics.Kind.{MetricType, api, api_timeout, api_all, is_conn, output}
use metrics.Plan.{ProfileOutput, ProfilePlan, ProfileMeta, single, resource, fanout}
use metrics.Resource.{ResourceLabels}
use metrics.Registry.{MetricMeta}
use metrics.Scalar.{ScalarKind, ScalarMeta}
use metrics.Prometheus.Source.{
  Source, SourceKind, full, api_summary, timeout, conn_counter, count, conn_gauge, SourceItem,
  timing, counter, gauge,
}

-- The kinds of a response code or of a timeout, which are exported under one type.
abbrev pub IsResponse : MetricType → Type 0
IsResponse (api _) = Unit
IsResponse api_timeout = Unit
IsResponse _ = ⊥

-- The type that a kind is exported under.
pub data IsTypeOf : MetricType → Bytes → Type 0 where
  of_code : (code : ℕ) → IsTypeOf (api code) (codes "API")
  of_timeout : IsTypeOf api_timeout (codes "API")
  of_other : (kind : MetricType) → ¬ IsResponse kind → IsTypeOf kind (output kind).0

-- What a timing metric, a counter and a gauge of a kind export, and a view of a plan.
pub data IsTimingKind : MetricType → SourceKind → Type 0 where
  of_code : (code : ℕ) → IsTimingKind (api code) (SourceKind.api code)
  of_timeout : IsTimingKind api_timeout timeout
  of_all : IsTimingKind api_all api_summary
  of_other : (kind : MetricType) → ¬ IsResponse kind → kind ≢ api_all → IsTimingKind kind full

pub data IsCounterKind : MetricType → SourceKind → Type 0 where
  of_code : (code : ℕ) → IsCounterKind (api code) (SourceKind.api code)
  of_timeout : IsCounterKind api_timeout timeout
  of_conn : (kind : MetricType) → is_conn kind ≡ true → IsCounterKind kind conn_counter
  of_other :
      (kind : MetricType) → ¬ IsResponse kind → is_conn kind ≡ false → IsCounterKind kind count

pub data IsGaugeKind (kind : MetricType) : SourceKind → Type 0 where
  of_conn : is_conn kind ≡ true → IsGaugeKind kind conn_gauge
  of_other : is_conn kind ≡ false → IsGaugeKind kind SourceKind.gauge

pub data IsViewKind (o : ProfileOutput) : SourceKind → Type 0 where
  of_api : o.metric_type ≡ codes "API" → IsViewKind o api_summary
  of_other : o.metric_type ≢ codes "API" → IsViewKind o full

-- The name, the labels and the kind of an item without a plan.
pub data IsNamed : ProfileMeta → Bytes → Option ResourceLabels → MetricType → Type 0 where
  by_name : (name : Bytes) (kind : MetricType) → IsNamed (single name kind) name none kind
  by_labels :
      (labels : ResourceLabels) (kind : MetricType)
      → IsNamed (resource labels kind) labels.name (some labels) kind

-- The outputs of a plan, the aggregate among them.
pub data IsOutput (plan : ProfilePlan) (o : ProfileOutput) : Type 0 where
  listed : Memᴰ o plan.outputs → IsOutput plan o
  aggregated : plan.aggregate ≡ some o → IsOutput plan o

abbrev pub source_of : Bytes → Bytes → Option ResourceLabels → SourceKind → SourceItem → Source
source_of metric_type name labels kind item = record {
  output = record { metric_type = metric_type; name = name; resource = labels };
  kind = kind;
  item = item;
}

-- The sources of a process with these timing metrics, counters and gauges.
pub data IsSource (timings : List MetricMeta) (scalars : List ScalarMeta) : Source → Type 0 where
  of_timing :
      (m : MetricMeta) (t name : Bytes) (labels : Option ResourceLabels) (kind : MetricType)
      (k : SourceKind)
      → Memᴰ m timings
      → IsNamed m.profile name labels kind
      → IsTypeOf kind t
      → IsTimingKind kind k
      → IsSource timings scalars (source_of t name labels k (timing m.item))
  of_plan :
      (m : MetricMeta) (plan : ProfilePlan) (o : ProfileOutput) (k : SourceKind)
      → Memᴰ m timings
      → m.profile ≡ fanout plan
      → IsOutput plan o
      → IsViewKind o k
      → IsSource timings scalars (record { output = o; kind = k; item = timing m.item })
  of_counter :
      (m : ScalarMeta) (t : Bytes) (k : SourceKind)
      → Memᴰ m scalars
      → m.mode ≡ ScalarKind.counter
      → IsTypeOf m.kind t
      → IsCounterKind m.kind k
      → IsSource timings scalars (source_of t m.name m.resource k (counter m.item))
  of_gauge :
      (m : ScalarMeta) (t : Bytes) (k : SourceKind)
      → Memᴰ m scalars
      → m.mode ≡ ScalarKind.gauge
      → IsTypeOf m.kind t
      → IsGaugeKind m.kind k
      → IsSource timings scalars (source_of t m.name m.resource k (gauge m.item))
