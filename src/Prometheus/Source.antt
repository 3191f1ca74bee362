-- ===== src/Prometheus/Source.antt =====
-- The sources of a scrape: `FAMILIES`, `SourceKind`, `SourceItem`, `Source` and their order, and the
-- sources that `PrometheusReader::from_registry` of src/prometheus.rs makes of the metadata.
pub mod Ordered
pub mod Listed
pub mod Kinds
pub mod Members
pub mod Families
pub mod Tests
use metrics.Common.{
  ℕ, ite, Bool, true, false, ◌&&◌, ◌==◌, ltb, leb, if◌then◌else◌, Bytes, codes, List, [], ◌∷◌, ◌++◌,
  map, Option, none, some,
}
use metrics.Kind.{MetricType, api_timeout, api_all, is_conn, output}
use metrics.Resource.{MetricAccess, read, write, other, ConnectionRole, shared, ResourceLabels}
use metrics.Plan.{ProfileOutput, ProfilePlan, ProfileMeta, single, resource, fanout}
use metrics.Slot.{Counter, total, failure, slow, elapsed, failure_elapsed, slow_elapsed}
use metrics.Storage.{ItemPtr}
use metrics.Registry.{MetricMeta, Bytes-discrete}
use metrics.Scalar.{ScalarKind, ScalarMeta}
use metrics.Compare.{Cmp, cmp_nat, cmp_bytes, cmp_option, cmp_pair, cmp_on, sort, dedup}

-- `FAMILIES`: the name, the counter, and whether it is written in seconds.
abbrev pub families : List (Bytes × Counter × Bool)
families =
    (codes "brz_req_total", total, false)
    ∷ (codes "brz_err_total", failure, false)
    ∷ (codes "brz_slow_total", slow, false)
    ∷ (codes "brz_req_duration_secs_total", elapsed, true)
    ∷ (codes "brz_err_duration_secs_total", failure_elapsed, true)
    ∷ (codes "brz_slow_duration_secs_total", slow_elapsed, true)
    ∷ (codes "brz_conn_total", total, false)
    ∷ (codes "brz_count_total", total, false)
    ∷ (codes "brz_conn", total, false)
    ∷ (codes "brz_value", total, false)
    ∷ []

pub data SourceKind : Type 0 where
  full api_summary : SourceKind
  api : ℕ → SourceKind
  timeout conn_counter count conn_gauge gauge : SourceKind

-- `SourceKind::supports`
unfoldable pub supports : SourceKind → ℕ → Bool
supports full family = ltb family 6
supports api_summary family = leb 1 family && ltb family 6
supports (SourceKind.api _) family = family == 0
supports timeout family = family == 0
supports conn_counter family = family == 6
supports count family = family == 7
supports conn_gauge family = family == 8
supports SourceKind.gauge family = family == 9

pub data SourceItem : Type 0 where
  timing : ItemPtr → SourceItem
  counter : ItemPtr → SourceItem
  gauge : ItemPtr → SourceItem

pub record Source : Type 0 where
  pub output : ProfileOutput
  pub kind : SourceKind
  pub item : SourceItem

-- The order of the variants, for the derived `Ord`.
abbrev pub access_rank : MetricAccess → ℕ
access_rank MetricAccess.read = 0
access_rank MetricAccess.write = 1
access_rank other = 2

abbrev pub role_rank : ConnectionRole → ℕ
role_rank ConnectionRole.read = 0
role_rank ConnectionRole.write = 1
role_rank shared = 2

abbrev pub kind_key : SourceKind → ℕ × ℕ
kind_key full = (0, 0)
kind_key api_summary = (1, 0)
kind_key (SourceKind.api code) = (2, code)
kind_key timeout = (3, 0)
kind_key conn_counter = (4, 0)
kind_key count = (5, 0)
kind_key conn_gauge = (6, 0)
kind_key SourceKind.gauge = (7, 0)

abbrev pub cmp_labels : Cmp ResourceLabels
cmp_labels =
    cmp_on (λ l. (l.name, (l.endpoint, (l.access, l.role))))
      (cmp_pair cmp_bytes (
        cmp_pair cmp_bytes (
          cmp_pair (cmp_option (cmp_on access_rank cmp_nat))
            (cmp_option (cmp_on role_rank cmp_nat)))))

abbrev pub cmp_output : Cmp ProfileOutput
cmp_output =
    cmp_on (λ o. (o.metric_type, (o.name, o.resource)))
      (cmp_pair cmp_bytes (cmp_pair cmp_bytes (cmp_option cmp_labels)))

abbrev pub cmp_kind : Cmp SourceKind
cmp_kind = cmp_on kind_key (cmp_pair cmp_nat cmp_nat)

-- Pointers are ordered by their addresses.
module _ (address : ItemPtr → ℕ) where
  abbrev pub item_key : SourceItem → ℕ × ℕ
  item_key (timing item) = (0, address item)
  item_key (SourceItem.counter item) = (1, address item)
  item_key (SourceItem.gauge item) = (2, address item)

  abbrev pub cmp_item : Cmp SourceItem
  cmp_item = cmp_on item_key (cmp_pair cmp_nat cmp_nat)

  -- The derived `Ord` of `Source`
  unfoldable pub cmp_source : Cmp Source
  cmp_source =
      cmp_on (λ s. ((s.output, s.kind), s.item)) (cmp_pair (cmp_pair cmp_output cmp_kind) cmp_item)

-- The output type of a kind, with the response codes under `API`.
abbrev pub output_type : MetricType → Bytes
output_type (MetricType.api _) = codes "API"
output_type api_timeout = codes "API"
output_type kind = (output kind).0

-- The source kind of a timing metric
abbrev pub timing_kind : MetricType → SourceKind
timing_kind (MetricType.api code) = SourceKind.api code
timing_kind api_timeout = timeout
timing_kind api_all = api_summary
timing_kind _ = full

-- The source kind of an output of a plan
unfoldable pub fanout_kind : ProfileOutput → SourceKind
unfolding Bytes-discrete
fanout_kind o = ite (Bytes-discrete o.metric_type (codes "API")) api_summary full

abbrev pub aggregate_of : Option ProfileOutput → List ProfileOutput
aggregate_of none = []
aggregate_of (some o) = o ∷ []

-- What `from_registry` pushes for the metadata of a timing metric.
unfoldable pub timing_sources : MetricMeta → List Source
unfolding fanout_kind output
timing_sources meta = elim meta.profile [
  | single name kind ↦
      record {
        output = record { metric_type = output_type kind; name = name; resource = none };
        kind = timing_kind kind;
        item = timing meta.item;
      }
      ∷ []
  | resource labels kind ↦
      record {
        output = record {
          metric_type = output_type kind;
          name = labels.name;
          resource = some labels;
        };
        kind = timing_kind kind;
        item = timing meta.item;
      }
      ∷ []
  | fanout plan ↦
      map (λ o. record { output = o; kind = fanout_kind o; item = timing meta.item })
        (plan.outputs ++ aggregate_of plan.aggregate)
]

abbrev counter_kind : MetricType → SourceKind
counter_kind (MetricType.api code) = SourceKind.api code
counter_kind api_timeout = timeout
counter_kind kind = if is_conn kind then conn_counter else count

-- `source_kind` for a counter or a gauge
unfoldable pub scalar_kind : ScalarKind → MetricType → SourceKind
unfolding is_conn
scalar_kind ScalarKind.counter kind = counter_kind kind
scalar_kind ScalarKind.gauge kind = if is_conn kind then conn_gauge else SourceKind.gauge

abbrev pub scalar_item : ScalarKind → ItemPtr → SourceItem
scalar_item ScalarKind.counter item = SourceItem.counter item
scalar_item ScalarKind.gauge item = SourceItem.gauge item

-- What `from_registry` pushes for the metadata of a counter or a gauge.
unfoldable pub scalar_source : ScalarMeta → Source
unfolding scalar_kind output
scalar_source meta = record {
  output = record {
    metric_type = output_type meta.kind;
    name = meta.name;
    resource = meta.resource;
  };
  kind = scalar_kind meta.mode meta.kind;
  item = scalar_item meta.mode meta.item;
}

abbrev pub all_timing : List MetricMeta → List Source
all_timing [] = []
all_timing (m ∷ ms) = timing_sources m ++ all_timing ms

-- The sources of `from_registry`, for the metadata that the two visits give.
unfoldable pub sources : (ItemPtr → ℕ) → List MetricMeta → List ScalarMeta → List Source
unfolding timing_sources scalar_source cmp_source
sources address timings scalars =
    dedup (cmp_source address)
      (sort (cmp_source address) (all_timing timings ++ map scalar_source scalars))
