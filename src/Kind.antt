-- ===== src/Kind.antt =====
-- Metric kinds and counter policies: `MetricType`, `ResourceMetric` and `MetricSpec` of
-- src/metric.rs, `MetricPolicy` and `ProfileFormat` of src/plan.rs.
pub mod Classes
pub mod Tests
use metrics.Common.{ℕ, Bool, true, false, ◌&&◌, leb, if◌then◌else◌, Bytes, codes}
use metrics.Common.Panic.{Outcome, ok, panic}

pub data ResourceMetric : Type 0 where
  req conn : ResourceMetric

pub data MetricType : Type 0 where
  log : MetricType
  redis mysql memcache : ResourceMetric → MetricType
  mc_detail : MetricType
  http : ResourceMetric → MetricType
  http_all api_all : MetricType
  api : ℕ → MetricType
  api_3xx api_4xx api_5xx api_timeout : MetricType
  rpc service socket_io : ResourceMetric → MetricType
  rpc_service_whole : MetricType

pub data MetricPolicy : Type 0 where
  resource_policy service_policy access_policy : MetricPolicy

pub data ProfileFormat : Type 0 where
  resource_format access_statistic : ProfileFormat

pub record MetricSpec : Type 0 where
  pub slow_threshold_us : ℕ

unfoldable pub is_conn : MetricType → Bool
is_conn (redis conn) = true
is_conn (mysql conn) = true
is_conn (memcache conn) = true
is_conn (http conn) = true
is_conn (rpc conn) = true
is_conn (service conn) = true
is_conn (socket_io conn) = true
is_conn _ = false

-- `assert!((100..=599).contains(&code))`
unfoldable pub validate : MetricType → Outcome (Unit {0})
validate (api code) = if leb 100 code && leb code 599 then ok tt else panic
validate _ = ok tt

unfoldable pub policy : MetricType → MetricPolicy
policy log = resource_policy
policy (redis _) = resource_policy
policy (mysql _) = resource_policy
policy (memcache _) = resource_policy
policy mc_detail = resource_policy
policy (http _) = resource_policy
policy http_all = service_policy
policy (service _) = service_policy
policy (socket_io _) = service_policy
policy api_all = service_policy
policy (api _) = service_policy
policy api_3xx = service_policy
policy api_4xx = service_policy
policy api_5xx = service_policy
policy api_timeout = service_policy
policy (rpc _) = access_policy
policy rpc_service_whole = access_policy

unfoldable pub output : MetricType → Bytes × ProfileFormat
output log = (codes "LOG", resource_format)
output (redis _) = (codes "REDIS", resource_format)
output (mysql _) = (codes "MYSQL", resource_format)
output (memcache _) = (codes "MC", resource_format)
output mc_detail = (codes "MCDETAIL", resource_format)
output (http _) = (codes "HTTP", resource_format)
output http_all = (codes "HTTP", resource_format)
output api_all = (codes "API", resource_format)
output (api _) = (codes "API_RESPONSE", resource_format)
output api_3xx = (codes "API3XX", resource_format)
output api_4xx = (codes "API4XX", resource_format)
output api_5xx = (codes "API5XX", resource_format)
output api_timeout = (codes "APITO", resource_format)
output (service _) = (codes "SERVICE", resource_format)
output (socket_io _) = (codes "SOCKET_IO", resource_format)
output (rpc _) = (codes "RPC", access_statistic)
output rpc_service_whole = (codes "RPC_SERVICE_WHOLE", access_statistic)

unfoldable pub spec : MetricPolicy → MetricSpec
spec resource_policy = record { slow_threshold_us = 50_000 }
spec service_policy = record { slow_threshold_us = 200_000 }
spec access_policy = record { slow_threshold_us = 200_000 }
