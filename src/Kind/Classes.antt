-- ===== src/Kind/Classes.antt =====
-- Equality of kinds, policies and formats is decidable, as the derived `PartialEq` is.
use metrics.Common.{ℕ_discrete}
use metrics.Kind.{ResourceMetric, MetricType, MetricPolicy}

unfoldable pub ResourceMetric-discrete : Discrete ResourceMetric
ResourceMetric-discrete = hlevel

unfoldable pub MetricType-discrete : Discrete MetricType
unfolding ℕ_discrete ResourceMetric-discrete
MetricType-discrete = hlevel (ℕ_discrete, ResourceMetric-discrete)

unfoldable pub MetricPolicy-discrete : Discrete MetricPolicy
MetricPolicy-discrete = hlevel
