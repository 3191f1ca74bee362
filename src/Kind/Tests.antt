-- ===== src/Kind/Tests.antt =====
-- Runs of the functions on kinds.
use metrics.Common.{◌≡◌, refl, ite, true, false}
use metrics.Kind.{redis, api, conn, req}
use metrics.Kind.Classes.{MetricType-discrete}

same : ite (MetricType-discrete (api 200) (api 200)) true false ≡ true
unfolding MetricType-discrete
same = refl

other : ite (MetricType-discrete (redis conn) (redis req)) true false ≡ false
unfolding MetricType-discrete
other = refl
