-- ===== src/Resource.antt =====
-- Resource labels: src/resource.rs.
use metrics.Common.{ℕ_discrete, Bytes, codes, Option, none, some}

pub data MetricAccess : Type 0 where
  read write other : MetricAccess

unfoldable pub access_label : MetricAccess → Bytes
access_label read = codes "read"
access_label write = codes "write"
access_label other = codes "other"

pub data ConnectionRole : Type 0 where
  read write shared : ConnectionRole

unfoldable pub role_label : ConnectionRole → Bytes
role_label ConnectionRole.read = codes "read"
role_label ConnectionRole.write = codes "write"
role_label shared = codes "shared"

pub record ResourceLabels : Type 0 where
  pub name : Bytes
  pub endpoint : Bytes
  pub access : Option MetricAccess
  pub role : Option ConnectionRole

-- `ResourceLabels::new`
unfoldable pub new : Bytes → Bytes → ResourceLabels
new name endpoint = record { name = name; endpoint = endpoint; access = none; role = none }

unfoldable pub with_access : ResourceLabels → MetricAccess → ResourceLabels
with_access labels access = record labels { access = some access }

unfoldable pub with_role : ResourceLabels → ConnectionRole → ResourceLabels
with_role labels role = record labels { role = some role }

unfoldable pub ResourceLabels-discrete : Discrete ResourceLabels
unfolding ℕ_discrete
ResourceLabels-discrete = hlevel ℕ_discrete
