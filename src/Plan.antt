-- ===== src/Plan.antt =====
-- Export plans: `ProfileOutput`, `ProfilePlan` and `ProfileMeta` of src/plan.rs.
use metrics.Common.{Bytes, Option, none, some, List, [], ◌∷◌, ◌++◌, ℕ_discrete}
use metrics.Kind.{MetricType, MetricPolicy, ProfileFormat}
use metrics.Resource.{ResourceLabels, ResourceLabels-discrete}

pub record ProfileOutput : Type 0 where
  pub metric_type : Bytes
  pub name : Bytes
  pub resource : Option ResourceLabels

-- `ProfileOutput::new`
unfoldable pub new_output : Bytes → Bytes → ProfileOutput
new_output metric_type name = record { metric_type = metric_type; name = name; resource = none }

pub record ProfilePlan : Type 0 where
  pub identity : Bytes
  pub policy : MetricPolicy
  pub outputs : List ProfileOutput
  pub aggregate : Option ProfileOutput

-- `ProfilePlan::new`; the format is ignored.
unfoldable pub new_plan : Bytes → MetricPolicy → ProfileFormat → Bytes → Bytes → ProfilePlan
unfolding new_output
new_plan identity policy _ metric_type name = record {
  identity = identity;
  policy = policy;
  outputs = new_output metric_type name ∷ [];
  aggregate = none;
}

-- `ProfilePlan::alias`
unfoldable pub alias : ProfilePlan → Bytes → Bytes → ProfilePlan
unfolding new_output
alias plan metric_type name = record plan {
  outputs = plan.outputs ++ new_output metric_type name ∷ [];
}

-- `ProfilePlan::aggregate`
unfoldable pub with_aggregate : ProfilePlan → Bytes → Bytes → ProfilePlan
unfolding new_output
with_aggregate plan metric_type name = record plan {
  aggregate = some (new_output metric_type name);
}

pub data ProfileMeta : Type 0 where
  single : Bytes → MetricType → ProfileMeta
  resource : ResourceLabels → MetricType → ProfileMeta
  fanout : ProfilePlan → ProfileMeta

unfoldable pub ProfileOutput-discrete : Discrete ProfileOutput
unfolding ℕ_discrete ResourceLabels-discrete
ProfileOutput-discrete = hlevel (ℕ_discrete, ResourceLabels-discrete)
