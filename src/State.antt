-- ===== src/State.antt =====
-- Named states of RPC clusters: src/state.rs. What the mutex guards is a value.

pub mod Values
pub mod Unique
pub mod Snapshots
pub mod Tests
use metrics.Common.{Bytes, codes, List, [], ◌∷◌, map, Option, none, some, ℕ_discrete, ite}
use metrics.Common.Assoc
use metrics.Common.Assoc.{HashMap}
use metrics.Compare.{Cmp, cmp_bytes, cmp_on, cmp_pair, sort}

pub data StateType : Type 0 where
  rpc : StateType

unfoldable pub metric_type : StateType → Bytes
metric_type rpc = codes "MOTAN_CLUSTER_STAT"

pub record StateSnapshot : Type 0 where
  pub state_type : StateType
  pub name : Bytes
  pub fields : List (Bytes × Bytes)

-- `StateIdentity`: the type and the name.
abbrev pub StateIdentity : Type 0
StateIdentity = StateType × Bytes

abbrev pub StateFields : Type 0
StateFields = HashMap Bytes Bytes

abbrev pub StateMap : Type 0
StateMap = HashMap StateIdentity StateFields

unfoldable pub Bytes-discrete : Discrete Bytes
unfolding ℕ_discrete
Bytes-discrete = hlevel ℕ_discrete

unfoldable pub StateType-discrete : Discrete StateType
StateType-discrete = hlevel

unfoldable pub StateIdentity-discrete : Discrete StateIdentity
unfolding StateType-discrete Bytes-discrete
StateIdentity-discrete = hlevel (StateType-discrete, Bytes-discrete)

abbrev pub or_empty : Option StateFields → StateFields
or_empty none = []
or_empty (some fields) = fields

-- The entry of a name, which `entry(…).or_default()` makes if there is none.
abbrev pub fields_of : StateType → Bytes → StateMap → StateFields
fields_of state_type name states =
    or_empty (Assoc.get StateIdentity-discrete (state_type, name) states)

-- The fields, given what `fields.get(key)` finds: unchanged if it is the value already.
abbrev pub put_unless : Bytes → Bytes → StateFields → Option Bytes → StateFields
put_unless key value fields none = Assoc.insert Bytes-discrete key value fields
put_unless key value fields (some current) =
    ite (Bytes-discrete current value) fields (Assoc.insert Bytes-discrete key value fields)

-- The rest of `StateRegistry::record`
unfoldable pub put_field : Bytes → Bytes → StateFields → StateFields
put_field key value fields = put_unless key value fields (Assoc.get Bytes-discrete key fields)

-- `StateRegistry::record`
unfoldable pub record_state : StateType → Bytes → Bytes → Bytes → StateMap → StateMap
unfolding put_field
record_state state_type name key value states =
    Assoc.insert StateIdentity-discrete (state_type, name)
      (put_field key value (fields_of state_type name states)) states

-- `(left.state_type.metric_type(), left.name).cmp(…)`
unfoldable pub cmp_states : Cmp StateSnapshot
unfolding metric_type
cmp_states = cmp_on (λ s. (metric_type s.state_type, s.name)) (cmp_pair cmp_bytes cmp_bytes)

-- `|(left, _), (right, _)| left.cmp(right)`
unfoldable pub cmp_fields : Cmp (Bytes × Bytes)
cmp_fields = cmp_on (λ f. f.0) cmp_bytes

abbrev snapshot_of : StateIdentity × StateFields → StateSnapshot
snapshot_of (identity, fields) = record {
  state_type = identity.0;
  name = identity.1;
  fields = fields;
}

abbrev sort_fields : StateSnapshot → StateSnapshot
sort_fields s = record s { fields = sort cmp_fields s.fields }

-- `StateRegistry::snapshot`
unfoldable pub snapshot : StateMap → List StateSnapshot
unfolding cmp_states cmp_fields
snapshot states = map sort_fields (sort cmp_states (map snapshot_of states))
