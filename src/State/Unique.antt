-- ===== src/State/Unique.antt =====
-- The maps that `record` of src/state.rs fills.
use mathlib.Core.Logic.{if_pos, if_neg}
use metrics.Common.{◌≢◌, ◌∙◌, [], ◌∷◌, Bytes, Option, none, some, All, All-imp}
use metrics.Common.Assoc
use metrics.Compare.SortOn.{DistinctBy}
use metrics.State.{
  StateType, StateMap, StateFields, StateIdentity, StateIdentity-discrete, Bytes-discrete,
  fields_of, put_unless, put_field, record_state, or_empty,
}

abbrev pub DistinctKeys : {K V : Type 0} → Assoc.HashMap K V → Type 0
DistinctKeys m = DistinctBy (λ e. e.0) m

insert-DistinctKeys :
    {K V : Type 0} (dec : Discrete K) (k : K) (v : V) (m : Assoc.HashMap K V)
    → DistinctKeys m
    → DistinctKeys (Assoc.insert dec k v m)
unfolding Assoc.insert
insert-DistinctKeys dec k v [] h = (tt, tt)
insert-DistinctKeys dec k v ((j, w) ∷ m) (apart, h) = elim (dec j k) [
  | yes same ↦
      rw (if_pos (dec j k) same ((k, v) ∷ m) ((j, w) ∷ Assoc.insert dec k v m))
        (All-imp (λ e other eq. other (same ∙ eq)) m apart, h)
  | no other ↦
      rw (if_neg (dec j k) other ((k, v) ∷ m) ((j, w) ∷ Assoc.insert dec k v m))
        (Assoc.insert-All dec (λ e. j ≢ e.0) k v m other apart, insert-DistinctKeys dec k v m h)
]

-- Every state stands once, and every field of a state.
pub record Unique (states : StateMap) : Type 0 where
  pub names : DistinctKeys states
  pub fields : All (λ e. DistinctKeys e.1) states

put_unless-DistinctKeys :
    (key value : Bytes) (fields : StateFields) (found : Option Bytes)
    → DistinctKeys fields
    → DistinctKeys (put_unless key value fields found)
put_unless-DistinctKeys key value fields none h =
    insert-DistinctKeys Bytes-discrete key value fields h
put_unless-DistinctKeys key value fields (some current) h = elim (Bytes-discrete current value) [
  | yes same ↦
      rw
        (if_pos (Bytes-discrete current value) same fields
          (Assoc.insert Bytes-discrete key value fields))
        h
  | no other ↦
      rw
        (if_neg (Bytes-discrete current value) other fields
          (Assoc.insert Bytes-discrete key value fields))
        (insert-DistinctKeys Bytes-discrete key value fields h)
]

pub get-DistinctKeys :
    (k : StateIdentity) (states : StateMap)
    → All (λ e. DistinctKeys e.1) states
    → DistinctKeys (or_empty (Assoc.get StateIdentity-discrete k states))
unfolding Assoc.get
get-DistinctKeys k [] h = tt
get-DistinctKeys k ((j, fields) ∷ states) (first, h) = elim (StateIdentity-discrete j k) [
  | yes same ↦
      rw
        (if_pos (StateIdentity-discrete j k) same (some fields)
          (Assoc.get StateIdentity-discrete k states))
        first
  | no other ↦
      rw
        (if_neg (StateIdentity-discrete j k) other (some fields)
          (Assoc.get StateIdentity-discrete k states))
        (get-DistinctKeys k states h)
]

pub record_state-Unique :
    (t : StateType) (name key value : Bytes) (states : StateMap)
    → Unique states
    → Unique (record_state t name key value states)
unfolding record_state put_field
record_state-Unique t name key value states u = record {
  names = insert-DistinctKeys StateIdentity-discrete (t, name) _ states u.names;
  fields =
      Assoc.insert-All StateIdentity-discrete (λ e. DistinctKeys e.1) (t, name) _ states
        (put_unless-DistinctKeys key value (fields_of t name states)
          (Assoc.get Bytes-discrete key (fields_of t name states))
          (get-DistinctKeys (t, name) states u.fields))
        u.fields;
}
