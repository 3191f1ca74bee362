-- ===== src/State/Snapshots.antt =====
-- `StateRegistry::snapshot` of src/state.rs after calls of `record`.
use mathlib.Core.Logic.{if_pos, if_neg}
use metrics.Common.{◌≡◌, ◌∙◌, refl, sym, ap, List, [], ◌∷◌, map, Bytes, All, All-imp}
use metrics.Common.Assoc
use metrics.Common.Members.{All-map}
use metrics.Compare.{cmp_bytes, cmp_pair, cmp_on, sort}
use metrics.Compare.Sort.{Ascending, sort-All}
use metrics.Compare.SortOn.{DistinctBy, pairs, sort-Ascending, get-sort}
use metrics.Compare.Orders.{cmp_pair-IsOrder, cmp_bytes-IsOrder}
use metrics.State.{
  StateType, rpc, metric_type, StateMap, StateFields, StateIdentity, StateSnapshot,
  StateIdentity-discrete, Bytes-discrete, fields_of, record_state, or_empty, cmp_states, cmp_fields,
  snapshot_of, sort_fields, snapshot,
}
use metrics.State.Values.{value_of}
use metrics.State.Unique.{DistinctKeys, Unique, record_state-Unique, get-DistinctKeys}

-- What a snapshot says of a field of a state.
abbrev pub identity_of : StateSnapshot → StateIdentity
identity_of s = (s.state_type, s.name)

abbrev pub as_map : List StateSnapshot → StateMap
as_map ss = pairs StateIdentity-discrete identity_of (λ s. s.fields) cmp_states ss

abbrev state_key : StateSnapshot → Bytes × Bytes
state_key s = (metric_type s.state_type, s.name)

abbrev key_of_identity : StateIdentity → Bytes × Bytes
key_of_identity i = (metric_type i.0, i.1)

key_of_identity-injective : (i j : StateIdentity) → key_of_identity i ≡ key_of_identity j → i ≡ j
key_of_identity-injective (rpc, name) (rpc, name') h =
    ap (λ (n : Bytes). (rpc, n)) (ap (λ (p : Bytes × Bytes). p.1) h)

snapshots-Distinct :
    (states : StateMap) → DistinctKeys states → DistinctBy state_key (map snapshot_of states)
snapshots-Distinct [] h = tt
snapshots-Distinct ((i, fields) ∷ states) (apart, h) = (
  All-map _ snapshot_of states
      (All-imp (λ e other same. other (key_of_identity-injective i e.0 same)) states apart),
  snapshots-Distinct states h,
)

snapshots-identities :
    (states : StateMap) → DistinctKeys states → DistinctBy identity_of (map snapshot_of states)
snapshots-identities [] h = tt
snapshots-identities ((i, fields) ∷ states) (apart, h) =
    (All-map _ snapshot_of states apart, snapshots-identities states h)

as_map-snapshots : (states : StateMap) → as_map (map snapshot_of states) ≡ states
as_map-snapshots [] = refl
as_map-snapshots (e ∷ states) = ap (◌∷◌ e) (as_map-snapshots states)

sort_fields-Ascending :
    (ss : List StateSnapshot) → Ascending cmp_states ss → Ascending cmp_states (map sort_fields ss)
unfolding cmp_states cmp_on
sort_fields-Ascending [] h = tt
sort_fields-Ascending (s ∷ ss) (first, h) =
    (All-map _ sort_fields ss first, sort_fields-Ascending ss h)

-- Looking a state up and sorting its fields may be done in either order.
fields-sort_fields :
    (t : StateType) (name : Bytes) (ss : List StateSnapshot)
    → fields_of t name (as_map (map sort_fields ss))
      ≡ sort cmp_fields (fields_of t name (as_map ss))
unfolding Assoc.get sort
fields-sort_fields t name [] = refl
fields-sort_fields t name (s ∷ ss) = elim (StateIdentity-discrete (identity_of s) (t, name)) [
  | yes same ↦
      ap or_empty (if_pos (StateIdentity-discrete (identity_of s) (t, name)) same _ _)
      ∙ sym (
          ap (λ o. sort cmp_fields (or_empty o))
            (if_pos (StateIdentity-discrete (identity_of s) (t, name)) same _ _))
  | no other ↦
      ap or_empty (if_neg (StateIdentity-discrete (identity_of s) (t, name)) other _ _)
      ∙ fields-sort_fields t name ss
      ∙ sym (
          ap (λ o. sort cmp_fields (or_empty o))
            (if_neg (StateIdentity-discrete (identity_of s) (t, name)) other _ _))
]

fields_of-snapshot :
    (t : StateType) (name : Bytes) (states : StateMap)
    → DistinctKeys states
    → fields_of t name (as_map (snapshot states)) ≡ sort cmp_fields (fields_of t name states)
unfolding snapshot
fields_of-snapshot t name states h =
    fields-sort_fields t name (sort cmp_states (map snapshot_of states))
    ∙ ap (λ o. sort cmp_fields (or_empty o))
        (get-sort StateIdentity-discrete identity_of (λ s. s.fields) cmp_states (t, name)
          (map snapshot_of states) (snapshots-identities states h))
    ∙ ap (λ m. sort cmp_fields (fields_of t name m)) (as_map-snapshots states)

map-id : {A : Type 0} (xs : List A) → map (λ x. x) xs ≡ xs
map-id [] = refl
map-id (x ∷ xs) = ap (◌∷◌ x) (map-id xs)

get-sort_fields :
    (key : Bytes) (fields : StateFields)
    → DistinctKeys fields
    → Assoc.get Bytes-discrete key (sort cmp_fields fields) ≡ Assoc.get Bytes-discrete key fields
get-sort_fields key fields h =
    sym (ap (Assoc.get Bytes-discrete key) (map-id (sort cmp_fields fields)))
    ∙ get-sort Bytes-discrete (λ f. f.0) (λ f. f.1) cmp_fields key fields h
    ∙ ap (Assoc.get Bytes-discrete key) (map-id fields)

sorted_fields :
    (ss : List StateSnapshot)
    → All (λ s. DistinctKeys s.fields) ss
    → All (λ s. Ascending cmp_fields s.fields) (map sort_fields ss)
unfolding cmp_fields
sorted_fields [] h = tt
sorted_fields (s ∷ ss) (first, h) =
    (sort-Ascending (λ f. f.0) cmp_bytes cmp_bytes-IsOrder s.fields first, sorted_fields ss h)

-- The states in strictly ascending order, the fields of each too, and every value of a map.
pub record IsSnapshotOf (states : StateMap) (ss : List StateSnapshot) : Type 0 where
  pub in_order : Ascending cmp_states ss
  pub fields_in_order : All (λ s. Ascending cmp_fields s.fields) ss
  pub complete :
      (t : StateType) (name key : Bytes)
      → value_of t name key (as_map ss) ≡ value_of t name key states

snapshot-IsSnapshotOf : (states : StateMap) → Unique states → IsSnapshotOf states (snapshot states)
unfolding snapshot cmp_states
snapshot-IsSnapshotOf states u = record {
  in_order = sort_fields-Ascending (sort cmp_states (map snapshot_of states)) (
      sort-Ascending state_key (cmp_pair cmp_bytes cmp_bytes)
        (cmp_pair-IsOrder cmp_bytes cmp_bytes-IsOrder cmp_bytes cmp_bytes-IsOrder)
        (map snapshot_of states) (snapshots-Distinct states u.names));
  fields_in_order = sorted_fields (sort cmp_states (map snapshot_of states)) (
      (sort-All cmp_states (λ s. DistinctKeys s.fields) (map snapshot_of states)).1
        (All-map _ snapshot_of states u.fields));
  complete = λ t name key.
      ap (Assoc.get Bytes-discrete key) (fields_of-snapshot t name states u.names)
      ∙ get-sort_fields key (fields_of t name states) (get-DistinctKeys (t, name) states u.fields);
}

-- Calls of `record`: the type, the name, the key and the value.
abbrev pub Calls : Type 0
Calls = List (StateType × Bytes × Bytes × Bytes)

unfoldable pub record_all : Calls → StateMap → StateMap
record_all [] states = states
record_all ((t, name, key, value) ∷ calls) states =
    record_all calls (record_state t name key value states)

record_all-Unique :
    (calls : Calls) (states : StateMap) → Unique states → Unique (record_all calls states)
unfolding record_all
record_all-Unique [] states u = u
record_all-Unique ((t, name, key, value) ∷ calls) states u =
    record_all-Unique calls (record_state t name key value states)
      (record_state-Unique t name key value states u)

-- After any calls of `record` on an empty registry, `snapshot` lists the states in strictly
-- ascending order of type and name and the fields of each in strictly ascending order of key, so
-- that each stands once, and looking any field of any state up in it gives what the registry holds.
pub snapshot-record_all :
    (calls : Calls) → IsSnapshotOf (record_all calls []) (snapshot (record_all calls []))
snapshot-record_all calls =
    snapshot-IsSnapshotOf (record_all calls [])
      (record_all-Unique calls [] (record { names = tt; fields = tt }))
