-- ===== src/State/Values.antt =====
-- What a recorded state reads as.
use metrics.Common.{◌≡◌, ◌∙◌, refl, ap, sym, Bytes, Option, none, some, ite}
use mathlib.Core.Logic.{if_pos, if_neg}
use metrics.Common.Assoc
use metrics.State.{
  StateType, StateMap, StateFields, StateIdentity, StateIdentity-discrete, Bytes-discrete,
  fields_of, put_unless, put_field, record_state, or_empty,
}

-- The value of a field of a state, if it was recorded.
abbrev pub value_of : StateType → Bytes → Bytes → StateMap → Option Bytes
value_of state_type name key states =
    Assoc.get Bytes-discrete key (fields_of state_type name states)

-- What a key reads as once a value is put under another or the same key.
abbrev Put : Bytes → Bytes → Bytes → StateFields → StateFields → Type 0
Put q key value fields fields' =
    Assoc.get Bytes-discrete q fields'
    ≡ ite (Bytes-discrete key q) (some value) (Assoc.get Bytes-discrete q fields)

put_unless-Put :
    (q key value : Bytes) (fields : StateFields) (found : Option Bytes)
    → Assoc.get Bytes-discrete key fields ≡ found
    → Put q key value fields (put_unless key value fields found)
put_unless-Put q key value fields none h = Assoc.get-insert Bytes-discrete q key value fields
put_unless-Put q key value fields (some current) h = elim (Bytes-discrete current value) [
  | no changed ↦
      ap (Assoc.get Bytes-discrete q) (if_neg (Bytes-discrete current value) changed _ _)
      ∙ Assoc.get-insert Bytes-discrete q key value fields
  | yes same ↦
      ap (Assoc.get Bytes-discrete q) (if_pos (Bytes-discrete current value) same _ _)
      ∙ elim (Bytes-discrete key q) [
        | yes at ↦
            ap (λ k. Assoc.get Bytes-discrete k fields) (sym at)
            ∙ h
            ∙ ap some same
            ∙ sym (if_pos (Bytes-discrete key q) at _ _)
        | no apart ↦ sym (if_neg (Bytes-discrete key q) apart _ _)
      ]
]

record_state-fields :
    (t t' : StateType) (name name' key value : Bytes) (states : StateMap)
    → fields_of t' name' (record_state t name key value states)
      ≡ ite
          (StateIdentity-discrete (t, name) (t', name'))
          (put_field key value (fields_of t name states))
          (fields_of t' name' states)
unfolding record_state
record_state-fields t t' name name' key value states =
    let put = put_field key value (fields_of t name states) in
    let e = Assoc.get-insert StateIdentity-discrete (t', name') (t, name) put states in
    elim (StateIdentity-discrete (t, name) (t', name')) [
      | yes same ↦
          ap or_empty (e ∙ if_pos (StateIdentity-discrete (t, name) (t', name')) same _ _)
          ∙ sym (if_pos (StateIdentity-discrete (t, name) (t', name')) same _ _)
      | no other ↦
          ap or_empty (e ∙ if_neg (StateIdentity-discrete (t, name) (t', name')) other _ _)
          ∙ sym (if_neg (StateIdentity-discrete (t, name) (t', name')) other _ _)
    ]

-- After a state's field was recorded, that field of that state reads as its new value, and every other
-- field and every other state read as before, whether the value changed or not.
pub record_state-value_of :
    (t t' : StateType) (name name' key q value : Bytes) (states : StateMap)
    → value_of t' name' q (record_state t name key value states)
      ≡ ite
          (StateIdentity-discrete (t, name) (t', name'))
          (ite (Bytes-discrete key q) (some value) (value_of t' name' q states))
          (value_of t' name' q states)
record_state-value_of t t' name name' key q value states =
    let fields = record_state-fields t t' name name' key value states in
    let put : Put q key value (fields_of t name states)
        (put_field key value (fields_of t name states)) =
      unfold put_field in
      put_unless-Put q key value (fields_of t name states)
        (Assoc.get Bytes-discrete key (fields_of t name states)) refl in
    ap (Assoc.get Bytes-discrete q) fields ∙ elim (StateIdentity-discrete (t, name) (t', name')) [
      | yes same ↦
          ap (Assoc.get Bytes-discrete q)
            (if_pos (StateIdentity-discrete (t, name) (t', name')) same _ _)
          ∙ put
          ∙ ap
              (λ (k : StateIdentity).
                ite (Bytes-discrete key q) (some value) (value_of k.0 k.1 q states))
              same
          ∙ sym (if_pos (StateIdentity-discrete (t, name) (t', name')) same _ _)
      | no other ↦
          ap (Assoc.get Bytes-discrete q)
            (if_neg (StateIdentity-discrete (t, name) (t', name')) other _ _)
          ∙ sym (if_neg (StateIdentity-discrete (t, name) (t', name')) other _ _)
    ]
