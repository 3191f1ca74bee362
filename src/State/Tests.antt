-- ===== src/State/Tests.antt =====
-- A field that changes, and a snapshot of states that were recorded out of order.
use metrics.Common.{◌≡◌, codes, some, ite, [], ◌∷◌}
use metrics.State.{rpc, StateMap, StateIdentity-discrete, Bytes-discrete, record_state, snapshot}
use metrics.State.Snapshots.{Calls, record_all, IsSnapshotOf, snapshot-record_all}
use metrics.State.Values.{value_of, record_state-value_of}

abbrev states : StateMap
states = ((rpc, codes "pool"), (codes "live", codes "3") ∷ []) ∷ []

record_state-value_of_example :
    value_of rpc
      (codes "pool")
      (codes "live")
      (record_state rpc (codes "pool") (codes "live") (codes "4") states)
    ≡ ite
        (StateIdentity-discrete (rpc, codes "pool") (rpc, codes "pool"))
        (ite
          (Bytes-discrete (codes "live") (codes "live"))
          (some (codes "4"))
          (value_of rpc (codes "pool") (codes "live") states))
        (value_of rpc (codes "pool") (codes "live") states)
record_state-value_of_example =
    record_state-value_of rpc rpc (codes "pool") (codes "pool") (codes "live") (codes "live")
      (codes "4") states

abbrev calls : Calls
calls =
    (rpc, codes "user", codes "live", codes "3")
    ∷ (rpc, codes "pool", codes "live", codes "2")
    ∷ (rpc, codes "pool", codes "dead", codes "1")
    ∷ (rpc, codes "user", codes "live", codes "4")
    ∷ []

snapshot-record_all_example : IsSnapshotOf (record_all calls []) (snapshot (record_all calls []))
snapshot-record_all_example = snapshot-record_all calls
