-- ===== src/Storage/Tests.antt =====
-- A storage of numbers with one item.
use metrics.Common.{ℕ, ◌+◌, ◌<◌, ◌≡◌, [], ◌∷◌, ◌++◌, length, get_elem?}
use metrics.Common.Panic.{ok}
use metrics.Storage.{ItemPtr, Storage, empty, append, visit, read_slot}
use metrics.Storage.Holds.{Holds, empty-Holds, IsFresh, ptr_of}
use metrics.Storage.Append.{append-Holds}
use metrics.Storage.Visit.{visit-Holds}
use metrics.Storage.Slots.{append-slots}

abbrev fresh : Storage ℕ ℕ
fresh = empty 3

append-Holds_example :
    (s' : Storage ℕ ℕ) × (append 0 (λ item. item.offset + 7) fresh ≡ ok (s', ptr_of fresh.region 0))
    × Holds 0 s' ([] ++ ((λ (item : ItemPtr). item.offset + 7) (ptr_of fresh.region 0)) ∷ [])
    × (s'.region ≡ fresh.region)
    × ((i : ℕ) → i < length fresh.slots → get_elem? s'.slots i ≡ get_elem? fresh.slots i)
    × IsFresh 0 s'.slots 0
append-Holds_example = append-Holds 0 fresh [] (λ item. item.offset + 7) (empty-Holds 0 3)

-- The storage with one item, and that it holds it.
one : (s : Storage ℕ ℕ) × Holds 0 s (7 ∷ []) × (read_slot (ptr_of s.region 0) s ≡ ok 0)
one =
    let (s', done, holds, same, kept, new) = append-Holds 0 fresh [] (λ _. 7) (empty-Holds 0 3) in
    (s', holds, rw same (append-slots 0 fresh s' [] 7 (empty-Holds 0 3) holds same kept new).1)

visit-Holds_example : visit one.0 ≡ ok (7 ∷ [])
visit-Holds_example = visit-Holds 0 one.0 (7 ∷ []) one.1
