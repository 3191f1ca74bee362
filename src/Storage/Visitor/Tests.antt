-- ===== src/Storage/Visitor/Tests.antt =====
-- A visit that starts before two registrations and ends in the middle of the second.
use metrics.Common.{ℕ, ◌≡◌, refl, List, [], ◌∷◌}
use metrics.Common.Panic.{Outcome, ok, panic, undefined}
use metrics.Storage.{ItemPtr, empty, add_chunk, new_chunk, new_box, chunk_get}
use metrics.Storage.Holds.{empty-Holds}
use metrics.Storage.Prefix.{IsPrefix}
use metrics.Storage.Writer.{
  Writer, idle, write_entry, release, grow, write_meta, release_chunk, finish, step_from,
  writer_step,
}
use metrics.Storage.Writer.Working.{Working, WorkingAt, published}
use metrics.Storage.Visitor.{Visitor, start, between, inside, done, visitor_step, Steps}
use metrics.Storage.Visitor.Alone.{Ends}
use metrics.Storage.Visitor.During.{Steps-ok, Steps-done, Steps-Ends}

abbrev or_else : {A : Type 0} → A → Outcome A → A
or_else a (ok b) = b
or_else a panic = a
or_else a undefined = a

abbrev w0 : Writer ℕ ℕ
w0 = record { storage = empty 3; phase = idle; items = [] }

unfoldable registering : ℕ → Writer ℕ ℕ → Writer ℕ ℕ
unfolding empty new_chunk add_chunk new_box write_entry release grow write_meta release_chunk finish
    step_from writer_step
registering n w = or_else w (writer_step 0 (λ _. n) w)

-- After the first registration, and after the release of the second.
abbrev w4 : Writer ℕ ℕ
w4 = registering 7 (registering 7 (registering 7 (registering 7 w0)))

abbrev w7 : Writer ℕ ℕ
w7 = registering 8 (registering 8 (registering 8 w4))

-- What the visit shows
abbrev shown : List ℕ
shown = 7 ∷ 8 ∷ []

w0-Working : Working 0 w0
unfolding WorkingAt
w0-Working = empty-Holds 0 3

-- One more step of a registration of `n`
registered :
    (n : ℕ) {w : Writer ℕ ℕ} {v : Visitor ℕ}
    → writer_step 0 (λ _. n) w ≡ ok (registering n w)
    → Steps 0 w0 start w v
    → Steps 0 w0 start (registering n w) v
registered n e steps = Steps.write (λ _. n) steps e

to_w4 : Steps 0 w0 start w4 start
unfolding registering empty new_chunk add_chunk new_box write_entry release grow write_meta
    release_chunk finish step_from writer_step
to_w4 = registered 7 refl (registered 7 refl (registered 7 refl (registered 7 refl Steps.stop)))

to_w7 : Steps 0 w0 start w7 (between (0 ∷ []) [])
unfolding registering empty new_chunk add_chunk new_box write_entry release grow write_meta
    release_chunk finish step_from writer_step visitor_step
to_w7 = registered 8 refl (registered 8 refl (registered 8 refl (Steps.visit to_w4 refl)))

to_done : Steps 0 w0 start w7 (done shown)
unfolding registering empty new_chunk add_chunk new_box write_entry release grow write_meta
    release_chunk finish step_from writer_step visitor_step chunk_get
to_done =
    let in_chunk = Steps.visit {v'' = inside 0 0 2 [] []} to_w7 refl in
    let first = Steps.visit {v'' = inside 0 1 1 [] (7 ∷ [])} in_chunk refl in
    let second = Steps.visit {v'' = inside 0 2 0 [] shown} first refl in
    Steps.visit (Steps.visit {v'' = between [] shown} second refl) refl

Steps-ok_example :
    ((v : Visitor ℕ) × (visitor_step w7.storage (between (0 ∷ []) []) ≡ ok v))
    × ((meta : ItemPtr → ℕ) → (w : Writer ℕ ℕ) × (writer_step 0 meta w7 ≡ ok w))
Steps-ok_example = Steps-ok 0 w0-Working to_w7

Steps-done_example : IsPrefix w0.items shown × IsPrefix shown (published w7)
Steps-done_example = Steps-done 0 w0-Working to_done

Steps-Ends_example : Ends w7.storage (between (0 ∷ []) [])
Steps-Ends_example = Steps-Ends 0 w0-Working to_w7
