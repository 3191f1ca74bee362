-- ===== src/Storage/Visitor/During.antt =====
-- A visit and the registrations of another thread, interleaved in any order.
use metrics.Common.{◌≡◌, ◌∙◌, sym, subst, List, length}
use metrics.Common.Panic.{ok, ok-injective}
use metrics.Storage.{ItemPtr}
use metrics.Storage.Prefix.{
  IsPrefix, IsPrefix-refl, IsPrefix-trans, length-IsPrefix, IsPrefix-shorter,
}
use metrics.Storage.Writer.{Writer, writer_step}
use metrics.Storage.Writer.Working.{Working, published}
use metrics.Storage.Writer.Steps.{step_from-Working}
use metrics.Storage.Visitor.{Visitor, start, done, visitor_step, Steps, stop, write, visit}
use metrics.Storage.Visitor.Readable.{Working-Readable}
use metrics.Storage.Visitor.Seen.{SeenAt, SeenAt-extends}
use metrics.Storage.Visitor.Alone.{Ends}
use metrics.Storage.Visitor.Progress.{visitor_step-SeenAt, Ends-SeenAt}

module _ {S T : Type 0} (default : S) where
  -- Where a visit stands that began when `old` was registered.
  record Visiting (old : List T) (w : Writer S T) (v : Visitor T) : Type 0 where
    working : Working default w
    kept : IsPrefix old w.items
    seen : SeenAt (length w.storage.meta_chunks) old (published w) v

  visitor_step-Visiting :
      (old : List T) (w : Writer S T) (v : Visitor T)
      → Visiting old w v
      → (v' : Visitor T) × (visitor_step w.storage v ≡ ok v') × Visiting old w v'
  visitor_step-Visiting old w v h =
      let readable = Working-Readable default w.phase w.storage w.items h.working in
      let (v', e, seen) =
        visitor_step-SeenAt w.storage w.items (published w) old readable
          (length-IsPrefix old w.items h.kept) v h.seen in
      (v', e, record { working = h.working; kept = h.kept; seen = seen })

  writer_step-Visiting :
      (old : List T) (w : Writer S T) (v : Visitor T) (meta : ItemPtr → T)
      → Visiting old w v
      → (w' : Writer S T) × (writer_step default meta w ≡ ok w') × Visiting old w' v
  unfolding writer_step
  writer_step-Visiting old w v meta h =
      let (w', e, working, ext) =
        step_from-Working default meta w.phase w.storage w.items h.working in
      (
        w',
        e,
        record {
          working = working;
          kept = IsPrefix-trans old w.items w'.items h.kept ext.more_items;
          seen =
              SeenAt-extends _ _ old (published w) (published w') v ext.more_chunks
                ext.more_published h.seen;
        },
      )

  Steps-Visiting :
      {w w' : Writer S T} {v v' : Visitor T} (old : List T)
      → Steps default w v w' v'
      → Visiting old w v
      → Visiting old w' v'
  Steps-Visiting old stop h = h
  Steps-Visiting old (write {w' = w1} {v' = v1} meta steps e) h =
      let (w2, f, h2) = writer_step-Visiting old w1 v1 meta (Steps-Visiting old steps h) in
      subst (λ w. Visiting old w v1) (ok-injective (sym f ∙ e)) h2
  Steps-Visiting old (visit {w' = w1} {v' = v1} steps e) h =
      let (v2, f, h2) = visitor_step-Visiting old w1 v1 (Steps-Visiting old steps h) in
      subst (Visiting old w1) (ok-injective (sym f ∙ e)) h2

  start-Visiting : (w : Writer S T) → Working default w → Visiting w.items w start
  unfolding SeenAt
  start-Visiting w h = record { working = h; kept = IsPrefix-refl w.items; seen = tt }

  -- Let a visit begin on a shard that satisfies its invariant, and run at the same time as any number
  -- of registrations, in any order of their steps. Then no step of either panics or touches an entry
  -- that was not written: each of them has a next state.
  pub Steps-ok :
      {w w' : Writer S T} {v' : Visitor T}
      → Working default w
      → Steps default w start w' v'
      → ((v : Visitor T) × (visitor_step w'.storage v' ≡ ok v))
        × ((meta : ItemPtr → T) → (w'' : Writer S T) × (writer_step default meta w' ≡ ok w''))
  Steps-ok {w} {w'} {v'} working steps =
      let h = Steps-Visiting w.items steps (start-Visiting w working) in
      let (v, e, _) = visitor_step-Visiting w.items w' v' h in
      ((v, e), λ meta. let (w2, f, _) = writer_step-Visiting w.items w' v' meta h in (w2, f))

  -- Let a visit of a shard that satisfies its invariant run to its end while registrations run, in any
  -- order of their steps. What it was shown is a front of what is published at its end, in the order of
  -- registration and each item once, and holds all whose registration had returned when it began.
  pub Steps-done :
      {w w' : Writer S T} {seen : List T}
      → Working default w
      → Steps default w start w' (done seen)
      → IsPrefix w.items seen × IsPrefix seen (published w')
  unfolding SeenAt
  Steps-done {w} {w'} {seen} working steps =
      let h = Steps-Visiting w.items steps (start-Visiting w working) in
      let newer = (Working-Readable default w'.phase w'.storage w'.items h.working).front in
      let old = IsPrefix-trans w.items w'.items (published w') h.kept newer in
      (IsPrefix-shorter w.items seen (published w') old h.seen.0 h.seen.1, h.seen.0)

  -- From whatever point of such a run, a finite number of the visit's own steps ends it: it waits for
  -- no registration.
  pub Steps-Ends :
      {w w' : Writer S T} {v' : Visitor T}
      → Working default w
      → Steps default w start w' v'
      → Ends w'.storage v'
  Steps-Ends {w} {w'} {v'} working steps =
      let h = Steps-Visiting w.items steps (start-Visiting w working) in
      let readable = Working-Readable default w'.phase w'.storage w'.items h.working in
      Ends-SeenAt w'.storage w'.items (published w') w.items readable
        (length-IsPrefix w.items w'.items h.kept) v' h.seen
