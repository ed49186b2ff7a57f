-- ===== src/Ingester/System/Flushing.antt =====
-- What `Flush` promises to a caller, once it has returned nil.
use take_home_assignments.Prelude.{◌≡◌, ap, ◌∙◌, Option, none, some, List, [], ◌++◌}
use take_home_assignments.Store.{MetricsStore, Error}
use take_home_assignments.Store.Recorder.{Recorded, recorder, attempted_points}
use take_home_assignments.Ingester.{IngesterConfig, IngestItem}
use take_home_assignments.Ingester.Flush.{flush-calls, flush-attempted_points}
use take_home_assignments.Ingester.System.{
  System, Progress, goes, waits, panics, ◌>>=◌, ctx_done, Choice, channel, cancelled, flush_now,
  flush_call,
}
use take_home_assignments.Ingester.System.Run.{Reach, flush_now_cases}
use take_home_assignments.Ingester.System.Points.{points_of, held_points, held_conserved}

returned_nil :
    {A : Type 0} (m : Progress A) {a : A}
    → ◌>>=◌ {B = A × Option Error} m (λ b. goes (b, none)) ≡ goes (a, none)
    → m ≡ goes a
returned_nil (goes b) e = cc
returned_nil waits e = cc
returned_nil panics e = cc

cancelled_not_nil :
    {A : Type 0} (ctx : Option Error) (m : Progress A) {a : A}
    → (m >>= ctx_done ctx) ≡ goes (a, none)
    → m ≡ goes a
cancelled_not_nil none (goes b) e = cc
cancelled_not_nil (some x) (goes b) e = cc
cancelled_not_nil ctx waits e = cc
cancelled_not_nil ctx panics e = cc

module _ {S : Type 0} (st : MetricsStore S) where
  -- A `Flush` that returns nil has run one flush.
  flush_call_nil :
      (first second : Choice) (ctx : Option Error) (sys : System (Recorded S))
      {sys' : System (Recorded S)}
      → flush_call (recorder st) first second ctx sys ≡ goes (sys', none)
      → flush_now (recorder st) sys ≡ goes sys'
  unfolding flush_call
  flush_call_nil cancelled second none sys e = cc
  flush_call_nil cancelled second (some x) sys e = cc
  flush_call_nil channel channel ctx sys e = returned_nil (flush_now (recorder st) sys) e
  flush_call_nil channel cancelled ctx sys e = cancelled_not_nil ctx (flush_now (recorder st) sys) e

  -- In every state that an ingester can reach, after a `Flush` that returns nil nothing is pending,
  -- the queue is as it was, and the points handed to the store are the acknowledged ones, in order,
  -- all but those of the items that are still queued.
  pub flush_covers :
      {config : IngesterConfig} {world : S} {acc : List IngestItem} {sys sys' : System (Recorded S)}
      (first second : Choice) (ctx : Option Error)
      → Reach st config world acc sys
      → flush_call (recorder st) first second ctx sys ≡ goes (sys', none)
      → (attempted_points sys'.flusher.store.calls ++ points_of sys'.queue ≡ points_of acc)
        × (sys'.queue ≡ sys.queue)
        × (sys'.flusher.pending_points ≡ [])
        × (sys'.flusher.pending_meta ≡ [])
  unfolding held_points
  flush_covers {config} {world} {acc} {sys} first second ctx r e =
      let next = (flush_now_cases st sys (flush_call_nil first second ctx sys e)).1 in
      let (calls, no_points, no_meta, seen, cfg) = flush-calls st sys.flusher in
      (
        ap (λ s. attempted_points s.flusher.store.calls ++ points_of s.queue) next
            ∙ ap (λ ps. ps ++ points_of sys.queue) (flush-attempted_points st sys.flusher)
            ∙ held_conserved st config world r,
        ap (λ s. s.queue) next,
        ap (λ s. s.flusher.pending_points) next ∙ no_points,
        ap (λ s. s.flusher.pending_meta) next ∙ no_meta,
      )
