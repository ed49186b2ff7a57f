-- ===== src/Ingester/System/Points.antt =====
-- No acknowledged point is lost or repeated on its way to the store.
use take_home_assignments.Prelude.{
  ◌≡◌, refl, sym, ap, ◌∙◌, Option, none, List, [], ◌∷◌, ◌++◌, arith, inl, inr,
}
use take_home_assignments.Series.{SeriesMetadata, DataPoint}
use take_home_assignments.Store.{MetricsStore, Error}
use take_home_assignments.Store.Recorder.{Recorded, recorder, attempted_points}
use take_home_assignments.Ingester.{
  IngesterConfig, IngestItem, Flusher, accumulate, flush, on_item, is_empty, new_flusher,
}
use take_home_assignments.Ingester.Flush.{Recording, flush-calls, flush-attempted_points}
use take_home_assignments.Ingester.Metadata.{frame-accumulate_metadata}
use take_home_assignments.Ingester.System.{
  System, goes, Choice, send, enqueue, close_queue, receive, flush_now, flush_call, new_ingester,
}
use take_home_assignments.Ingester.System.Run.{
  item_of, Reach, acknowledged, received, flushed, ticked, closing, start, receive_cases,
  flush_call_cases,
}
use mathlib.Core.Path.{ap₂}
use mathlib.Core.List.{append-nil, append_assoc}

-- The points of a sequence of items.
unfoldable pub points_of : List IngestItem → List DataPoint
points_of [] = []
points_of (item ∷ items) = item.points ++ points_of items

points_of-append : (is js : List IngestItem) → points_of (is ++ js) ≡ points_of is ++ points_of js
unfolding points_of
points_of-append [] js = refl
points_of-append (i ∷ is) js =
    ap (◌++◌ i.points) (points_of-append is js) ∙ sym (append_assoc i.points _ _)

-- What the system holds: the points handed to the store, then those pending, then those queued.
unfoldable pub held_points : {S : Type 0} → System (Recorded S) → List DataPoint
held_points sys =
    (attempted_points sys.flusher.store.calls ++ sys.flusher.pending_points) ++ points_of sys.queue

module _ {S : Type 0} where
  pub enqueue_queue :
      (choice : Choice) (ctx : Option Error) (metadata : List SeriesMetadata)
      (points : List DataPoint) (sys : System S) {sys' : System S}
      → enqueue choice ctx metadata points sys ≡ goes (sys', none)
      → (sys'.flusher ≡ sys.flusher) × (points_of sys'.queue ≡ points_of sys.queue ++ points)
  unfolding enqueue send points_of is_empty
  enqueue_queue choice ctx metadata points sys e = ground (
    arith,
    append-nil points,
    append-nil (points_of sys.queue),
    points_of-append sys.queue (item_of metadata points ∷ []),
  )

module _ {S : Type 0} (st : MetricsStore S) where
  held_flush :
      (i : Recording st)
      → attempted_points (flush (recorder st) i).store.calls
          ++ (flush (recorder st) i).pending_points
        ≡ attempted_points i.store.calls ++ i.pending_points
  held_flush i =
      ap₂ ◌++◌ (flush-attempted_points st i) (flush-calls st i).1
      ∙ append-nil (attempted_points i.store.calls ++ i.pending_points)

  held_on_item :
      (item : IngestItem) (i : Recording st)
      → attempted_points (on_item (recorder st) item i).store.calls
          ++ (on_item (recorder st) item i).pending_points
        ≡ attempted_points i.store.calls ++ (i.pending_points ++ item.points)
  unfolding on_item accumulate
  held_on_item item i = ground (
    arith,
    held_flush (accumulate item i),
    frame-accumulate_metadata item.metadata
        (record i { pending_points = i.pending_points ++ item.points }),
  )

  -- A step of the goroutine moves points and loses none.
  receive_held :
      (sys : System (Recorded S)) {sys' : System (Recorded S)}
      → receive (recorder st) sys ≡ goes sys'
      → held_points sys' ≡ held_points sys
  unfolding held_points points_of
  receive_held sys e = elim (receive_cases st sys e) [
    | inl (item, rest, more, open_still, next) ↦
        ap held_points next
        ∙ ap (λ ps. ps ++ points_of rest)
            (held_on_item item sys.flusher ∙ sym (append_assoc _ _ item.points))
        ∙ append_assoc _ item.points (points_of rest)
        ∙ ap
            (λ q.
              (attempted_points sys.flusher.store.calls ++ sys.flusher.pending_points)
              ++ points_of q)
            (sym more)
    | inr (empty, closed, open_still, next) ↦
        ap held_points next ∙ ap (λ ps. ps ++ points_of sys.queue) (held_flush sys.flusher)
  ]

  flush_now_held :
      (sys : System (Recorded S)) {sys' : System (Recorded S)}
      → flush_now (recorder st) sys ≡ goes sys'
      → held_points sys' ≡ held_points sys
  unfolding flush_now held_points
  flush_now_held sys e = ground (arith, held_flush sys.flusher)

  flush_call_held :
      (first second : Choice) (ctx result : Option Error) (sys : System (Recorded S))
      {sys' : System (Recorded S)}
      → flush_call (recorder st) first second ctx sys ≡ goes (sys', result)
      → held_points sys' ≡ held_points sys
  flush_call_held first second ctx result sys e =
      elim (flush_call_cases st first second ctx result sys e) [
        | inl now ↦ flush_now_held sys now
        | inr same ↦ ap held_points same
      ]

  enqueue_held :
      (choice : Choice) (ctx : Option Error) (metadata : List SeriesMetadata)
      (points : List DataPoint) (sys : System (Recorded S)) {sys' : System (Recorded S)}
      → enqueue choice ctx metadata points sys ≡ goes (sys', none)
      → held_points sys' ≡ held_points sys ++ points
  unfolding held_points
  enqueue_held choice ctx metadata points sys e =
      let (same, queued) = enqueue_queue choice ctx metadata points sys e in
      let before =
        λ (i : Flusher (Recorded S)). attempted_points i.store.calls ++ i.pending_points in
      ap₂ (λ i q. before i ++ q) same queued ∙ sym (append_assoc (before sys.flusher) _ points)

module _ {S : Type 0} (st : MetricsStore S) (config : IngesterConfig) (world : S) where
  -- Every point that `Enqueue` has acknowledged is handed to the store, pending or queued: exactly
  -- once, and in the order of the acknowledgements.
  pub held_conserved :
      {acc : List IngestItem} {sys : System (Recorded S)}
      → Reach st config world acc sys
      → held_points sys ≡ points_of acc
  unfolding held_points points_of new_ingester new_flusher close_queue attempted_points
  held_conserved start = refl
  held_conserved (acknowledged {acc = acc} {sys = sys} choice ctx metadata points r e) =
      enqueue_held st choice ctx metadata points sys e
      ∙ ap (λ ps. ps ++ points) (held_conserved r)
      ∙ ap (◌++◌ (points_of acc)) (sym (append-nil points))
      ∙ sym (points_of-append acc (item_of metadata points ∷ []))
  held_conserved (received {sys = sys} r e) = receive_held st sys e ∙ held_conserved r
  held_conserved (flushed {sys = sys} first second ctx result r e) =
      flush_call_held st first second ctx result sys e ∙ held_conserved r
  held_conserved (ticked {sys = sys} r e) = flush_now_held st sys e ∙ held_conserved r
  held_conserved (closing r) = held_conserved r
