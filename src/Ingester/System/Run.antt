-- ===== src/Ingester/System/Run.antt =====
-- The states that the ingester can reach, whatever its callers do and whenever its goroutine runs,
-- with the items that `Enqueue` has acknowledged.
use take_home_assignments.Prelude.{
  ◌≡◌, true, false, Option, none, some, List, [], ◌∷◌, ◌++◌, ◌&&◌, arith, ◌⊎◌, inl, inr, Bool-cases,
  List-cases, length,
}
use take_home_assignments.Prelude.Int.{pos, ltb_ℤ}
use take_home_assignments.Series.{SeriesMetadata, DataPoint}
use take_home_assignments.Store.{MetricsStore, Error}
use take_home_assignments.Store.Recorder.{Recorded, recorder}
use take_home_assignments.Ingester.{IngesterConfig, IngestItem, flush, on_item, is_empty}
use take_home_assignments.Ingester.System.{
  System, goes, Choice, channel, cancelled, send, enqueue, close_queue, receive, flush_now,
  flush_call, new_ingester,
}

abbrev pub item_of : List SeriesMetadata → List DataPoint → IngestItem
item_of metadata points = record { metadata = metadata; points = points }

module _ {S : Type 0} (st : MetricsStore S) (config : IngesterConfig) (world : S) where
  -- `Reach acknowledged sys`: the ingester is at `sys`, and `Enqueue` has returned nil for these
  -- items, in this order. The goroutine's ticker and `Close` may act at any time; a caller whose
  -- `Enqueue` waits or is refused leaves the state as it is.
  pub data Reach : List IngestItem → System (Recorded S) → Type 0 where
    start : Reach [] (new_ingester (recorder st) config (record { inner = world; calls = [] }))
    acknowledged :
        {acc : List IngestItem} {sys sys' : System (Recorded S)} (choice : Choice)
        (ctx : Option Error) (metadata : List SeriesMetadata) (points : List DataPoint)
        → Reach acc sys
        → enqueue choice ctx metadata points sys ≡ goes (sys', none)
        → Reach (acc ++ (item_of metadata points ∷ [])) sys'
    received :
        {acc : List IngestItem} {sys sys' : System (Recorded S)}
        → Reach acc sys
        → receive (recorder st) sys ≡ goes sys'
        → Reach acc sys'
    flushed :
        {acc : List IngestItem} {sys sys' : System (Recorded S)} (first second : Choice)
        (ctx result : Option Error)
        → Reach acc sys
        → flush_call (recorder st) first second ctx sys ≡ goes (sys', result)
        → Reach acc sys'
    ticked :
        {acc : List IngestItem} {sys sys' : System (Recorded S)}
        → Reach acc sys
        → flush_now (recorder st) sys ≡ goes sys'
        → Reach acc sys'
    closing :
        {acc : List IngestItem} {sys : System (Recorded S)}
        → Reach acc sys
        → Reach acc (close_queue sys)

module _ {S : Type 0} (st : MetricsStore S) where
  -- A round with an item, or the last round of the goroutine.
  pub receive_cases :
      (sys : System (Recorded S)) {sys' : System (Recorded S)}
      → receive (recorder st) sys ≡ goes sys'
      → ((item : IngestItem) × (rest : List IngestItem) × (sys.queue ≡ item ∷ rest)
          × (sys.done ≡ false)
          × (sys' ≡ record sys { flusher = on_item (recorder st) item sys.flusher; queue = rest }))
        ⊎ ((sys.queue ≡ [])
            × (sys.closed ≡ true)
            × (sys.done ≡ false)
            × (sys' ≡ record sys { flusher = flush (recorder st) sys.flusher; done = true }))
  unfolding receive
  receive_cases sys e = elim (List-cases sys.queue) [
    | inl empty ↦ inr (empty, ground arith, ground arith, ground arith)
    | inr (item, rest, more) ↦ inl (item, rest, more, ground arith, ground arith)
  ]

  -- `Flush` runs one flush, or nothing if it is cancelled before that.
  pub flush_call_cases :
      (first second : Choice) (ctx result : Option Error) (sys : System (Recorded S))
      {sys' : System (Recorded S)}
      → flush_call (recorder st) first second ctx sys ≡ goes (sys', result)
      → (flush_now (recorder st) sys ≡ goes sys') ⊎ (sys' ≡ sys)
  unfolding flush_call flush_now
  flush_call_cases cancelled second none result sys e = cc
  flush_call_cases cancelled second (some x) result sys e = inr (ground arith)
  flush_call_cases channel channel ctx result sys e = inl (ground arith)
  flush_call_cases channel cancelled none result sys e = inl (ground arith)
  flush_call_cases channel cancelled (some x) result sys e = inl (ground arith)

  pub flush_now_cases :
      (sys : System (Recorded S)) {sys' : System (Recorded S)}
      → flush_now (recorder st) sys ≡ goes sys'
      → (sys.done ≡ false) × (sys' ≡ record sys { flusher = flush (recorder st) sys.flusher })
  unfolding flush_now
  flush_now_cases sys e = (ground arith, ground arith)

module _ {S : Type 0} where
  -- `Enqueue` leaves the state alone, or it appends to an open queue that has room.
  pub enqueue_cases :
      (choice : Choice) (ctx result : Option Error) (metadata : List SeriesMetadata)
      (points : List DataPoint) (sys : System S) {sys' : System S}
      → enqueue choice ctx metadata points sys ≡ goes (sys', result)
      → (sys' ≡ sys)
        ⊎ ((sys.closed ≡ false)
            × (ltb_ℤ (pos (length sys.queue)) sys.flusher.cfg.queue_capacity ≡ true)
            × (sys' ≡ record sys { queue = sys.queue ++ (item_of metadata points ∷ []) }))
  unfolding enqueue send
  enqueue_cases cancelled none result metadata points sys e = inl (ground arith)
  enqueue_cases cancelled (some x) result metadata points sys e = inl (ground arith)
  enqueue_cases channel ctx result metadata points sys e =
      elim (Bool-cases (is_empty metadata && is_empty points)) [
        | inl nothing ↦ inl (ground arith)
        | inr something ↦ inr (ground arith, ground arith, ground arith)
      ]
