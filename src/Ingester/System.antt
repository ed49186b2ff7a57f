-- ===== src/Ingester/System.antt =====
-- The ingester with its channels: callers of `Enqueue`, `Flush` and `Close`, and the rounds of the
-- flusher goroutine (`run`), interleaved by a schedule.
pub mod Run
pub mod Points
pub mod Rows
pub mod Batches
pub mod Invariant
pub mod Drain
pub mod Delivery
pub mod Dedup
pub mod Liveness
pub mod Flushing
pub mod Loop
use take_home_assignments.Prelude.{
  ℕ, suc, ◌+◌, Bool, true, false, Option, none, some, List, [], ◌∷◌, ◌++◌, ◌&&◌, length,
  if◌then◌else◌,
}
use take_home_assignments.Prelude.Int.{ℤ, pos, ltb_ℤ}
use take_home_assignments.Series.{SeriesMetadata, DataPoint}
use take_home_assignments.Store.{Error, MetricsStore}
use take_home_assignments.Ingester.{
  IngesterConfig, IngestItem, Flusher, is_empty, flush, on_item, new_flusher,
}

-- `queue` is the buffered channel, `closed` says that it is closed, and `done` that the goroutine
-- has closed `done` and returned.
pub record System (S : Type 0) : Type 0 where
  pub flusher : Flusher S
  pub queue : List IngestItem
  pub closed : Bool
  pub done : Bool

-- The outcome of an attempt: it goes through, it has to wait, or it panics.
pub data Progress {ℓ} (A : Type ℓ) : Type ℓ where
  goes : A → Progress A
  waits : Progress A
  panics : Progress A

infixl 5 ◌>>=◌
abbrev pub ◌>>=◌ {ℓ κ} : {A : Type ℓ} {B : Type κ} → Progress A → (A → Progress B) → Progress B
goes a >>= f = f a
waits >>= f = waits
panics >>= f = panics

-- Which case of a `select` with a channel and `<-ctx.Done()` is taken. Go picks any that is ready.
pub data Choice : Type 0 where
  channel cancelled : Choice

-- `<-ctx.Done()` is ready once the context has an error.
abbrev pub ctx_done {ℓ} : {A : Type ℓ} → Option Error → A → Progress (A × Option Error)
ctx_done none a = waits
ctx_done (some e) a = goes (a, some e)

module _ {S : Type 0} where
  -- A send on the queue: a closed channel panics, a full one lets the sender wait.
  unfoldable pub send : IngestItem → System S → Progress (System S)
  send item sys =
      if sys.closed
      then panics
      else if ltb_ℤ (pos (length sys.queue)) sys.flusher.cfg.queue_capacity
      then goes (record sys { queue = sys.queue ++ (item ∷ []) })
      else waits

  -- `Enqueue`
  unfoldable pub enqueue :
      Choice
      → Option Error
      → List SeriesMetadata
      → List DataPoint
      → System S
      → Progress (System S × Option Error)
  enqueue choice ctx metadata points sys =
      if is_empty metadata && is_empty points then goes (sys, none) else elim choice [
        | channel ↦ do
          sys ← send (record { metadata = metadata; points = points }) sys
          goes (sys, none)
        | cancelled ↦ ctx_done ctx sys
      ]

  -- `Close` up to its `select`: the queue is closed, once.
  unfoldable pub close_queue : System S → System S
  close_queue sys = record sys { closed = true }

  -- the `select` of `Close`
  unfoldable pub await_done : Choice → Option Error → System S → Progress (System S × Option Error)
  await_done channel ctx sys = if sys.done then goes (sys, none) else waits
  await_done cancelled ctx sys = ctx_done ctx sys

module _ {S : Type 0} (st : MetricsStore S) where
  -- `case item, ok := <-i.queue`
  unfoldable pub receive : System S → Progress (System S)
  receive sys = if sys.done then waits else elim sys.queue [
    | item ∷ rest ↦ goes (record sys { flusher = on_item st item sys.flusher; queue = rest })
    | [] ↦
        if sys.closed
        then goes (record sys { flusher = flush st sys.flusher; done = true })
        else waits
  ]

  -- `case req := <-i.flushReq` and `case <-ticker.C`, as long as the goroutine runs
  unfoldable pub flush_now : System S → Progress (System S)
  flush_now sys = if sys.done then waits else goes (record sys { flusher = flush st sys.flusher })

  -- `Flush`: the first select hands the request over, and the flusher answers it before it does
  -- anything else; the second may still be cancelled.
  unfoldable pub flush_call :
      Choice → Choice → Option Error → System S → Progress (System S × Option Error)
  flush_call cancelled second ctx sys = ctx_done ctx sys
  flush_call channel channel ctx sys = do sys ← flush_now sys; goes (sys, none)
  flush_call channel cancelled ctx sys = do sys ← flush_now sys; ctx_done ctx sys

  -- `NewIngester`
  unfoldable pub new_ingester : IngesterConfig → S → System S
  new_ingester config store = record {
    flusher = new_flusher st config store;
    queue = [];
    closed = false;
    done = false;
  }
