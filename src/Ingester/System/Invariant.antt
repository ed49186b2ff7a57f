-- ===== src/Ingester/System/Invariant.antt =====
-- The invariant of the running ingester: it holds in every state that can be reached.
use take_home_assignments.Prelude.{
  ◌≡◌, refl, sym, ap, ℕ, ◌≤◌, true, Option, none, List, [], ◌∷◌, ◌++◌, arith, inl, inr, length,
  length-append,
}
use take_home_assignments.Prelude.Int.{ℤ, pos, negsuc, leb_ℤ, ltb_ℤ}
use take_home_assignments.Series.{SeriesMetadata, DataPoint}
use take_home_assignments.Store.{MetricsStore, Error}
use take_home_assignments.Store.Recorder.{Recorded, recorder}
use take_home_assignments.Ingester.{IngesterConfig, IngestItem, with_defaults}
use take_home_assignments.Ingester.Config.{with_defaults-IsPositive}
use take_home_assignments.Ingester.Flush.{flush-calls}
use take_home_assignments.Ingester.System.{
  System, goes, Choice, enqueue, close_queue, receive, flush_now, new_ingester,
}
use take_home_assignments.Ingester.System.Run.{
  Reach, start, acknowledged, received, flushed, ticked, closing, receive_cases, flush_now_cases,
  enqueue_cases, flush_call_cases,
}
use mathlib.Core.Path.{subst}
use take_home_assignments.Ingester.System.Batches.{
  IsIdle, flush-IsIdle, on_item-IsIdle, start-IsIdle,
}

module _ {S : Type 0} (st : MetricsStore S) (config : IngesterConfig) where
  -- The channel holds no more than its capacity, and a goroutine that has returned has left
  -- nothing queued or pending behind a closed channel.
  pub record IsRunning (sys : System (Recorded S)) : Type 0 where
    pub idle : IsIdle st config sys.flusher
    pub room : leb_ℤ (pos (length sys.queue)) (with_defaults config).queue_capacity ≡ true
    pub finished :
        sys.done ≡ true
        → (sys.closed ≡ true)
          × (sys.queue ≡ [])
          × (sys.flusher.pending_points ≡ [])
          × (sys.flusher.pending_meta ≡ [])

  empty_queue : leb_ℤ (pos 0) (with_defaults config).queue_capacity ≡ true
  empty_queue = let (n, e) = (with_defaults-IsPositive config).2 in ground arith

  le_of_tail : (a b : ℕ) (c : ℤ) → a ≤ b → leb_ℤ (pos b) c ≡ true → leb_ℤ (pos a) c ≡ true
  le_of_tail a b (pos c) h e = ground arith
  le_of_tail a b (negsuc c) h e = cc

  receive-IsRunning :
      (sys : System (Recorded S)) {sys' : System (Recorded S)}
      → IsRunning sys
      → receive (recorder st) sys ≡ goes sys'
      → IsRunning sys'
  receive-IsRunning sys h e = elim (receive_cases st sys e) [
    | inl (item, rest, more, alive, next) ↦ subst IsRunning (sym next) (record {
      idle = on_item-IsIdle st config item sys.flusher h.idle;
      room = le_of_tail (length rest) (length sys.queue) _ (omega (arith, ap length more)) h.room;
      finished = λ d. cc;
    })
    | inr (empty, closed, alive, next) ↦
        let (calls, no_points, no_meta, seen, cfg) = flush-calls st sys.flusher in
        subst IsRunning (sym next) (record {
          idle = flush-IsIdle st config sys.flusher h.idle.cfg h.idle.cache h.idle.accounted;
          room = h.room;
          finished = λ d. (closed, empty, no_points, no_meta);
        })
  ]

  flush_now-IsRunning :
      (sys : System (Recorded S)) {sys' : System (Recorded S)}
      → IsRunning sys
      → flush_now (recorder st) sys ≡ goes sys'
      → IsRunning sys'
  flush_now-IsRunning sys h e =
      let (alive, next) = flush_now_cases st sys e in
      subst IsRunning (sym next) (record {
        idle = flush-IsIdle st config sys.flusher h.idle.cfg h.idle.cache h.idle.accounted;
        room = h.room;
        finished = λ d. absurd (ground arith);
      })

  room_after :
      (q : List IngestItem) (item : IngestItem) (c : ℤ)
      → ltb_ℤ (pos (length q)) c ≡ true
      → leb_ℤ (pos (length (q ++ (item ∷ [])))) c ≡ true
  room_after q item (pos c) e = ground (arith, length-append q (item ∷ []))
  room_after q item (negsuc c) e = cc

  enqueue-IsRunning :
      (choice : Choice) (ctx result : Option Error) (metadata : List SeriesMetadata)
      (points : List DataPoint) (sys : System (Recorded S)) {sys' : System (Recorded S)}
      → IsRunning sys
      → enqueue choice ctx metadata points sys ≡ goes (sys', result)
      → IsRunning sys'
  enqueue-IsRunning choice ctx result metadata points sys h e =
      elim (enqueue_cases choice ctx result metadata points sys e) [
        | inl same ↦ subst IsRunning (sym same) h
        | inr (still_open, room, next) ↦ subst IsRunning (sym next) (record {
          idle = h.idle;
          room =
              room_after sys.queue _ _ (
                subst (λ c. ltb_ℤ (pos (length sys.queue)) c.queue_capacity ≡ true) h.idle.cfg
                  room);
          finished = λ d. absurd (ground (arith, h.finished d));
        })
      ]

  close_queue-IsRunning : (sys : System (Recorded S)) → IsRunning sys → IsRunning (close_queue sys)
  unfolding close_queue
  close_queue-IsRunning sys h = record {
    idle = h.idle;
    room = h.room;
    finished = λ d. (refl, (h.finished d).1, (h.finished d).2, (h.finished d).3);
  }

  -- Every state that the ingester can reach is well formed, whatever its callers do, whatever the
  -- store answers and in whatever order the goroutine takes its rounds: fewer points are pending
  -- than make a batch, the channel holds no more than its capacity, the cache is an LRU set of the
  -- configured size, the counters add up, and a goroutine that has returned left nothing behind.
  pub Reach-IsRunning :
      (world : S) {acc : List IngestItem} {sys : System (Recorded S)}
      → Reach st config world acc sys
      → IsRunning sys
  unfolding new_ingester
  Reach-IsRunning world start = record {
    idle = start-IsIdle st config world;
    room = empty_queue;
    finished = λ d. cc;
  }
  Reach-IsRunning world (acknowledged {sys = sys} choice ctx metadata points r e) =
      enqueue-IsRunning choice ctx none metadata points sys (Reach-IsRunning world r) e
  Reach-IsRunning world (received {sys = sys} r e) =
      receive-IsRunning sys (Reach-IsRunning world r) e
  Reach-IsRunning world (flushed {sys = sys} first second ctx result r e) =
      elim (flush_call_cases st first second ctx result sys e) [
        | inl now ↦ flush_now-IsRunning sys (Reach-IsRunning world r) now
        | inr same ↦ subst IsRunning (sym same) (Reach-IsRunning world r)
      ]
  Reach-IsRunning world (ticked {sys = sys} r e) =
      flush_now-IsRunning sys (Reach-IsRunning world r) e
  Reach-IsRunning world (closing {sys = sys} r) =
      close_queue-IsRunning sys (Reach-IsRunning world r)
