-- ===== src/Ingester/System/Liveness.antt =====
-- The ingester never blocks for good: what can go on in every state that it can reach.
use take_home_assignments.Prelude.{
  ◌≡◌, refl, ap, ◌⊎◌, inl, inr, ℕ, suc, true, false, Option, none, List, [], ◌∷◌, ◌++◌, ◌&&◌, arith,
  length, Bool-cases,
}
use take_home_assignments.Prelude.Int.{ℤ, pos, negsuc, leb_ℤ, ltb_ℤ}
use take_home_assignments.Series.{SeriesMetadata, DataPoint}
use take_home_assignments.Store.{MetricsStore, Error}
use take_home_assignments.Store.Recorder.{Recorded, recorder}
use take_home_assignments.Ingester.{IngesterConfig, IngestItem, is_empty, on_item}
use take_home_assignments.Ingester.Config.{IsPositive, with_defaults-IsPositive}
use take_home_assignments.Ingester.System.{System, goes, channel, send, enqueue, receive}
use take_home_assignments.Ingester.System.Run.{Reach, item_of}
use take_home_assignments.Ingester.System.Batches.{on_item-IsIdle}
use take_home_assignments.Ingester.System.Invariant.{Reach-IsRunning}

module _ {S : Type 0} where
  -- With room in an open channel, `Enqueue` returns nil at once.
  enqueue-room :
      (metadata : List SeriesMetadata) (points : List DataPoint) (ctx : Option Error)
      (sys : System S)
      → sys.closed ≡ false
      → ltb_ℤ (pos (length sys.queue)) sys.flusher.cfg.queue_capacity ≡ true
      → (sys' : System S) × (enqueue channel ctx metadata points sys ≡ goes (sys', none))
  unfolding enqueue send
  enqueue-room metadata points ctx sys open_still room =
      elim (Bool-cases (is_empty metadata && is_empty points)) [
        | inl nothing ↦ (sys, rw nothing refl)
        | inr something ↦
            (record sys { queue = sys.queue ++ (item_of metadata points ∷ []) }, ground arith)
      ]

-- A full queue is not empty, and without its head it has room.
full_nonempty :
    (q : List IngestItem) (c : ℤ)
    → IsPositive c
    → ltb_ℤ (pos (length q)) c ≡ false
    → (item : IngestItem) × (rest : List IngestItem) × (q ≡ item ∷ rest)
full_nonempty [] c (n, e) full = absurd (ground arith)
full_nonempty (item ∷ rest) c h full = (item, rest, refl)

room_after : (a b : ℕ) (c : ℤ) → a ≡ suc b → leb_ℤ (pos a) c ≡ true → ltb_ℤ (pos b) c ≡ true
room_after a b (pos c) h e = ground arith
room_after a b (negsuc c) h e = cc

module _ {S : Type 0} (st : MetricsStore S) (config : IngesterConfig) (world : S) where
  receive-head :
      (sys : System (Recorded S)) (item : IngestItem) (rest : List IngestItem)
      → sys.done ≡ false
      → sys.queue ≡ item ∷ rest
      → receive (recorder st) sys
        ≡ goes (record sys { flusher = on_item (recorder st) item sys.flusher; queue = rest })
  unfolding receive
  receive-head sys item rest alive more = ground (arith, alive, more)

  -- In every state that an ingester can reach and whose channel is open, an `Enqueue` returns nil at
  -- once, or a round of the goroutine is possible and after it the `Enqueue` returns nil: a full
  -- queue holds a caller back until the next round, never for good.
  pub enqueue_progress :
      {acc : List IngestItem} {sys : System (Recorded S)} (metadata : List SeriesMetadata)
      (points : List DataPoint) (ctx : Option Error)
      → Reach st config world acc sys
      → sys.closed ≡ false
      → ((sys' : System (Recorded S)) × (enqueue channel ctx metadata points sys
            ≡ goes (sys', none)))
        ⊎ ((next sys' : System (Recorded S)) × (receive (recorder st) sys ≡ goes next)
            × (enqueue channel ctx metadata points next ≡ goes (sys', none)))
  enqueue_progress {sys = sys} metadata points ctx r open_still =
      let running = Reach-IsRunning st config world r in
      elim (Bool-cases (ltb_ℤ (pos (length sys.queue)) sys.flusher.cfg.queue_capacity)) [
        | inl room ↦ inl (enqueue-room metadata points ctx sys open_still room)
        | inr full ↦
            let alive : sys.done ≡ false = elim (Bool-cases sys.done) [
              | inl d ↦ absurd (ground (arith, running.finished d))
              | inr alive ↦ alive
            ] in
            let positive : IsPositive sys.flusher.cfg.queue_capacity =
              rw running.idle.cfg (with_defaults-IsPositive config).2 in
            let (item, rest, more) = full_nonempty sys.queue _ positive full in
            let next = record sys {
              flusher = on_item (recorder st) item sys.flusher;
              queue = rest;
            } in
            let cfg = (on_item-IsIdle st config item sys.flusher running.idle).cfg in
            let room : ltb_ℤ (pos (length next.queue)) next.flusher.cfg.queue_capacity ≡ true =
              rw cfg
                (room_after (length sys.queue) (length rest) _ (ap length more) running.room) in
            let (sys', returns) = enqueue-room metadata points ctx next open_still room in
            inr (next, sys', receive-head sys item rest alive more, returns)
      ]
