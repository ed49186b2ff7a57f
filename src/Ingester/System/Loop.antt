-- ===== src/Ingester/System/Loop.antt =====
-- The loop of `run`, whatever its select picks: after `Close` it returns, and loses nothing.
use take_home_assignments.Prelude.{
  ◌≡◌, refl, ap, ℕ, suc, ◌<◌, true, false, none, List, [], ◌∷◌, arith, length, inl, inr, List-cases,
  Bool-cases, if◌then◌else◌,
}
use take_home_assignments.Store.{MetricsStore}
use take_home_assignments.Store.Recorder.{Recorded, recorder, attempted_points}
use take_home_assignments.Ingester.{IngesterConfig, IngestItem, flush, on_item}
use take_home_assignments.Ingester.System.{
  System, Progress, goes, waits, panics, ◌>>=◌, channel, receive, flush_now, await_done,
}
use take_home_assignments.Ingester.System.Run.{Reach, received, ticked}
use take_home_assignments.Ingester.System.Points.{points_of}
use take_home_assignments.Ingester.System.Drain.{done_attempted}
use mathlib.Core.Path.{subst}

-- The cases of the select of `run`.
pub data Case : Type 0 where
  queue_case flush_case ticker_case : Case

-- one round of the loop, with the case that the select picks
unfoldable pub run_round : {S : Type 0} → MetricsStore S → Case → System S → Progress (System S)
run_round st queue_case sys = receive st sys
run_round st flush_case sys = flush_now st sys
run_round st ticker_case sys = flush_now st sys

-- `run`, for as many rounds as there are cases given; it ends early when it returns.
unfoldable pub run_loop : {S : Type 0} → MetricsStore S → List Case → System S → Progress (System S)
run_loop st [] sys = goes sys
run_loop st (case ∷ cases) sys =
    if sys.done then goes sys else (do sys ← run_round st case sys; run_loop st cases sys)

-- How often the select picks the queue.
unfoldable pub queue_rounds : List Case → ℕ
queue_rounds [] = 0
queue_rounds (queue_case ∷ cases) = suc (queue_rounds cases)
queue_rounds (flush_case ∷ cases) = queue_rounds cases
queue_rounds (ticker_case ∷ cases) = queue_rounds cases

>>=-eq-goes :
    {A B : Type 0} (m : Progress A) (f : A → Progress B) {b : B}
    → (m >>= f) ≡ goes b
    → (a : A) × (m ≡ goes a) × (f a ≡ goes b)
>>=-eq-goes (goes a) f e = (a, refl, e)
>>=-eq-goes waits f e = cc
>>=-eq-goes panics f e = cc

run_loop-done :
    {S : Type 0} (st : MetricsStore S) (cases : List Case) (sys : System S)
    → sys.done ≡ true
    → run_loop st cases sys ≡ goes sys
unfolding run_loop
run_loop-done st [] sys d = refl
run_loop-done st (case ∷ cases) sys d = rw d refl

module _ {S : Type 0} (st : MetricsStore S) where
  -- A closed queue with fewer items than the rounds that take from it is drained.
  loop_drains :
      (cases : List Case) (sys : System S)
      → sys.closed ≡ true
      → sys.done ≡ false
      → length sys.queue < queue_rounds cases
      → (sys' : System S) × (run_loop st cases sys ≡ goes sys') × (sys'.done ≡ true)
  unfolding run_loop run_round queue_rounds receive flush_now
  loop_drains [] sys closed alive enough = absurd (omega arith)
  loop_drains (flush_case ∷ cases) sys closed alive enough =
      let (sys', run, end) =
        loop_drains cases (record sys { flusher = flush st sys.flusher }) closed alive enough in
      (sys', ground (arith, alive, run), end)
  loop_drains (ticker_case ∷ cases) sys closed alive enough =
      let (sys', run, end) =
        loop_drains cases (record sys { flusher = flush st sys.flusher }) closed alive enough in
      (sys', ground (arith, alive, run), end)
  loop_drains (queue_case ∷ cases) sys closed alive enough = elim (List-cases sys.queue) [
    | inl empty ↦
        let last = record sys { flusher = flush st sys.flusher; done = true } in
        (last, ground (arith, alive, empty, closed, run_loop-done st cases last refl), refl)
    | inr (item, rest, more) ↦
        let next = record sys { flusher = on_item st item sys.flusher; queue = rest } in
        let (sys', run, end) =
          loop_drains cases next closed alive (ground (arith, ap length more)) in
        (sys', ground (arith, alive, more, run), end)
  ]

module _ {S : Type 0} (st : MetricsStore S) (config : IngesterConfig) (world : S) where
  pub Reach-run_round :
      (case : Case) {acc : List IngestItem} {sys sys' : System (Recorded S)}
      → Reach st config world acc sys
      → run_round (recorder st) case sys ≡ goes sys'
      → Reach st config world acc sys'
  unfolding run_round
  Reach-run_round queue_case r e = received r e
  Reach-run_round flush_case r e = ticked r e
  Reach-run_round ticker_case r e = ticked r e

  Reach-run_loop :
      (cases : List Case) {acc : List IngestItem} {sys sys' : System (Recorded S)}
      → Reach st config world acc sys
      → run_loop (recorder st) cases sys ≡ goes sys'
      → Reach st config world acc sys'
  unfolding run_loop
  Reach-run_loop [] {acc} r e = subst (Reach st config world acc) (ground arith) r
  Reach-run_loop (case ∷ cases) {acc} {sys} {sys'} r e = elim (Bool-cases sys.done) [
    | inl d ↦ subst (Reach st config world acc) (ground (arith, d)) r
    | inr alive ↦
        let more : (run_round (recorder st) case sys >>= run_loop (recorder st) cases) ≡ goes sys' =
          ground (arith, alive) in
        let (next, step, rest) =
          >>=-eq-goes (run_round (recorder st) case sys) (run_loop (recorder st) cases) more in
        Reach-run_loop cases (Reach-run_round case r step) rest
  ]

  -- After `Close` has closed the queue of a running ingester, the loop of the goroutine returns,
  -- whatever the store answers and however flush requests and ticks come in between, if its select
  -- picks the queue once more often than there are queued items; `Close` then returns nil, and every
  -- point that `Enqueue` had acknowledged has been handed to the store, once and in order.
  pub shutdown_complete :
      (cases : List Case) {acc : List IngestItem} {sys : System (Recorded S)}
      → Reach st config world acc sys
      → sys.closed ≡ true
      → sys.done ≡ false
      → length sys.queue < queue_rounds cases
      → (sys' : System (Recorded S)) × (run_loop (recorder st) cases sys ≡ goes sys')
        × (await_done channel none sys' ≡ goes (sys', none))
        × (attempted_points sys'.flusher.store.calls ≡ points_of acc)
  unfolding await_done
  shutdown_complete cases {sys = sys} r closed alive enough =
      let (sys', run, end) = loop_drains (recorder st) cases sys closed alive enough in
      (sys', run, rw end refl, done_attempted st config world (Reach-run_loop cases r run) end)
