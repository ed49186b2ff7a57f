-- ===== src/Ingester/System/Drain.antt =====
-- What has been handed over and stored when the goroutine has returned.
use take_home_assignments.Prelude.{◌≡◌, refl, ap, ◌∙◌, true, none, some, List, [], ◌∷◌, ◌++◌, arith}
use take_home_assignments.Store.{MetricsStore}
use take_home_assignments.Store.Recorder.{
  Call, points, metadata, Recorded, attempted_points, attempted_metadata, stored_points,
  stored_metadata, failures,
}
use take_home_assignments.Ingester.{IngesterConfig, IngestItem}
use take_home_assignments.Ingester.System.{System}
use take_home_assignments.Ingester.System.Run.{Reach}
use take_home_assignments.Ingester.System.Points.{points_of, held_points, held_conserved}
use take_home_assignments.Ingester.System.Invariant.{Reach-IsRunning}
use mathlib.Core.List.{append-nil}

module _ {S : Type 0} (st : MetricsStore S) (config : IngesterConfig) (world : S) where
  -- When the goroutine has returned, every acknowledged point has been handed to the store.
  pub done_attempted :
      {acc : List IngestItem} {sys : System (Recorded S)}
      → Reach st config world acc sys
      → sys.done ≡ true
      → attempted_points sys.flusher.store.calls ≡ points_of acc
  unfolding held_points points_of
  done_attempted {sys = sys} r d =
      let (closed, no_queue, no_points, no_meta) = (Reach-IsRunning st config world r).finished d in
      ground (
        arith,
        held_conserved st config world r,
        append-nil (attempted_points sys.flusher.store.calls),
      )

-- Where no call failed, what was handed over is stored.
stored_of_no_failures : (cs : List Call) → failures cs ≡ 0 → stored_points cs ≡ attempted_points cs
unfolding failures stored_points attempted_points
stored_of_no_failures [] h = refl
stored_of_no_failures (points rows none ∷ cs) h = ap (◌++◌ rows) (stored_of_no_failures cs h)
stored_of_no_failures (points rows (some e) ∷ cs) h = absurd (omega arith)
stored_of_no_failures (metadata rows none ∷ cs) h = stored_of_no_failures cs h
stored_of_no_failures (metadata rows (some e) ∷ cs) h = absurd (omega arith)

pub stored_metadata_of_no_failures :
    (cs : List Call) → failures cs ≡ 0 → stored_metadata cs ≡ attempted_metadata cs
unfolding failures stored_metadata attempted_metadata
stored_metadata_of_no_failures [] h = refl
stored_metadata_of_no_failures (metadata rows none ∷ cs) h =
    ap (◌++◌ rows) (stored_metadata_of_no_failures cs h)
stored_metadata_of_no_failures (metadata rows (some e) ∷ cs) h = absurd (omega arith)
stored_metadata_of_no_failures (points rows none ∷ cs) h = stored_metadata_of_no_failures cs h
stored_metadata_of_no_failures (points rows (some e) ∷ cs) h = absurd (omega arith)

-- If no call of the store has failed by the time the goroutine has returned, the stored points are
-- exactly the acknowledged ones, in order.
pub done_stored :
    {S : Type 0} (st : MetricsStore S) (config : IngesterConfig) (world : S) {acc : List IngestItem}
    {sys : System (Recorded S)}
    → Reach st config world acc sys
    → sys.done ≡ true
    → failures sys.flusher.store.calls ≡ 0
    → stored_points sys.flusher.store.calls ≡ points_of acc
done_stored st config world {sys = sys} r d none_failed =
    stored_of_no_failures sys.flusher.store.calls none_failed ∙ done_attempted st config world r d
