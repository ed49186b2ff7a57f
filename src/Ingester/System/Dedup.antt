-- ===== src/Ingester/System/Dedup.antt =====
-- Metadata across requests: how often a series is described to the store.
use take_home_assignments.Prelude.{◌≡◌, ◌∙◌, sym, ◌≤◌, true, List, [], length}
use take_home_assignments.Mapper.Points.{first_of_each}
use take_home_assignments.Mapper.Metadata.{AreDistinct, row_fingerprints, first_of_each-AreDistinct}
use take_home_assignments.Store.{MetricsStore}
use take_home_assignments.Store.Recorder.{Recorded, attempted_metadata}
use take_home_assignments.Ingester.{IngesterConfig, IngestItem}
use take_home_assignments.Ingester.Once.{pass_once}
use take_home_assignments.Ingester.System.{System}
use take_home_assignments.Ingester.System.Run.{Reach}
use take_home_assignments.Ingester.System.Batches.{cache_size}
use take_home_assignments.Ingester.System.Rows.{rows_of, done_metadata}
use mathlib.Core.Path.{subst}

-- If the cache has room for the distinct fingerprints of all acknowledged rows, then, when the
-- goroutine has returned, the metadata rows handed to the store are the first of each fingerprint,
-- in order, and no two have one fingerprint, over however many requests and batches they came.
pub done_metadata_once :
    {S : Type 0} (st : MetricsStore S) (config : IngesterConfig) (world : S) {acc : List IngestItem}
    {sys : System (Recorded S)}
    → Reach st config world acc sys
    → sys.done ≡ true
    → length (first_of_each [] (rows_of acc)) ≤ cache_size config
    → (attempted_metadata sys.flusher.store.calls ≡ first_of_each [] (rows_of acc))
      × AreDistinct (row_fingerprints (attempted_metadata sys.flusher.store.calls))
done_metadata_once st config world {acc} {sys} r d room =
    let given =
      (done_metadata st config world r d).0 ∙ pass_once (cache_size config) (rows_of acc) room in
    (
      given,
      subst (λ rows. AreDistinct (row_fingerprints rows)) (sym given)
          (first_of_each-AreDistinct (rows_of acc) []),
    )
