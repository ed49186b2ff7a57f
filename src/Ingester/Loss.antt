-- ===== src/Ingester/Loss.antt =====
-- What a failed write loses.
use take_home_assignments.Prelude.{◌≡◌, refl, ap, ◌∙◌, ℕ, Option, some, List, [], ◌∷◌}
use take_home_assignments.Series.{SeriesMetadata, DataPoint}
use take_home_assignments.Cache.Lists.{values}
use take_home_assignments.Cache.Invariant.{IsCache}
use take_home_assignments.Store.{MetricsStore, Error}
use take_home_assignments.Store.Recorder.{recorder, stored_metadata, call_laws}
use take_home_assignments.Ingester.{IngestItem, accumulate, flush, flush_points, is_empty}
use take_home_assignments.Ingester.Flush.{
  Recording, flush-calls, metadata_error, points_call, metadata_call,
}
use take_home_assignments.Ingester.Metadata.{
  pass_held, AreHeld, accumulate-pass, frame-accumulate_metadata,
}

stored-points_call :
    (rows : List DataPoint) (e : Option Error) → stored_metadata (points_call rows e) ≡ []
unfolding stored_metadata is_empty
stored-points_call [] e = refl
stored-points_call (p ∷ rows) e = refl

stored-metadata_call_failed :
    (rows : List SeriesMetadata) (e : Error) → stored_metadata (metadata_call rows (some e)) ≡ []
unfolding stored_metadata is_empty
stored-metadata_call_failed [] e = refl
stored-metadata_call_failed (s ∷ rows) e = refl

module _ {S : Type 0} (st : MetricsStore S) (n : ℕ) where
  -- A flush that cannot store its metadata, or has none, stores none.
  stored_metadata-flush :
      (i : Recording st) (e : Error)
      → metadata_error st (flush_points (recorder st) i) ≡ some e
      → stored_metadata (flush (recorder st) i).store.calls ≡ stored_metadata i.store.calls
  stored_metadata-flush i e h =
      ap stored_metadata (flush-calls st i).0
      ∙ simp (call_laws, stored-points_call, h, stored-metadata_call_failed)

  stored_metadata-flush_none :
      (i : Recording st)
      → i.pending_meta ≡ []
      → stored_metadata (flush (recorder st) i).store.calls ≡ stored_metadata i.store.calls
  unfolding is_empty stored_metadata
  stored_metadata-flush_none i h =
      ap stored_metadata (flush-calls st i).0 ∙ rw h (simp (call_laws, stored-points_call))

  store-accumulate : (item : IngestItem) (i : Recording st) → (accumulate item i).store ≡ i.store
  unfolding accumulate
  store-accumulate item i = (frame-accumulate_metadata item.metadata _).1

  -- Metadata that a flush fails to store stays lost: with a well-formed cache, and when series
  -- arrive whose fingerprints it holds after that flush, the next flush stores no metadata row
  -- either.
  pub failed_metadata_lost :
      (i : Recording st) (item : IngestItem) (e : Error)
      → IsCache n i.seen
      → metadata_error st (flush_points (recorder st) i) ≡ some e
      → AreHeld (values i.seen.order) item.metadata
      → stored_metadata (flush (recorder st) (accumulate item (flush (recorder st) i))).store.calls
        ≡ stored_metadata i.store.calls
  failed_metadata_lost i item e cache failed held =
      let after = flush (recorder st) i in
      let (calls, no_points, no_meta, seen, cfg) = flush-calls st i in
      let cache' : IsCache n after.seen = rw seen cache in
      let nothing : (accumulate item after).pending_meta ≡ [] =
        (accumulate-pass n item after cache').2
        ∙ rw (no_meta, seen) (pass_held n (values i.seen.order) item.metadata held) in
      stored_metadata-flush_none (accumulate item after) nothing
      ∙ ap (λ r. stored_metadata r.calls) (store-accumulate item after)
      ∙ stored_metadata-flush i e failed
