-- ===== src/Ingester/Flush.antt =====
-- What `flush` hands to the store, seen through a recorder.
use take_home_assignments.Prelude.{
  ◌≡◌, refl, ap, ◌∙◌, true, Option, List, [], ◌∷◌, ◌++◌, arith, if◌then◌else◌,
}
use take_home_assignments.Series.{SeriesMetadata, DataPoint}
use take_home_assignments.Store.{Error, MetricsStore}
use take_home_assignments.Store.Recorder.{
  Call, points, metadata, Recorded, recorder, attempted_points, attempted_metadata, call_laws,
}
use take_home_assignments.Ingester.{Flusher, is_empty, flush_points, flush_meta, flush}
use mathlib.Core.List.{append-nil, append_assoc}

-- A call with rows, or none for an empty batch.
abbrev pub points_call : List DataPoint → Option Error → List Call
points_call rows e = if is_empty rows then [] else points rows e ∷ []

abbrev pub metadata_call : List SeriesMetadata → Option Error → List Call
metadata_call rows e = if is_empty rows then [] else metadata rows e ∷ []

attempted-points_call :
    (rows : List DataPoint) (e : Option Error) → attempted_points (points_call rows e) ≡ rows
unfolding attempted_points is_empty
attempted-points_call [] e = refl
attempted-points_call (p ∷ rows) e = append-nil (p ∷ rows)

attempted-metadata_call :
    (rows : List SeriesMetadata) (e : Option Error)
    → attempted_metadata (metadata_call rows e) ≡ rows
unfolding attempted_metadata is_empty
attempted-metadata_call [] e = refl
attempted-metadata_call (s ∷ rows) e = append-nil (s ∷ rows)

attempted_points-metadata_call :
    (rows : List SeriesMetadata) (e : Option Error) → attempted_points (metadata_call rows e) ≡ []
unfolding attempted_points is_empty
attempted_points-metadata_call [] e = refl
attempted_points-metadata_call (s ∷ rows) e = refl

attempted_metadata-points_call :
    (rows : List DataPoint) (e : Option Error) → attempted_metadata (points_call rows e) ≡ []
unfolding attempted_metadata is_empty
attempted_metadata-points_call [] e = refl
attempted_metadata-points_call (p ∷ rows) e = refl

nil_of_is_empty {ℓ} : {A : Type ℓ} (xs : List A) → is_empty xs ≡ true → xs ≡ []
unfolding is_empty
nil_of_is_empty [] h = refl
nil_of_is_empty (x ∷ xs) h = cc

module _ {S : Type 0} (st : MetricsStore S) where
  abbrev pub Recording : Type 0
  Recording = Flusher (Recorded S)

  -- The error that the store gives to the pending points of a state, and the world after that.
  abbrev pub points_error : Recording → Option Error
  points_error i = (st.insert_points i.pending_points i.store.inner).1

  -- The error that the store gives to the pending metadata of a state.
  abbrev pub metadata_error : Recording → Option Error
  metadata_error i = (st.insert_metadata i.pending_meta i.store.inner).1

  calls-flush_points :
      (i : Recording)
      → (flush_points (recorder st) i).store.calls
        ≡ i.store.calls ++ points_call i.pending_points (points_error i)
  unfolding flush_points
  calls-flush_points i = ground (arith, append-nil i.store.calls)

  calls-flush_meta :
      (i : Recording)
      → (flush_meta (recorder st) i).store.calls
        ≡ i.store.calls ++ metadata_call i.pending_meta (metadata_error i)
  unfolding flush_meta
  calls-flush_meta i = ground (arith, append-nil i.store.calls)

  frame-flush_points :
      (i : Recording)
      → ((flush_points (recorder st) i).pending_meta ≡ i.pending_meta)
        × ((flush_points (recorder st) i).seen ≡ i.seen)
        × ((flush_points (recorder st) i).cfg ≡ i.cfg)
  unfolding flush_points
  frame-flush_points i = ground arith

  frame-flush_meta :
      (i : Recording)
      → ((flush_meta (recorder st) i).seen ≡ i.seen) × ((flush_meta (recorder st) i).cfg ≡ i.cfg)
  unfolding flush_meta
  frame-flush_meta i = ground arith

  -- `flush` makes at most one call of each insert, points first, with all that was pending and
  -- none with an empty batch; then nothing is pending, whatever the calls returned, and the cache
  -- and the configuration are as before.
  pub flush-calls :
      (i : Recording)
      → ((flush (recorder st) i).store.calls
          ≡ i.store.calls
            ++ (points_call i.pending_points (points_error i)
                ++ metadata_call i.pending_meta (metadata_error (flush_points (recorder st) i))))
        × ((flush (recorder st) i).pending_points ≡ [])
        × ((flush (recorder st) i).pending_meta ≡ [])
        × ((flush (recorder st) i).seen ≡ i.seen)
        × ((flush (recorder st) i).cfg ≡ i.cfg)
  unfolding flush
  flush-calls i =
      let (meta, seen, cfg) = frame-flush_points i in
      ground (
        arith,
        nil_of_is_empty i.pending_points,
        nil_of_is_empty i.pending_meta,
        append-nil i.store.calls,
        calls-flush_points i,
        calls-flush_meta (flush_points (recorder st) i),
        frame-flush_meta (flush_points (recorder st) i),
        append_assoc i.store.calls (points_call i.pending_points (points_error i))
            (metadata_call i.pending_meta (metadata_error (flush_points (recorder st) i))),
      )

  pub flush-attempted_points :
      (i : Recording)
      → attempted_points (flush (recorder st) i).store.calls
        ≡ attempted_points i.store.calls ++ i.pending_points
  flush-attempted_points i =
      let err = metadata_error (flush_points (recorder st) i) in
      ap attempted_points (flush-calls i).0
      ∙ simp (call_laws, attempted-points_call, attempted_points-metadata_call)

  pub flush-attempted_metadata :
      (i : Recording)
      → attempted_metadata (flush (recorder st) i).store.calls
        ≡ attempted_metadata i.store.calls ++ i.pending_meta
  flush-attempted_metadata i =
      ap attempted_metadata (flush-calls i).0
      ∙ simp (call_laws, attempted-metadata_call, attempted_metadata-points_call)
