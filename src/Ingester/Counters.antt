-- ===== src/Ingester/Counters.antt =====
-- The counters of the ingester, against the recorded calls.
use take_home_assignments.Prelude.{
  ◌≡◌, ◌∙◌, ◌+◌, ◌%◌, ◌^◌, Option, none, some, List, [], ◌∷◌, ◌++◌, arith, length, length-append,
  ap,
}
use take_home_assignments.Series.{SeriesMetadata, DataPoint}
use take_home_assignments.Store.{Error, MetricsStore}
use take_home_assignments.Store.Recorder.{
  Call, points, metadata, recorder, stored_points, stored_metadata, failures, stored_points-append,
  stored_metadata-append, failures-append,
}
use take_home_assignments.Ingester.{flush_points, flush_meta, flush}
use take_home_assignments.Ingester.Flush.{Recording}
use mathlib.Core.List.{append-nil}

-- Each counter is what the calls add up to, modulo 2 ^ 64.
pub record IsAccounted {S : Type 0} (st : MetricsStore S) (i : Recording st) : Type 0 where
  pub flushed_points : i.flushed_points ≡ length (stored_points i.store.calls) % 2 ^ 64
  pub flushed_meta : i.flushed_meta ≡ length (stored_metadata i.store.calls) % 2 ^ 64
  pub flush_errors : i.flush_errors ≡ failures i.store.calls % 2 ^ 64

-- What one more call adds to the three sums.
length-stored_points :
    (cs : List Call) (rows : List DataPoint) (e : Option Error)
    → length (stored_points (cs ++ (points rows e ∷ [])))
      ≡ length (stored_points cs) + elim e [ none ↦ length rows | some _ ↦ 0 ]
unfolding stored_points
length-stored_points cs rows none =
    ap length (stored_points-append cs (points rows none ∷ []))
    ∙ omega (arith, length-append (stored_points cs) (rows ++ []), length-append rows [])
length-stored_points cs rows (some e) =
    ap length (stored_points-append cs (points rows (some e) ∷ []))
    ∙ omega (arith, length-append (stored_points cs) [])

length-stored_metadata :
    (cs : List Call) (rows : List SeriesMetadata) (e : Option Error)
    → length (stored_metadata (cs ++ (metadata rows e ∷ [])))
      ≡ length (stored_metadata cs) + elim e [ none ↦ length rows | some _ ↦ 0 ]
unfolding stored_metadata
length-stored_metadata cs rows none =
    ap length (stored_metadata-append cs (metadata rows none ∷ []))
    ∙ omega (arith, length-append (stored_metadata cs) (rows ++ []), length-append rows [])
length-stored_metadata cs rows (some e) =
    ap length (stored_metadata-append cs (metadata rows (some e) ∷ []))
    ∙ omega (arith, length-append (stored_metadata cs) [])

stored_points-metadata :
    (cs : List Call) (rows : List SeriesMetadata) (e : Option Error)
    → stored_points (cs ++ (metadata rows e ∷ [])) ≡ stored_points cs
unfolding stored_points
stored_points-metadata cs rows e =
    stored_points-append cs (metadata rows e ∷ []) ∙ append-nil (stored_points cs)

stored_metadata-points :
    (cs : List Call) (rows : List DataPoint) (e : Option Error)
    → stored_metadata (cs ++ (points rows e ∷ [])) ≡ stored_metadata cs
unfolding stored_metadata
stored_metadata-points cs rows e =
    stored_metadata-append cs (points rows e ∷ []) ∙ append-nil (stored_metadata cs)

module _ {S : Type 0} (st : MetricsStore S) where
  flush_points-IsAccounted :
      (i : Recording st) → IsAccounted st i → IsAccounted st (flush_points (recorder st) i)
  unfolding flush_points failures
  flush_points-IsAccounted i h =
      let cs = i.store.calls in
      let rows = i.pending_points in
      let e = (st.insert_points rows i.store.inner).1 in
      ground (
        arith,
        length-stored_points cs rows e,
        stored_metadata-points cs rows e,
        failures-append cs (points rows e ∷ []),
      )

  flush_meta-IsAccounted :
      (i : Recording st) → IsAccounted st i → IsAccounted st (flush_meta (recorder st) i)
  unfolding flush_meta failures
  flush_meta-IsAccounted i h =
      let cs = i.store.calls in
      let rows = i.pending_meta in
      let e = (st.insert_metadata rows i.store.inner).1 in
      ground (
        arith,
        length-stored_metadata cs rows e,
        stored_points-metadata cs rows e,
        failures-append cs (metadata rows e ∷ []),
      )

  pub flush-IsAccounted :
      (i : Recording st) → IsAccounted st i → IsAccounted st (flush (recorder st) i)
  unfolding flush
  flush-IsAccounted i h =
      let after = flush_meta-IsAccounted _ (flush_points-IsAccounted i h) in
      ground (arith, after.flushed_points, after.flushed_meta, after.flush_errors)
