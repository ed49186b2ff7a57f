-- ===== src/Readback/Queried.antt =====
-- What `QueryRange` returns of the exported requests.
use take_home_assignments.Prelude.{
  ◌≡◌, refl, sym, ◌∙◌, ℕ, true, none, some, List, [], ◌∷◌, ◌&&◌, map, All, All-mono, All-zip,
  contains, if◌then◌else◌,
}
use take_home_assignments.Prelude.Int.{leb_ℤ}
use take_home_assignments.Text.{Str, str_eq}
use take_home_assignments.Series.{SeriesMetadata, DataPoint, Time, unix_nano}
use take_home_assignments.Otlp.{ResourceMetrics}
use take_home_assignments.Fingerprint.{Xxhash}
use take_home_assignments.Mapper.{Formats, point_of}
use take_home_assignments.Mapper.Points.{Source, point}
use take_home_assignments.Store.{MetricsStore}
use take_home_assignments.Store.Recorder.{Recorded, stored_points, stored_metadata, failures}
use take_home_assignments.Ingester.{IngesterConfig}
use take_home_assignments.Ingester.Metadata.{pass}
use take_home_assignments.Ingester.System.{System}
use take_home_assignments.Ingester.System.Run.{Reach}
use take_home_assignments.Ingester.System.Batches.{cache_size}
use take_home_assignments.Ingester.System.Rows.{rows_of, done_metadata}
use take_home_assignments.Ingester.System.Drain.{done_stored, stored_metadata_of_no_failures}
use take_home_assignments.Clickhouse.{Conn, query_range}
use take_home_assignments.Clickhouse.Reads.{
  IsDatabase, IsDateTime, seconds, fingerprints_for, points_between,
}
use take_home_assignments.View.Merged.{IsMerged, query_range-merged}
use take_home_assignments.View.Described.{contains-find_row}
use take_home_assignments.View.Filtered.{is_named, AreNamed, fingerprints_for-some}
use take_home_assignments.Readback.{all_sources, items_of, AreTold}
use take_home_assignments.Readback.Requests.{points_of-items, All-rows_of-items, all_sources-IsRow}
use take_home_assignments.Readback.Delivered.{
  All-pass, Known, Known-pass, same_series, Describes, All-Describes,
}
use mathlib.Core.Path.{subst, ap₂}
use mathlib.Core.List.{Perm}

module _ (x : Xxhash) (fm : Formats) where
  -- The points of the datapoints of a service and a metric in a time window, both ends included.
  unfoldable pub wanted : Str → Str → Time → Time → List Source → List DataPoint
  wanted service metric start stop [] = []
  wanted service metric start stop (s ∷ ss) =
      let rest = wanted service metric start stop ss in
      let t = unix_nano (point x fm s).time_unix in
      if is_named service metric s.0 && (leb_ℤ (unix_nano start) t && leb_ℤ t (unix_nano stop))
      then point x fm s ∷ rest
      else rest

  points_between-wanted :
      (service metric : Str) (start stop : Time) (fps : List ℕ) (ss : List Source)
      → All (λ (s : Source). contains fps s.0.fingerprint ≡ is_named service metric s.0) ss
      → points_between fps start stop (map (point x fm) ss) ≡ wanted service metric start stop ss
  unfolding points_between wanted point_of
  points_between-wanted service metric start stop fps [] h = refl
  points_between-wanted service metric start stop fps ((s, dp) ∷ ss) h =
      rw h.0 (rw (points_between-wanted service metric start stop fps ss h.1) refl)

  -- The rows that pass the cache agree on the names of a fingerprint.
  pass-AreNamed :
      (requests : List (List ResourceMetrics)) (n : ℕ)
      → AreTold x fm (all_sources x fm requests)
      → AreNamed (pass n [] (rows_of (items_of x fm requests))).0
  pass-AreNamed requests n told =
      let ss = all_sources x fm requests in
      let rows = rows_of (items_of x fm requests) in
      let passed = (pass n [] rows).0 in
      let agrees = λ (m t : SeriesMetadata).
        m.fingerprint ≡ t.fingerprint
        → (m.service_name ≡ t.service_name) × (m.metric_name ≡ t.metric_name) in
      let named = λ (m : SeriesMetadata). All (agrees m) passed in
      All-pass named n [] rows (
        All-rows_of-items x fm named requests (
          All-mono _ (λ (s : Source). named s.0) ss
            (λ s h.
              let (row, (hs, apart)) = h in
              All-mono (Known x fm s.0) (agrees s.0) passed
                (λ t known e.
                  let same = same_series x fm s.0 t row hs known (sym e) in
                  (sym same.service_name, sym same.metric_name))
                (Known-pass x fm requests n s.0 told apart))
            (All-zip _ _ ss (all_sources-IsRow x fm requests) told)))

  fingerprints_for-Describes :
      (service metric : Str) (rows : List SeriesMetadata) (s : Source)
      → AreNamed rows
      → Describes x fm rows s
      → contains (fingerprints_for service metric rows) s.0.fingerprint
        ≡ is_named service metric s.0
  fingerprints_for-Describes service metric rows s named (there, describes) =
      let (m, found) = contains-find_row s.0.fingerprint rows there in
      let same = describes m found in
      fingerprints_for-some service metric s.0.fingerprint rows m named found
      ∙ ap₂ (λ a b. str_eq a service && str_eq b metric) same.service_name same.metric_name

  -- Over a database that answers as documented and holds exactly the points that the ingester has
  -- stored, and of the series that it has stored what merges of the lookup table leave, and if no call of the store has failed by the time the goroutine has returned, a
  -- `QueryRange` that returns without an error returns, in some order, exactly the points of the
  -- gauge and sum datapoints of the acknowledged requests that are of the service and the metric and
  -- from the whole second of `start` to the whole second of `stop`, both included: where these are
  -- between 1970 and 2106, the series are within the ranges of the Go types and the hash does not
  -- collide on any two of them.
  pub query_range_exported :
      {S W : Type 0} (st : MetricsStore S) (config : IngesterConfig) (world : S)
      (requests : List (List ResourceMetrics)) {sys : System (Recorded S)} (conn : Conn W)
      (db : IsDatabase conn) (fuel : ℕ) (service metric : Str) (start stop : Time) (w : W) {w' : W}
      {ps : List DataPoint}
      → AreTold x fm (all_sources x fm requests)
      → Reach st config world (items_of x fm requests) sys
      → sys.done ≡ true
      → failures sys.flusher.store.calls ≡ 0
      → db.points w ≡ stored_points sys.flusher.store.calls
      → IsMerged (stored_metadata sys.flusher.store.calls) (db.meta w)
      → IsDateTime start
      → IsDateTime stop
      → query_range conn fuel service metric start stop w ≡ some (w', ps, none)
      → Perm ps (wanted service metric (seconds start) (seconds stop) (all_sources x fm requests))
  query_range_exported st config world requests {sys} conn db fuel service metric start stop w
        {ps = ps} told r d clean points merged in_start in_stop e =
      let ss = all_sources x fm requests in
      let n = cache_size config in
      let rows = (pass n [] (rows_of (items_of x fm requests))).0 in
      let given = points ∙ done_stored st config world r d clean ∙ points_of-items x fm requests in
      let kept =
        stored_metadata_of_no_failures sys.flusher.store.calls clean
        ∙ (done_metadata st config world r d).0 in
      let named = pass-AreNamed requests n told in
      let found =
        All-mono (Describes x fm rows)
          (λ (s : Source).
            contains (fingerprints_for service metric rows) s.0.fingerprint
            ≡ is_named service metric s.0)
          ss (λ s h. fingerprints_for-Describes service metric rows s named h)
          (All-Describes x fm requests n told) in
      subst (Perm ps)
        (ap₂
            (λ ms qs.
              points_between (fingerprints_for service metric ms) (seconds start) (seconds stop) qs)
            kept given
          ∙ points_between-wanted service metric (seconds start) (seconds stop)
              (fingerprints_for service metric rows) ss found)
        (query_range-merged conn db fuel service metric start stop w
          (stored_metadata sys.flusher.store.calls) merged in_start in_stop e)
