-- ===== src/Readback/Merged.antt =====
-- What the view shows of exported requests after the server has merged the lookup table.
use take_home_assignments.Prelude.{
  ◌≡◌, sym, ◌∙◌, ap, ℕ, true, some, List, [], ◌∷◌, map, inl, inr, All, All-mono, All-zip,
}
use take_home_assignments.Series.{SeriesMetadata, DataPoint}
use take_home_assignments.Otlp.{ResourceMetrics}
use take_home_assignments.Fingerprint.{Xxhash}
use take_home_assignments.Fingerprint.Identity.{IsSeries}
use take_home_assignments.Mapper.{Formats}
use take_home_assignments.Mapper.Points.{Source}
use take_home_assignments.Mapper.Content.{IsRow}
use take_home_assignments.Store.{MetricsStore}
use take_home_assignments.Store.Recorder.{Recorded, stored_points, stored_metadata, failures}
use take_home_assignments.Ingester.{IngesterConfig}
use take_home_assignments.Ingester.Metadata.{pass}
use take_home_assignments.Ingester.System.{System}
use take_home_assignments.Ingester.System.Run.{Reach}
use take_home_assignments.Ingester.System.Batches.{cache_size}
use take_home_assignments.Ingester.System.Rows.{rows_of, done_metadata}
use take_home_assignments.Ingester.System.Drain.{done_stored, stored_metadata_of_no_failures}
use take_home_assignments.Clickhouse.{
  Conn, insert_into_metrics_meta, insert_into_metrics_point, metadata_row, point_row,
  clickhouse_store,
}
use take_home_assignments.Clickhouse.Inserts.{IsBatching}
use take_home_assignments.Service.{Server}
use take_home_assignments.Service.Serving.{Serving}
use take_home_assignments.View.{otel_metrics}
use take_home_assignments.View.Described.{contains-find_row, described, otel_metrics-described}
use take_home_assignments.View.Filtered.{contains-find_row-some}
use take_home_assignments.View.Members.{Has, find_row-Has, Has-find_row}
use take_home_assignments.View.Merged.{IsMerged, sort_key-fingerprint}
use take_home_assignments.Readback.{all_sources, items_of, ReadsBack, AreTold}
use take_home_assignments.Readback.Requests.{points_of-items, all_sources-IsRow}
use take_home_assignments.Readback.Delivered.{
  Describes, Known, Known-pass, same_series, All-Describes, ReadsBack-described,
}
use take_home_assignments.Readback.Tables.{tables_written}
use take_home_assignments.Readback.Rows.{point_rows_inj, metadata_rows_inj}
use take_home_assignments.Readback.Served.{served-Reach}
use mathlib.Core.Path.{subst}

All-Has :
    (P : SeriesMetadata → Type 0) (rows : List SeriesMetadata) (m : SeriesMetadata)
    → All P rows
    → Has m rows
    → P m
All-Has P [] m hs there = absurd there
All-Has P (r ∷ rows) m hs (inl e) = subst P (sym e) hs.0
All-Has P (r ∷ rows) m hs (inr there) = All-Has P rows m hs.1 there

module _ (x : Xxhash) (fm : Formats) where
  -- Merges leave a row for each fingerprint, and each row that is left describes its sources.
  Describes-merged :
      (rows rows' : List SeriesMetadata) (s : Source)
      → IsMerged rows rows'
      → IsRow x fm s.0
      → IsSeries s.0
      → All (Known x fm s.0) rows
      → Describes x fm rows s
      → Describes x fm rows' s
  Describes-merged rows rows' s merged row hs known (there, describes) =
      let f = s.0.fingerprint in
      let (m, found) = contains-find_row f rows there in
      let (inside, is_f) = find_row-Has f rows m found in
      let (n, left, key) = merged.covered m inside in
      let (k, found') = Has-find_row f rows' n left (sort_key-fingerprint n m key ∙ is_f) in
      (
        contains-find_row-some f rows' k found',
        λ t e.
            let (left', same) = find_row-Has f rows' t e in
            same_series x fm s.0 t row hs
              (All-Has (Known x fm s.0) rows t known (merged.kept t left')) same,
      )

  All-Describes-merged :
      (requests : List (List ResourceMetrics)) (n : ℕ) (rows' : List SeriesMetadata)
      → AreTold x fm (all_sources x fm requests)
      → IsMerged (pass n [] (rows_of (items_of x fm requests))).0 rows'
      → All (Describes x fm rows') (all_sources x fm requests)
  All-Describes-merged requests n rows' told merged =
      let ss = all_sources x fm requests in
      let rows = (pass n [] (rows_of (items_of x fm requests))).0 in
      All-mono _ (Describes x fm rows') ss
        (λ s h.
          let (row, ((hs, apart), describes)) = h in
          Describes-merged rows rows' s merged row hs (Known-pass x fm requests n s.0 told apart)
            describes)
        (All-zip _ _ ss (all_sources-IsRow x fm requests)
          (All-zip _ _ ss told (All-Describes x fm requests n told)))

  merged-ReadsBack :
      {S : Type 0} (st : MetricsStore S) (config : IngesterConfig) (world : S)
      (requests : List (List ResourceMetrics)) (rows' : List SeriesMetadata)
      {sys : System (Recorded S)}
      → AreTold x fm (all_sources x fm requests)
      → Reach st config world (items_of x fm requests) sys
      → sys.done ≡ true
      → failures sys.flusher.store.calls ≡ 0
      → IsMerged (stored_metadata sys.flusher.store.calls) rows'
      → ReadsBack x fm
          (all_sources x fm requests)
          (otel_metrics (stored_points sys.flusher.store.calls) rows')
  merged-ReadsBack st config world requests rows' {sys} told r d clean merged =
      let ss = all_sources x fm requests in
      let calls = sys.flusher.store.calls in
      let given = done_stored st config world r d clean ∙ points_of-items x fm requests in
      let kept =
        stored_metadata_of_no_failures calls clean ∙ (done_metadata st config world r d).0 in
      subst (ReadsBack x fm ss)
        (sym (
          otel_metrics-described (stored_points calls) rows' ∙ ap (λ ps. described ps rows') given))
        (ReadsBack-described x fm rows' ss (
          All-Describes-merged requests (cache_size config) rows' told
            (subst (λ rows. IsMerged rows rows') kept merged)))

  -- A server that writes to two empty tables through a driver that batches as documented has responded
  -- without an error to some requests, its goroutine has returned, and no insert has failed. Then,
  -- whatever merges leave of the rows of the lookup table and in whatever order, the view of that and
  -- the points table has one row for each gauge or sum datapoint of those requests, in order, with the
  -- columns of its point and a description of its own series. The series are taken to be within the
  -- ranges of the Go types, and the hash not to collide on any two of them.
  pub served_merged-ReadsBack :
      {W : Type 0} (conn : Conn W) (h : IsBatching conn) (config : IngesterConfig) (w : W)
      (requests : List (List ResourceMetrics)) (points : List DataPoint)
      (rows rows' : List SeriesMetadata) {m : Server (Recorded W)} {sys : System (Recorded W)}
      → AreTold x fm (all_sources x fm requests)
      → h.table insert_into_metrics_point w ≡ []
      → h.table insert_into_metrics_meta w ≡ []
      → Serving (clickhouse_store conn) config w x fm requests m
      → m.ingester ≡ some sys
      → sys.done ≡ true
      → failures sys.flusher.store.calls ≡ 0
      → h.table insert_into_metrics_point sys.flusher.store.inner ≡ map point_row points
      → h.table insert_into_metrics_meta sys.flusher.store.inner ≡ map metadata_row rows
      → IsMerged rows rows'
      → ReadsBack x fm (all_sources x fm requests) (otel_metrics points rows')
  served_merged-ReadsBack conn h config w requests points rows rows' {sys = sys} told no_points
        no_rows serving here d clean has_points has_rows merged =
      let st = clickhouse_store conn in
      let calls = sys.flusher.store.calls in
      let r = served-Reach x fm st config w serving here in
      let (written_points, written_rows) =
        tables_written x fm conn h config w requests no_points no_rows r d clean in
      let same = point_rows_inj points (stored_points calls) (sym has_points ∙ written_points) in
      let sent = metadata_rows_inj rows (stored_metadata calls) (sym has_rows ∙ written_rows) in
      subst (λ ps. ReadsBack x fm (all_sources x fm requests) (otel_metrics ps rows')) (sym same)
        (merged-ReadsBack st config w requests rows' told r d clean
          (subst (λ l. IsMerged l rows') sent merged))
