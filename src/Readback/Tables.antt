-- ===== src/Readback/Tables.antt =====
-- The tables of ClickHouse after a run of the ingester over exported requests.
use take_home_assignments.Prelude.{◌≡◌, sym, ap, ◌∙◌, true, List, [], ◌++◌, map}
use take_home_assignments.Series.{SeriesMetadata, DataPoint}
use take_home_assignments.Otlp.{ResourceMetrics}
use take_home_assignments.Fingerprint.{Xxhash}
use take_home_assignments.Mapper.{Formats}
use take_home_assignments.Store.Recorder.{Recorded, stored_points, stored_metadata, failures}
use take_home_assignments.Ingester.{IngesterConfig}
use take_home_assignments.Ingester.System.{System}
use take_home_assignments.Ingester.System.Run.{Reach}
use take_home_assignments.Ingester.System.Points.{points_of}
use take_home_assignments.Ingester.System.Batches.{cache_size}
use take_home_assignments.Ingester.Metadata.{pass}
use take_home_assignments.Ingester.System.Rows.{rows_of, done_metadata}
use take_home_assignments.Ingester.System.Drain.{done_stored, stored_metadata_of_no_failures}
use take_home_assignments.Clickhouse.{
  Conn, insert_into_metrics_meta, insert_into_metrics_point, metadata_row, point_row,
  clickhouse_store,
}
use take_home_assignments.Clickhouse.Inserts.{IsBatching}
use take_home_assignments.Clickhouse.Delivery.{
  acknowledged_points_written, acknowledged_metadata_written,
}
use take_home_assignments.View.{otel_metrics}
use take_home_assignments.Readback.{all_sources, items_of, ReadsBack, AreTold}
use take_home_assignments.Readback.Delivered.{export-ReadsBack}

-- With a driver that batches as documented and two empty tables at the start, and if no insert has
-- failed by the time the goroutine has returned, the tables hold the rows that were stored.
pub tables_written :
    (x : Xxhash) (fm : Formats) {W : Type 0} (conn : Conn W) (h : IsBatching conn)
    (config : IngesterConfig) (w : W) (requests : List (List ResourceMetrics))
    {sys : System (Recorded W)}
    → h.table insert_into_metrics_point w ≡ []
    → h.table insert_into_metrics_meta w ≡ []
    → Reach (clickhouse_store conn) config w (items_of x fm requests) sys
    → sys.done ≡ true
    → failures sys.flusher.store.calls ≡ 0
    → (h.table insert_into_metrics_point sys.flusher.store.inner
        ≡ map point_row (stored_points sys.flusher.store.calls))
      × (h.table insert_into_metrics_meta sys.flusher.store.inner
          ≡ map metadata_row (stored_metadata sys.flusher.store.calls))
tables_written x fm conn h config w requests {sys} no_points no_rows r d clean =
    let st = clickhouse_store conn in
    let items = items_of x fm requests in
    let calls = sys.flusher.store.calls in
    let kept = stored_metadata_of_no_failures calls clean ∙ (done_metadata st config w r d).0 in
    (
      acknowledged_points_written conn h config w r d clean
          ∙ ap (λ rows. rows ++ map point_row (points_of items)) no_points
          ∙ ap (map point_row) (sym (done_stored st config w r d clean)),
      acknowledged_metadata_written conn h config w r d clean
          ∙ ap (λ rows. rows ++ map metadata_row (pass (cache_size config) [] (rows_of items)).0)
              no_rows
          ∙ ap (map metadata_row) (sym kept),
    )

-- With a driver that batches as documented and two empty tables at the start, and if no insert has
-- failed by the time the goroutine has returned, the tables hold the rows of points and of series from
-- which the view makes one row for each gauge or sum datapoint of the acknowledged requests, in
-- order, with the columns of its point and a description of its own series: where the series are
-- within the ranges of the Go types and the hash does not collide on any two of them.
pub tables-ReadsBack :
    (x : Xxhash) (fm : Formats) {W : Type 0} (conn : Conn W) (h : IsBatching conn)
    (config : IngesterConfig) (w : W) (requests : List (List ResourceMetrics))
    {sys : System (Recorded W)}
    → AreTold x fm (all_sources x fm requests)
    → h.table insert_into_metrics_point w ≡ []
    → h.table insert_into_metrics_meta w ≡ []
    → Reach (clickhouse_store conn) config w (items_of x fm requests) sys
    → sys.done ≡ true
    → failures sys.flusher.store.calls ≡ 0
    → (points : List DataPoint) × (rows : List SeriesMetadata) × (h.table insert_into_metrics_point
          sys.flusher.store.inner
        ≡ map point_row points)
      × (h.table insert_into_metrics_meta sys.flusher.store.inner ≡ map metadata_row rows)
      × ReadsBack x fm (all_sources x fm requests) (otel_metrics points rows)
tables-ReadsBack x fm conn h config w requests {sys} told no_points no_rows r d clean =
    let calls = sys.flusher.store.calls in
    let (points, rows) = tables_written x fm conn h config w requests no_points no_rows r d clean in
    (
      stored_points calls,
      stored_metadata calls,
      points,
      rows,
      export-ReadsBack x fm (clickhouse_store conn) config w requests told r d clean,
    )
