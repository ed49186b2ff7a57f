-- ===== src/Readback/Written.antt =====
-- What `QueryRange` returns of exported requests from the tables that the ingester has written.
use take_home_assignments.Prelude.{◌≡◌, sym, ◌∙◌, ℕ, true, none, some, List, [], map}
use take_home_assignments.Text.{Str}
use take_home_assignments.Series.{SeriesMetadata, DataPoint, Time}
use take_home_assignments.Otlp.{ResourceMetrics}
use take_home_assignments.Fingerprint.{Xxhash}
use take_home_assignments.Mapper.{Formats}
use take_home_assignments.Store.Recorder.{Recorded, stored_points, stored_metadata, failures}
use take_home_assignments.Ingester.{IngesterConfig}
use take_home_assignments.Ingester.System.{System}
use take_home_assignments.Ingester.System.Run.{Reach}
use take_home_assignments.Clickhouse.{
  Conn, insert_into_metrics_meta, insert_into_metrics_point, metadata_row, point_row,
  clickhouse_store, query_range,
}
use take_home_assignments.Clickhouse.Inserts.{IsBatching}
use take_home_assignments.Clickhouse.Reads.{IsDatabase, IsDateTime, seconds}
use take_home_assignments.Readback.{all_sources, items_of, AreTold}
use take_home_assignments.Readback.Rows.{point_rows_inj, metadata_rows_inj}
use take_home_assignments.Readback.Tables.{tables_written}
use take_home_assignments.Readback.Queried.{wanted, query_range_exported}
use take_home_assignments.View.Merged.{IsMerged}
use mathlib.Core.Path.{subst}
use mathlib.Core.List.{Perm}

-- With a driver that batches as documented and two empty tables at the start, if no insert has failed
-- by the time the goroutine has returned, and over a database that answers as documented and has
-- the rows of those tables, or of the lookup table what merges leave of them: a `QueryRange` that returns without an error returns, in some order,
-- exactly the points of the gauge and sum datapoints of the acknowledged requests that are of the
-- service and the metric and from the whole second of `start` to the whole second of `stop`, both
-- included. These are taken to be between 1970 and 2106, the series to be within the ranges of the
-- Go types, and the hash not to collide on any two of them.
pub query_range_written :
    (x : Xxhash) (fm : Formats) {W : Type 0} (conn : Conn W) (h : IsBatching conn)
    (db : IsDatabase conn) (config : IngesterConfig) (w : W)
    (requests : List (List ResourceMetrics)) {sys : System (Recorded W)} (fuel : ℕ)
    (service metric : Str) (start stop : Time) (v : W) (rows : List SeriesMetadata) {v' : W}
    {ps : List DataPoint}
    → AreTold x fm (all_sources x fm requests)
    → h.table insert_into_metrics_point w ≡ []
    → h.table insert_into_metrics_meta w ≡ []
    → Reach (clickhouse_store conn) config w (items_of x fm requests) sys
    → sys.done ≡ true
    → failures sys.flusher.store.calls ≡ 0
    → h.table insert_into_metrics_point sys.flusher.store.inner ≡ map point_row (db.points v)
    → h.table insert_into_metrics_meta sys.flusher.store.inner ≡ map metadata_row rows
    → IsMerged rows (db.meta v)
    → IsDateTime start
    → IsDateTime stop
    → query_range conn fuel service metric start stop v ≡ some (v', ps, none)
    → Perm ps
        (wanted x fm service metric (seconds start) (seconds stop) (all_sources x fm requests))
query_range_written x fm conn h db config w requests {sys} fuel service metric start stop v rows
      told no_points no_rows r d clean points meta merged in_start in_stop e =
    let calls = sys.flusher.store.calls in
    let (written_points, written_rows) =
      tables_written x fm conn h config w requests no_points no_rows r d clean in
    query_range_exported x fm (clickhouse_store conn) config w requests conn db fuel service metric
      start stop v told r d clean
      (point_rows_inj (db.points v) (stored_points calls) (sym points ∙ written_points))
      (subst (λ l. IsMerged l (db.meta v))
        (metadata_rows_inj rows (stored_metadata calls) (sym meta ∙ written_rows)) merged)
      in_start in_stop e
