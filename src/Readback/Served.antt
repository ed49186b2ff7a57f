-- ===== src/Readback/Served.antt =====
-- The whole program: what the tables show of the requests that the server has responded to.
use take_home_assignments.Prelude.{◌≡◌, ℕ, true, none, some, List, [], map}
use take_home_assignments.Text.{Str}
use take_home_assignments.Series.{SeriesMetadata, DataPoint, Time}
use take_home_assignments.Otlp.{ResourceMetrics}
use take_home_assignments.Fingerprint.{Xxhash}
use take_home_assignments.Mapper.{Formats}
use take_home_assignments.Store.{MetricsStore}
use take_home_assignments.Store.Recorder.{Recorded, failures}
use take_home_assignments.Ingester.{IngesterConfig}
use take_home_assignments.Ingester.System.{System}
use take_home_assignments.Ingester.System.Run.{Reach}
use take_home_assignments.Clickhouse.{
  Conn, insert_into_metrics_meta, insert_into_metrics_point, metadata_row, point_row,
  clickhouse_store, query_range,
}
use take_home_assignments.Clickhouse.Inserts.{IsBatching}
use take_home_assignments.Clickhouse.Reads.{IsDatabase, IsDateTime, seconds}
use take_home_assignments.Service.{Server}
use take_home_assignments.Service.Serving.{Serving, Serving-Reach}
use take_home_assignments.View.{otel_metrics}
use take_home_assignments.View.Merged.{IsMerged}
use take_home_assignments.Readback.{all_sources, items_of, ReadsBack, AreTold}
use take_home_assignments.Readback.Queried.{wanted}
use take_home_assignments.Readback.Tables.{tables-ReadsBack}
use take_home_assignments.Readback.Written.{query_range_written}
use mathlib.Core.Path.{subst}
use mathlib.Core.List.{Perm}

module _ (x : Xxhash) (fm : Formats) where
  pub served-Reach :
      {S : Type 0} (st : MetricsStore S) (config : IngesterConfig) (world : S)
      {requests : List (List ResourceMetrics)} {m : Server (Recorded S)} {sys : System (Recorded S)}
      → Serving st config world x fm requests m
      → m.ingester ≡ some sys
      → Reach st config world (items_of x fm requests) sys
  served-Reach st config world {requests} {m} {sys} serving here =
      let (known, there, r) = Serving-Reach st config world x fm serving in
      let same : known ≡ sys = cc in subst (Reach st config world (items_of x fm requests)) same r

  -- A server that writes to two empty tables through a driver that batches as documented has responded
  -- without an error to some requests, its goroutine has returned, and no insert has failed: then the
  -- tables hold the rows of points and of series from which the view makes one row for each gauge or
  -- sum datapoint of those requests, in order, with the columns of its point and a description of its
  -- own series. The series are taken to be within the ranges of the Go types, and the hash not to
  -- collide on any two of them.
  pub served-ReadsBack :
      {W : Type 0} (conn : Conn W) (h : IsBatching conn) (config : IngesterConfig) (w : W)
      (requests : List (List ResourceMetrics)) {m : Server (Recorded W)} {sys : System (Recorded W)}
      → AreTold x fm (all_sources x fm requests)
      → h.table insert_into_metrics_point w ≡ []
      → h.table insert_into_metrics_meta w ≡ []
      → Serving (clickhouse_store conn) config w x fm requests m
      → m.ingester ≡ some sys
      → sys.done ≡ true
      → failures sys.flusher.store.calls ≡ 0
      → (points : List DataPoint) × (rows : List SeriesMetadata) × (h.table
            insert_into_metrics_point sys.flusher.store.inner
          ≡ map point_row points)
        × (h.table insert_into_metrics_meta sys.flusher.store.inner ≡ map metadata_row rows)
        × ReadsBack x fm (all_sources x fm requests) (otel_metrics points rows)
  served-ReadsBack conn h config w requests told no_points no_rows serving here =
      tables-ReadsBack x fm conn h config w requests told no_points no_rows
        (served-Reach (clickhouse_store conn) config w serving here)

  -- A server that writes to two empty tables through a driver that batches as documented has responded
  -- without an error to some requests, its goroutine has returned, and no insert has failed; a
  -- database that answers as documented has the rows of those tables, or of the lookup table what
  -- merges leave of them. Then a `QueryRange` that
  -- returns without an error returns, in some order, exactly the points of the gauge and sum
  -- datapoints of those requests that are of the service and the metric and from the whole second of
  -- `start` to the whole second of `stop`, both included. These are taken to be between 1970 and 2106,
  -- the series to be within the ranges of the Go types, and the hash not to collide on any two of
  -- them.
  pub query_range_served :
      {W : Type 0} (conn : Conn W) (h : IsBatching conn) (db : IsDatabase conn)
      (config : IngesterConfig) (w : W) (requests : List (List ResourceMetrics))
      {m : Server (Recorded W)} {sys : System (Recorded W)} (fuel : ℕ) (service metric : Str)
      (start stop : Time) (v : W) (rows : List SeriesMetadata) {v' : W} {ps : List DataPoint}
      → AreTold x fm (all_sources x fm requests)
      → h.table insert_into_metrics_point w ≡ []
      → h.table insert_into_metrics_meta w ≡ []
      → Serving (clickhouse_store conn) config w x fm requests m
      → m.ingester ≡ some sys
      → sys.done ≡ true
      → failures sys.flusher.store.calls ≡ 0
      → h.table insert_into_metrics_point sys.flusher.store.inner ≡ map point_row (db.points v)
      → h.table insert_into_metrics_meta sys.flusher.store.inner ≡ map metadata_row rows
      → IsMerged rows (db.meta v)
      → IsDateTime start
      → IsDateTime stop
      → query_range conn fuel service metric start stop v ≡ some (v', ps, none)
      → Perm ps
          (wanted x fm service metric (seconds start) (seconds stop) (all_sources x fm requests))
  query_range_served conn h db config w requests fuel service metric start stop v rows told
        no_points no_rows serving here =
      query_range_written x fm conn h db config w requests fuel service metric start stop v rows
        told no_points no_rows (served-Reach (clickhouse_store conn) config w serving here)
