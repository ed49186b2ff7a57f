-- ===== src/Clickhouse/Delivery.antt =====
-- The ingester over the ClickHouse store: what its two tables hold in the end.
use take_home_assignments.Prelude.{
  ◌≡◌, refl, sym, ap, ◌∙◌, inl, inr, List, [], ◌∷◌, ◌++◌, map, true,
}
use take_home_assignments.Text.{Str}
use take_home_assignments.Store.Recorder.{
  Call, points, metadata, Recorded, failures, attempted_points, attempted_metadata,
}
use take_home_assignments.Ingester.{IngesterConfig, IngestItem}
use take_home_assignments.Ingester.Metadata.{pass}
use take_home_assignments.Ingester.System.{System}
use take_home_assignments.Ingester.System.Run.{Reach}
use take_home_assignments.Ingester.System.Points.{points_of}
use take_home_assignments.Ingester.System.Rows.{rows_of, done_metadata}
use take_home_assignments.Ingester.System.Batches.{cache_size}
use take_home_assignments.Ingester.System.Drain.{done_attempted}
use take_home_assignments.Ingester.System.Delivery.{IsReadable, all_given, delivered}
use take_home_assignments.Clickhouse.{
  Statement, Value, Conn, insert_into_metrics_meta, insert_into_metrics_point, metadata_row,
  point_row, insert_rows, insert_metadata, insert_points, clickhouse_store,
}
use take_home_assignments.Clickhouse.Inserts.{
  IsBatching, insert_rows_cases, insert_points_written, insert_metadata_written,
}
use mathlib.Core.List.{append-nil, map-append}

-- The rows that a call gives to the points table, and to the lookup table.
abbrev point_rows : Call → List (List Value)
point_rows (points rows e) = map point_row rows
point_rows (metadata rows e) = []

abbrev metadata_rows : Call → List (List Value)
metadata_rows (points rows e) = []
metadata_rows (metadata rows e) = map metadata_row rows

all_given-point_rows :
    (cs : List Call) → all_given point_rows cs ≡ map point_row (attempted_points cs)
unfolding all_given attempted_points
all_given-point_rows [] = refl
all_given-point_rows (points rows e ∷ cs) =
    ap (◌++◌ (map point_row rows)) (all_given-point_rows cs)
    ∙ sym (map-append point_row rows (attempted_points cs))
all_given-point_rows (metadata rows e ∷ cs) = all_given-point_rows cs

all_given-metadata_rows :
    (cs : List Call) → all_given metadata_rows cs ≡ map metadata_row (attempted_metadata cs)
unfolding all_given attempted_metadata
all_given-metadata_rows [] = refl
all_given-metadata_rows (points rows e ∷ cs) = all_given-metadata_rows cs
all_given-metadata_rows (metadata rows e ∷ cs) =
    ap (◌++◌ (map metadata_row rows)) (all_given-metadata_rows cs)
    ∙ sym (map-append metadata_row rows (attempted_metadata cs))

apart : ¬ (insert_into_metrics_meta ≡ insert_into_metrics_point)
apart e = cc

module _ {W : Type 0} (conn : Conn W) (h : IsBatching conn) where
  -- An insert leaves the other tables alone, whether it fails or not.
  insert_rows_aside :
      (into s : Statement) (preparing appending : Str) (rows : List (List Value)) (w : W)
      → ¬ (into ≡ s)
      → h.table s (insert_rows conn into preparing appending rows w).0 ≡ h.table s w
  insert_rows_aside into s preparing appending rows w other =
      elim (insert_rows_cases conn h into preparing appending rows w) [
        | inl (e, refused, kept) ↦ kept s
        | inr (b, w', sent, target, buffer, kept) ↦
            ap (λ r. h.table s r.0) sent
            ∙ h.send_aside b s w' (λ e. other (sym target ∙ e))
            ∙ kept s
      ]

  readable_points : IsReadable (clickhouse_store conn) point_rows
  unfolding insert_metadata
  readable_points = record {
    contents = h.table insert_into_metrics_point;
    points_added = insert_points_written conn h;
    metadata_added = λ rows w e.
        insert_rows_aside _ insert_into_metrics_point _ _ (map metadata_row rows) w apart
        ∙ sym (append-nil (h.table insert_into_metrics_point w));
  }

  readable_metadata : IsReadable (clickhouse_store conn) metadata_rows
  unfolding insert_points
  readable_metadata = record {
    contents = h.table insert_into_metrics_meta;
    points_added = λ rows w e.
        insert_rows_aside _ insert_into_metrics_meta _ _ (map point_row rows) w (λ e. apart (sym e))
        ∙ sym (append-nil (h.table insert_into_metrics_meta w));
    metadata_added = insert_metadata_written conn h;
  }

  -- With a driver that batches as documented, and if no insert has failed by the time the
  -- goroutine has returned, the points table holds what it held at the start and then the row of
  -- each acknowledged point, once and in order.
  pub acknowledged_points_written :
      (config : IngesterConfig) (w : W) {acc : List IngestItem} {sys : System (Recorded W)}
      → Reach (clickhouse_store conn) config w acc sys
      → sys.done ≡ true
      → failures sys.flusher.store.calls ≡ 0
      → h.table insert_into_metrics_point sys.flusher.store.inner
        ≡ h.table insert_into_metrics_point w ++ map point_row (points_of acc)
  unfolding readable_points
  acknowledged_points_written config w {sys = sys} r d clean =
      delivered (clickhouse_store conn) point_rows readable_points config w r clean
      ∙ ap (λ rows. h.table insert_into_metrics_point w ++ rows)
          (all_given-point_rows sys.flusher.store.calls
            ∙ ap (map point_row) (done_attempted (clickhouse_store conn) config w r d))

  -- With a driver that batches as documented, and if no insert has failed by the time the
  -- goroutine has returned, the rows inserted into the lookup table, before the server merges any,
  -- are those from before the start and then those of the acknowledged metadata rows that an LRU set
  -- of the configured size lets pass, in order.
  pub acknowledged_metadata_written :
      (config : IngesterConfig) (w : W) {acc : List IngestItem} {sys : System (Recorded W)}
      → Reach (clickhouse_store conn) config w acc sys
      → sys.done ≡ true
      → failures sys.flusher.store.calls ≡ 0
      → h.table insert_into_metrics_meta sys.flusher.store.inner
        ≡ h.table insert_into_metrics_meta w
          ++ map metadata_row (pass (cache_size config) [] (rows_of acc)).0
  unfolding readable_metadata
  acknowledged_metadata_written config w {sys = sys} r d clean =
      delivered (clickhouse_store conn) metadata_rows readable_metadata config w r clean
      ∙ ap (λ rows. h.table insert_into_metrics_meta w ++ rows)
          (all_given-metadata_rows sys.flusher.store.calls
            ∙ ap (map metadata_row) (done_metadata (clickhouse_store conn) config w r d).0)
