-- ===== src/Examples/Delivering.antt =====
-- The ingester over the ClickHouse client at the connection in memory.
use take_home_assignments.Prelude.{◌≡◌, refl, true, none, some, List, [], ◌∷◌, map}
use take_home_assignments.Store.Recorder.{Recorded, recorder}
use take_home_assignments.Ingester.{IngestItem, flush, on_item}
use take_home_assignments.Ingester.System.{System, channel, close_queue, new_ingester}
use take_home_assignments.Ingester.System.Run.{
  Reach, item_of, start, acknowledged, received, closing,
}
use take_home_assignments.Clickhouse.{
  insert_into_metrics_point, insert_into_metrics_meta, metadata_row, point_row, clickhouse_store,
  insert_metadata, insert_points, insert_rows, append_rows,
}
use take_home_assignments.Clickhouse.Delivery.{acknowledged_points_written}
use take_home_assignments.Series.{SeriesMetadata, DataPoint}
use take_home_assignments.Service.Laws.{item_of_request}
use take_home_assignments.View.{otel_metrics}
use take_home_assignments.Readback.{all_sources, ReadsBack}
use take_home_assignments.Readback.Served.{served-ReadsBack}
use take_home_assignments.Text.{bytes}
use take_home_assignments.Service.{Server, new_server, export}
use take_home_assignments.Service.Serving.{Serving, responded, worked, close_asked, rounds}
use take_home_assignments.Ingester.System.Loop.{queue_case, run_round}
use take_home_assignments.Examples.Mapping.{mapper}
use take_home_assignments.Examples.Reading.{requests, AreTold-requests}
use take_home_assignments.Examples.Data.{
  small_config, two_rows, one_reading, sample_hash, sample_formats, request_of, reordered_gauge,
}
use take_home_assignments.Examples.Writing.{writing}
use take_home_assignments.Examples.Memory.{Memory, memory_conn, memory_batching, table}

unfoldable pub delivering : Unit {0}
unfolding writing insert_metadata insert_points insert_rows append_rows
delivering = tt

abbrev pub empty : Memory
empty = record {
  meta_rows = [];
  point_rows = [];
  pending = [];
  metadata = [];
  points = [];
  found = [];
  hits = [];
}

abbrev opened : System (Recorded Memory)
opened =
    new_ingester (recorder (clickhouse_store memory_conn)) small_config
      (record { inner = empty; calls = [] })

abbrev batch : IngestItem
batch = item_of two_rows one_reading

abbrev shut : System (Recorded Memory)
shut = close_queue (record opened { queue = batch ∷ [] })

abbrev drained : System (Recorded Memory)
drained = record shut {
  flusher = on_item (recorder (clickhouse_store memory_conn)) batch opened.flusher;
  queue = [];
}

abbrev returned : System (Recorded Memory)
returned = record drained {
  flusher = flush (recorder (clickhouse_store memory_conn)) drained.flusher;
  done = true;
}

Reach-returned : Reach (clickhouse_store memory_conn) small_config empty (batch ∷ []) returned
unfolding delivering
Reach-returned =
    received
      (received {sys' = drained}
        (closing (
          acknowledged {sys' = record opened { queue = batch ∷ [] }} channel none two_rows
            one_reading start refl))
        refl)
      refl

acknowledged_points_written_example :
    table insert_into_metrics_point returned.flusher.store.inner ≡ map point_row one_reading
unfolding memory_batching delivering
acknowledged_points_written_example =
    acknowledged_points_written memory_conn memory_batching small_config empty Reach-returned refl
      refl

-- a request, exported to the same connection
abbrev pub exported : IngestItem
exported = item_of_request sample_hash sample_formats (request_of reordered_gauge)

abbrev closing_down : System (Recorded Memory)
closing_down = close_queue (record opened { queue = exported ∷ [] })

abbrev taken : System (Recorded Memory)
taken = record closing_down {
  flusher = on_item (recorder (clickhouse_store memory_conn)) exported opened.flusher;
  queue = [];
}

abbrev pub finished : System (Recorded Memory)
finished = record taken {
  flusher = flush (recorder (clickhouse_store memory_conn)) taken.flusher;
  done = true;
}

abbrev pub stopped : Server (Recorded Memory)
stopped = record (new_server (bytes "localhost:4317") (some opened)) {
  ingester = some finished;
  received = 1;
}

pub Serving-stopped :
    Serving
      (clickhouse_store memory_conn)
      small_config
      empty
      sample_hash
      sample_formats
      requests
      stopped
unfolding delivering mapper export new_server run_round
Serving-stopped =
    worked {sys = taken}
      (worked {sys = closing_down} {sys' = taken}
        (worked {sys = record opened { queue = exported ∷ [] }}
          (responded
            {m' = record (new_server (bytes "localhost:4317") (some opened)) {
              ingester = some (record opened { queue = exported ∷ [] });
              received = 1;
            }}
            channel none (request_of reordered_gauge) (Serving.opened (bytes "localhost:4317"))
            refl)
          refl close_asked)
        refl (rounds queue_case refl))
      refl (rounds queue_case refl)

served-ReadsBack_example :
    (points : List DataPoint) × (rows : List SeriesMetadata) × (table insert_into_metrics_point
        finished.flusher.store.inner
      ≡ map point_row points)
    × (table insert_into_metrics_meta finished.flusher.store.inner ≡ map metadata_row rows)
    × ReadsBack sample_hash sample_formats
        (all_sources sample_hash sample_formats requests)
        (otel_metrics points rows)
unfolding memory_batching delivering mapper
served-ReadsBack_example =
    served-ReadsBack sample_hash sample_formats memory_conn memory_batching small_config empty
      requests AreTold-requests refl refl Serving-stopped refl refl refl
