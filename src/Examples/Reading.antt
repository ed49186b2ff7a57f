-- ===== src/Examples/Reading.antt =====
-- A request through the whole program: exported, written, and read back.
use take_home_assignments.Prelude.{◌≡◌, refl, arith, ℕ, true, none, some, List, [], ◌∷◌, map}
use take_home_assignments.Prelude.Int.{pos}
use take_home_assignments.Text.{bytes, str_eq}
use take_home_assignments.Otlp.{ResourceMetrics}
use take_home_assignments.Series.{Time, unix_nano}
use take_home_assignments.Mapper.Points.{
  column_values, metric_sources, sources_of, scope_sources, sources, first_of_each,
}
use take_home_assignments.Store.Recorder.{
  Recorded, recorder, stored_points, stored_metadata, failures,
}
use take_home_assignments.Ingester.{IngestItem, flush, on_item}
use take_home_assignments.Ingester.System.{System, channel, close_queue, new_ingester}
use take_home_assignments.Ingester.System.Run.{Reach, start, acknowledged, received, closing}
use take_home_assignments.Service.Laws.{item_of_request}
use take_home_assignments.Clickhouse.{query_range, query_points, after_fingerprints, collect}
use take_home_assignments.Clickhouse.Reads.{seconds, fingerprints_for, points_between}
use take_home_assignments.View.{otel_metrics}
use take_home_assignments.View.Described.{described, otel_metrics-described}
use take_home_assignments.View.Filtered.{selected, point_columns, AreNamed, query_range-selected}
use take_home_assignments.Readback.{all_sources, items_of, ReadsBack, AreTold}
use take_home_assignments.Readback.Delivered.{export-ReadsBack}
use take_home_assignments.Examples.Data.{
  sample_hash, sample_formats, request_of, reordered_gauge, counting_store, small_config, two_rows,
  reading,
}
use take_home_assignments.Examples.Mapping.{mapper, IsSeries-ba}
use take_home_assignments.Examples.Writing.{writing}
use take_home_assignments.Examples.Memory.{Memory, memory_conn, memory_database}
use mathlib.Core.List.{Perm}

unfoldable pub reading_back : Unit {0}
unfolding mapper writing all_sources sources scope_sources sources_of metric_sources column_values
    first_of_each stored_points stored_metadata failures query_range query_points after_fingerprints
    collect fingerprints_for points_between str_eq unix_nano
reading_back = tt

abbrev pub requests : List (List ResourceMetrics)
requests = request_of reordered_gauge ∷ []

abbrev item : IngestItem
item = item_of_request sample_hash sample_formats (request_of reordered_gauge)

abbrev opened : System (Recorded ℕ)
opened = new_ingester (recorder counting_store) small_config (record { inner = 0; calls = [] })

abbrev shut : System (Recorded ℕ)
shut = close_queue (record opened { queue = item ∷ [] })

abbrev drained : System (Recorded ℕ)
drained = record shut {
  flusher = on_item (recorder counting_store) item opened.flusher;
  queue = [];
}

abbrev returned : System (Recorded ℕ)
returned = record drained { flusher = flush (recorder counting_store) drained.flusher; done = true }

Reach-returned :
    Reach counting_store small_config 0 (items_of sample_hash sample_formats requests) returned
unfolding reading_back
Reach-returned =
    received
      (received {sys' = drained}
        (closing (
          acknowledged {sys' = record opened { queue = item ∷ [] }} channel none item.metadata
            item.points start refl))
        refl)
      refl

pub AreTold-requests :
    AreTold sample_hash sample_formats (all_sources sample_hash sample_formats requests)
unfolding reading_back
AreTold-requests = ((IsSeries-ba, (λ e. refl, tt)), tt)

export-ReadsBack_example :
    ReadsBack sample_hash sample_formats (all_sources sample_hash sample_formats requests) (
      otel_metrics
        (stored_points returned.flusher.store.calls)
        (stored_metadata returned.flusher.store.calls))
unfolding reading_back
export-ReadsBack_example =
    export-ReadsBack sample_hash sample_formats counting_store small_config 0 requests
      AreTold-requests Reach-returned refl refl

-- a database that holds what the ingester has stored
abbrev stored : Memory
stored = record {
  meta_rows = [];
  point_rows = [];
  pending = [];
  metadata = stored_metadata returned.flusher.store.calls;
  points = stored_points returned.flusher.store.calls;
  found = [];
  hits = [];
}

abbrev pub at : ℕ → Time
at n = record { sec = pos n; nsec = 5 }

queried :
    query_range memory_conn 3 (bytes "shop") (bytes "g") (at 0) (at 1) stored
    ≡ some (stored, item.points, none)
unfolding reading_back
queried = refl

otel_metrics-described_example :
    otel_metrics (reading 7 ∷ reading 9 ∷ []) two_rows
    ≡ described (reading 7 ∷ reading 9 ∷ []) two_rows
otel_metrics-described_example = otel_metrics-described (reading 7 ∷ reading 9 ∷ []) two_rows

AreNamed-stored : AreNamed stored.metadata
unfolding reading_back
AreNamed-stored = ((λ e. (refl, refl), tt), tt)

query_range-selected_example : Perm item.points (
    map point_columns (
      selected
        (bytes "shop")
        (bytes "g")
        (seconds (at 0))
        (seconds (at 1))
        (otel_metrics stored.points stored.metadata)))
unfolding reading_back memory_database
query_range-selected_example =
    query_range-selected memory_conn memory_database 3 (bytes "shop") (bytes "g") (at 0) (at 1)
      stored AreNamed-stored (0, refl, omega arith) (1, refl, omega arith) queried
