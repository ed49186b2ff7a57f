-- ===== src/Examples/Answering.antt =====
-- The exported request, queried from the tables that it was written to.
use take_home_assignments.Prelude.{◌≡◌, refl, none, some, arith}
use take_home_assignments.Text.{bytes}
use take_home_assignments.Clickhouse.{query_range}
use take_home_assignments.Clickhouse.Reads.{seconds}
use take_home_assignments.Readback.{all_sources, ReadsBack}
use take_home_assignments.Readback.Queried.{wanted}
use take_home_assignments.Readback.Merged.{served_merged-ReadsBack}
use take_home_assignments.View.{otel_metrics}
use take_home_assignments.Readback.Served.{query_range_served}
use take_home_assignments.Examples.Data.{sample_hash, sample_formats, small_config}
use take_home_assignments.Examples.Delivering.{
  empty, exported, finished, Serving-stopped, delivering,
}
use take_home_assignments.Examples.Mapping.{mapper}
use take_home_assignments.Examples.Memory.{Memory, memory_conn, memory_batching, memory_database}
use take_home_assignments.Examples.Reading.{requests, AreTold-requests, reading_back, at}
use take_home_assignments.View.Merged.{IsMerged}
use mathlib.Core.List.{Perm}

-- the server, with the rows of its tables read
abbrev answering : Memory
answering = record finished.flusher.store.inner {
  metadata = exported.metadata;
  points = exported.points;
}

answer :
    query_range memory_conn 3 (bytes "shop") (bytes "g") (at 0) (at 1) answering
    ≡ some (answering, exported.points, none)
unfolding delivering mapper reading_back
answer = refl

-- The server has not merged any rows yet.
IsMerged-all : IsMerged exported.metadata exported.metadata
IsMerged-all = record { kept = λ m h. h; covered = λ m h. (m, h, refl) }

query_range_served_example : Perm exported.points (
    wanted sample_hash sample_formats
      (bytes "shop")
      (bytes "g")
      (seconds (at 0))
      (seconds (at 1))
      (all_sources sample_hash sample_formats requests))
unfolding memory_batching memory_database delivering mapper
query_range_served_example =
    query_range_served sample_hash sample_formats memory_conn memory_batching memory_database
      small_config empty requests 3 (bytes "shop") (bytes "g") (at 0) (at 1) answering
      exported.metadata AreTold-requests refl refl Serving-stopped refl refl refl refl refl
      IsMerged-all (0, refl, omega arith) (1, refl, omega arith) answer

served_merged-ReadsBack_example :
    ReadsBack sample_hash sample_formats
      (all_sources sample_hash sample_formats requests)
      (otel_metrics exported.points exported.metadata)
unfolding memory_batching delivering mapper
served_merged-ReadsBack_example =
    served_merged-ReadsBack sample_hash sample_formats memory_conn memory_batching small_config
      empty requests exported.points exported.metadata exported.metadata AreTold-requests refl refl
      Serving-stopped refl refl refl refl refl IsMerged-all
