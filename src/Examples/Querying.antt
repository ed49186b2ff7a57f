-- ===== src/Examples/Querying.antt =====
-- The ClickHouse client at the connection in memory.
use take_home_assignments.Prelude.{
  ◌≡◌, refl, ◌⊎◌, Option, none, some, List, [], ◌∷◌, map, contains, arith,
}
use take_home_assignments.Prelude.Int.{pos}
use take_home_assignments.Text.{str_eq, bytes}
use take_home_assignments.Series.{DataPoint, Time, unix_nano}
use take_home_assignments.Store.{Error}
use take_home_assignments.Ingester.{is_empty}
use take_home_assignments.Clickhouse.{
  insert_into_metrics_point, Statement, metadata_row, point_row, append_rows, insert_rows,
  insert_metadata, insert_points, collect, query_points, after_fingerprints, query_range,
}
use take_home_assignments.Clickhouse.Inserts.{insert_rows_cases}
use take_home_assignments.Clickhouse.Reads.{fingerprints_for, points_between}
use take_home_assignments.Clickhouse.QueryRange.{query_range_reads, query_range_total}
use take_home_assignments.Examples.Data.{reading, two_rows, one_reading}
use take_home_assignments.Examples.Memory.{
  Memory, memory_conn, memory_batching, memory_database, table,
}
use mathlib.Core.List.{Perm}

-- two series, and a point of the first and of a series that nobody has described
abbrev world : Memory
world = record {
  meta_rows = [];
  point_rows = [];
  pending = [];
  metadata = two_rows;
  points = reading 9 ∷ reading 7 ∷ [];
  found = [];
  hits = [];
}

abbrev midnight : Time
midnight = record { sec = pos 0; nsec = 0 }

abbrev noon : Time
noon = record { sec = pos 43_200; nsec = 0 }

abbrev asked : Memory
asked = record world { hits = []; found = [] }

querying : Unit {0}
unfolding insert_metadata insert_points insert_rows append_rows metadata_row point_row collect
    query_points after_fingerprints query_range is_empty fingerprints_for points_between str_eq
    contains unix_nano
querying = tt

queried : query_range memory_conn 3 [] [] midnight noon world ≡ some (asked, reading 7 ∷ [], none)
unfolding querying
queried = refl

query_range_reads_example :
    Perm
      (reading 7 ∷ [])
      (points_between (fingerprints_for [] [] two_rows) midnight noon world.points)
unfolding memory_database
query_range_reads_example =
    query_range_reads memory_conn memory_database 3 [] [] midnight noon world (0, refl, omega arith)
      (43_200, refl, omega arith) queried

query_range_total_example :
    (out : Memory × List DataPoint × Option Error) × (query_range memory_conn 3 [] [] midnight noon
        world
      ≡ some out)
unfolding memory_database
query_range_total_example =
    query_range_total memory_conn memory_database 3 [] [] midnight noon world (omega arith)
      (omega arith)

abbrev attempt : Memory × Option Error
attempt =
    insert_rows memory_conn insert_into_metrics_point (bytes "preparing") (bytes "appending")
      (map point_row one_reading) world

insert_rows_cases_example :
    ((e : Error) × (attempt.1 ≡ some e) × ((s : Statement) → table s attempt.0 ≡ table s world))
    ⊎ ((b : Statement) × (w' : Memory) × (attempt ≡ memory_conn.send b w')
        × (b ≡ insert_into_metrics_point)
        × (w'.pending ≡ map point_row one_reading)
        × ((s : Statement) → table s w' ≡ table s world))
unfolding memory_batching
insert_rows_cases_example =
    insert_rows_cases memory_conn memory_batching insert_into_metrics_point (bytes "preparing")
      (bytes "appending") (map point_row one_reading) world
