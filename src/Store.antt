-- ===== src/Store.antt =====
-- The interface `MetricsStore` (clickhouse_client.go) and the errors that it returns. A store acts
-- on a state `S` of the world behind it, which the ingester neither reads nor writes. The
-- `context.Context` of a call is part of that world: a deadline shows as an error.
pub mod Recorder
use take_home_assignments.Prelude.{Option, List}
use take_home_assignments.Text.{Str}
use take_home_assignments.Series.{SeriesMetadata, DataPoint}

-- Go's `error`, where `none` of an `Option Error` is nil: an error of another package, one made
-- by `fmt.Errorf("…: %w", err)`, and those that `errors.Join` makes of one error or of two.
pub data Error : Type 0 where
  foreign : Str → Error
  wrap : Str → Error → Error
  join_one : Error → Error
  join_two : Error → Error → Error

pub record MetricsStore (S : Type 0) : Type 0 where
  pub create_tables : S → S × Option Error
  pub insert_metadata : List SeriesMetadata → S → S × Option Error
  pub insert_points : List DataPoint → S → S × Option Error
  pub close : S → S × Option Error
