-- ===== src/View.antt =====
-- The view `otel_metrics` of clickhouse_schema.go: the wide rows that it makes of the two tables.
pub mod Described
pub mod Filtered
pub mod Members
pub mod Merged
use take_home_assignments.Prelude.{ℕ, Bool, List, [], ◌∷◌, ◌++◌, ◌==◌, if◌then◌else◌}
use take_home_assignments.Prelude.Int.{ℤ}
use take_home_assignments.Text.{Str}
use take_home_assignments.Dict.{Dict}
use take_home_assignments.Series.{SeriesMetadata, DataPoint, Time}
use take_home_assignments.Mapper.Points.{first_of_each}

-- The columns of the SELECT, in its order.
pub record WideRow : Type 0 where
  pub fingerprint : ℕ
  pub metric_type : Str
  pub resource_attributes : Dict
  pub resource_schema_url : Str
  pub scope_name : Str
  pub scope_version : Str
  pub scope_attributes : Dict
  pub scope_dropped_attr_count : ℕ
  pub scope_schema_url : Str
  pub service_name : Str
  pub metric_name : Str
  pub metric_description : Str
  pub metric_unit : Str
  pub attributes : Dict
  pub aggregation_temporality : ℤ
  pub is_monotonic : Bool
  pub start_time_unix : Time
  pub time_unix : Time
  pub value : ℕ
  pub flags : ℕ

-- `SELECT p.… , m.…`
unfoldable pub wide : DataPoint → SeriesMetadata → WideRow
wide p m = record {
  fingerprint = p.fingerprint;
  metric_type = m.metric_type;
  resource_attributes = m.resource_attributes;
  resource_schema_url = m.resource_schema_url;
  scope_name = m.scope_name;
  scope_version = m.scope_version;
  scope_attributes = m.scope_attributes;
  scope_dropped_attr_count = m.scope_dropped_attr_count;
  scope_schema_url = m.scope_schema_url;
  service_name = m.service_name;
  metric_name = m.metric_name;
  metric_description = m.metric_description;
  metric_unit = m.metric_unit;
  attributes = m.attributes;
  aggregation_temporality = m.aggregation_temporality;
  is_monotonic = m.is_monotonic;
  start_time_unix = p.start_time_unix;
  time_unix = p.time_unix;
  value = p.value;
  flags = p.flags;
}

-- `SELECT * FROM otel_metrics_meta LIMIT 1 BY Fingerprint`: the first row of each fingerprint, in
-- the order in which the server reads the table, which is the order of the list.
unfoldable pub limit_1_by_fingerprint : List SeriesMetadata → List SeriesMetadata
limit_1_by_fingerprint rows = first_of_each [] rows

-- the rows that `INNER JOIN … USING (Fingerprint)` makes of a point
unfoldable pub join_point : DataPoint → List SeriesMetadata → List WideRow
join_point p [] = []
join_point p (m ∷ rows) =
    let rest = join_point p rows in if m.fingerprint == p.fingerprint then wide p m ∷ rest else rest

unfoldable pub inner_join : List DataPoint → List SeriesMetadata → List WideRow
inner_join [] rows = []
inner_join (p ∷ points) rows = join_point p rows ++ inner_join points rows

unfoldable pub otel_metrics : List DataPoint → List SeriesMetadata → List WideRow
otel_metrics points rows = inner_join points (limit_1_by_fingerprint rows)
