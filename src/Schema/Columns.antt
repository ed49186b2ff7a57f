-- ===== src/Schema/Columns.antt =====
-- Rows by column name: an `INSERT` without a column list gives its values to the columns of the table
-- in their order, and the two SELECTs with a column list name the columns that they read.
use take_home_assignments.Prelude.{
  ◌≡◌, refl, Option, none, some, ℕ, Bool, List, [], ◌∷◌, if◌then◌else◌,
}
use take_home_assignments.Prelude.Int.{ℤ}
use take_home_assignments.Text.{Str, bytes, str_eq}
use take_home_assignments.Dict.{Dict}
use take_home_assignments.Series.{SeriesMetadata, DataPoint, Time}
use take_home_assignments.Clickhouse.{
  Value, uint64, uint32, float64, int32, string, string_map, boolean, instant, metadata_row,
  point_row,
}
use take_home_assignments.Schema.{Column, otel_metrics_meta, otel_metrics_point}
use take_home_assignments.View.{WideRow, wide}

infixl 5 ◌>>=◌
abbrev pub ◌>>=◌ {ℓ κ} : {A : Type ℓ} {B : Type κ} → Option A → (A → Option B) → Option B
none >>= f = none
some a >>= f = f a

-- The value of a row in the column of a name.
unfoldable pub column : Str → List Column → List Value → Option Value
column name [] row = none
column name (c ∷ columns) [] = none
column name (c ∷ columns) (v ∷ row) = if str_eq c.name name then some v else column name columns row

-- The values of a row in the columns of some names.
unfoldable pub select_columns : List Str → List Column → List Value → Option (List Value)
select_columns [] columns row = some []
select_columns (name ∷ names) columns row = do
  v ← column name columns row
  vs ← select_columns names columns row
  some (v ∷ vs)

abbrev pub as_uint64 : Value → Option ℕ
as_uint64 (uint64 n) = some n
as_uint64 v = none

abbrev pub as_uint32 : Value → Option ℕ
as_uint32 (uint32 n) = some n
as_uint32 v = none

abbrev pub as_float64 : Value → Option ℕ
as_float64 (float64 n) = some n
as_float64 v = none

abbrev pub as_int32 : Value → Option ℤ
as_int32 (int32 n) = some n
as_int32 v = none

abbrev pub as_string : Value → Option Str
as_string (string s) = some s
as_string v = none

abbrev pub as_map : Value → Option Dict
as_map (string_map d) = some d
as_map v = none

abbrev pub as_bool : Value → Option Bool
as_bool (boolean b) = some b
as_bool v = none

abbrev pub as_time : Value → Option Time
as_time (instant t) = some t
as_time v = none

-- the columns of the second query of `QueryRange`
unfoldable pub point_select : List Str
point_select =
    bytes "Fingerprint"
    ∷ bytes "StartTimeUnix"
    ∷ bytes "TimeUnix"
    ∷ bytes "Value"
    ∷ bytes "Flags"
    ∷ []

-- `pointRows.Scan(&p.Fingerprint, …)`, where a value goes to a variable of its own type only
unfoldable pub scan_row : List Value → Option DataPoint
scan_row (fp ∷ start ∷ time ∷ value ∷ flags ∷ []) = do
  fp ← as_uint64 fp
  start ← as_time start
  time ← as_time time
  value ← as_float64 value
  flags ← as_uint32 flags
  some (record {
    fingerprint = fp;
    start_time_unix = start;
    time_unix = time;
    value = value;
    flags = flags;
  })
scan_row row = none

-- The SELECT of the view at a row `p` of the points table and a row `m` of the lookup table.
unfoldable pub view_row : List Value → List Value → Option WideRow
view_row p m = do
  fingerprint ← column (bytes "Fingerprint") otel_metrics_point.columns p >>= as_uint64
  metric_type ← column (bytes "MetricType") otel_metrics_meta.columns m >>= as_string
  resource_attributes ← column (bytes "ResourceAttributes") otel_metrics_meta.columns m >>= as_map
  resource_schema_url ← column (bytes "ResourceSchemaUrl") otel_metrics_meta.columns m >>= as_string
  scope_name ← column (bytes "ScopeName") otel_metrics_meta.columns m >>= as_string
  scope_version ← column (bytes "ScopeVersion") otel_metrics_meta.columns m >>= as_string
  scope_attributes ← column (bytes "ScopeAttributes") otel_metrics_meta.columns m >>= as_map
  dropped ← column (bytes "ScopeDroppedAttrCount") otel_metrics_meta.columns m >>= as_uint32
  scope_schema_url ← column (bytes "ScopeSchemaUrl") otel_metrics_meta.columns m >>= as_string
  service_name ← column (bytes "ServiceName") otel_metrics_meta.columns m >>= as_string
  metric_name ← column (bytes "MetricName") otel_metrics_meta.columns m >>= as_string
  metric_description ← column (bytes "MetricDescription") otel_metrics_meta.columns m >>= as_string
  metric_unit ← column (bytes "MetricUnit") otel_metrics_meta.columns m >>= as_string
  attributes ← column (bytes "Attributes") otel_metrics_meta.columns m >>= as_map
  temporality ← column (bytes "AggregationTemporality") otel_metrics_meta.columns m >>= as_int32
  is_monotonic ← column (bytes "IsMonotonic") otel_metrics_meta.columns m >>= as_bool
  start_time_unix ← column (bytes "StartTimeUnix") otel_metrics_point.columns p >>= as_time
  time_unix ← column (bytes "TimeUnix") otel_metrics_point.columns p >>= as_time
  value ← column (bytes "Value") otel_metrics_point.columns p >>= as_float64
  flags ← column (bytes "Flags") otel_metrics_point.columns p >>= as_uint32
  some (record {
    fingerprint = fingerprint;
    metric_type = metric_type;
    resource_attributes = resource_attributes;
    resource_schema_url = resource_schema_url;
    scope_name = scope_name;
    scope_version = scope_version;
    scope_attributes = scope_attributes;
    scope_dropped_attr_count = dropped;
    scope_schema_url = scope_schema_url;
    service_name = service_name;
    metric_name = metric_name;
    metric_description = metric_description;
    metric_unit = metric_unit;
    attributes = attributes;
    aggregation_temporality = temporality;
    is_monotonic = is_monotonic;
    start_time_unix = start_time_unix;
    time_unix = time_unix;
    value = value;
    flags = flags;
  })

-- Values that the two inserts give to the columns of the tables in their order are those that the
-- reads select by name: `QueryRange` scans the point that was inserted, and the row of the view has
-- every field of the point and of the series in its own column.
pub columns_round_trip :
    (p : DataPoint) (m : SeriesMetadata)
    → ((select_columns point_select otel_metrics_point.columns (point_row p) >>= scan_row) ≡ some p)
      × (view_row (point_row p) (metadata_row m) ≡ some (wide p m))
unfolding select_columns point_select otel_metrics_point otel_metrics_meta point_row metadata_row
    column scan_row view_row str_eq wide
columns_round_trip p m = (refl, refl)
