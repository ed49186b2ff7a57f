-- ===== src/Schema.antt =====
-- clickhouse_schema.go: the two tables, as far as the rows that are inserted and read depend on
-- them. Column codecs, skip indexes and table settings are left out.
pub mod Columns
pub mod Fits
use take_home_assignments.Prelude.{Option, none, some, List, [], ◌∷◌, if◌then◌else◌}
use take_home_assignments.Text.{Str, bytes, str_eq}

pub data ColumnType : Type 0 where
  uint64_type uint32_type int32_type float64_type bool_type date_time64_type : ColumnType
  string_type low_cardinality_type map_type : ColumnType

pub record Column : Type 0 where
  pub name : Str
  pub kind : ColumnType

pub data Engine : Type 0 where
  merge_tree replacing_merge_tree : Engine

-- `PARTITION BY toDate(column)` or none, and the columns of `ORDER BY`
pub record Table : Type 0 where
  pub name : Str
  pub columns : List Column
  pub engine : Engine
  pub partition_by_date : Option Str
  pub order_by : List Str

-- `createMetaTableSQL`
unfoldable pub otel_metrics_meta : Table
otel_metrics_meta = record {
  name = bytes "otel_metrics_meta";
  columns =
      record { name = bytes "Fingerprint"; kind = uint64_type }
      ∷ record { name = bytes "MetricType"; kind = low_cardinality_type }
      ∷ record { name = bytes "ResourceAttributes"; kind = map_type }
      ∷ record { name = bytes "ResourceSchemaUrl"; kind = string_type }
      ∷ record { name = bytes "ScopeName"; kind = string_type }
      ∷ record { name = bytes "ScopeVersion"; kind = string_type }
      ∷ record { name = bytes "ScopeAttributes"; kind = map_type }
      ∷ record { name = bytes "ScopeDroppedAttrCount"; kind = uint32_type }
      ∷ record { name = bytes "ScopeSchemaUrl"; kind = string_type }
      ∷ record { name = bytes "ServiceName"; kind = low_cardinality_type }
      ∷ record { name = bytes "MetricName"; kind = low_cardinality_type }
      ∷ record { name = bytes "MetricDescription"; kind = string_type }
      ∷ record { name = bytes "MetricUnit"; kind = string_type }
      ∷ record { name = bytes "Attributes"; kind = map_type }
      ∷ record { name = bytes "AggregationTemporality"; kind = int32_type }
      ∷ record { name = bytes "IsMonotonic"; kind = bool_type }
      ∷ [];
  engine = replacing_merge_tree;
  partition_by_date = none;
  order_by = bytes "ServiceName" ∷ bytes "MetricName" ∷ bytes "Fingerprint" ∷ [];
}

-- `createPointTableSQL`
unfoldable pub otel_metrics_point : Table
otel_metrics_point = record {
  name = bytes "otel_metrics_point";
  columns =
      record { name = bytes "Fingerprint"; kind = uint64_type }
      ∷ record { name = bytes "StartTimeUnix"; kind = date_time64_type }
      ∷ record { name = bytes "TimeUnix"; kind = date_time64_type }
      ∷ record { name = bytes "Value"; kind = float64_type }
      ∷ record { name = bytes "Flags"; kind = uint32_type }
      ∷ [];
  engine = merge_tree;
  partition_by_date = some (bytes "TimeUnix");
  order_by = bytes "Fingerprint" ∷ bytes "TimeUnix" ∷ [];
}
