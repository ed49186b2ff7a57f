-- ===== src/Otlp.antt =====
-- The request messages of go.opentelemetry.io/proto, as far as the backend reads them. That
-- package is not part of the repository, so a message is what its getters return: one field for
-- each getter that metrics_mapper.go calls, and `is_nil` where the code compares a pointer
-- with nil. What a getter returns on a nil message is therefore left open.
use take_home_assignments.Prelude.{ℕ, Bool, List, Option}
use take_home_assignments.Prelude.Int.{ℤ}
use take_home_assignments.Text.{Str}

-- the cases of the type switch on `v.Value`
pub data ValueKind : Type 0 where
  string_value int_value double_value bool_value other_value : ValueKind

-- `double_value` carries the bit pattern of a float64.
pub record AnyValue : Type 0 where
  pub is_nil : Bool
  pub kind : ValueKind
  pub get_string_value : Str
  pub get_int_value : ℤ
  pub get_double_value : ℕ
  pub get_bool_value : Bool

pub record KeyValue : Type 0 where
  pub get_key : Str
  pub get_value : AnyValue

pub record Resource : Type 0 where
  pub is_nil : Bool
  pub get_attributes : List KeyValue

pub record InstrumentationScope : Type 0 where
  pub get_name : Str
  pub get_version : Str
  pub get_attributes : List KeyValue
  pub get_dropped_attributes_count : ℕ

-- the cases of the type switch on `dp.GetValue()`
pub data NumberValue : Type 0 where
  as_double : ℕ → NumberValue
  as_int : ℤ → NumberValue
  unset : NumberValue

pub record NumberDataPoint : Type 0 where
  pub get_attributes : List KeyValue
  pub get_start_time_unix_nano : ℕ
  pub get_time_unix_nano : ℕ
  pub get_value : NumberValue
  pub get_flags : ℕ

pub record Gauge : Type 0 where
  pub get_data_points : List NumberDataPoint

pub record Sum : Type 0 where
  pub get_data_points : List NumberDataPoint
  pub get_aggregation_temporality : ℤ
  pub get_is_monotonic : Bool

-- `none` is a nil pointer.
pub record Metric : Type 0 where
  pub get_name : Str
  pub get_description : Str
  pub get_unit : Str
  pub get_gauge : Option Gauge
  pub get_sum : Option Sum

pub record ScopeMetrics : Type 0 where
  pub get_scope : InstrumentationScope
  pub get_schema_url : Str
  pub get_metrics : List Metric

pub record ResourceMetrics : Type 0 where
  pub get_resource : Resource
  pub get_schema_url : Str
  pub get_scope_metrics : List ScopeMetrics
