-- ===== src/Mapper.antt =====
-- metrics_mapper.go: from a request to the rows that are stored.
pub mod Points
pub mod Metadata
pub mod Content
pub mod Identity
pub mod Times
pub mod Decimal
use take_home_assignments.Prelude.{
  ℕ, zero, suc, ◌+◌, ◌/◌, ◌%◌, Bool, true, false, Option, none, some, List, [], ◌∷◌, ◌++◌, ◌||◌,
  ◌==◌, if◌then◌else◌, contains,
}
use take_home_assignments.Prelude.Int.{ℤ, pos, negsuc, signed}
use take_home_assignments.Text.{Str, bytes, str_eq}
use take_home_assignments.Dict.{Dict, put}
use take_home_assignments.Otlp.{
  AnyValue, ValueKind, string_value, int_value, double_value, bool_value, other_value, KeyValue,
  Resource, NumberValue, as_double, as_int, unset, NumberDataPoint, Gauge, Sum, Metric,
  ScopeMetrics, ResourceMetrics,
}
use take_home_assignments.Series.{SeriesMetadata, DataPoint, Time, unix_nanos}
use take_home_assignments.Fingerprint.{Xxhash, fingerprint_series}

abbrev pub metric_type_gauge : Str
metric_type_gauge = bytes "gauge"

abbrev pub metric_type_sum : Str
metric_type_sum = bytes "sum"

-- the loop of `serviceName`
pub service_name_of : List KeyValue → Str
service_name_of [] = []
service_name_of (attr ∷ rest) =
    if str_eq attr.get_key (bytes "service.name")
    then attr.get_value.get_string_value
    else service_name_of rest

unfoldable pub service_name : Resource → Str
unfolding service_name_of
service_name resource = if resource.is_nil then [] else service_name_of resource.get_attributes

-- What the language does with a float64, which the model keeps as a bit pattern, and what a
-- message prints of itself.
pub record Formats : Type 0 where
  -- float64(i)
  pub float_of_int : ℤ → ℕ
  -- fmt.Sprintf("%g", d)
  pub format_g : ℕ → Str
  -- fmt.Sprintf("%v", v)
  pub format_v : AnyValue → Str

-- The decimal digits of a number below 10 ^ fuel, before `rest`.
pub decimal : ℕ → ℕ → Str → Str
decimal zero n rest = rest
decimal (suc fuel) n rest =
    let digits = (48 + n % 10) ∷ rest in
    let more = decimal fuel (n / 10) digits in if n / 10 == 0 then digits else more

-- fmt.Sprintf("%d", i) of an int64, which has at most 19 digits
unfoldable pub format_d : ℤ → Str
unfolding decimal
format_d (pos n) = decimal 19 n []
format_d (negsuc n) = 45 ∷ decimal 19 (suc n) []

-- fmt.Sprintf("%t", b)
abbrev pub format_t : Bool → Str
format_t true = bytes "true"
format_t false = bytes "false"

-- `int64(nanos)` keeps the 64 bits.
unfoldable pub nanos_to_time : ℕ → Time
nanos_to_time nanos = unix_nanos (signed 64 nanos)

-- `var metadata`, `var points` and `seenFingerprints` of `MapMetrics`
pub record Mapped : Type 0 where
  pub metadata : List SeriesMetadata
  pub points : List DataPoint
  pub seen : List ℕ

module _ (x : Xxhash) (fm : Formats) where
  open fm use {float_of_int, format_g, format_v}

  unfoldable pub any_value_to_string : AnyValue → Str
  any_value_to_string v = if v.is_nil then [] else elim v.kind [
    | string_value ↦ v.get_string_value
    | int_value ↦ format_d v.get_int_value
    | double_value ↦ format_g v.get_double_value
    | bool_value ↦ format_t v.get_bool_value
    | other_value ↦ format_v v
  ]

  -- the loop of `kvToMap`
  unfoldable pub kv_loop : Dict → List KeyValue → Dict
  kv_loop m [] = m
  kv_loop m (kv ∷ rest) = kv_loop (put kv.get_key (any_value_to_string kv.get_value) m) rest

  unfoldable pub kv_to_map : List KeyValue → Dict
  kv_to_map attrs = kv_loop [] attrs

  unfoldable pub number_data_point_value : NumberDataPoint → ℕ
  number_data_point_value dp = elim dp.get_value [
    | as_double v ↦ v
    | as_int v ↦ float_of_int v
    | unset ↦ 0
  ]

  -- `base` of a metric, before the type is known
  unfoldable pub base_of : ResourceMetrics → ScopeMetrics → Metric → SeriesMetadata
  base_of rm sm metric = record {
    fingerprint = 0;
    metric_type = [];
    resource_attributes = kv_to_map rm.get_resource.get_attributes;
    resource_schema_url = rm.get_schema_url;
    scope_name = sm.get_scope.get_name;
    scope_version = sm.get_scope.get_version;
    scope_attributes = kv_to_map sm.get_scope.get_attributes;
    scope_dropped_attr_count = sm.get_scope.get_dropped_attributes_count;
    scope_schema_url = sm.get_schema_url;
    service_name = service_name rm.get_resource;
    metric_name = metric.get_name;
    metric_description = metric.get_description;
    metric_unit = metric.get_unit;
    attributes = [];
    aggregation_temporality = pos 0;
    is_monotonic = false;
  }

  -- The `switch` of the metric loop: the completed base and the datapoints, `none` for `continue`.
  unfoldable pub select : SeriesMetadata → Metric → Option (SeriesMetadata × List NumberDataPoint)
  select base metric = elim metric.get_gauge [
    | some gauge ↦ some (record base { metric_type = metric_type_gauge }, gauge.get_data_points)
    | none ↦ elim metric.get_sum [
      | some sum ↦ some (
        record base {
          metric_type = metric_type_sum;
          aggregation_temporality = sum.get_aggregation_temporality;
          is_monotonic = sum.get_is_monotonic;
        },
        sum.get_data_points,
      )
      | none ↦ none
    ]
  ]

  -- `series` of a datapoint, with its fingerprint
  unfoldable pub series_of : SeriesMetadata → NumberDataPoint → SeriesMetadata
  series_of base dp =
      let series = record base { attributes = kv_to_map dp.get_attributes } in
      record series { fingerprint = fingerprint_series x series }

  unfoldable pub point_of : ℕ → NumberDataPoint → DataPoint
  point_of fp dp = record {
    fingerprint = fp;
    start_time_unix = nanos_to_time dp.get_start_time_unix_nano;
    time_unix = nanos_to_time dp.get_time_unix_nano;
    value = number_data_point_value dp;
    flags = dp.get_flags;
  }

  -- one round of the datapoint loop
  unfoldable pub map_data_point : SeriesMetadata → NumberDataPoint → Mapped → Mapped
  map_data_point base dp out =
      let series = series_of base dp in
      let fp = series.fingerprint in
      let points = out.points ++ (point_of fp dp ∷ []) in
      if contains out.seen fp then record out { points = points } else record {
        metadata = out.metadata ++ (series ∷ []);
        points = points;
        seen = fp ∷ out.seen;
      }

  unfoldable pub map_data_points : SeriesMetadata → List NumberDataPoint → Mapped → Mapped
  map_data_points base [] out = out
  map_data_points base (dp ∷ dps) out = map_data_points base dps (map_data_point base dp out)

  unfoldable pub map_metric : ResourceMetrics → ScopeMetrics → Metric → Mapped → Mapped
  map_metric rm sm metric out = elim (select (base_of rm sm metric) metric) [
    | none ↦ out
    | some (base, dps) ↦ map_data_points base dps out
  ]

  unfoldable pub map_metrics_of : ResourceMetrics → ScopeMetrics → List Metric → Mapped → Mapped
  map_metrics_of rm sm [] out = out
  map_metrics_of rm sm (metric ∷ rest) out = map_metrics_of rm sm rest (map_metric rm sm metric out)

  unfoldable pub map_scopes : ResourceMetrics → List ScopeMetrics → Mapped → Mapped
  map_scopes rm [] out = out
  map_scopes rm (sm ∷ rest) out = map_scopes rm rest (map_metrics_of rm sm sm.get_metrics out)

  unfoldable pub map_resources : List ResourceMetrics → Mapped → Mapped
  map_resources [] out = out
  map_resources (rm ∷ rest) out = map_resources rest (map_scopes rm rm.get_scope_metrics out)

  unfoldable pub map_metrics : List ResourceMetrics → List SeriesMetadata × List DataPoint
  map_metrics resource_metrics =
      let out = map_resources resource_metrics (record { metadata = []; points = []; seen = [] }) in
      (out.metadata, out.points)
