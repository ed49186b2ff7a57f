-- ===== src/Examples/Mapping.antt =====
-- The mapper and the fingerprint at concrete inputs.
use take_home_assignments.Prelude.{
  ◌≡◌, refl, ◌↔◌, ℕ, ◌^◌, ◌-◌, [], map, length, arith, All, contains,
}
use take_home_assignments.Prelude.Int.{negsuc, signed, unsigned}
use take_home_assignments.Text.{Str, bytes, str_eq, str_le, sort_strings}
use take_home_assignments.Dict.{put, lookup, get}
use take_home_assignments.Series.{SeriesMetadata, unix_nano, unix_nanos}
use take_home_assignments.Fingerprint.{
  little_endian, hash_string, hash_entries, hash_map, hash_uint32, hash_bool, fingerprint_series,
}
use take_home_assignments.Mapper.{
  service_name, format_d, nanos_to_time, any_value_to_string, kv_loop, kv_to_map,
  number_data_point_value, base_of, select, series_of, point_of, map_data_point, map_data_points,
  map_metric, map_metrics_of, map_scopes, map_resources, map_metrics,
}
use take_home_assignments.Examples.Data.{
  sample_hash, sample_formats, sample_request, reordered_gauge, request_of, sample_resource,
  sample_scope, sample_gauge, ab, ba, point_at,
}
use mathlib.Core.List.{Mem, mem-cons_self}
use take_home_assignments.Text.Order.{str_eq_iff}
use take_home_assignments.Dict.Canonical.{SameEntries}
use take_home_assignments.Fingerprint.Encoding.{encode_series}
use take_home_assignments.Fingerprint.Maps.{IsMap}
use take_home_assignments.Fingerprint.Identity.{
  IsSeries, SameSeries, encode_series-eq, fingerprint_series_identity,
}
use take_home_assignments.Fingerprint.Abstract.{Series, encode, encode_identity}
use take_home_assignments.Mapper.Points.{sources, point, first_of_each, map_metrics-sources}
use take_home_assignments.Mapper.Metadata.{
  AreDistinct, row_fingerprints, point_fingerprints, map_metrics_deduped,
}
use take_home_assignments.Mapper.Content.{IsRow, last_value, lookup-kv_to_map, map_metrics-IsRow}
use take_home_assignments.Mapper.Identity.{map_metrics_identity, series_of_order}
use take_home_assignments.Mapper.Times.{nanos_to_time_round_trip}
use mathlib.Core.Quot

unfoldable pub mapper : Unit {0}
unfolding str_eq str_le sort_strings put lookup get little_endian hash_string hash_entries hash_map
    hash_uint32 hash_bool fingerprint_series service_name format_d nanos_to_time any_value_to_string
    kv_loop kv_to_map number_data_point_value base_of select series_of point_of map_data_point
    map_data_points map_metric map_metrics_of map_scopes map_resources map_metrics contains
    unix_nano unix_nanos
mapper = tt

-- three points, two series
sample_counts :
    (length (map_metrics sample_hash sample_formats sample_request).0 ≡ 2)
    × (length (map_metrics sample_hash sample_formats sample_request).1 ≡ 3)
unfolding mapper
sample_counts = (refl, refl)

abbrev pub base : SeriesMetadata
base = record (base_of sample_hash sample_formats sample_resource sample_scope sample_gauge) {
  metric_type = bytes "gauge";
}

-- the series of the gauge, from either order of its attributes
abbrev pub series_ab : SeriesMetadata
series_ab = series_of sample_hash sample_formats base (point_at 5 ab)

abbrev pub series_ba : SeriesMetadata
series_ba = series_of sample_hash sample_formats base (point_at 6 ba)

printed :
    (format_d (negsuc 41) ≡ bytes "-42")
    × (format_d (negsuc 9223372036854775807) ≡ bytes "-9223372036854775808")
    × (unix_nano (nanos_to_time (2 ^ 64 - 1)) ≡ negsuc 0)
unfolding mapper
printed = (refl, refl, refl)

IsMap-attributes : IsMap (kv_to_map sample_hash sample_formats ab)
unfolding mapper
IsMap-attributes = record {
  distinct = (refl, (refl, tt));
  short = omega arith;
  small = omega arith;
}

IsMap-attributes' : IsMap (kv_to_map sample_hash sample_formats ba)
unfolding mapper
IsMap-attributes' = record {
  distinct = (refl, (refl, tt));
  short = omega arith;
  small = omega arith;
}

IsMap-resource :
    IsMap (kv_to_map sample_hash sample_formats sample_resource.get_resource.get_attributes)
unfolding mapper
IsMap-resource = record { distinct = (refl, tt); short = omega arith; small = omega arith }

IsMap-scope : IsMap (kv_to_map sample_hash sample_formats sample_scope.get_scope.get_attributes)
unfolding mapper
IsMap-scope = record { distinct = tt; short = tt; small = omega arith }

IsSeries-ab : IsSeries series_ab
unfolding base_of series_of service_name str_eq
IsSeries-ab = record {
  metric_type = omega arith;
  resource_attributes = IsMap-resource;
  resource_schema_url = omega arith;
  scope_name = omega arith;
  scope_version = omega arith;
  scope_attributes = IsMap-scope;
  scope_dropped_attr_count = omega arith;
  scope_schema_url = omega arith;
  service_name = omega arith;
  metric_name = omega arith;
  metric_description = omega arith;
  metric_unit = omega arith;
  attributes = IsMap-attributes;
  aggregation_temporality = omega arith;
}

pub IsSeries-ba : IsSeries series_ba
unfolding base_of series_of service_name str_eq
IsSeries-ba = record {
  metric_type = omega arith;
  resource_attributes = IsMap-resource;
  resource_schema_url = omega arith;
  scope_name = omega arith;
  scope_version = omega arith;
  scope_attributes = IsMap-scope;
  scope_dropped_attr_count = omega arith;
  scope_schema_url = omega arith;
  service_name = omega arith;
  metric_name = omega arith;
  metric_description = omega arith;
  metric_unit = omega arith;
  attributes = IsMap-attributes';
  aggregation_temporality = omega arith;
}

same_entries : SameEntries series_ab.attributes series_ba.attributes
unfolding mapper
same_entries k = ground (arith, str_eq_iff (bytes "a") k, str_eq_iff (bytes "b") k)

same_series : SameSeries series_ab series_ba
unfolding series_of base_of
same_series = record {
  metric_type = refl;
  resource_attributes = λ k. refl;
  resource_schema_url = refl;
  scope_name = refl;
  scope_version = refl;
  scope_attributes = λ k. refl;
  scope_dropped_attr_count = refl;
  scope_schema_url = refl;
  service_name = refl;
  metric_name = refl;
  metric_description = refl;
  metric_unit = refl;
  attributes = same_entries;
  aggregation_temporality = refl;
  is_monotonic = refl;
}

one_encoding : encode_series series_ab ≡ encode_series series_ba
one_encoding = encode_series-eq series_ab series_ba IsSeries-ab IsSeries-ba same_series

encode_identity_example :
    ((encode (Quot.mk (series_ab, IsSeries-ab)) ≡ encode (Quot.mk (series_ba, IsSeries-ba)))
      ↔ Path Series (Quot.mk (series_ab, IsSeries-ab)) (Quot.mk (series_ba, IsSeries-ba)))
    × (fingerprint_series sample_hash series_ab
        ≡ sample_hash.sum64
            (sample_hash.write sample_hash.new (encode (Quot.mk (series_ab, IsSeries-ab)))))
encode_identity_example =
    encode_identity sample_hash (Quot.mk (series_ab, IsSeries-ab))
      (Quot.mk (series_ba, IsSeries-ba)) (series_ab, IsSeries-ab)

fingerprint_series_identity_example :
    (fingerprint_series sample_hash series_ab ≡ fingerprint_series sample_hash series_ba)
    ↔ SameSeries series_ab series_ba
fingerprint_series_identity_example =
    fingerprint_series_identity series_ab series_ba IsSeries-ab IsSeries-ba sample_hash
      (λ e. one_encoding)

map_metrics-sources_example : map_metrics sample_hash sample_formats sample_request ≡ (
  first_of_each [] (map (λ s. s.0) (sources sample_hash sample_formats sample_request)),
  map (point sample_hash sample_formats) (sources sample_hash sample_formats sample_request),
)
map_metrics-sources_example = map_metrics-sources sample_hash sample_formats sample_request

map_metrics_deduped_example :
    AreDistinct (row_fingerprints (map_metrics sample_hash sample_formats sample_request).0)
    × ((f : ℕ)
        → contains (row_fingerprints (map_metrics sample_hash sample_formats sample_request).0) f
          ≡ contains
              (point_fingerprints (map_metrics sample_hash sample_formats sample_request).1)
              f)
map_metrics_deduped_example = map_metrics_deduped sample_hash sample_formats sample_request

map_metrics-IsRow_example :
    All (IsRow sample_hash sample_formats) (map_metrics sample_hash sample_formats sample_request).0
map_metrics-IsRow_example = map_metrics-IsRow sample_hash sample_formats sample_request

lookup-kv_to_map_example :
    lookup (bytes "b") (kv_to_map sample_hash sample_formats ab)
    ≡ last_value sample_hash sample_formats (bytes "b") ab
lookup-kv_to_map_example = lookup-kv_to_map sample_hash sample_formats (bytes "b") ab

nanos_to_time_round_trip_example :
    (unix_nano (nanos_to_time (2 ^ 64 - 1)) ≡ signed 64 (2 ^ 64 - 1))
    × (unsigned 64 (unix_nano (nanos_to_time (2 ^ 64 - 1))) ≡ 2 ^ 64 - 1)
nanos_to_time_round_trip_example = nanos_to_time_round_trip (2 ^ 64 - 1) (omega arith)

same_last_values :
    (k : Str)
    → last_value sample_hash sample_formats k ab ≡ last_value sample_hash sample_formats k ba
unfolding last_value str_eq
same_last_values k = ground (arith, str_eq_iff (bytes "a") k, str_eq_iff (bytes "b") k)

series_of_order_example : series_ab.fingerprint ≡ series_ba.fingerprint
series_of_order_example =
    series_of_order sample_hash sample_formats base (point_at 5 ab) (point_at 6 ba) same_last_values
      IsSeries-ab IsSeries-ba

Mem-ab : Mem series_ab (map_metrics sample_hash sample_formats (request_of sample_gauge)).0
unfolding mapper
Mem-ab = mem-cons_self {l = []}

Mem-ba : Mem series_ba (map_metrics sample_hash sample_formats (request_of reordered_gauge)).0
unfolding mapper
Mem-ba = mem-cons_self {l = []}

map_metrics_identity_example :
    (series_ab.fingerprint ≡ series_ba.fingerprint) ↔ SameSeries series_ab series_ba
map_metrics_identity_example =
    map_metrics_identity sample_hash sample_formats (request_of sample_gauge)
      (request_of reordered_gauge) series_ab series_ba Mem-ab Mem-ba IsSeries-ab IsSeries-ba
      (λ e. one_encoding)
