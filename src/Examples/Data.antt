-- ===== src/Examples/Data.antt =====
-- The inputs that the examples share: a hash, a store, a request and a configuration.
use take_home_assignments.Prelude.{
  ℕ, ◌+◌, ◌*◌, ◌%◌, ◌^◌, true, false, none, some, List, [], ◌∷◌, ◌++◌, length,
}
use take_home_assignments.Prelude.Int.{pos}
use take_home_assignments.Text.{bytes}
use take_home_assignments.Otlp.{
  AnyValue, string_value, int_value, KeyValue, NumberDataPoint, as_double, Metric, ScopeMetrics,
  ResourceMetrics,
}
use take_home_assignments.Series.{SeriesMetadata, DataPoint}
use take_home_assignments.Fingerprint.{Xxhash}
use take_home_assignments.Mapper.{Formats}
use take_home_assignments.Store.{foreign, MetricsStore}
use take_home_assignments.Ingester.{IngesterConfig}
use Prim.Native.String.{String}
use mathlib.Core.List.{append_assoc}

-- the bytes read as the digits of one number, modulo 2 ^ 64
abbrev pub number_of : ℕ → List ℕ → ℕ
number_of acc [] = acc
number_of acc (b ∷ bs) = number_of ((acc * 257 + b + 1) % 2 ^ 64) bs

abbrev pub sample_hash : Xxhash
sample_hash = record {
  Digest = List ℕ;
  new = [];
  write = ◌++◌;
  sum64 = number_of 0;
  write-write = append_assoc;
}

abbrev pub sample_formats : Formats
sample_formats = record { float_of_int = λ i. 0; format_g = λ d. bytes "0"; format_v = λ v. [] }

abbrev pub text : String → AnyValue
text s = record {
  is_nil = false;
  kind = string_value;
  get_string_value = bytes s;
  get_int_value = pos 0;
  get_double_value = 0;
  get_bool_value = false;
}

abbrev pub int : ℕ → AnyValue
int n = record (text "") { kind = int_value; get_int_value = pos n }

abbrev pub attr : String → AnyValue → KeyValue
attr k v = record { get_key = bytes k; get_value = v }

abbrev pub point_at : ℕ → List KeyValue → NumberDataPoint
point_at t attrs = record {
  get_attributes = attrs;
  get_start_time_unix_nano = 0;
  get_time_unix_nano = t;
  get_value = as_double t;
  get_flags = 0;
}

abbrev pub ab : List KeyValue
ab = attr "a" (text "x") ∷ attr "b" (int 42) ∷ []

abbrev pub ba : List KeyValue
ba = attr "b" (int 42) ∷ attr "a" (text "x") ∷ []

-- a gauge with one series at two times, and a sum with another series
abbrev pub sample_gauge : Metric
sample_gauge = record {
  get_name = bytes "g";
  get_description = [];
  get_unit = bytes "s";
  get_gauge = some (record { get_data_points = point_at 5 ab ∷ point_at 6 ba ∷ [] });
  get_sum = none;
}

abbrev pub sample_sum : Metric
sample_sum = record {
  get_name = bytes "g";
  get_description = [];
  get_unit = bytes "s";
  get_gauge = none;
  get_sum = some (record {
    get_data_points = point_at 7 ab ∷ [];
    get_aggregation_temporality = pos 2;
    get_is_monotonic = true;
  });
}

abbrev pub sample_scope : ScopeMetrics
sample_scope = record {
  get_scope = record {
    get_name = bytes "lib";
    get_version = [];
    get_attributes = [];
    get_dropped_attributes_count = 0;
  };
  get_schema_url = [];
  get_metrics = sample_gauge ∷ sample_sum ∷ [];
}

abbrev pub sample_resource : ResourceMetrics
sample_resource = record {
  get_resource = record { is_nil = false; get_attributes = attr "service.name" (text "shop") ∷ [] };
  get_schema_url = [];
  get_scope_metrics = sample_scope ∷ [];
}

abbrev pub sample_request : List ResourceMetrics
sample_request = sample_resource ∷ []

-- a store that counts its rows, and one that refuses metadata
abbrev pub counting_store : MetricsStore ℕ
counting_store = record {
  create_tables = λ n. (n, none);
  insert_metadata = λ rows n. (n + length rows, none);
  insert_points = λ rows n. (n + length rows, none);
  close = λ n. (n, none);
}

abbrev pub refusing_store : MetricsStore ℕ
refusing_store = record counting_store {
  insert_metadata = λ rows n. (n, some (foreign (bytes "no")));
}

-- batches of two points, a queue of two items, a cache of two fingerprints
abbrev pub small_config : IngesterConfig
small_config = record {
  max_batch_points = pos 2;
  flush_interval = pos 0;
  queue_capacity = pos 2;
  dedup_cache_size = pos 2;
}

-- a metadata row and a point of the series with a given fingerprint
abbrev pub row : ℕ → SeriesMetadata
row fp = record {
  fingerprint = fp;
  metric_type = [];
  resource_attributes = [];
  resource_schema_url = [];
  scope_name = [];
  scope_version = [];
  scope_attributes = [];
  scope_dropped_attr_count = 0;
  scope_schema_url = [];
  service_name = [];
  metric_name = [];
  metric_description = [];
  metric_unit = [];
  attributes = [];
  aggregation_temporality = pos 0;
  is_monotonic = false;
}

abbrev pub reading : ℕ → DataPoint
reading fp = record {
  fingerprint = fp;
  start_time_unix = record { sec = pos 0; nsec = 0 };
  time_unix = record { sec = pos 1; nsec = 0 };
  value = 0;
  flags = 0;
}

abbrev pub two_rows : List SeriesMetadata
two_rows = row 7 ∷ row 8 ∷ []

abbrev pub one_reading : List DataPoint
one_reading = reading 7 ∷ []

-- the same series, its attributes in the other order
abbrev pub reordered_gauge : Metric
reordered_gauge = record sample_gauge {
  get_gauge = some (record { get_data_points = point_at 6 ba ∷ [] });
}

abbrev pub request_of : Metric → List ResourceMetrics
request_of metric =
    record sample_resource {
      get_scope_metrics = record sample_scope { get_metrics = metric ∷ [] } ∷ [];
    }
    ∷ []
