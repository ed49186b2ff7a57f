-- ===== src/Readback.antt =====
-- From the requests that are exported to the rows of the view: what a read-back owes to a datapoint.
pub mod Requests
pub mod Delivered
pub mod Rows
pub mod Queried
pub mod Tables
pub mod Written
pub mod Served
pub mod Merged
use take_home_assignments.Prelude.{◌≡◌, ℕ, List, [], ◌∷◌, ◌++◌, map, All}
use take_home_assignments.Series.{SeriesMetadata, DataPoint}
use take_home_assignments.Otlp.{ResourceMetrics}
use take_home_assignments.Fingerprint.{Xxhash}
use take_home_assignments.Fingerprint.Encoding.{encode_series}
use take_home_assignments.Fingerprint.Identity.{IsSeries, SameSeries}
use take_home_assignments.Mapper.{Formats}
use take_home_assignments.Mapper.Points.{Source, sources, point}
use take_home_assignments.Ingester.{IngestItem}
use take_home_assignments.Service.Laws.{item_of_request}
use take_home_assignments.View.{WideRow}
use take_home_assignments.View.Filtered.{point_columns}

-- The columns of the lookup table.
abbrev pub series_columns : WideRow → SeriesMetadata
series_columns r = record {
  fingerprint = r.fingerprint;
  metric_type = r.metric_type;
  resource_attributes = r.resource_attributes;
  resource_schema_url = r.resource_schema_url;
  scope_name = r.scope_name;
  scope_version = r.scope_version;
  scope_attributes = r.scope_attributes;
  scope_dropped_attr_count = r.scope_dropped_attr_count;
  scope_schema_url = r.scope_schema_url;
  service_name = r.service_name;
  metric_name = r.metric_name;
  metric_description = r.metric_description;
  metric_unit = r.metric_unit;
  attributes = r.attributes;
  aggregation_temporality = r.aggregation_temporality;
  is_monotonic = r.is_monotonic;
}

module _ (x : Xxhash) (fm : Formats) where
  open x use {new, write, sum64}

  -- The datapoints of a sequence of requests, and the items that the requests become.
  unfoldable pub all_sources : List (List ResourceMetrics) → List Source
  all_sources [] = []
  all_sources (rms ∷ requests) = sources x fm rms ++ all_sources requests

  abbrev pub items_of : List (List ResourceMetrics) → List IngestItem
  items_of = map (item_of_request x fm)

  -- A row shows a datapoint: it has the columns of its point, and describes its series.
  abbrev pub Shows : Source → WideRow → Type 0
  Shows s r = (point_columns r ≡ point x fm s) × SameSeries (series_columns r) s.0

  -- One row for each datapoint, in order, which shows it.
  abbrev pub ReadsBack : List Source → List WideRow → Type 0
  ReadsBack [] [] = Unit {0}
  ReadsBack [] (r ∷ rows) = ⊥
  ReadsBack (s ∷ ss) [] = ⊥
  ReadsBack (s ∷ ss) (r ∷ rows) = Shows s r × ReadsBack ss rows

  -- The hash does not collide on two series.
  abbrev pub AreApart : SeriesMetadata → SeriesMetadata → Type 0
  AreApart s t =
      sum64 (write new (encode_series s)) ≡ sum64 (write new (encode_series t))
      → encode_series s ≡ encode_series t

  -- The series of some datapoints are within the ranges of the Go types, and the hash does not
  -- collide on any two of them.
  abbrev pub AreTold : List Source → Type 0
  AreTold ss = All (λ s. IsSeries s.0 × All (λ t. AreApart s.0 t.0) ss) ss
