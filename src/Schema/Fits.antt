-- ===== src/Schema/Fits.antt =====
-- The types of the columns, against the values that a mapped request gives them.
use take_home_assignments.Prelude.{
  ◌≡◌, ap, ℕ, ◌<◌, ◌^◌, Bool, List, [], ◌∷◌, arith, map, All, All-map, All-mono, All-zip,
}
use take_home_assignments.Prelude.Int.{ℤ, pos}
use take_home_assignments.Text.{Str}
use take_home_assignments.Dict.{Dict}
use take_home_assignments.Series.{SeriesMetadata, DataPoint, unix_nanos}
use take_home_assignments.Otlp.{NumberDataPoint, ResourceMetrics}
use take_home_assignments.Fingerprint.{Xxhash, fingerprint_series}
use take_home_assignments.Fingerprint.Identity.{IsInt32, IsSeries}
use take_home_assignments.Mapper.{
  Formats, map_metrics, number_data_point_value, nanos_to_time, point_of,
}
use take_home_assignments.Mapper.Points.{Source, sources, point, map_metrics-sources}
use take_home_assignments.Mapper.Metadata.{All-first_of_each}
use take_home_assignments.Mapper.Content.{IsRow, sources-IsRow}
use take_home_assignments.Clickhouse.{
  Value, uint64, uint32, float64, int32, string, string_map, boolean, instant, metadata_row,
  point_row,
}
use take_home_assignments.Schema.{
  ColumnType, uint64_type, uint32_type, int32_type, float64_type, bool_type, date_time64_type,
  string_type, low_cardinality_type, map_type, Column, otel_metrics_meta, otel_metrics_point,
}

-- Which values the driver takes for a column, as its documentation says: each column type has one Go
-- type, whose range it covers. A `DateTime64(9)` counts nanoseconds in an int64.
pub record IsTyped (Accepts : ColumnType → Value → Type 0) : Type 0 where
  pub uint64_taken : (n : ℕ) → n < 2 ^ 64 → Accepts uint64_type (uint64 n)
  pub uint32_taken : (n : ℕ) → n < 2 ^ 32 → Accepts uint32_type (uint32 n)
  pub int32_taken : (i : ℤ) → IsInt32 i → Accepts int32_type (int32 i)
  pub float64_taken : (bits : ℕ) → bits < 2 ^ 64 → Accepts float64_type (float64 bits)
  pub boolean_taken : (b : Bool) → Accepts bool_type (boolean b)
  pub instant_taken : (n : ℕ) → n < 2 ^ 63 → Accepts date_time64_type (instant (unix_nanos (pos n)))
  pub string_taken : (s : Str) → Accepts string_type (string s)
  pub low_cardinality_taken : (s : Str) → Accepts low_cardinality_type (string s)
  pub map_taken : (d : Dict) → Accepts map_type (string_map d)

-- A row has one value for each column, in order, and the column takes it.
abbrev pub Fits : (ColumnType → Value → Type 0) → List Column → List Value → Type 0
Fits Accepts [] [] = Unit {0}
Fits Accepts [] (v ∷ row) = ⊥
Fits Accepts (c ∷ columns) [] = ⊥
Fits Accepts (c ∷ columns) (v ∷ row) = Accepts c.kind v × Fits Accepts columns row

-- A value that fits the first column, before values that fit the others.
infixr 4 ◌▸◌
abbrev ◌▸◌ : {A B : Type 0} → A → B → A × B
a ▸ b = (a, b)

module _ (Accepts : ColumnType → Value → Type 0) (t : IsTyped Accepts) (x : Xxhash) (fm : Formats)
    (sum64_range : (d : x.Digest) → x.sum64 d < 2 ^ 64) where
  -- A datapoint within the ranges of the protobuf types, its times before the year 2262.
  pub record IsReading (dp : NumberDataPoint) : Type 0 where
    pub start_time : dp.get_start_time_unix_nano < 2 ^ 63
    pub time : dp.get_time_unix_nano < 2 ^ 63
    pub value : number_data_point_value x fm dp < 2 ^ 64
    pub flags : dp.get_flags < 2 ^ 32

  nanos_to_time-unix_nanos : (n : ℕ) → n < 2 ^ 63 → nanos_to_time n ≡ unix_nanos (pos n)
  unfolding nanos_to_time
  nanos_to_time-unix_nanos n h = ap unix_nanos (ground arith)

  instant-taken : (n : ℕ) → n < 2 ^ 63 → Accepts date_time64_type (instant (nanos_to_time n))
  instant-taken n h = rw nanos_to_time-unix_nanos (t.instant_taken n h)

  fingerprint-lt : (s : SeriesMetadata) → IsRow x fm s → s.fingerprint < 2 ^ 64
  unfolding fingerprint_series
  fingerprint-lt s h = rw h.fingerprint (sum64_range _)

  metadata_row-Fits :
      (s : SeriesMetadata)
      → IsRow x fm s
      → IsSeries s
      → Fits Accepts otel_metrics_meta.columns (metadata_row s)
  unfolding otel_metrics_meta metadata_row
  metadata_row-Fits s row h =
      t.uint64_taken _ (fingerprint-lt s row)
      ▸ t.low_cardinality_taken _
      ▸ t.map_taken _
      ▸ t.string_taken _
      ▸ t.string_taken _
      ▸ t.string_taken _
      ▸ t.map_taken _
      ▸ t.uint32_taken _ h.scope_dropped_attr_count
      ▸ t.string_taken _
      ▸ t.low_cardinality_taken _
      ▸ t.low_cardinality_taken _
      ▸ t.string_taken _
      ▸ t.string_taken _
      ▸ t.map_taken _
      ▸ t.int32_taken _ h.aggregation_temporality
      ▸ t.boolean_taken _
      ▸ tt

  point_row-Fits :
      (s : Source)
      → IsRow x fm s.0
      → IsReading s.1
      → Fits Accepts otel_metrics_point.columns (point_row (point x fm s))
  unfolding otel_metrics_point point_row point_of number_data_point_value
  point_row-Fits (s, dp) row h =
      t.uint64_taken _ (fingerprint-lt s row)
      ▸ instant-taken _ h.start_time
      ▸ instant-taken _ h.time
      ▸ t.float64_taken _ h.value
      ▸ t.uint32_taken _ h.flags
      ▸ tt

  -- With a driver that takes the documented Go type for each column, and a request whose values are
  -- within the ranges of their types and whose times are before the year 2262, every row that is
  -- inserted for the request has one value for each column of its table, in order and of its type.
  pub map_metrics-Fits :
      (rms : List ResourceMetrics)
      → All (λ (s : Source). IsSeries s.0 × IsReading s.1) (sources x fm rms)
      → All (λ m. Fits Accepts otel_metrics_meta.columns (metadata_row m)) (map_metrics x fm rms).0
        × All (λ p. Fits Accepts otel_metrics_point.columns (point_row p)) (map_metrics x fm rms).1
  map_metrics-Fits rms h =
      let ss = sources x fm rms in
      let known = All-zip _ _ ss (sources-IsRow x fm rms) h in
      let MetaFits =
        λ (m : SeriesMetadata). Fits Accepts otel_metrics_meta.columns (metadata_row m) in
      let PointFits = λ (p : DataPoint). Fits Accepts otel_metrics_point.columns (point_row p) in
      rw map_metrics-sources (
        All-first_of_each MetaFits (map (λ s. s.0) ss) [] (
            All-map MetaFits (λ s. s.0) ss
              (All-mono _ (λ (s : Source). MetaFits s.0) ss (λ s k. metadata_row-Fits s.0 k.0 k.1.0)
                known)),
        All-map PointFits (point x fm) ss (
            All-mono _ (λ (s : Source). PointFits (point x fm s)) ss
              (λ s k. point_row-Fits s k.0 k.1.1) known),
      )
