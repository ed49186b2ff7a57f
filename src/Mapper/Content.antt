-- ===== src/Mapper/Content.antt =====
-- What a metadata row says: its fingerprint is that of its own fields, its maps hold the
-- attributes of the request, and a gauge has no temporality.
use take_home_assignments.Prelude.{
  ◌≡◌, refl, false, Option, none, some, List, [], ◌∷◌, map, arith, ◌⊎◌, inl, inr, All, All-append,
  Option-cases, if◌then◌else◌,
}
use take_home_assignments.Prelude.Int.{pos}
use take_home_assignments.Text.{Str, str_eq}
use take_home_assignments.Dict.{Dict, put, lookup}
use take_home_assignments.Dict.Laws.{IsDistinct, lookup-put, put-IsDistinct}
use take_home_assignments.Otlp.{KeyValue, NumberDataPoint, Metric, ScopeMetrics, ResourceMetrics}
use take_home_assignments.Series.{SeriesMetadata}
use take_home_assignments.Fingerprint.{Xxhash, fingerprint_series}
use take_home_assignments.Mapper.{
  Formats, any_value_to_string, kv_loop, kv_to_map, base_of, select, series_of, metric_type_gauge,
  metric_type_sum, map_metrics,
}
use take_home_assignments.Mapper.Points.{
  Source, metric_sources-none, metric_sources-some, sources_of, scope_sources, sources,
  map_metrics-sources,
}
use take_home_assignments.Mapper.Metadata.{All-first_of_each}

module _ (x : Xxhash) (fm : Formats) where
  -- The value that the last attribute with a key gives it.
  unfoldable pub last_value : Str → List KeyValue → Option Str
  last_value k [] = none
  last_value k (kv ∷ rest) = elim (last_value k rest) [
    | some v ↦ some v
    | none ↦ if str_eq kv.get_key k then some (any_value_to_string x fm kv.get_value) else none
  ]

  lookup-kv_loop :
      (k : Str) (m : Dict) (attrs : List KeyValue)
      → lookup k (kv_loop x fm m attrs)
        ≡ elim (last_value k attrs) [ some v ↦ some v | none ↦ lookup k m ]
  unfolding kv_loop last_value
  lookup-kv_loop k m [] = refl
  lookup-kv_loop k m (kv ∷ rest) =
      let value = any_value_to_string x fm kv.get_value in
      ground
        (arith, lookup-kv_loop k (put kv.get_key value m) rest, lookup-put kv.get_key k value m)

  -- `kvToMap` maps each key to the text of the last attribute that has it, and no other key.
  pub lookup-kv_to_map :
      (k : Str) (attrs : List KeyValue) → lookup k (kv_to_map x fm attrs) ≡ last_value k attrs
  unfolding kv_to_map lookup
  lookup-kv_to_map k attrs = ground (arith, lookup-kv_loop k [] attrs)

  kv_loop-IsDistinct :
      (m : Dict) (attrs : List KeyValue) → IsDistinct m → IsDistinct (kv_loop x fm m attrs)
  unfolding kv_loop
  kv_loop-IsDistinct m [] d = d
  kv_loop-IsDistinct m (kv ∷ rest) d =
      let value = any_value_to_string x fm kv.get_value in
      kv_loop-IsDistinct (put kv.get_key value m) rest (put-IsDistinct kv.get_key value m d)

  pub kv_to_map-IsDistinct : (attrs : List KeyValue) → IsDistinct (kv_to_map x fm attrs)
  unfolding kv_to_map
  kv_to_map-IsDistinct attrs = kv_loop-IsDistinct [] attrs tt

  -- A row as `MapMetrics` makes it.
  pub record IsRow (s : SeriesMetadata) : Type 0 where
    pub fingerprint : s.fingerprint ≡ fingerprint_series x s
    pub resource_attributes : IsDistinct s.resource_attributes
    pub scope_attributes : IsDistinct s.scope_attributes
    pub attributes : IsDistinct s.attributes
    pub kind :
        ((s.metric_type ≡ metric_type_gauge)
          × (s.aggregation_temporality ≡ pos 0)
          × (s.is_monotonic ≡ false))
        ⊎ (s.metric_type ≡ metric_type_sum)

  -- What `series_of` needs of the base of a metric.
  record IsBase (s : SeriesMetadata) : Type 0 where
    resource_attributes : IsDistinct s.resource_attributes
    scope_attributes : IsDistinct s.scope_attributes
    kind :
        ((s.metric_type ≡ metric_type_gauge)
          × (s.aggregation_temporality ≡ pos 0)
          × (s.is_monotonic ≡ false))
        ⊎ (s.metric_type ≡ metric_type_sum)

  series_of-IsRow :
      (s : SeriesMetadata) (dp : NumberDataPoint) → IsBase s → IsRow (series_of x fm s dp)
  unfolding series_of fingerprint_series
  series_of-IsRow s dp h = record {
    fingerprint = refl;
    resource_attributes = h.resource_attributes;
    scope_attributes = h.scope_attributes;
    attributes = kv_to_map-IsDistinct dp.get_attributes;
    kind = h.kind;
  }

  select-IsBase :
      (rm : ResourceMetrics) (sm : ScopeMetrics) (metric : Metric) (base : SeriesMetadata)
      (dps : List NumberDataPoint)
      → select x fm (base_of x fm rm sm metric) metric ≡ some (base, dps)
      → IsBase base
  unfolding select base_of
  select-IsBase rm sm metric base dps h = ground (
    arith,
    kv_to_map-IsDistinct rm.get_resource.get_attributes,
    kv_to_map-IsDistinct sm.get_scope.get_attributes,
  )

  rows_of_metric :
      (base : SeriesMetadata) (dps : List NumberDataPoint)
      → IsBase base
      → All (λ (s : Source). IsRow s.0) (map (λ dp. (series_of x fm base dp, dp)) dps)
  rows_of_metric base [] h = tt
  rows_of_metric base (dp ∷ dps) h = (series_of-IsRow base dp h, rows_of_metric base dps h)

  sources_of-IsRow :
      (rm : ResourceMetrics) (sm : ScopeMetrics) (ms : List Metric)
      → All (λ (s : Source). IsRow s.0) (sources_of x fm rm sm ms)
  unfolding sources_of
  sources_of-IsRow rm sm [] = tt
  sources_of-IsRow rm sm (m ∷ ms) = elim (Option-cases (select x fm (base_of x fm rm sm m) m)) [
    | inl e ↦
        let nothing = metric_sources-none x fm rm sm m e in
        rw (nothing, sources_of) (sources_of-IsRow rm sm ms)
    | inr ((base, dps), e) ↦
        let selected = metric_sources-some x fm rm sm m base dps e in
        rw (selected, sources_of)
          (All-append (λ (s : Source). IsRow s.0) _ (sources_of x fm rm sm ms)
            (rows_of_metric base dps (select-IsBase rm sm m base dps e))
            (sources_of-IsRow rm sm ms))
  ]

  scope_sources-IsRow :
      (rm : ResourceMetrics) (sms : List ScopeMetrics)
      → All (λ (s : Source). IsRow s.0) (scope_sources x fm rm sms)
  unfolding scope_sources
  scope_sources-IsRow rm [] = tt
  scope_sources-IsRow rm (sm ∷ sms) =
      All-append _ (sources_of x fm rm sm sm.get_metrics) (scope_sources x fm rm sms)
        (sources_of-IsRow rm sm sm.get_metrics) (scope_sources-IsRow rm sms)

  pub sources-IsRow :
      (rms : List ResourceMetrics) → All (λ (s : Source). IsRow s.0) (sources x fm rms)
  unfolding sources
  sources-IsRow [] = tt
  sources-IsRow (rm ∷ rms) =
      All-append _ (scope_sources x fm rm rm.get_scope_metrics) (sources x fm rms)
        (scope_sources-IsRow rm rm.get_scope_metrics) (sources-IsRow rms)

  rows_of_sources :
      (ss : List Source) → All (λ (s : Source). IsRow s.0) ss → All IsRow (map (λ s. s.0) ss)
  rows_of_sources [] h = tt
  rows_of_sources (s ∷ ss) h = (h.0, rows_of_sources ss h.1)

  -- Every metadata row carries the fingerprint of its own fields, maps with distinct keys, and no
  -- temporality or monotonicity unless it describes a sum.
  pub map_metrics-IsRow : (rms : List ResourceMetrics) → All IsRow (map_metrics x fm rms).0
  map_metrics-IsRow rms = rw map_metrics-sources (
      All-first_of_each IsRow (map (λ (s : Source). s.0) (sources x fm rms)) []
        (rows_of_sources (sources x fm rms) (sources-IsRow rms)))
