-- ===== src/Mapper/Points.antt =====
-- `MapMetrics` as one pass over the datapoints of the request: the four nested loops visit the
-- gauge and sum datapoints in order, each with the series that it belongs to.
use take_home_assignments.Prelude.{
  ◌≡◌, refl, sym, ap, ◌∙◌, ℕ, Bool, false, none, some, List, [], ◌∷◌, ◌++◌, map, arith, inl, inr,
  contains, if◌then◌else◌, Option-cases,
}
use take_home_assignments.Prelude.Int.{ℤ, pos}
use take_home_assignments.Text.{Str, bytes}
use take_home_assignments.Otlp.{
  as_double, as_int, unset, NumberDataPoint, Metric, ScopeMetrics, ResourceMetrics,
}
use take_home_assignments.Series.{SeriesMetadata, DataPoint}
use take_home_assignments.Fingerprint.{Xxhash, fingerprint_series}
use take_home_assignments.Mapper.{
  Formats, Mapped, base_of, select, series_of, point_of, kv_to_map, service_name, nanos_to_time,
  number_data_point_value, map_data_point, map_data_points, map_metric, map_metrics_of, map_scopes,
  map_resources, map_metrics,
}
use mathlib.Core.List.{append_assoc, append-nil}

-- A datapoint with its series.
abbrev pub Source : Type 0
Source = SeriesMetadata × NumberDataPoint

-- The rows that are not there yet: the first of each fingerprint outside `seen`.
unfoldable pub first_of_each : List ℕ → List SeriesMetadata → List SeriesMetadata
first_of_each seen [] = []
first_of_each seen (s ∷ ss) =
    let skip = first_of_each seen ss in
    let keep = s ∷ first_of_each (s.fingerprint ∷ seen) ss in
    if contains seen s.fingerprint then skip else keep

module _ (x : Xxhash) (fm : Formats) where
  -- The series of a datapoint, column by column, with what the type of its metric decides.
  unfoldable pub column_values :
      Str → ℤ → Bool → ResourceMetrics → ScopeMetrics → Metric → NumberDataPoint → SeriesMetadata
  column_values kind temporality monotonic rm sm metric dp =
      let series : SeriesMetadata = record {
        fingerprint = 0;
        metric_type = kind;
        resource_attributes = kv_to_map x fm rm.get_resource.get_attributes;
        resource_schema_url = rm.get_schema_url;
        scope_name = sm.get_scope.get_name;
        scope_version = sm.get_scope.get_version;
        scope_attributes = kv_to_map x fm sm.get_scope.get_attributes;
        scope_dropped_attr_count = sm.get_scope.get_dropped_attributes_count;
        scope_schema_url = sm.get_schema_url;
        service_name = service_name rm.get_resource;
        metric_name = metric.get_name;
        metric_description = metric.get_description;
        metric_unit = metric.get_unit;
        attributes = kv_to_map x fm dp.get_attributes;
        aggregation_temporality = temporality;
        is_monotonic = monotonic;
      } in
      record series { fingerprint = fingerprint_series x series }

  -- The datapoints of a metric: of its gauge, or else of its sum.
  unfoldable pub metric_sources : ResourceMetrics → ScopeMetrics → Metric → List Source
  metric_sources rm sm metric = elim metric.get_gauge [
    | some gauge ↦
        map (λ dp. (column_values (bytes "gauge") (pos 0) false rm sm metric dp, dp))
          gauge.get_data_points
    | none ↦ elim metric.get_sum [
      | some sum ↦
          map
            (λ dp. (
              column_values (bytes "sum") sum.get_aggregation_temporality sum.get_is_monotonic rm sm
                  metric dp,
              dp,
            ))
            sum.get_data_points
      | none ↦ []
    ]
  ]

  unfoldable pub sources_of : ResourceMetrics → ScopeMetrics → List Metric → List Source
  sources_of rm sm [] = []
  sources_of rm sm (metric ∷ rest) = metric_sources rm sm metric ++ sources_of rm sm rest

  unfoldable pub scope_sources : ResourceMetrics → List ScopeMetrics → List Source
  scope_sources rm [] = []
  scope_sources rm (sm ∷ rest) = sources_of rm sm sm.get_metrics ++ scope_sources rm rest

  -- The gauge and sum datapoints of a request, in the order of the request.
  unfoldable pub sources : List ResourceMetrics → List Source
  sources [] = []
  sources (rm ∷ rest) = scope_sources rm rm.get_scope_metrics ++ sources rest

  -- The point of a datapoint, column by column.
  abbrev pub point : Source → DataPoint
  point (s, dp) = record {
    fingerprint = s.fingerprint;
    start_time_unix = nanos_to_time dp.get_start_time_unix_nano;
    time_unix = nanos_to_time dp.get_time_unix_nano;
    value = elim dp.get_value [ as_double v ↦ v | as_int v ↦ fm.float_of_int v | unset ↦ 0 ];
    flags = dp.get_flags;
  }

  -- The switch of the code selects the same datapoints, and completes their series alike.
  metric_sources-select :
      (rm : ResourceMetrics) (sm : ScopeMetrics) (metric : Metric)
      → metric_sources rm sm metric ≡ elim (select x fm (base_of x fm rm sm metric) metric) [
        | none ↦ []
        | some (base, dps) ↦ map (λ dp. (series_of x fm base dp, dp)) dps
      ]
  unfolding metric_sources select base_of series_of column_values
  metric_sources-select rm sm metric = elim (Option-cases metric.get_gauge) [
    | inr (gauge, e) ↦ rw e refl
    | inl e ↦ elim (Option-cases metric.get_sum) [
      | inr (sum, e') ↦ rw e (rw e' refl)
      | inl e' ↦ rw e (rw e' refl)
    ]
  ]

  pub metric_sources-none :
      (rm : ResourceMetrics) (sm : ScopeMetrics) (metric : Metric)
      → select x fm (base_of x fm rm sm metric) metric ≡ none
      → metric_sources rm sm metric ≡ []
  metric_sources-none rm sm metric e = metric_sources-select rm sm metric ∙ rw e refl

  pub metric_sources-some :
      (rm : ResourceMetrics) (sm : ScopeMetrics) (metric : Metric) (base : SeriesMetadata)
      (dps : List NumberDataPoint)
      → select x fm (base_of x fm rm sm metric) metric ≡ some (base, dps)
      → metric_sources rm sm metric ≡ map (λ dp. (series_of x fm base dp, dp)) dps
  metric_sources-some rm sm metric base dps e = metric_sources-select rm sm metric ∙ rw e refl

  -- one round of the innermost loop, at a source
  take_in : Source → Mapped → Mapped
  take_in (s, dp) out =
      if contains out.seen s.fingerprint
      then record out { points = out.points ++ (point (s, dp) ∷ []) }
      else record {
        metadata = out.metadata ++ (s ∷ []);
        points = out.points ++ (point (s, dp) ∷ []);
        seen = s.fingerprint ∷ out.seen;
      }

  take_all : List Source → Mapped → Mapped
  take_all [] out = out
  take_all (s ∷ ss) out = take_all ss (take_in s out)

  take_all-append :
      (ss ts : List Source) (out : Mapped) → take_all (ss ++ ts) out ≡ take_all ts (take_all ss out)
  unfolding take_all
  take_all-append [] ts out = refl
  take_all-append (s ∷ ss) ts out = take_all-append ss ts (take_in s out)

  map_data_points-take_all :
      (base : SeriesMetadata) (dps : List NumberDataPoint) (out : Mapped)
      → map_data_points x fm base dps out
        ≡ take_all (map (λ dp. (series_of x fm base dp, dp)) dps) out
  unfolding map_data_points map_data_point take_all take_in point_of number_data_point_value
  map_data_points-take_all base [] out = refl
  map_data_points-take_all base (dp ∷ dps) out =
      map_data_points-take_all base dps (map_data_point x fm base dp out)

  map_metrics_of-take_all :
      (rm : ResourceMetrics) (sm : ScopeMetrics) (ms : List Metric) (out : Mapped)
      → map_metrics_of x fm rm sm ms out ≡ take_all (sources_of rm sm ms) out
  unfolding map_metrics_of map_metric sources_of take_all
  map_metrics_of-take_all rm sm [] out = refl
  map_metrics_of-take_all rm sm (m ∷ ms) out =
      elim (Option-cases (select x fm (base_of x fm rm sm m) m)) [
        | inl e ↦
            let nothing = metric_sources-none rm sm m e in
            rw (e, map_metric, sources_of, nothing) (map_metrics_of-take_all rm sm ms out)
        | inr ((base, dps), e) ↦
            let selected = metric_sources-some rm sm m base dps e in
            rw (e, map_metric, sources_of, selected, map_data_points-take_all, take_all-append)
              (map_metrics_of-take_all rm sm ms _)
      ]

  map_scopes-take_all :
      (rm : ResourceMetrics) (sms : List ScopeMetrics) (out : Mapped)
      → map_scopes x fm rm sms out ≡ take_all (scope_sources rm sms) out
  unfolding map_scopes scope_sources take_all
  map_scopes-take_all rm [] out = refl
  map_scopes-take_all rm (sm ∷ sms) out =
      rw (map_metrics_of-take_all, take_all-append) (map_scopes-take_all rm sms _)

  map_resources-take_all :
      (rms : List ResourceMetrics) (out : Mapped)
      → map_resources x fm rms out ≡ take_all (sources rms) out
  unfolding map_resources sources take_all
  map_resources-take_all [] out = refl
  map_resources-take_all (rm ∷ rms) out =
      rw (map_scopes-take_all, take_all-append) (map_resources-take_all rms _)

  points-take_in :
      (s : Source) (out : Mapped) → (take_in s out).points ≡ out.points ++ (point s ∷ [])
  unfolding take_in
  points-take_in s out = ground arith

  points-take_all :
      (ss : List Source) (out : Mapped) → (take_all ss out).points ≡ out.points ++ map point ss
  unfolding take_all
  points-take_all [] out = sym (append-nil out.points)
  points-take_all (s ∷ ss) out =
      points-take_all ss (take_in s out)
      ∙ ap (λ ps. ps ++ map point ss) (points-take_in s out)
      ∙ append_assoc out.points (point s ∷ []) (map point ss)

  metadata-take_in :
      (s : Source) (out : Mapped) (ms : List SeriesMetadata)
      → (take_in s out).metadata ++ first_of_each (take_in s out).seen ms
        ≡ out.metadata ++ first_of_each out.seen (s.0 ∷ ms)
  unfolding take_in first_of_each
  metadata-take_in s out ms =
      ground (
        arith,
        append_assoc out.metadata (s.0 ∷ []) (first_of_each (s.0.fingerprint ∷ out.seen) ms),
      )

  metadata-take_all :
      (ss : List Source) (out : Mapped)
      → (take_all ss out).metadata ≡ out.metadata ++ first_of_each out.seen (map (λ s. s.0) ss)
  unfolding take_all first_of_each
  metadata-take_all [] out = sym (append-nil out.metadata)
  metadata-take_all (s ∷ ss) out =
      metadata-take_all ss (take_in s out) ∙ metadata-take_in s out (map (λ s. s.0) ss)

  -- The points of a request are those of the datapoints of its gauges and sums, one for each, in
  -- order, with the times, value and flags of the datapoint; its metadata rows are their series, the
  -- first of each fingerprint, with the columns of the resource, the scope, the metric and the
  -- datapoint, and of a sum its temporality and monotonicity.
  pub map_metrics-sources :
      (rms : List ResourceMetrics)
      → map_metrics x fm rms
        ≡ (first_of_each [] (map (λ s. s.0) (sources rms)), map point (sources rms))
  unfolding map_metrics
  map_metrics-sources rms = rw map_resources-take_all (rw (metadata-take_all, points-take_all) refl)
