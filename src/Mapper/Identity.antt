-- ===== src/Mapper/Identity.antt =====
-- What a shared fingerprint means for the rows that `MapMetrics` makes.
use take_home_assignments.Prelude.{◌≡◌, refl, sym, ◌∙◌, ◌↔◌, List, All_mem, All-mono}
use take_home_assignments.Text.{Str}
use take_home_assignments.Dict.Canonical.{SameEntries}
use take_home_assignments.Otlp.{NumberDataPoint, ResourceMetrics}
use take_home_assignments.Series.{SeriesMetadata}
use take_home_assignments.Fingerprint.{Xxhash, fingerprint_series}
use take_home_assignments.Fingerprint.Encoding.{encode_series}
use take_home_assignments.Fingerprint.Identity.{
  IsSeries, SameSeries, fingerprint_series_stable, fingerprint_series_identity,
}
use take_home_assignments.Mapper.{Formats, kv_to_map, series_of, map_metrics}
use take_home_assignments.Mapper.Content.{IsRow, last_value, lookup-kv_to_map, map_metrics-IsRow}
use mathlib.Core.List.{Mem}
use native.Mathlib.Nat.{ℕ_set}

module _ (x : Xxhash) (fm : Formats) where
  open x use {new, write, sum64}

  row_fingerprint :
      (rms : List ResourceMetrics) (s : SeriesMetadata)
      → Mem s (map_metrics x fm rms).0
      → s.fingerprint ≡ fingerprint_series x s
  row_fingerprint rms s mem =
      let own = λ (t : SeriesMetadata). t.fingerprint ≡ fingerprint_series x t in
      All_mem own (map_metrics x fm rms).0 s (λ t. ℕ_set _ _)
        (All-mono (IsRow x fm) own (map_metrics x fm rms).0 (λ t h. h.fingerprint)
          (map_metrics-IsRow x fm rms))
        mem

  -- Metadata rows of any two requests share their fingerprint exactly if they describe one series,
  -- where the fields are within the ranges of the Go types and the hash does not collide on the
  -- bytes of the two.
  pub map_metrics_identity :
      (rms rms' : List ResourceMetrics) (s t : SeriesMetadata)
      → Mem s (map_metrics x fm rms).0
      → Mem t (map_metrics x fm rms').0
      → IsSeries s
      → IsSeries t
      → (sum64 (write new (encode_series s)) ≡ sum64 (write new (encode_series t))
          → encode_series s ≡ encode_series t)
      → (s.fingerprint ≡ t.fingerprint) ↔ SameSeries s t
  map_metrics_identity rms rms' s t ms mt hs ht no_collision =
      let own_s = row_fingerprint rms s ms in
      let own_t = row_fingerprint rms' t mt in
      let iff = fingerprint_series_identity s t hs ht x no_collision in
      (λ e. iff.0 (sym own_s ∙ e ∙ own_t), λ h. own_s ∙ iff.1 h ∙ sym own_t)

  SameSeries-series_of :
      (base : SeriesMetadata) (dp dp' : NumberDataPoint)
      → SameEntries (kv_to_map x fm dp.get_attributes) (kv_to_map x fm dp'.get_attributes)
      → SameSeries (series_of x fm base dp) (series_of x fm base dp')
  unfolding series_of
  SameSeries-series_of base dp dp' h = record {
    metric_type = refl;
    resource_attributes = λ k. refl;
    resource_schema_url = refl;
    scope_name = refl;
    scope_version = refl;
    scope_attributes = λ k. refl;
    scope_dropped_attr_count = refl;
    scope_schema_url = refl;
    service_name = refl;
    metric_name = refl;
    metric_description = refl;
    metric_unit = refl;
    attributes = h;
    aggregation_temporality = refl;
    is_monotonic = refl;
  }

  fingerprint-series_of :
      (base : SeriesMetadata) (dp : NumberDataPoint)
      → (series_of x fm base dp).fingerprint ≡ fingerprint_series x (series_of x fm base dp)
  unfolding series_of fingerprint_series
  fingerprint-series_of base dp = refl

  -- Datapoints of one metric, with series within the ranges of the Go types, get one fingerprint
  -- if their attributes say the same of every key, whatever the order in which they arrive.
  pub series_of_order :
      (base : SeriesMetadata) (dp dp' : NumberDataPoint)
      → ((k : Str) → last_value x fm k dp.get_attributes ≡ last_value x fm k dp'.get_attributes)
      → IsSeries (series_of x fm base dp)
      → IsSeries (series_of x fm base dp')
      → (series_of x fm base dp).fingerprint ≡ (series_of x fm base dp').fingerprint
  series_of_order base dp dp' h hs ht =
      let same = λ (k : Str).
        lookup-kv_to_map x fm k dp.get_attributes
        ∙ h k
        ∙ sym (lookup-kv_to_map x fm k dp'.get_attributes) in
      fingerprint-series_of base dp
      ∙ fingerprint_series_stable _ _ hs ht x (SameSeries-series_of base dp dp' same)
      ∙ sym (fingerprint-series_of base dp')
