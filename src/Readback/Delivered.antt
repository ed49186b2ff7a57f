-- ===== src/Readback/Delivered.antt =====
-- The rows of the view after a run of the ingester over exported requests.
use take_home_assignments.Prelude.{
  ◌≡◌, refl, sym, ◌∙◌, ℕ, Bool, true, false, some, List, [], ◌∷◌, map, All, All-mono, All-zip,
  contains, if◌then◌else◌,
}
use take_home_assignments.Series.{SeriesMetadata, DataPoint}
use take_home_assignments.Otlp.{ResourceMetrics}
use take_home_assignments.Fingerprint.{Xxhash}
use take_home_assignments.Fingerprint.Identity.{IsSeries, SameSeries, fingerprint_series_identity}
use take_home_assignments.Mapper.{Formats, point_of}
use take_home_assignments.Mapper.Points.{Source, point}
use take_home_assignments.Mapper.Metadata.{row_fingerprints}
use take_home_assignments.Mapper.Content.{IsRow}
use take_home_assignments.Cache.Lru.{touch}
use take_home_assignments.Store.{MetricsStore}
use take_home_assignments.Store.Recorder.{Recorded, stored_points, stored_metadata, failures}
use take_home_assignments.Ingester.{IngesterConfig}
use take_home_assignments.Ingester.Metadata.{pass}
use take_home_assignments.Ingester.Coverage.{pass_complete}
use take_home_assignments.Ingester.System.{System}
use take_home_assignments.Ingester.System.Run.{Reach}
use take_home_assignments.Ingester.System.Batches.{cache_size}
use take_home_assignments.Ingester.System.Rows.{rows_of, done_metadata}
use take_home_assignments.Ingester.System.Drain.{done_stored, stored_metadata_of_no_failures}
use take_home_assignments.View.{wide, otel_metrics}
use take_home_assignments.View.Described.{
  find_row, All-find_row, contains-find_row, described, otel_metrics-described,
}
use take_home_assignments.Readback.{
  all_sources, items_of, series_columns, ReadsBack, AreApart, AreTold,
}
use take_home_assignments.Readback.Requests.{
  points_of-items, All-rows_of-items, contains-rows_of-items, all_sources-IsRow,
}
use mathlib.Core.Path.{subst, ap₂}

All-kept {κ} :
    (P : SeriesMetadata → Type κ) (held : Bool) (s : SeriesMetadata) (rows : List SeriesMetadata)
    → P s
    → All P rows
    → All P (if held then rows else s ∷ rows)
All-kept P true s rows h hs = hs
All-kept P false s rows h hs = (h, hs)

pub All-pass {κ} :
    (P : SeriesMetadata → Type κ) (n : ℕ) (vs : List ℕ) (rows : List SeriesMetadata)
    → All P rows
    → All P (pass n vs rows).0
unfolding pass
All-pass P n vs [] h = tt
All-pass P n vs (s ∷ rows) h =
    All-kept P (contains vs s.fingerprint) s _ h.0
      (All-pass P n (touch n s.fingerprint vs) rows h.1)

SameSeries-columns :
    (p : DataPoint) (m s : SeriesMetadata)
    → SameSeries m s
    → SameSeries (series_columns (wide p m)) s
unfolding wide
SameSeries-columns p m s h = record {
  metric_type = h.metric_type;
  resource_attributes = h.resource_attributes;
  resource_schema_url = h.resource_schema_url;
  scope_name = h.scope_name;
  scope_version = h.scope_version;
  scope_attributes = h.scope_attributes;
  scope_dropped_attr_count = h.scope_dropped_attr_count;
  scope_schema_url = h.scope_schema_url;
  service_name = h.service_name;
  metric_name = h.metric_name;
  metric_description = h.metric_description;
  metric_unit = h.metric_unit;
  attributes = h.attributes;
  aggregation_temporality = h.aggregation_temporality;
  is_monotonic = h.is_monotonic;
}

module _ (x : Xxhash) (fm : Formats) where
  -- Every row with the fingerprint of a source describes its series, and there is one.
  abbrev pub Describes : List SeriesMetadata → Source → Type 0
  Describes rows s =
      (contains (row_fingerprints rows) s.0.fingerprint ≡ true)
      × ((m : SeriesMetadata) → find_row s.0.fingerprint rows ≡ some m → SameSeries m s.0)

  pub ReadsBack-described :
      (rows : List SeriesMetadata) (ss : List Source)
      → All (Describes rows) ss
      → ReadsBack x fm ss (described (map (point x fm) ss) rows)
  unfolding described point_of wide
  ReadsBack-described rows [] h = tt
  ReadsBack-described rows ((s, dp) ∷ ss) h =
      let (m, found) = contains-find_row s.fingerprint rows h.0.0 in
      rw found (
        (refl, SameSeries-columns (point x fm (s, dp)) m s (h.0.1 m found)),
        ReadsBack-described rows ss h.1,
      )

  -- A row that can be told from a given series.
  abbrev pub Known : SeriesMetadata → SeriesMetadata → Type 0
  Known s m = IsRow x fm m × IsSeries m × AreApart x fm s m

  pub same_series :
      (s m : SeriesMetadata)
      → IsRow x fm s
      → IsSeries s
      → Known s m
      → m.fingerprint ≡ s.fingerprint
      → SameSeries m s
  same_series s m own hs (row, hm, apart) e =
      (fingerprint_series_identity m s hm hs x (λ c. sym (apart (sym c)))).0
        (sym row.fingerprint ∙ e ∙ own.fingerprint)

  pub Known-pass :
      (requests : List (List ResourceMetrics)) (n : ℕ) (s : SeriesMetadata)
      → AreTold x fm (all_sources x fm requests)
      → All (λ (t : Source). AreApart x fm s t.0) (all_sources x fm requests)
      → All (Known s) (pass n [] (rows_of (items_of x fm requests))).0
  Known-pass requests n s told apart =
      let ss = all_sources x fm requests in
      All-pass (Known s) n [] (rows_of (items_of x fm requests)) (
        All-rows_of-items x fm (Known s) requests (
          All-mono _ (λ (t : Source). Known s t.0) ss (λ t h. (h.0, h.1.0.0, h.1.1))
            (All-zip _ _ ss (all_sources-IsRow x fm requests) (
              All-zip
                (λ (t : Source). IsSeries t.0 × All (λ (u : Source). AreApart x fm t.0 u.0) ss) _ ss
                told apart))))

  -- The rows that pass an LRU set describe every source.
  pub All-Describes :
      (requests : List (List ResourceMetrics)) (n : ℕ)
      → AreTold x fm (all_sources x fm requests)
      → All (Describes (pass n [] (rows_of (items_of x fm requests))).0) (all_sources x fm requests)
  unfolding contains
  All-Describes requests n told =
      let ss = all_sources x fm requests in
      let rows = rows_of (items_of x fm requests) in
      let passed = (pass n [] rows).0 in
      All-mono _ (Describes passed) ss
        (λ s h.
          let (row, ((hs, apart), there)) = h in
          (
            pass_complete n rows [] s.0.fingerprint refl ∙ there,
            λ m found.
                let (known, same) =
                  All-find_row (Known s.0) s.0.fingerprint passed m
                    (Known-pass requests n s.0 told apart) found in
                same_series s.0 m row hs known same,
          ))
        (All-zip _ _ ss (all_sources-IsRow x fm requests)
          (All-zip _ _ ss told (contains-rows_of-items x fm requests)))

  -- Over any store, and if no call of it has failed by the time the goroutine has returned, the view
  -- of the stored rows has one row for each gauge or sum datapoint of the acknowledged requests, in
  -- order, with the columns of its point and a description of its own series: where the series are
  -- within the ranges of the Go types and the hash does not collide on any two of them.
  pub export-ReadsBack :
      {S : Type 0} (st : MetricsStore S) (config : IngesterConfig) (world : S)
      (requests : List (List ResourceMetrics)) {sys : System (Recorded S)}
      → AreTold x fm (all_sources x fm requests)
      → Reach st config world (items_of x fm requests) sys
      → sys.done ≡ true
      → failures sys.flusher.store.calls ≡ 0
      → ReadsBack x fm (all_sources x fm requests) (
          otel_metrics
            (stored_points sys.flusher.store.calls)
            (stored_metadata sys.flusher.store.calls))
  export-ReadsBack st config world requests {sys} told r d clean =
      let ss = all_sources x fm requests in
      let n = cache_size config in
      let calls = sys.flusher.store.calls in
      let given = done_stored st config world r d clean ∙ points_of-items x fm requests in
      let kept =
        stored_metadata_of_no_failures calls clean ∙ (done_metadata st config world r d).0 in
      subst (ReadsBack x fm ss)
        (sym (
          otel_metrics-described (stored_points calls) (stored_metadata calls)
          ∙ ap₂ described given kept))
        (ReadsBack-described (pass n [] (rows_of (items_of x fm requests))).0 ss
          (All-Describes requests n told))
