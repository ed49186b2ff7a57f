-- ===== src/Readback/Requests.antt =====
-- What the items of a sequence of requests hold.
use take_home_assignments.Prelude.{
  ◌≡◌, refl, sym, ap, ◌∙◌, ℕ, true, List, [], ◌∷◌, ◌++◌, ◌||◌, map, arith, All, All-map, All-split,
  All-append, All-mono, contains, ==_refl,
}
use take_home_assignments.Series.{SeriesMetadata}
use take_home_assignments.Otlp.{ResourceMetrics}
use take_home_assignments.Fingerprint.{Xxhash}
use take_home_assignments.Mapper.{Formats, map_metrics, point_of}
use take_home_assignments.Mapper.Points.{Source, sources, point, map_metrics-sources}
use take_home_assignments.Mapper.Metadata.{
  row_fingerprints, point_fingerprints, All-first_of_each, map_metrics_deduped,
}
use take_home_assignments.Mapper.Content.{IsRow, sources-IsRow}
use take_home_assignments.Ingester.System.Points.{points_of}
use take_home_assignments.Ingester.System.Rows.{rows_of}
use take_home_assignments.Readback.{all_sources, items_of}
use mathlib.Core.Path.{ap₂}
use mathlib.Core.List.{map-append}

contains-append :
    (fs gs : List ℕ) (f : ℕ) → contains (fs ++ gs) f ≡ (contains fs f || contains gs f)
unfolding contains
contains-append [] gs f = refl
contains-append (g ∷ fs) gs f = ground (arith, contains-append fs gs f)

module _ (x : Xxhash) (fm : Formats) where
  pub points_of-items :
      (requests : List (List ResourceMetrics))
      → points_of (items_of x fm requests) ≡ map (point x fm) (all_sources x fm requests)
  unfolding points_of all_sources
  points_of-items [] = refl
  points_of-items (rms ∷ requests) =
      ap₂ ◌++◌ (ap (λ r. r.1) (map_metrics-sources x fm rms)) (points_of-items requests)
      ∙ sym (map-append (point x fm) (sources x fm rms) (all_sources x fm requests))

  -- What all sources have, all metadata rows have.
  pub All-rows_of-items {κ} :
      (P : SeriesMetadata → Type κ) (requests : List (List ResourceMetrics))
      → All (λ (s : Source). P s.0) (all_sources x fm requests)
      → All P (rows_of (items_of x fm requests))
  unfolding rows_of all_sources
  All-rows_of-items P [] h = tt
  All-rows_of-items P (rms ∷ requests) h =
      let (now, later) =
        All-split (λ (s : Source). P s.0) (sources x fm rms) (all_sources x fm requests) h in
      let series = λ (s : Source). s.0 in
      All-append P (map_metrics x fm rms).0 (rows_of (items_of x fm requests))
        (rw map_metrics-sources (
          All-first_of_each P (map series (sources x fm rms)) []
            (All-map P series (sources x fm rms) now)))
        (All-rows_of-items P requests later)

  contains-points :
      (ss : List Source)
      → All
          (λ (s : Source).
            contains (point_fingerprints (map (point x fm) ss)) s.0.fingerprint ≡ true)
          ss
  unfolding point_of contains
  contains-points [] = tt
  contains-points ((s, dp) ∷ ss) =
      let others = point_fingerprints (map (point x fm) ss) in
      (
        ground (arith, ==_refl s.fingerprint),
        All-mono (λ (t : Source). contains others t.0.fingerprint ≡ true) _ ss
            (λ t h. ground (arith, h)) (contains-points ss),
      )

  contains-rows :
      (rms : List ResourceMetrics) (f : ℕ)
      → contains (point_fingerprints (map (point x fm) (sources x fm rms))) f ≡ true
      → contains (row_fingerprints (map_metrics x fm rms).0) f ≡ true
  contains-rows rms f h =
      (map_metrics_deduped x fm rms).1 f
      ∙ ap (λ r. contains (point_fingerprints r.1) f) (map_metrics-sources x fm rms)
      ∙ h

  contains-more :
      (rows more : List SeriesMetadata) (f : ℕ)
      → contains (row_fingerprints (rows ++ more)) f
        ≡ (contains (row_fingerprints rows) f || contains (row_fingerprints more) f)
  contains-more rows more f =
      ap (λ fs. contains fs f) (map-append (λ s. s.fingerprint) rows more)
      ∙ contains-append (row_fingerprints rows) (row_fingerprints more) f

  -- Each source has a metadata row of its fingerprint.
  pub contains-rows_of-items :
      (requests : List (List ResourceMetrics))
      → All
          (λ (s : Source).
            contains (row_fingerprints (rows_of (items_of x fm requests))) s.0.fingerprint ≡ true)
          (all_sources x fm requests)
  unfolding rows_of all_sources
  contains-rows_of-items [] = tt
  contains-rows_of-items (rms ∷ requests) =
      let rows = (map_metrics x fm rms).0 in
      let more = rows_of (items_of x fm requests) in
      All-append (λ (s : Source). contains (row_fingerprints (rows ++ more)) s.0.fingerprint ≡ true)
        (sources x fm rms) (all_sources x fm requests)
        (All-mono
          (λ (s : Source).
            contains (point_fingerprints (map (point x fm) (sources x fm rms))) s.0.fingerprint
            ≡ true)
          _ (sources x fm rms)
          (λ s h.
            contains-more rows more s.0.fingerprint ∙ rw (contains-rows rms s.0.fingerprint h) refl)
          (contains-points (sources x fm rms)))
        (All-mono (λ (s : Source). contains (row_fingerprints more) s.0.fingerprint ≡ true) _
          (all_sources x fm requests)
          (λ s h. contains-more rows more s.0.fingerprint ∙ ground (arith, h))
          (contains-rows_of-items requests))

  pub all_sources-IsRow :
      (requests : List (List ResourceMetrics))
      → All (λ (s : Source). IsRow x fm s.0) (all_sources x fm requests)
  unfolding all_sources
  all_sources-IsRow [] = tt
  all_sources-IsRow (rms ∷ requests) =
      All-append (λ (s : Source). IsRow x fm s.0) (sources x fm rms) (all_sources x fm requests)
        (sources-IsRow x fm rms) (all_sources-IsRow requests)
