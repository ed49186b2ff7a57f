-- ===== src/Mapper/Metadata.antt =====
-- The metadata rows of a request: one for each fingerprint among its points.
use take_home_assignments.Prelude.{
  ◌≡◌, refl, sym, ap, ◌∙◌, ℕ, true, false, List, [], ◌∷◌, map, arith, inl, inr, ◌||◌, All, ==_refl,
  contains, Bool-cases,
}
use take_home_assignments.Otlp.{ResourceMetrics}
use take_home_assignments.Series.{SeriesMetadata, DataPoint}
use take_home_assignments.Fingerprint.{Xxhash}
use take_home_assignments.Mapper.{Formats, map_metrics, point_of}
use take_home_assignments.Mapper.Points.{Source, sources, point, first_of_each, map_metrics-sources}

abbrev pub row_fingerprints : List SeriesMetadata → List ℕ
row_fingerprints = map (λ s. s.fingerprint)

abbrev pub point_fingerprints : List DataPoint → List ℕ
point_fingerprints = map (λ p. p.fingerprint)

-- No number occurs twice.
abbrev pub AreDistinct : List ℕ → Type 0
AreDistinct [] = Unit {0}
AreDistinct (f ∷ fs) = (contains fs f ≡ false) × AreDistinct fs

first_of_each_new :
    (ss : List SeriesMetadata) (seen : List ℕ) (f : ℕ)
    → contains seen f ≡ true
    → contains (row_fingerprints (first_of_each seen ss)) f ≡ false
unfolding first_of_each contains
first_of_each_new [] seen f h = refl
first_of_each_new (s ∷ ss) seen f h =
    ground (arith, first_of_each_new ss seen f, first_of_each_new ss (s.fingerprint ∷ seen) f)

pub first_of_each-AreDistinct :
    (ss : List SeriesMetadata) (seen : List ℕ)
    → AreDistinct (row_fingerprints (first_of_each seen ss))
unfolding first_of_each contains
first_of_each-AreDistinct [] seen = tt
first_of_each-AreDistinct (s ∷ ss) seen = elim (Bool-cases (contains seen s.fingerprint)) [
  | inl e ↦ rw e (first_of_each-AreDistinct ss seen)
  | inr e ↦ rw e (
    first_of_each_new ss (s.fingerprint ∷ seen) s.fingerprint
        (ground (arith, ==_refl s.fingerprint)),
    first_of_each-AreDistinct ss (s.fingerprint ∷ seen),
  )
]

first_of_each_complete :
    (ss : List SeriesMetadata) (seen : List ℕ) (f : ℕ)
    → (contains seen f || contains (row_fingerprints (first_of_each seen ss)) f)
      ≡ (contains seen f || contains (row_fingerprints ss) f)
unfolding first_of_each contains
first_of_each_complete [] seen f = refl
first_of_each_complete (s ∷ ss) seen f =
    ground
      (arith, first_of_each_complete ss seen f, first_of_each_complete ss (s.fingerprint ∷ seen) f)

pub All-first_of_each {κ} :
    (P : SeriesMetadata → Type κ) (ss : List SeriesMetadata) (seen : List ℕ)
    → All P ss
    → All P (first_of_each seen ss)
unfolding first_of_each
All-first_of_each P [] seen h = tt
All-first_of_each P (s ∷ ss) seen h = elim (Bool-cases (contains seen s.fingerprint)) [
  | inl e ↦ rw e (All-first_of_each P ss seen h.1)
  | inr e ↦ rw e (h.0, All-first_of_each P ss (s.fingerprint ∷ seen) h.1)
]

module _ (x : Xxhash) (fm : Formats) where
  fingerprints_agree :
      (ss : List Source)
      → point_fingerprints (map (point x fm) ss) ≡ row_fingerprints (map (λ s. s.0) ss)
  unfolding point_of
  fingerprints_agree [] = refl
  fingerprints_agree ((s, dp) ∷ ss) = ap (◌∷◌ s.fingerprint) (fingerprints_agree ss)

  -- `MapMetrics` returns no two metadata rows with one fingerprint, and a row for exactly the
  -- fingerprints that the points refer to.
  pub map_metrics_deduped :
      (rms : List ResourceMetrics)
      → AreDistinct (row_fingerprints (map_metrics x fm rms).0)
        × ((f : ℕ)
            → contains (row_fingerprints (map_metrics x fm rms).0) f
              ≡ contains (point_fingerprints (map_metrics x fm rms).1) f)
  unfolding contains
  map_metrics_deduped rms =
      let rows = map (λ (s : Source). s.0) (sources x fm rms) in
      rw map_metrics-sources (
        first_of_each-AreDistinct rows [],
        λ f.
            first_of_each_complete rows [] f
            ∙ sym (ap (λ fs. contains fs f) (fingerprints_agree (sources x fm rms))),
      )
