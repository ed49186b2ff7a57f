-- ===== src/View/Described.antt =====
-- The view row by row: each point once, with the first metadata row of its fingerprint.
use take_home_assignments.Prelude.{
  ◌≡◌, refl, ℕ, true, false, Option, none, some, List, [], ◌∷◌, ◌++◌, arith, inl, inr, All,
  contains, ◌==◌, ==_iff, Bool-cases, if◌then◌else◌,
}
use take_home_assignments.Series.{SeriesMetadata, DataPoint}
use take_home_assignments.Mapper.Points.{first_of_each}
use take_home_assignments.Mapper.Metadata.{row_fingerprints}
use mathlib.Core.Path.{subst, ap₂}
use take_home_assignments.View.{
  WideRow, wide, limit_1_by_fingerprint, join_point, inner_join, otel_metrics,
}

-- The first row with a fingerprint.
unfoldable pub find_row : ℕ → List SeriesMetadata → Option SeriesMetadata
find_row f [] = none
find_row f (m ∷ rows) = if m.fingerprint == f then some m else find_row f rows

-- What a search for a series finds has its fingerprint, and what all rows have.
pub All-find_row {κ} :
    (P : SeriesMetadata → Type κ) (f : ℕ) (rows : List SeriesMetadata) (m : SeriesMetadata)
    → All P rows
    → find_row f rows ≡ some m
    → P m × (m.fingerprint ≡ f)
unfolding find_row
All-find_row P f [] m h e = cc
All-find_row P f (r ∷ rows) m h e = elim (Bool-cases (r.fingerprint == f)) [
  | inl here ↦ let same : r ≡ m = ground arith in (subst P same h.0, ground arith)
  | inr later ↦ All-find_row P f rows m h.1 (ground arith)
]

pub contains-find_row :
    (f : ℕ) (rows : List SeriesMetadata)
    → contains (row_fingerprints rows) f ≡ true
    → (m : SeriesMetadata) × (find_row f rows ≡ some m)
unfolding find_row contains
contains-find_row f [] h = cc
contains-find_row f (r ∷ rows) h = elim (Bool-cases (r.fingerprint == f)) [
  | inl e ↦ (r, rw e refl)
  | inr e ↦ let (m, found) = contains-find_row f rows (ground arith) in (m, rw e found)
]

-- The row that a point gets, if its series is described.
abbrev pub described_point : DataPoint → Option SeriesMetadata → List WideRow
described_point p none = []
described_point p (some m) = wide p m ∷ []

join_point-seen :
    (p : DataPoint) (seen : List ℕ) (rows : List SeriesMetadata)
    → contains seen p.fingerprint ≡ true
    → join_point p (first_of_each seen rows) ≡ []
unfolding join_point first_of_each contains
join_point-seen p seen [] h = refl
join_point-seen p seen (m ∷ rows) h = ground (
  arith,
  ==_iff m.fingerprint p.fingerprint,
  join_point-seen p seen rows,
  join_point-seen p (m.fingerprint ∷ seen) rows,
)

join_point-first :
    (p : DataPoint) (seen : List ℕ) (rows : List SeriesMetadata)
    → contains seen p.fingerprint ≡ false
    → join_point p (first_of_each seen rows) ≡ described_point p (find_row p.fingerprint rows)
unfolding join_point first_of_each find_row contains
join_point-first p seen [] h = refl
join_point-first p seen (m ∷ rows) h = ground (
  arith,
  ==_iff m.fingerprint p.fingerprint,
  join_point-seen p (m.fingerprint ∷ seen) rows,
  join_point-first p seen rows,
  join_point-first p (m.fingerprint ∷ seen) rows,
)

-- Each point with what describes it, in order.
unfoldable pub described : List DataPoint → List SeriesMetadata → List WideRow
described [] rows = []
described (p ∷ points) rows =
    described_point p (find_row p.fingerprint rows) ++ described points rows

-- The view has one row for each point whose fingerprint the lookup table has, and none for another,
-- in the order of the points, however often a series is described; the row is that of the first
-- description.
pub otel_metrics-described :
    (points : List DataPoint) (rows : List SeriesMetadata)
    → otel_metrics points rows ≡ described points rows
unfolding otel_metrics limit_1_by_fingerprint inner_join described contains
otel_metrics-described [] rows = refl
otel_metrics-described (p ∷ points) rows =
    ap₂ ◌++◌ (join_point-first p [] rows refl) (otel_metrics-described points rows)
