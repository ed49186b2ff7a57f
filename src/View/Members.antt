-- ===== src/View/Members.antt =====
-- The rows of a table as a set, and what the reads of it find.
use take_home_assignments.Prelude.{
  ◌≡◌, refl, ℕ, true, ◌⊎◌, inl, inr, some, List, [], ◌∷◌, ◌&&◌, arith, contains, ◌==◌, ==_iff,
  Bool-cases,
}
use take_home_assignments.Text.{Str}
use take_home_assignments.Series.{SeriesMetadata}
use take_home_assignments.Clickhouse.Reads.{fingerprints_for}
use take_home_assignments.View.Described.{find_row}
use take_home_assignments.View.Filtered.{is_named}
use mathlib.Core.Path.{subst}

-- A row is in a table.
abbrev pub Has : SeriesMetadata → List SeriesMetadata → Type 0
Has m [] = ⊥
Has m (r ∷ rows) = (m ≡ r) ⊎ Has m rows

pub find_row-Has :
    (f : ℕ) (rows : List SeriesMetadata) (m : SeriesMetadata)
    → find_row f rows ≡ some m
    → Has m rows × (m.fingerprint ≡ f)
unfolding find_row
find_row-Has f [] m e = cc
find_row-Has f (r ∷ rows) m e = elim (Bool-cases (r.fingerprint == f)) [
  | inl here ↦ (inl (ground arith), ground arith)
  | inr later ↦ let (there, same) = find_row-Has f rows m (ground arith) in (inr there, same)
]

pub Has-find_row :
    (f : ℕ) (rows : List SeriesMetadata) (m : SeriesMetadata)
    → Has m rows
    → m.fingerprint ≡ f
    → (n : SeriesMetadata) × (find_row f rows ≡ some n)
unfolding find_row
Has-find_row f [] m h e = absurd h
Has-find_row f (r ∷ rows) m h e = elim (Bool-cases (r.fingerprint == f)) [
  | inl here ↦ (r, rw here refl)
  | inr later ↦ elim h [
    | inl same ↦ absurd (ground (arith, same, e, ==_iff r.fingerprint f))
    | inr there ↦ let (n, found) = Has-find_row f rows m there e in (n, rw later found)
  ]
]

pub fingerprints_for-Has :
    (service metric : Str) (f : ℕ) (rows : List SeriesMetadata)
    → contains (fingerprints_for service metric rows) f ≡ true
    → (m : SeriesMetadata) × Has m rows × (m.fingerprint ≡ f) × (is_named service metric m ≡ true)
unfolding fingerprints_for contains
fingerprints_for-Has service metric f [] h = cc
fingerprints_for-Has service metric f (r ∷ rows) h =
    elim (Bool-cases (is_named service metric r && r.fingerprint == f)) [
      | inl here ↦ (r, inl refl, ground (arith, ==_iff r.fingerprint f), ground arith)
      | inr later ↦
          let (m, there, e, named) = fingerprints_for-Has service metric f rows (ground arith) in
          (m, inr there, e, named)
    ]

pub Has-fingerprints_for :
    (service metric : Str) (f : ℕ) (rows : List SeriesMetadata) (m : SeriesMetadata)
    → Has m rows
    → m.fingerprint ≡ f
    → is_named service metric m ≡ true
    → contains (fingerprints_for service metric rows) f ≡ true
unfolding fingerprints_for contains
Has-fingerprints_for service metric f [] m h e named = absurd h
Has-fingerprints_for service metric f (r ∷ rows) m (inl same) e named =
    let wanted : is_named service metric r ≡ true =
      subst (λ k. is_named service metric k ≡ true) same named in
    let here : r.fingerprint ≡ f = subst (λ k. k.fingerprint ≡ f) same e in
    ground (arith, wanted, (==_iff r.fingerprint f).1 here)
Has-fingerprints_for service metric f (r ∷ rows) m (inr there) e named =
    ground (arith, Has-fingerprints_for service metric f rows m there e named)
