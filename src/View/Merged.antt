-- ===== src/View/Merged.antt =====
-- The lookup table is a ReplacingMergeTree, which drops rows in the background. The reads of the
-- program take no notice of it.
use take_home_assignments.Prelude.{
  ◌≡◌, refl, sym, ap, ◌∙◌, ℕ, inl, inr, Option, none, some, List, [], ◌∷◌, ◌++◌, arith, contains,
  Bool-cases, Option-cases,
}
use take_home_assignments.Text.{Str, str_eq}
use take_home_assignments.Series.{SeriesMetadata, DataPoint, Time}
use take_home_assignments.Clickhouse.{Value, metadata_row}
use take_home_assignments.Clickhouse.{Conn, query_range}
use take_home_assignments.Clickhouse.Reads.{
  IsDatabase, IsDateTime, seconds, fingerprints_for, points_between, points_between-same,
}
use take_home_assignments.Clickhouse.QueryRange.{query_range_reads}
use take_home_assignments.Schema.{otel_metrics_meta}
use take_home_assignments.Schema.Columns.{column, select_columns}
use take_home_assignments.View.{otel_metrics}
use take_home_assignments.View.Described.{
  find_row, described_point, described, otel_metrics-described,
}
use take_home_assignments.View.Filtered.{is_named}
use take_home_assignments.View.Members.{
  Has, find_row-Has, Has-find_row, fingerprints_for-Has, Has-fingerprints_for,
}
use mathlib.Core.Path.{subst, ap₂}
use mathlib.Core.List.{Perm}

-- The values of a row in the columns of ORDER BY.
abbrev pub sort_key : SeriesMetadata → Option (List Value)
sort_key m = select_columns otel_metrics_meta.order_by otel_metrics_meta.columns (metadata_row m)

-- What is left of a table of this engine after merges, as its documentation says: rows of the table,
-- at least one of each sorting key. They may come in any order.
pub record IsMerged (rows rows' : List SeriesMetadata) : Type 0 where
  pub kept : (m : SeriesMetadata) → Has m rows' → Has m rows
  pub covered :
      (m : SeriesMetadata)
      → Has m rows
      → (n : SeriesMetadata) × Has n rows' × (sort_key n ≡ sort_key m)

-- Rows with one fingerprint are one row.
abbrev pub AreIdentical : List SeriesMetadata → Type 0
AreIdentical rows =
    (m n : SeriesMetadata) → Has m rows → Has n rows → m.fingerprint ≡ n.fingerprint → m ≡ n

-- The fingerprint is part of the sorting key.
pub sort_key-fingerprint :
    (m n : SeriesMetadata) → sort_key m ≡ sort_key n → m.fingerprint ≡ n.fingerprint
unfolding select_columns otel_metrics_meta metadata_row column str_eq
sort_key-fingerprint m n e = cc

find_row-merged :
    (f : ℕ) (rows rows' : List SeriesMetadata)
    → AreIdentical rows
    → IsMerged rows rows'
    → find_row f rows' ≡ find_row f rows
find_row-merged f rows rows' one h = elim (Option-cases (find_row f rows)) [
  | inr (m, e) ↦
      let (there, is_f) = find_row-Has f rows m e in
      let (n, left, key) = h.covered m there in
      let (k, found) = Has-find_row f rows' n left (sort_key-fingerprint n m key ∙ is_f) in
      let (left', is_f') = find_row-Has f rows' k found in
      found
      ∙ ap {B = Option SeriesMetadata} some (one k m (h.kept k left') there (is_f' ∙ sym is_f))
      ∙ sym e
  | inl e ↦ elim (Option-cases (find_row f rows')) [
    | inl e' ↦ e' ∙ sym e
    | inr (k, found) ↦
        let (left, is_f) = find_row-Has f rows' k found in
        let (n, there) = Has-find_row f rows k (h.kept k left) is_f in
        absurd (ground (arith, there, e))
  ]
]

described-merged :
    (points : List DataPoint) (rows rows' : List SeriesMetadata)
    → AreIdentical rows
    → IsMerged rows rows'
    → described points rows' ≡ described points rows
unfolding described
described-merged [] rows rows' one h = refl
described-merged (p ∷ points) rows rows' one h =
    ap₂ ◌++◌ (ap (described_point p) (find_row-merged p.fingerprint rows rows' one h))
      (described-merged points rows rows' one h)

-- Merges of the lookup table leave the view as it is, in whatever order they leave the rows: where
-- the rows of one fingerprint are identical.
pub otel_metrics-merged :
    (points : List DataPoint) (rows rows' : List SeriesMetadata)
    → AreIdentical rows
    → IsMerged rows rows'
    → otel_metrics points rows' ≡ otel_metrics points rows
otel_metrics-merged points rows rows' one h =
    otel_metrics-described points rows'
    ∙ described-merged points rows rows' one h
    ∙ sym (otel_metrics-described points rows)

-- So are the names in a row that is queried.
sort_key-names :
    (service metric : Str) (m n : SeriesMetadata)
    → sort_key m ≡ sort_key n
    → is_named service metric m ≡ is_named service metric n
unfolding select_columns otel_metrics_meta metadata_row column str_eq
sort_key-names service metric m n e =
    let s : m.service_name ≡ n.service_name = cc in
    let k : m.metric_name ≡ n.metric_name = cc in rw (s, k) refl

fingerprints_for-merged :
    (service metric : Str) (rows rows' : List SeriesMetadata)
    → IsMerged rows rows'
    → (f : ℕ)
    → contains (fingerprints_for service metric rows') f
      ≡ contains (fingerprints_for service metric rows) f
fingerprints_for-merged service metric rows rows' h f =
    elim (Bool-cases (contains (fingerprints_for service metric rows) f)) [
      | inl e ↦
          let (m, there, is_f, named) = fingerprints_for-Has service metric f rows e in
          let (n, left, key) = h.covered m there in
          Has-fingerprints_for service metric f rows' n left (sort_key-fingerprint n m key ∙ is_f)
            (sort_key-names service metric n m key ∙ named)
          ∙ sym e
      | inr e ↦ elim (Bool-cases (contains (fingerprints_for service metric rows') f)) [
        | inr e' ↦ e' ∙ sym e
        | inl e' ↦
            let (m, left, is_f, named) = fingerprints_for-Has service metric f rows' e' in
            let there = Has-fingerprints_for service metric f rows m (h.kept m left) is_f named in
            absurd (ground (arith, there, e))
      ]
    ]

-- Over a database that answers as documented and has merged the lookup table, a `QueryRange` that
-- returns without an error returns, in some order, the points that it would return without the
-- merges, from the whole second of `start` to the whole second of `stop`: where both are between
-- 1970 and 2106.
pub query_range-merged :
    {W : Type 0} (conn : Conn W) (db : IsDatabase conn) (fuel : ℕ) (service metric : Str)
    (start stop : Time) (w : W) {w' : W} {ps : List DataPoint} (rows : List SeriesMetadata)
    → IsMerged rows (db.meta w)
    → IsDateTime start
    → IsDateTime stop
    → query_range conn fuel service metric start stop w ≡ some (w', ps, none)
    → Perm ps (
        points_between
          (fingerprints_for service metric rows)
          (seconds start)
          (seconds stop)
          (db.points w))
query_range-merged conn db fuel service metric start stop w {ps = ps} rows h in_start in_stop e =
    subst (Perm ps)
      (points_between-same _ _ (seconds start) (seconds stop) (db.points w)
        (fingerprints_for-merged service metric rows (db.meta w) h))
      (query_range_reads conn db fuel service metric start stop w in_start in_stop e)
