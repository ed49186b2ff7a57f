-- ===== src/View/Filtered.antt =====
-- A query of the view by service, metric and time, against the two-step read of `QueryRange`.
use take_home_assignments.Prelude.{
  ◌≡◌, refl, sym, ap, ◌∙◌, ℕ, Bool, true, false, none, some, List, [], ◌∷◌, ◌&&◌, arith, inl, inr,
  map, All, All-mono, contains, ◌==◌, ==_iff, Bool-cases, Option-cases, if◌then◌else◌,
}
use take_home_assignments.Prelude.Int.{leb_ℤ}
use take_home_assignments.Text.{Str, str_eq}
use take_home_assignments.Series.{SeriesMetadata, DataPoint, Time, unix_nano}
use take_home_assignments.Mapper.Metadata.{row_fingerprints}
use take_home_assignments.Clickhouse.{Conn, query_range}
use take_home_assignments.Clickhouse.Reads.{
  IsDatabase, IsDateTime, seconds, fingerprints_for, points_between,
}
use take_home_assignments.Clickhouse.QueryRange.{query_range_reads}
use take_home_assignments.View.{WideRow, wide, otel_metrics}
use take_home_assignments.View.Described.{find_row, All-find_row, described, otel_metrics-described}
use mathlib.Core.Path.{subst}
use mathlib.Core.List.{Perm}

-- `WHERE ServiceName = … AND MetricName = … AND TimeUnix BETWEEN … AND …`
unfoldable pub selected : Str → Str → Time → Time → List WideRow → List WideRow
selected service metric start stop [] = []
selected service metric start stop (r ∷ rows) =
    let rest = selected service metric start stop rows in
    if (str_eq r.service_name service && str_eq r.metric_name metric)
      && (leb_ℤ (unix_nano start) (unix_nano r.time_unix)
          && leb_ℤ (unix_nano r.time_unix) (unix_nano stop))
    then r ∷ rest
    else rest

-- The columns of the points table.
abbrev pub point_columns : WideRow → DataPoint
point_columns r = record {
  fingerprint = r.fingerprint;
  start_time_unix = r.start_time_unix;
  time_unix = r.time_unix;
  value = r.value;
  flags = r.flags;
}

-- Whether a row is of a service and a metric.
abbrev pub is_named : Str → Str → SeriesMetadata → Bool
is_named service metric m = str_eq m.service_name service && str_eq m.metric_name metric

-- Rows with one fingerprint name one service and one metric.
abbrev pub AreNamed : List SeriesMetadata → Type 0
AreNamed rows =
    All
      (λ m.
        All
          (λ n.
            m.fingerprint ≡ n.fingerprint
            → (m.service_name ≡ n.service_name) × (m.metric_name ≡ n.metric_name))
          rows)
      rows

-- Where the rows of a fingerprint agree on whether they are wanted, the wanted fingerprints are
-- those of the rows, or none.
contains-fingerprints_for :
    (service metric : Str) (f : ℕ) (b : Bool) (rows : List SeriesMetadata)
    → All (λ m. m.fingerprint ≡ f → is_named service metric m ≡ b) rows
    → contains (fingerprints_for service metric rows) f ≡ (contains (row_fingerprints rows) f && b)
unfolding fingerprints_for contains
contains-fingerprints_for service metric f b [] h = refl
contains-fingerprints_for service metric f b (m ∷ rows) h =
    let later = contains-fingerprints_for service metric f b rows h.1 in
    elim (Bool-cases (m.fingerprint == f)) [
      | inl same ↦
          let wanted = h.0 ((==_iff m.fingerprint f).0 same) in ground (arith, later, wanted, same)
      | inr other ↦ ground (arith, later, other)
    ]

pub contains-find_row-some :
    (f : ℕ) (rows : List SeriesMetadata) (m : SeriesMetadata)
    → find_row f rows ≡ some m
    → contains (row_fingerprints rows) f ≡ true
unfolding find_row contains
contains-find_row-some f [] m e = cc
contains-find_row-some f (r ∷ rows) m e = ground (arith, contains-find_row-some f rows m)

pub fingerprints_for-some :
    (service metric : Str) (f : ℕ) (rows : List SeriesMetadata) (m : SeriesMetadata)
    → AreNamed rows
    → find_row f rows ≡ some m
    → contains (fingerprints_for service metric rows) f ≡ is_named service metric m
fingerprints_for-some service metric f rows m h found =
    let (agree, is_f) = All-find_row _ f rows m h found in
    let wanted =
      All-mono _
        (λ (n : SeriesMetadata).
          n.fingerprint ≡ f → is_named service metric n ≡ is_named service metric m)
        rows (λ n same e. let (s, k) = same (is_f ∙ sym e) in rw s (rw k refl)) agree in
    contains-fingerprints_for service metric f (is_named service metric m) rows wanted
    ∙ rw (contains-find_row-some f rows m found) refl

fingerprints_for-none :
    (service metric : Str) (f : ℕ) (rows : List SeriesMetadata)
    → find_row f rows ≡ none
    → contains (fingerprints_for service metric rows) f ≡ false
unfolding find_row fingerprints_for contains
fingerprints_for-none service metric f [] e = refl
fingerprints_for-none service metric f (m ∷ rows) e =
    ground (arith, fingerprints_for-none service metric f rows)

selected-described :
    (service metric : Str) (start stop : Time) (points : List DataPoint)
    (rows : List SeriesMetadata)
    → AreNamed rows
    → map point_columns (selected service metric start stop (described points rows))
      ≡ points_between (fingerprints_for service metric rows) start stop points
unfolding described selected points_between wide
selected-described service metric start stop [] rows h = refl
selected-described service metric start stop (p ∷ points) rows h =
    let later = selected-described service metric start stop points rows h in
    elim (Option-cases (find_row p.fingerprint rows)) [
      | inl e ↦
          let unwanted = fingerprints_for-none service metric p.fingerprint rows e in
          rw e (ground (arith, later, unwanted))
      | inr (m, e) ↦
          let wanted = fingerprints_for-some service metric p.fingerprint rows m h e in
          rw e (ground (arith, later, wanted))
    ]

-- Over a database that answers as documented, whose metadata rows with one fingerprint name one
-- service and one metric, a `QueryRange` that returns without an error returns, in some order, the
-- points of the rows that the view has for the service and the metric from the whole second of
-- `start` to the whole second of `stop`, both included: where both are between 1970 and 2106.
pub query_range-selected :
    {W : Type 0} (conn : Conn W) (db : IsDatabase conn) (fuel : ℕ) (service metric : Str)
    (start stop : Time) (w : W) {w' : W} {ps : List DataPoint}
    → AreNamed (db.meta w)
    → IsDateTime start
    → IsDateTime stop
    → query_range conn fuel service metric start stop w ≡ some (w', ps, none)
    → Perm ps (
        map point_columns (
          selected service metric
            (seconds start)
            (seconds stop)
            (otel_metrics (db.points w) (db.meta w))))
query_range-selected conn db fuel service metric start stop w {ps = ps} named in_start in_stop e =
    subst (Perm ps)
      (sym (
        ap (λ rows. map point_columns (selected service metric (seconds start) (seconds stop) rows))
          (otel_metrics-described (db.points w) (db.meta w))
        ∙ selected-described service metric (seconds start) (seconds stop) (db.points w) (db.meta w)
            named))
      (query_range_reads conn db fuel service metric start stop w in_start in_stop e)
