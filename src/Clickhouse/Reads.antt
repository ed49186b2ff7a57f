-- ===== src/Clickhouse/Reads.antt =====
-- What `QueryRange` reads.
use take_home_assignments.Prelude.{
  ◌≡◌, refl, sym, ap, ◌∙◌, ◌⊎◌, inl, inr, ℕ, zero, suc, ◌<◌, ◌≤◌, ◌^◌, true, false, none, some,
  List, [], ◌∷◌, ◌++◌, arith, Bool-cases, length, contains, ◌&&◌, if◌then◌else◌,
}
use take_home_assignments.Series.{SeriesMetadata, DataPoint, Time, unix_nano}
use take_home_assignments.Prelude.Int.{pos, leb_ℤ}
use take_home_assignments.Text.{Str, str_eq}
use take_home_assignments.Store.{Error}
use take_home_assignments.Clickhouse.{
  Statement, select_fingerprints, select_points, Value, string, uint64_list, instant, Result, ok,
  failed, Conn, result_cases, collect,
}
use mathlib.Core.List.{Perm, append-nil, append_assoc}

module _ {W : Type 0} (conn : Conn W) where
  -- The cursors of one query as the driver documents them: `left` are the rows that are still to
  -- come. `Next` that reports true has one more, which `Scan` then yields or fails on; `Next` that
  -- reports false has come to the end, or to an error that `Err` keeps.
  pub record IsCursor (A : Type 0) (scan : conn.Rows → W → W × Result A) : Type 1 where
    pub Serves : conn.Rows → Type 0
    pub left : conn.Rows → W → List A
    pub more :
        (r : conn.Rows) (w : W)
        → Serves r
        → (conn.next r w).1 ≡ true
        → (a : A) × (left r w ≡ a ∷ left r (scan r (conn.next r w).0).0)
          × (((scan r (conn.next r w).0).1 ≡ ok a)
              ⊎ ((e : Error) × ((scan r (conn.next r w).0).1 ≡ failed e)))
    pub finished :
        (r : conn.Rows) (w : W)
        → Serves r
        → (conn.next r w).1 ≡ false
        → conn.err r (conn.next r w).0 ≡ none
        → left r w ≡ []

  module _ {A : Type 0} {scan : conn.Rows → W → W × Result A} (c : IsCursor A scan) where
    -- With fuel for the rows that are left, the loop ends.
    pub collect-total :
        (fuel : ℕ) (r : conn.Rows) (acc : List A) (w : W)
        → c.Serves r
        → length (c.left r w) < fuel
        → (w' : W) × (got : Result (List A)) × (collect conn scan fuel r acc w ≡ some (w', got))
    unfolding collect
    collect-total zero r acc w s h = absurd (omega arith)
    collect-total (suc fuel) r acc w s h =
        let w₁ = (conn.next r w).0 in
        elim (Bool-cases (conn.next r w).1) [
          | inr stop ↦ (w₁, ok acc, rw (stop, collect) refl)
          | inl go ↦
              let (a, left, got) = c.more r w s go in
              elim got [
                | inr (e, bad) ↦ ((scan r w₁).0, failed e, rw (go, bad, collect) refl)
                | inl good ↦
                    let (w', res, run) =
                      collect-total fuel r (acc ++ (a ∷ [])) (scan r w₁).0 s
                        (omega (arith, ap length left)) in
                    (w', res, rw (go, good, collect) run)
              ]
        ]

    -- If the loop ends without an error, it has collected the rows that were left.
    pub collect-left :
        (fuel : ℕ) (r : conn.Rows) (acc : List A) (w : W) {w' : W} {got : List A}
        → c.Serves r
        → collect conn scan fuel r acc w ≡ some (w', ok got)
        → conn.err r w' ≡ none
        → got ≡ acc ++ c.left r w
    unfolding collect
    collect-left zero r acc w s e clean = cc
    collect-left (suc fuel) r acc w s e clean =
        let w₁ = (conn.next r w).0 in
        elim (Bool-cases (conn.next r w).1) [
          | inr stop ↦ ground (arith, append-nil acc, c.finished r w s stop)
          | inl go ↦
              let (a, left, got) = c.more r w s go in
              elim got [
                | inr (x, bad) ↦ absurd (ground (arith, bad, go))
                | inl good ↦
                    let run =
                      collect-left fuel r (acc ++ (a ∷ [])) (scan r w₁).0 s
                        (rw (go, good, collect) at e) clean in
                    run ∙ append_assoc acc (a ∷ []) _ ∙ ap (◌++◌ acc) (sym left)
              ]
        ]

    -- A loop keeps what `Next` and `Scan` keep.
    pub collect-kept :
        {X : Type 0} (f : W → X)
        → ((r : conn.Rows) (w : W) → f (conn.next r w).0 ≡ f w)
        → ((r : conn.Rows) (w : W) → f (scan r w).0 ≡ f w)
        → (fuel : ℕ) (r : conn.Rows) (acc : List A) (w : W) {w' : W} {got : Result (List A)}
        → collect conn scan fuel r acc w ≡ some (w', got)
        → f w' ≡ f w
    unfolding collect
    collect-kept f kn ks zero r acc w e = cc
    collect-kept f kn ks (suc fuel) r acc w e =
        let w₁ = (conn.next r w).0 in
        elim (Bool-cases (conn.next r w).1) [
          | inr stop ↦ ground (arith, kn r w, stop)
          | inl go ↦ elim (result_cases (scan r w₁).1) [
            | inr (x, bad) ↦ ground (arith, bad, go, kn r w, ks r w₁)
            | inl (a, good) ↦
                collect-kept f kn ks fuel r (acc ++ (a ∷ [])) (scan r w₁).0
                  (rw (go, good, collect) at e)
                ∙ ks r w₁
                ∙ kn r w
          ]
        ]

-- The fingerprints that the lookup table has for a service and a metric.
unfoldable pub fingerprints_for : Str → Str → List SeriesMetadata → List ℕ
fingerprints_for service metric [] = []
fingerprints_for service metric (s ∷ rows) =
    let rest = fingerprints_for service metric rows in
    if str_eq s.service_name service && str_eq s.metric_name metric
    then s.fingerprint ∷ rest
    else rest

-- The points of some series in a time window, both ends included.
unfoldable pub points_between : List ℕ → Time → Time → List DataPoint → List DataPoint
points_between fps start stop [] = []
points_between fps start stop (p ∷ rows) =
    let rest = points_between fps start stop rows in
    if contains fps p.fingerprint
      && (leb_ℤ (unix_nano start) (unix_nano p.time_unix)
          && leb_ℤ (unix_nano p.time_unix) (unix_nano stop))
    then p ∷ rest
    else rest

pub points_between-same :
    (fps gps : List ℕ) (start stop : Time) (rows : List DataPoint)
    → ((f : ℕ) → contains fps f ≡ contains gps f)
    → points_between fps start stop rows ≡ points_between gps start stop rows
unfolding points_between
points_between-same fps gps start stop [] h = refl
points_between-same fps gps start stop (p ∷ rows) h =
    ground (arith, h p.fingerprint, points_between-same fps gps start stop rows h)

pub points_between_none :
    (start stop : Time) (rows : List DataPoint) → points_between [] start stop rows ≡ []
unfolding points_between contains
points_between_none start stop [] = refl
points_between_none start stop (p ∷ rows) = points_between_none start stop rows

-- The whole second of an instant.
abbrev pub seconds : Time → Time
seconds t = record { sec = t.sec; nsec = 0 }

-- The instants that a ClickHouse `DateTime` has, from 1970 to 2106.
abbrev pub IsDateTime : Time → Type 0
IsDateTime t = (n : ℕ) × (t.sec ≡ pos n) × (n < 2 ^ 32)

-- What the reads rely on: the two queries answer from the two tables of the server, the second in
-- any order, and no read changes the points. The driver writes a `time.Time` argument into the query
-- as a `DateTime`, so that `TimeUnix` is compared with the instant `bound t`, which is the whole
-- second of `t`.
pub record IsDatabase {W : Type 0} (conn : Conn W) : Type 1 where
  pub fingerprint_cursor : IsCursor conn ℕ conn.scan_fingerprint
  pub point_cursor : IsCursor conn DataPoint conn.scan_point
  pub bound : Time → Time
  pub bound_seconds : (t : Time) → IsDateTime t → bound t ≡ seconds t
  pub meta : W → List SeriesMetadata
  pub points : W → List DataPoint
  pub answer_fingerprints :
      (service metric : Str) (w : W) (r : conn.Rows)
      → (conn.query select_fingerprints (string service ∷ string metric ∷ []) w).1 ≡ ok r
      → fingerprint_cursor.Serves r
        × (length (
              fingerprint_cursor.left r
                (conn.query select_fingerprints (string service ∷ string metric ∷ []) w).0)
            ≤ length (meta w))
        × ((f : ℕ)
            → contains
                (fingerprint_cursor.left r
                  (conn.query select_fingerprints (string service ∷ string metric ∷ []) w).0)
                f
              ≡ contains (fingerprints_for service metric (meta w)) f)
  pub answer_points :
      (fps : List ℕ) (start stop : Time) (w : W) (r : conn.Rows)
      → (conn.query select_points (uint64_list fps ∷ instant start ∷ instant stop ∷ []) w).1 ≡ ok r
      → point_cursor.Serves r
        × Perm
            (point_cursor.left r
              (conn.query select_points (uint64_list fps ∷ instant start ∷ instant stop ∷ []) w).0)
            (points_between fps (bound start) (bound stop) (points w))
  pub query_keeps :
      (s : Statement) (vs : List Value) (w : W) → points (conn.query s vs w).0 ≡ points w
  pub next_keeps : (r : conn.Rows) (w : W) → points (conn.next r w).0 ≡ points w
  pub scan_keeps : (r : conn.Rows) (w : W) → points (conn.scan_fingerprint r w).0 ≡ points w
  pub close_keeps : (r : conn.Rows) (w : W) → points (conn.close_rows r w).0 ≡ points w
  -- `Err` says the same after `Close`.
  pub err_close : (r : conn.Rows) (w : W) → conn.err r (conn.close_rows r w).0 ≡ conn.err r w
