-- ===== src/Clickhouse/QueryRange.antt =====
-- `QueryRange` over a database: what it returns, and that it ends.
use take_home_assignments.Prelude.{
  ◌≡◌, refl, sym, ap, ◌∙◌, inl, inr, ℕ, suc, ◌<◌, ◌≤◌, Option, none, some, List, [], ◌∷◌, arith,
  Option-cases, List-cases, length, contains,
}
use take_home_assignments.Series.{DataPoint, Time}
use take_home_assignments.Text.{Str}
use take_home_assignments.Store.{Error}
use take_home_assignments.Ingester.{is_empty}
use take_home_assignments.Clickhouse.{
  select_fingerprints, select_points, string, uint64_list, instant, Result, ok, failed, Conn,
  result_cases, collect, query_points, after_fingerprints, query_range,
}
use take_home_assignments.Clickhouse.Reads.{
  IsDatabase, IsDateTime, seconds, collect-total, collect-left, collect-kept, fingerprints_for,
  points_between, points_between-same, points_between_none,
}
use mathlib.Core.Path.{subst, ap₂}
use mathlib.Core.Logic.{∥∥₁_elim}
use native.Mathlib.Nat.{ℕ_set}
use mathlib.Core.List.{Perm, Permᴰ}
use mathlib.Core.List.Perm

module _ {W : Type 0} (conn : Conn W) (db : IsDatabase conn) where
  query_points_reads :
      (fuel : ℕ) (fps : List ℕ) (start stop : Time) (w : W) {w' : W} {ps : List DataPoint}
      → query_points conn fuel fps start stop w ≡ some (w', ps, none)
      → Perm ps (points_between fps (db.bound start) (db.bound stop) (db.points w))
  unfolding query_points
  query_points_reads fuel fps start stop w {w'} {ps} e =
      let asked =
        conn.query select_points (uint64_list fps ∷ instant start ∷ instant stop ∷ []) w in
      elim (result_cases asked.1) [
        | inr (x, bad) ↦ absurd (ground (arith, bad))
        | inl (r, answered) ↦
            let (serves, same) = db.answer_points fps start stop w r answered in
            elim (Option-cases (collect conn conn.scan_point fuel r [] asked.0)) [
              | inl out ↦ absurd (ground (arith, answered, out))
              | inr ((w₁, failed x), found) ↦ absurd (ground (arith, answered, found))
              | inr ((w₁, ok got), found) ↦
                  let clean : conn.err r w₁ ≡ none = ground (arith, answered, found) in
                  let all =
                    collect-left conn db.point_cursor fuel r [] asked.0 serves found clean in
                  let result : ps ≡ got = ground (arith, answered, found) in
                  subst
                    (λ l.
                      Perm l (points_between fps (db.bound start) (db.bound stop) (db.points w)))
                    (sym (result ∙ all)) same
            ]
      ]

  after_fingerprints_reads :
      (fuel : ℕ) (r : conn.Rows) (start stop : Time) (w : W) (fps : List ℕ) {w' : W}
      {ps : List DataPoint}
      → after_fingerprints conn fuel r start stop w (ok fps) ≡ some (w', ps, none)
      → (conn.err r (conn.close_rows r w).0 ≡ none)
        × Perm ps (points_between fps (db.bound start) (db.bound stop) (db.points w))
  unfolding after_fingerprints is_empty
  after_fingerprints_reads fuel r start stop w [] {w'} {ps} e =
      let clean : conn.err r (conn.close_rows r w).0 ≡ none = ground arith in
      let nothing : ps ≡ points_between [] (db.bound start) (db.bound stop) (db.points w) =
        ground (arith, clean, points_between_none (db.bound start) (db.bound stop) (db.points w)) in
      (clean, subst (Perm ps) nothing (Perm.refl ps))
  after_fingerprints_reads fuel r start stop w (f ∷ fps) {w'} {ps} e =
      let w₁ = (conn.close_rows r w).0 in
      let clean : conn.err r w₁ ≡ none = ground arith in
      let more : query_points conn fuel (f ∷ fps) start stop w₁ ≡ some (w', ps, none) =
        ground (arith, clean) in
      (
        clean,
        subst (λ rows. Perm ps (points_between (f ∷ fps) (db.bound start) (db.bound stop) rows))
            (db.close_keeps r w) (query_points_reads fuel (f ∷ fps) start stop w₁ more),
      )

  -- Over a database that answers as documented, a `QueryRange` that returns without an error
  -- returns, in some order, exactly the stored points from the whole second of `start` to the whole
  -- second of `stop`, both included, whose fingerprint the lookup table has for the service and the
  -- metric: where both are between 1970 and 2106.
  pub query_range_reads :
      (fuel : ℕ) (service metric : Str) (start stop : Time) (w : W) {w' : W} {ps : List DataPoint}
      → IsDateTime start
      → IsDateTime stop
      → query_range conn fuel service metric start stop w ≡ some (w', ps, none)
      → Perm ps (
          points_between
            (fingerprints_for service metric (db.meta w))
            (seconds start)
            (seconds stop)
            (db.points w))
  unfolding query_range after_fingerprints
  query_range_reads fuel service metric start stop w {w'} {ps} in_start in_stop e =
      let asked = conn.query select_fingerprints (string service ∷ string metric ∷ []) w in
      elim (result_cases asked.1) [
        | inr (x, bad) ↦ absurd (ground (arith, bad))
        | inl (r, answered) ↦
            let (serves, few, same) = db.answer_fingerprints service metric w r answered in
            elim (Option-cases (collect conn conn.scan_fingerprint fuel r [] asked.0)) [
              | inl out ↦ absurd (ground (arith, answered, out))
              | inr ((w₁, failed x), found) ↦ absurd (ground (arith, answered, found))
              | inr ((w₁, ok fps), found) ↦
                  let go : after_fingerprints conn fuel r start stop w₁ (ok fps)
                      ≡ some (w', ps, none) =
                    ground (arith, answered, found) in
                  let (clean, read) = after_fingerprints_reads fuel r start stop w₁ fps go in
                  let all =
                    collect-left conn db.fingerprint_cursor fuel r [] asked.0 serves found
                      (sym (db.err_close r w₁) ∙ clean) in
                  let kept =
                    collect-kept conn db.fingerprint_cursor db.points db.next_keeps db.scan_keeps
                      fuel r [] asked.0 found
                    ∙ db.query_keeps select_fingerprints (string service ∷ string metric ∷ []) w in
                  let known =
                    points_between-same fps (fingerprints_for service metric (db.meta w))
                      (db.bound start) (db.bound stop) (db.points w)
                      (λ f. ap (λ l. contains l f) all ∙ same f) in
                  let cut =
                    ap₂
                      (λ a b.
                        points_between (fingerprints_for service metric (db.meta w)) a b
                          (db.points w))
                      (db.bound_seconds start in_start) (db.bound_seconds stop in_stop) in
                  subst (Perm ps)
                    (ap (points_between fps (db.bound start) (db.bound stop)) kept ∙ known ∙ cut)
                    read
            ]
      ]

length-perm : {A : Type 0} {xs ys : List A} → Permᴰ xs ys → length xs ≡ length ys
length-perm Permᴰ.nil = refl
length-perm (Permᴰ.cons e d) = ap suc (length-perm d)
length-perm (Permᴰ.swap e f) = refl
length-perm (Permᴰ.trans d e) = length-perm d ∙ length-perm e

length-Perm : {A : Type 0} {xs ys : List A} → Perm xs ys → length xs ≡ length ys
length-Perm {xs = xs} {ys} p = ∥∥₁_elim p (ℕ_set (length xs) (length ys)) length-perm

length-points_between :
    (fps : List ℕ) (start stop : Time) (rows : List DataPoint)
    → length (points_between fps start stop rows) ≤ length rows
unfolding points_between
length-points_between fps start stop [] = omega arith
length-points_between fps start stop (p ∷ rows) =
    ground (arith, length-points_between fps start stop rows)

module _ {W : Type 0} (conn : Conn W) (db : IsDatabase conn) where
  query_points-total :
      (fuel : ℕ) (fps : List ℕ) (start stop : Time) (w : W)
      → length (db.points w) < fuel
      → (out : W × List DataPoint × Option Error) × (query_points conn fuel fps start stop w
          ≡ some out)
  unfolding query_points
  query_points-total fuel fps start stop w h =
      let asked =
        conn.query select_points (uint64_list fps ∷ instant start ∷ instant stop ∷ []) w in
      elim (result_cases asked.1) [
        | inr (x, bad) ↦ rw (bad, query_points) (_, refl)
        | inl (r, answered) ↦
            let (serves, same) = db.answer_points fps start stop w r answered in
            let enough : length (db.point_cursor.left r asked.0) < fuel = omega (
              arith,
              length-Perm same,
              length-points_between fps (db.bound start) (db.bound stop) (db.points w),
            ) in
            let (w₁, got, found) =
              collect-total conn db.point_cursor fuel r [] asked.0 serves enough in
            elim (result_cases got) [
              | inl (ps, good) ↦ rw (answered, query_points, found, good) (_, refl)
              | inr (x, bad) ↦ rw (answered, query_points, found, bad) (_, refl)
            ]
      ]

  after_fingerprints-total :
      (fuel : ℕ) (r : conn.Rows) (start stop : Time) (w : W) (got : Result (List ℕ))
      → length (db.points (conn.close_rows r w).0) < fuel
      → (out : W × List DataPoint × Option Error) × (after_fingerprints conn fuel r start stop w got
          ≡ some out)
  unfolding after_fingerprints is_empty
  after_fingerprints-total fuel r start stop w (failed e) h = (_, refl)
  after_fingerprints-total fuel r start stop w (ok fps) h =
      let w₁ = (conn.close_rows r w).0 in
      let (out, ended) = query_points-total fuel fps start stop w₁ h in
      elim (Option-cases (conn.err r w₁)) [
        | inr (x, bad) ↦ rw (bad, after_fingerprints) (_, refl)
        | inl clean ↦ elim (List-cases fps) [
          | inl empty ↦ ((w₁, [], none), ground (arith, clean, empty))
          | inr (f, rest, some_fps) ↦ (out, ground (arith, clean, some_fps, ended))
        ]
      ]

  -- Over a database that answers as documented, and with fuel for more rows than either table has,
  -- `QueryRange` returns.
  pub query_range_total :
      (fuel : ℕ) (service metric : Str) (start stop : Time) (w : W)
      → length (db.meta w) < fuel
      → length (db.points w) < fuel
      → (out : W × List DataPoint × Option Error) × (query_range conn fuel service metric start stop
            w
          ≡ some out)
  unfolding query_range after_fingerprints is_empty
  query_range_total fuel service metric start stop w few_meta few_points =
      let asked = conn.query select_fingerprints (string service ∷ string metric ∷ []) w in
      elim (result_cases asked.1) [
        | inr (x, bad) ↦ rw (bad, query_range) (_, refl)
        | inl (r, answered) ↦
            let (serves, few, same) = db.answer_fingerprints service metric w r answered in
            let enough : length (db.fingerprint_cursor.left r asked.0) < fuel = omega arith in
            let (w₁, got, found) =
              collect-total conn db.fingerprint_cursor fuel r [] asked.0 serves enough in
            let (out, ended) = after_fingerprints-total fuel r start stop w₁ got (
              rw (db.close_keeps r w₁) (
                rw
                  (collect-kept conn db.fingerprint_cursor db.points db.next_keeps db.scan_keeps
                    fuel r [] asked.0 found)
                  (rw (db.query_keeps select_fingerprints (string service ∷ string metric ∷ []) w)
                    few_points))) in
            (out, rw (answered, query_range, found) ended)
      ]
