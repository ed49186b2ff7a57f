-- ===== src/Examples/Memory.antt =====
-- A connection to two tables in memory, which meets what the client relies on.
use take_home_assignments.Prelude.{
  ◌≡◌, refl, inl, inr, ℕ, ◌≤◌, Bool, true, false, Option, none, some, List, [], ◌∷◌, ◌++◌, arith,
  length, List-cases,
}
use take_home_assignments.Text.{Str}
use take_home_assignments.Series.{SeriesMetadata, DataPoint}
use take_home_assignments.Store.{Error, foreign}
use take_home_assignments.Clickhouse.{
  Statement, create_meta_table_sql, create_point_table_sql, create_metrics_view_sql,
  insert_into_metrics_meta, insert_into_metrics_point, select_fingerprints, select_points, Value,
  string, uint64_list, instant, Result, ok, failed, Conn,
}
use take_home_assignments.Clickhouse.Inserts.{IsBatching}
use take_home_assignments.Clickhouse.Reads.{
  IsCursor, IsDatabase, seconds, fingerprints_for, points_between,
}
use mathlib.Core.List.Perm

-- the tables as rows of values and as rows of the program, the open batch and the two answers
pub record Memory : Type 0 where
  pub meta_rows : List (List Value)
  pub point_rows : List (List Value)
  pub pending : List (List Value)
  pub metadata : List SeriesMetadata
  pub points : List DataPoint
  pub found : List ℕ
  pub hits : List DataPoint

abbrev refused : Error
refused = foreign []

abbrev pub table : Statement → Memory → List (List Value)
table insert_into_metrics_meta w = w.meta_rows
table insert_into_metrics_point w = w.point_rows
table select_points w = []
table select_fingerprints w = []
table create_meta_table_sql w = []
table create_point_table_sql w = []
table create_metrics_view_sql w = []

abbrev write : Statement → Memory → Memory × Option Error
write insert_into_metrics_meta w = (record w { meta_rows = w.meta_rows ++ w.pending }, none)
write insert_into_metrics_point w = (record w { point_rows = w.point_rows ++ w.pending }, none)
write select_points w = (w, some refused)
write select_fingerprints w = (w, some refused)
write create_meta_table_sql w = (w, some refused)
write create_point_table_sql w = (w, some refused)
write create_metrics_view_sql w = (w, some refused)

-- `true` is the cursor of the fingerprints, `false` the one of the points.
abbrev ask : Statement → List Value → Memory → Memory × Result Bool
ask select_fingerprints (string s ∷ string m ∷ []) w =
    (record w { found = fingerprints_for s m w.metadata }, ok true)
ask select_points (uint64_list fps ∷ instant a ∷ instant b ∷ []) w =
    (record w { hits = points_between fps (seconds a) (seconds b) w.points }, ok false)
ask s vs w = (w, failed refused)

abbrev has_next : Bool → Memory → Bool
has_next true w = elim w.found [ [] ↦ false | f ∷ fs ↦ true ]
has_next false w = elim w.hits [ [] ↦ false | p ∷ ps ↦ true ]

abbrev pub memory_conn : Conn Memory
memory_conn = record {
  Batch = Statement;
  Rows = Bool;
  ping = λ w. (w, none);
  exec = λ s w. (w, none);
  prepare_batch = λ s w. (record w { pending = [] }, ok s);
  append = λ s row w. (record w { pending = w.pending ++ (row ∷ []) }, none);
  send = write;
  query = ask;
  next = λ r w. (w, has_next r w);
  scan_fingerprint =
      λ r w. elim w.found [ [] ↦ (w, failed refused) | f ∷ fs ↦ (record w { found = fs }, ok f) ];
  scan_point =
      λ r w. elim w.hits [ [] ↦ (w, failed refused) | p ∷ ps ↦ (record w { hits = ps }, ok p) ];
  err = λ r w. none;
  close_rows = λ r w. (w, none);
  close = λ w. (w, none);
}

pub prepare_tables : (s : Statement) (w : Memory) → table s (record w { pending = [] }) ≡ table s w
prepare_tables insert_into_metrics_meta w = refl
prepare_tables insert_into_metrics_point w = refl
prepare_tables select_points w = refl
prepare_tables select_fingerprints w = refl
prepare_tables create_meta_table_sql w = refl
prepare_tables create_point_table_sql w = refl
prepare_tables create_metrics_view_sql w = refl

pub append_tables :
    (s : Statement) (row : List Value) (w : Memory)
    → table s (record w { pending = w.pending ++ (row ∷ []) }) ≡ table s w
append_tables insert_into_metrics_meta row w = refl
append_tables insert_into_metrics_point row w = refl
append_tables select_points row w = refl
append_tables select_fingerprints row w = refl
append_tables create_meta_table_sql row w = refl
append_tables create_point_table_sql row w = refl
append_tables create_metrics_view_sql row w = refl

pub write_table :
    (b : Statement) (w : Memory)
    → (write b w).1 ≡ none
    → table b (write b w).0 ≡ table b w ++ w.pending
write_table insert_into_metrics_meta w e = refl
write_table insert_into_metrics_point w e = refl
write_table select_points w e = cc
write_table select_fingerprints w e = cc
write_table create_meta_table_sql w e = cc
write_table create_point_table_sql w e = cc
write_table create_metrics_view_sql w e = cc

pub write_aside : (b s : Statement) (w : Memory) → ¬ (b ≡ s) → table s (write b w).0 ≡ table s w
write_aside insert_into_metrics_meta insert_into_metrics_meta w ne = absurd (ne refl)
write_aside insert_into_metrics_meta insert_into_metrics_point w ne = refl
write_aside insert_into_metrics_meta select_points w ne = refl
write_aside insert_into_metrics_meta select_fingerprints w ne = refl
write_aside insert_into_metrics_meta create_meta_table_sql w ne = refl
write_aside insert_into_metrics_meta create_point_table_sql w ne = refl
write_aside insert_into_metrics_meta create_metrics_view_sql w ne = refl
write_aside insert_into_metrics_point insert_into_metrics_point w ne = absurd (ne refl)
write_aside insert_into_metrics_point insert_into_metrics_meta w ne = refl
write_aside insert_into_metrics_point select_points w ne = refl
write_aside insert_into_metrics_point select_fingerprints w ne = refl
write_aside insert_into_metrics_point create_meta_table_sql w ne = refl
write_aside insert_into_metrics_point create_point_table_sql w ne = refl
write_aside insert_into_metrics_point create_metrics_view_sql w ne = refl
write_aside select_points s w ne = refl
write_aside select_fingerprints s w ne = refl
write_aside create_meta_table_sql s w ne = refl
write_aside create_point_table_sql s w ne = refl
write_aside create_metrics_view_sql s w ne = refl

unfoldable pub memory_batching : IsBatching memory_conn
memory_batching = record {
  table = table;
  target = λ b. b;
  buffer = λ b w. w.pending;
  prepare_tables = λ into s w. prepare_tables s w;
  prepare_target = λ into w b e. ground arith;
  prepare_buffer = λ into w b e. refl;
  append_tables = λ b row s w. append_tables s row w;
  append_buffer = λ b row w e. refl;
  send_table = write_table;
  send_aside = write_aside;
}

pub next_found :
    (r : Bool) (w : Memory)
    → r ≡ true
    → has_next r w ≡ true
    → (f : ℕ) × (w.found ≡ f ∷ (memory_conn.scan_fingerprint r w).0.found)
      × ((memory_conn.scan_fingerprint r w).1 ≡ ok f)
next_found false w s e = cc
next_found true w s e = elim (List-cases w.found) [
  | inl empty ↦ absurd (ground arith)
  | inr (f, fs, more) ↦ (f, ground arith, ground arith)
]

pub next_hit :
    (r : Bool) (w : Memory)
    → r ≡ false
    → has_next r w ≡ true
    → (p : DataPoint) × (w.hits ≡ p ∷ (memory_conn.scan_point r w).0.hits)
      × ((memory_conn.scan_point r w).1 ≡ ok p)
next_hit true w s e = cc
next_hit false w s e = elim (List-cases w.hits) [
  | inl empty ↦ absurd (ground arith)
  | inr (p, ps, more) ↦ (p, ground arith, ground arith)
]

pub no_more_found : (r : Bool) (w : Memory) → r ≡ true → has_next r w ≡ false → w.found ≡ []
no_more_found false w s e = cc
no_more_found true w s e = elim (List-cases w.found) [
  | inl empty ↦ empty
  | inr (f, fs, more) ↦ absurd (ground arith)
]

pub no_more_hits : (r : Bool) (w : Memory) → r ≡ false → has_next r w ≡ false → w.hits ≡ []
no_more_hits true w s e = cc
no_more_hits false w s e = elim (List-cases w.hits) [
  | inl empty ↦ empty
  | inr (f, fs, more) ↦ absurd (ground arith)
]

pub found_cursor : IsCursor memory_conn ℕ memory_conn.scan_fingerprint
found_cursor = record {
  Serves = λ r. r ≡ true;
  left = λ r w. w.found;
  more = λ r w s e. let (f, left, got) = next_found r w s e in (f, left, inl got);
  finished = λ r w s e clean. no_more_found r w s e;
}

pub hit_cursor : IsCursor memory_conn DataPoint memory_conn.scan_point
hit_cursor = record {
  Serves = λ r. r ≡ false;
  left = λ r w. w.hits;
  more = λ r w s e. let (p, left, got) = next_hit r w s e in (p, left, inl got);
  finished = λ r w s e clean. no_more_hits r w s e;
}

pub length-fingerprints_for :
    (s m : Str) (rows : List SeriesMetadata) → length (fingerprints_for s m rows) ≤ length rows
unfolding fingerprints_for
length-fingerprints_for s m [] = omega arith
length-fingerprints_for s m (r ∷ rows) = ground (arith, length-fingerprints_for s m rows)

pub ask_keeps : (s : Statement) (vs : List Value) (w : Memory) → (ask s vs w).0.points ≡ w.points
ask_keeps s vs w = ground arith

pub scan_keeps : (r : Bool) (w : Memory) → (memory_conn.scan_fingerprint r w).0.points ≡ w.points
scan_keeps r w = ground arith

unfoldable pub memory_database : IsDatabase memory_conn
unfolding found_cursor hit_cursor
memory_database = record {
  fingerprint_cursor = found_cursor;
  point_cursor = hit_cursor;
  bound = seconds;
  bound_seconds = λ t h. refl;
  meta = λ w. w.metadata;
  points = λ w. w.points;
  answer_fingerprints =
      λ s m w r e. (ground arith, length-fingerprints_for s m w.metadata, λ f. refl);
  answer_points = λ fps a b w r e.
      (ground arith, Perm.refl (points_between fps (seconds a) (seconds b) w.points));
  query_keeps = ask_keeps;
  next_keeps = λ r w. refl;
  scan_keeps = scan_keeps;
  close_keeps = λ r w. refl;
  err_close = λ r w. refl;
}
