-- ===== src/Examples/Tables.antt =====
-- The tables at concrete inputs: the types of the columns, their names, and merged rows.
use take_home_assignments.Prelude.{
  ◌≡◌, refl, sym, ap, ℕ, ◌+◌, ◌*◌, ◌%◌, ◌^◌, ◌<◌, Bool, true, false, none, some, List, [], ◌∷◌,
  arith, inl, inr, All, ltb,
}
use take_home_assignments.Prelude.Int.{ℤ, pos, negsuc}
use take_home_assignments.Series.{SeriesMetadata}
use take_home_assignments.Fingerprint.Identity.{IsInt32}
use take_home_assignments.Mapper.{map_metrics}
use take_home_assignments.Clickhouse.{
  Value, uint64, uint32, float64, int32, string, string_map, boolean, instant, metadata_row,
  point_row, query_range,
}
use take_home_assignments.Clickhouse.Reads.{fingerprints_for, points_between}
use take_home_assignments.Schema.{
  ColumnType, uint64_type, uint32_type, int32_type, float64_type, bool_type, date_time64_type,
  string_type, low_cardinality_type, map_type, otel_metrics_meta, otel_metrics_point,
}
use take_home_assignments.Schema.Columns.{
  select_columns, point_select, scan_row, view_row, ◌>>=◌, columns_round_trip,
}
use take_home_assignments.Schema.Fits.{IsTyped, Fits, map_metrics-Fits}
use take_home_assignments.View.{otel_metrics, wide}
use take_home_assignments.View.Members.{Has}
use take_home_assignments.View.Merged.{
  sort_key, AreIdentical, IsMerged, otel_metrics-merged, query_range-merged,
}
use take_home_assignments.Examples.Data.{
  number_of, sample_hash, sample_formats, request_of, reordered_gauge, row, reading,
}
use take_home_assignments.Examples.Mapping.{IsSeries-ba}
use take_home_assignments.Examples.Memory.{Memory, memory_conn, memory_database}
use take_home_assignments.Examples.Reading.{reading_back}
use mathlib.Core.List.{Perm}

abbrev takes : ColumnType → Value → Bool
takes uint64_type (uint64 n) = ltb n (2 ^ 64)
takes uint32_type (uint32 n) = ltb n (2 ^ 32)
takes float64_type (float64 n) = ltb n (2 ^ 64)
takes int32_type (int32 (pos n)) = ltb n (2 ^ 31)
takes int32_type (int32 (negsuc n)) = ltb n (2 ^ 31)
takes bool_type (boolean b) = true
takes date_time64_type (instant t) = true
takes string_type (string s) = true
takes low_cardinality_type (string s) = true
takes map_type (string_map d) = true
takes kind v = false

abbrev Accepts : ColumnType → Value → Type 0
Accepts kind v = takes kind v ≡ true

takes-int32 : (i : ℤ) → IsInt32 i → Accepts int32_type (int32 i)
takes-int32 (pos n) h = ground arith
takes-int32 (negsuc n) h = ground arith

Accepts-IsTyped : IsTyped Accepts
Accepts-IsTyped = record {
  uint64_taken = λ n h. ground arith;
  uint32_taken = λ n h. ground arith;
  int32_taken = takes-int32;
  float64_taken = λ n h. ground arith;
  boolean_taken = λ b. refl;
  instant_taken = λ n h. refl;
  string_taken = λ s. refl;
  low_cardinality_taken = λ s. refl;
  map_taken = λ d. refl;
}

number_of-lt : (bs : List ℕ) (acc : ℕ) → acc < 2 ^ 64 → number_of acc bs < 2 ^ 64
number_of-lt [] acc h = h
number_of-lt (b ∷ bs) acc h = number_of-lt bs ((acc * 257 + b + 1) % 2 ^ 64) (omega arith)

map_metrics-Fits_example :
    All
      (λ m. Fits Accepts otel_metrics_meta.columns (metadata_row m))
      (map_metrics sample_hash sample_formats (request_of reordered_gauge)).0
    × All
        (λ p. Fits Accepts otel_metrics_point.columns (point_row p))
        (map_metrics sample_hash sample_formats (request_of reordered_gauge)).1
unfolding reading_back
map_metrics-Fits_example =
    map_metrics-Fits Accepts Accepts-IsTyped sample_hash sample_formats
      (λ d. number_of-lt d 0 (omega arith)) (request_of reordered_gauge)
      (
        (
          IsSeries-ba,
          record {
            start_time = omega arith;
            time = omega arith;
            value = omega arith;
            flags = omega arith;
          },
        ),
        tt,
      )

columns_round_trip_example :
    ((select_columns point_select otel_metrics_point.columns (point_row (reading 7)) >>= scan_row)
      ≡ some (reading 7))
    × (view_row (point_row (reading 7)) (metadata_row (row 7)) ≡ some (wide (reading 7) (row 7)))
columns_round_trip_example = columns_round_trip (reading 7) (row 7)

-- a lookup table with a series twice, and what a merge leaves of it
abbrev written : List SeriesMetadata
written = row 7 ∷ row 8 ∷ row 7 ∷ []

abbrev left : List SeriesMetadata
left = row 8 ∷ row 7 ∷ []

row_of : (m : SeriesMetadata) → Has m written → m ≡ row m.fingerprint
row_of m (inl e) = cc
row_of m (inr (inl e)) = cc
row_of m (inr (inr (inl e))) = cc
row_of m (inr (inr (inr h))) = absurd h

AreIdentical-written : AreIdentical written
AreIdentical-written m n hm hn e = let a = row_of m hm in let b = row_of n hn in cc

kept : (m : SeriesMetadata) → Has m left → Has m written
kept m (inl e) = inr (inl e)
kept m (inr (inl e)) = inl e
kept m (inr (inr h)) = absurd h

covered :
    (m : SeriesMetadata)
    → Has m written
    → (n : SeriesMetadata) × Has n left × (sort_key n ≡ sort_key m)
covered m (inl e) = (row 7, inr (inl refl), ap sort_key (sym e))
covered m (inr (inl e)) = (row 8, inl refl, ap sort_key (sym e))
covered m (inr (inr (inl e))) = (row 7, inr (inl refl), ap sort_key (sym e))
covered m (inr (inr (inr h))) = absurd h

IsMerged-left : IsMerged written left
IsMerged-left = record { kept = kept; covered = covered }

otel_metrics-merged_example :
    otel_metrics (reading 7 ∷ reading 9 ∷ []) left
    ≡ otel_metrics (reading 7 ∷ reading 9 ∷ []) written
otel_metrics-merged_example =
    otel_metrics-merged (reading 7 ∷ reading 9 ∷ []) written left AreIdentical-written IsMerged-left

abbrev merged : Memory
merged = record {
  meta_rows = [];
  point_rows = [];
  pending = [];
  metadata = left;
  points = reading 7 ∷ reading 9 ∷ [];
  found = [];
  hits = [];
}

answered :
    query_range memory_conn 4 [] [] (reading 7).time_unix (reading 7).time_unix merged
    ≡ some (merged, reading 7 ∷ [], none)
unfolding reading_back
answered = refl

query_range-merged_example : Perm (reading 7 ∷ []) (
    points_between
      (fingerprints_for [] [] written)
      (reading 7).time_unix
      (reading 7).time_unix
      (reading 7 ∷ reading 9 ∷ []))
unfolding memory_database
query_range-merged_example =
    query_range-merged memory_conn memory_database 4 [] [] (reading 7).time_unix
      (reading 7).time_unix merged written IsMerged-left (1, refl, omega arith)
      (1, refl, omega arith) answered
