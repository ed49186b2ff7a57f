-- ===== src/Series.antt =====
-- The rows that the backend persists (clickhouse_client.go): `SeriesMetadata`, one row of the
-- lookup table, and `DataPoint`, one row of the points table; with Go's `time.Time` as far as the
-- rows use it.
use take_home_assignments.Prelude.{ℕ, Bool, ◌+◌, ◌-◌, ◌/◌, ◌%◌, ◌≡◌, arith, ◌*◌}
use take_home_assignments.Prelude.Int.{ℤ, pos, negsuc}
use take_home_assignments.Text.{Str}
use take_home_assignments.Dict.{Dict}

-- `uint64`, `uint32` values are numbers, `int32` is an integer.
pub record SeriesMetadata : Type 0 where
  pub fingerprint : ℕ
  pub metric_type : Str
  pub resource_attributes : Dict
  pub resource_schema_url : Str
  pub scope_name : Str
  pub scope_version : Str
  pub scope_attributes : Dict
  pub scope_dropped_attr_count : ℕ
  pub scope_schema_url : Str
  pub service_name : Str
  pub metric_name : Str
  pub metric_description : Str
  pub metric_unit : Str
  pub attributes : Dict
  pub aggregation_temporality : ℤ
  pub is_monotonic : Bool

-- An instant: whole seconds since 1970, and 0 to 999,999,999 nanoseconds more.
pub record Time : Type 0 where
  pub sec : ℤ
  pub nsec : ℕ

abbrev giga : ℕ
giga = 1_000_000_000

-- `time.Unix(0, nsec)`, which carries whole seconds over, towards the past for a negative count.
unfoldable pub unix_nanos : ℤ → Time
unix_nanos (pos n) = record { sec = pos (n / giga); nsec = n % giga }
unix_nanos (negsuc n) = record { sec = negsuc (n / giga); nsec = giga - 1 - n % giga }

-- `t.UnixNano()`, for instants whose count fits an int64.
unfoldable pub unix_nano : Time → ℤ
unix_nano t = elim t.sec [
  | pos s ↦ pos (s * giga + t.nsec)
  | negsuc s ↦ negsuc (s * giga + (giga - 1 - t.nsec))
]

pub unix_nano-unix_nanos : (n : ℤ) → unix_nano (unix_nanos n) ≡ n
unfolding unix_nano unix_nanos
unix_nano-unix_nanos (pos n) = ground arith
unix_nano-unix_nanos (negsuc n) = ground arith

-- `Value` is the bit pattern of a float64.
pub record DataPoint : Type 0 where
  pub fingerprint : ℕ
  pub start_time_unix : Time
  pub time_unix : Time
  pub value : ℕ
  pub flags : ℕ
