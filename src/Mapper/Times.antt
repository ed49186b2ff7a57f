-- ===== src/Mapper/Times.antt =====
-- Timestamps: `nanosToTime` keeps every uint64 count of nanoseconds.
use take_home_assignments.Prelude.{ℕ, ◌<◌, ◌^◌, ◌≡◌, ap, ◌∙◌, arith}
use take_home_assignments.Prelude.Int.{signed, unsigned}
use take_home_assignments.Series.{unix_nano, unix_nano-unix_nanos}
use take_home_assignments.Mapper.{nanos_to_time}

unsigned-signed : (n : ℕ) → n < 2 ^ 64 → unsigned 64 (signed 64 n) ≡ n
unsigned-signed n h = ground arith

-- The instant of a converted timestamp is the one that its 64 bits count as an int64, so it is
-- before 1970 from 2 ^ 63 on; and its 64 bits, `uint64(t.UnixNano())`, are the request's.
pub nanos_to_time_round_trip :
    (nanos : ℕ)
    → nanos < 2 ^ 64
    → (unix_nano (nanos_to_time nanos) ≡ signed 64 nanos)
      × (unsigned 64 (unix_nano (nanos_to_time nanos)) ≡ nanos)
unfolding nanos_to_time
nanos_to_time_round_trip nanos h =
    let same = unix_nano-unix_nanos (signed 64 nanos) in
    (same, ap (unsigned 64) same ∙ unsigned-signed nanos h)
