-- ===== src/Ingester.antt =====
-- The batching writer of ingester.go: its configuration, the state that the flusher goroutine owns,
-- and the handlers of the goroutine's loop.
pub mod Config
pub mod Flush
pub mod Counters
pub mod Metadata
pub mod Loss
pub mod Coverage
pub mod Once
pub mod System
use take_home_assignments.Prelude.{
  ℕ, ◌+◌, ◌%◌, ◌^◌, Bool, true, false, Option, none, some, List, [], ◌∷◌, ◌++◌, ◌&&◌, length,
  if◌then◌else◌,
}
use take_home_assignments.Prelude.Int.{ℤ, pos, leb_ℤ}
use take_home_assignments.Series.{SeriesMetadata, DataPoint}
use take_home_assignments.Cache
use take_home_assignments.Cache.{FingerprintCache, new_fingerprint_cache}
use take_home_assignments.Store.{Error, MetricsStore}

-- Go's `int` and, for the interval, a `time.Duration` in nanoseconds.
pub record IngesterConfig : Type 0 where
  pub max_batch_points : ℤ
  pub flush_interval : ℤ
  pub queue_capacity : ℤ
  pub dedup_cache_size : ℤ

-- `if field <= 0 { field = value }`
unfoldable pub or_default : ℤ → ℤ → ℤ
or_default field value = if leb_ℤ field (pos 0) then value else field

unfoldable pub with_defaults : IngesterConfig → IngesterConfig
with_defaults c = record {
  max_batch_points = or_default c.max_batch_points (pos 50_000);
  flush_interval = or_default c.flush_interval (pos 200_000_000);
  queue_capacity = or_default c.queue_capacity (pos 1024);
  dedup_cache_size = or_default c.dedup_cache_size (pos 1_000_000);
}

pub record IngestItem : Type 0 where
  pub metadata : List SeriesMetadata
  pub points : List DataPoint

-- The fields of `Ingester` that the flusher owns, the counters, which only it changes, and the
-- store. A counter is an int64, kept as its 64 bits.
pub record Flusher (S : Type 0) : Type 0 where
  pub store : S
  pub cfg : IngesterConfig
  pub pending_points : List DataPoint
  pub pending_meta : List SeriesMetadata
  pub seen : FingerprintCache
  pub flushed_points : ℕ
  pub flushed_meta : ℕ
  pub flush_errors : ℕ

-- `counter.Add(n)`
abbrev pub add64 : ℕ → ℕ → ℕ
add64 counter n = (counter + n) % 2 ^ 64

unfoldable pub is_empty {ℓ} : {A : Type ℓ} → List A → Bool
is_empty [] = true
is_empty (x ∷ xs) = false

module _ {S : Type 0} where
  -- one round of the loop of `accumulate`
  unfoldable pub accumulate_series : SeriesMetadata → Flusher S → Flusher S
  accumulate_series series i =
      let (cache, added) = Cache.add i.seen series.fingerprint in
      if added
      then record i { seen = cache; pending_meta = i.pending_meta ++ (series ∷ []) }
      else record i { seen = cache }

  unfoldable pub accumulate_metadata : List SeriesMetadata → Flusher S → Flusher S
  accumulate_metadata [] i = i
  accumulate_metadata (series ∷ rest) i = accumulate_metadata rest (accumulate_series series i)

  unfoldable pub accumulate : IngestItem → Flusher S → Flusher S
  accumulate item i =
      accumulate_metadata item.metadata
        (record i { pending_points = i.pending_points ++ item.points })

module _ {S : Type 0} (st : MetricsStore S) where
  -- `if len(i.pendingPoints) > 0 { … }`
  unfoldable pub flush_points : Flusher S → Flusher S
  flush_points i =
      if is_empty i.pending_points
      then i
      else let (s, err) = st.insert_points i.pending_points i.store in
        elim err [
          | some e ↦ record i { store = s; flush_errors = add64 i.flush_errors 1 }
          | none ↦ record i {
            store = s;
            flushed_points = add64 i.flushed_points (length i.pending_points);
          }
        ]

  -- `if len(i.pendingMeta) > 0 { … }`
  unfoldable pub flush_meta : Flusher S → Flusher S
  flush_meta i =
      if is_empty i.pending_meta
      then i
      else let (s, err) = st.insert_metadata i.pending_meta i.store in
        elim err [
          | some e ↦ record i { store = s; flush_errors = add64 i.flush_errors 1 }
          | none ↦ record i {
            store = s;
            flushed_meta = add64 i.flushed_meta (length i.pending_meta);
          }
        ]

  unfoldable pub flush : Flusher S → Flusher S
  flush i =
      if is_empty i.pending_points && is_empty i.pending_meta
      then i
      else record (flush_meta (flush_points i)) { pending_points = []; pending_meta = [] }

  -- the case of the loop that has received an item
  unfoldable pub on_item : IngestItem → Flusher S → Flusher S
  on_item item i =
      let i = accumulate item i in
      if leb_ℤ i.cfg.max_batch_points (pos (length i.pending_points)) then flush i else i

  -- `NewIngester`, up to the start of the goroutine
  unfoldable pub new_flusher : IngesterConfig → S → Flusher S
  new_flusher config store =
      let cfg = with_defaults config in
      record {
        store = store;
        cfg = cfg;
        pending_points = [];
        pending_meta = [];
        seen = new_fingerprint_cache cfg.dedup_cache_size;
        flushed_points = 0;
        flushed_meta = 0;
        flush_errors = 0;
      }
