-- ===== src/Ingester/System/Batches.antt =====
-- The goroutine between two rounds: full batches are written, and the rest waits.
use take_home_assignments.Prelude.{
  ◌≡◌, refl, sym, ◌∙◌, ℕ, suc, true, false, [], ◌++◌, arith, inl, inr, length, Bool-cases,
}
use take_home_assignments.Prelude.Int.{ℤ, pos, pos_part, leb_ℤ, ltb_ℤ}
use take_home_assignments.Cache.Invariant.{IsCache, new-IsCache}
use take_home_assignments.Cache.{new_fingerprint_cache}
use take_home_assignments.Store.{MetricsStore}
use take_home_assignments.Store.Recorder.{recorder, stored_points, stored_metadata, failures}
use take_home_assignments.Ingester.{
  IngesterConfig, IngestItem, with_defaults, accumulate, flush, on_item, new_flusher,
}
use take_home_assignments.Ingester.Config.{with_defaults-IsPositive}
use take_home_assignments.Ingester.Flush.{Recording, flush-calls}
use take_home_assignments.Ingester.Counters.{IsAccounted, flush-IsAccounted}
use take_home_assignments.Ingester.Metadata.{accumulate-pass, frame-accumulate_metadata}
use mathlib.Core.Path.{subst}

-- The number of fingerprints that the cache of a configuration holds.
abbrev pub cache_size : IngesterConfig → ℕ
cache_size config = pos_part (with_defaults config).dedup_cache_size

module _ {S : Type 0} (st : MetricsStore S) (config : IngesterConfig) where
  -- The state of the goroutine between two rounds: the settings are those of the start, the cache
  -- is well formed, fewer points are pending than make a batch, and the counters are right.
  pub record IsIdle (i : Recording st) : Type 0 where
    pub cfg : i.cfg ≡ with_defaults config
    pub cache : IsCache (cache_size config) i.seen
    pub batch : ltb_ℤ (pos (length i.pending_points)) (with_defaults config).max_batch_points ≡ true
    pub accounted : IsAccounted st i

  pub empty_batch : ltb_ℤ (pos 0) (with_defaults config).max_batch_points ≡ true
  empty_batch = let (n, e) = (with_defaults-IsPositive config).0 in ground arith

  pub flush-IsIdle :
      (i : Recording st)
      → i.cfg ≡ with_defaults config
      → IsCache (cache_size config) i.seen
      → IsAccounted st i
      → IsIdle (flush (recorder st) i)
  flush-IsIdle i c h a =
      let (calls, no_points, no_meta, seen, cfg) = flush-calls st i in
      record {
        cfg = cfg ∙ c;
        cache = subst (IsCache (cache_size config)) (sym seen) h;
        batch = rw no_points empty_batch;
        accounted = flush-IsAccounted st i a;
      }

  accumulate-IsAccounted :
      (item : IngestItem) (i : Recording st) → IsAccounted st i → IsAccounted st (accumulate item i)
  unfolding accumulate
  accumulate-IsAccounted item i a = ground (
    arith,
    frame-accumulate_metadata item.metadata
        (record i { pending_points = i.pending_points ++ item.points }),
  )

  cfg-accumulate : (item : IngestItem) (i : Recording st) → (accumulate item i).cfg ≡ i.cfg
  unfolding accumulate
  cfg-accumulate item i = (frame-accumulate_metadata item.metadata _).2

  not-leb : (a b : ℤ) → leb_ℤ a b ≡ false → ltb_ℤ b a ≡ true
  not-leb a b h = ground arith

  pub on_item-IsIdle :
      (item : IngestItem) (i : Recording st) → IsIdle i → IsIdle (on_item (recorder st) item i)
  unfolding on_item
  on_item-IsIdle item i h =
      let next = accumulate item i in
      let cfg = cfg-accumulate item i ∙ h.cfg in
      let cache = (accumulate-pass (cache_size config) item i h.cache).0 in
      let accounted = accumulate-IsAccounted item i h.accounted in
      elim (Bool-cases (leb_ℤ next.cfg.max_batch_points (pos (length next.pending_points)))) [
        | inl e ↦ rw e (flush-IsIdle next cfg cache accounted)
        | inr e ↦ rw e (record {
          cfg = cfg;
          cache = cache;
          batch =
              subst (λ c. ltb_ℤ (pos (length next.pending_points)) c.max_batch_points ≡ true) cfg
                (not-leb next.cfg.max_batch_points _ e);
          accounted = accounted;
        })
      ]

  pub start-IsIdle :
      (world : S) → IsIdle (new_flusher (recorder st) config (record { inner = world; calls = [] }))
  unfolding new_flusher stored_points stored_metadata failures
  start-IsIdle world =
      let (n, e) = (with_defaults-IsPositive config).3 in
      record {
        cfg = refl;
        cache =
            subst (λ a. IsCache (pos_part a) (new_fingerprint_cache a)) (sym e)
              (new-IsCache (suc n));
        batch = empty_batch;
        accounted = record { flushed_points = refl; flushed_meta = refl; flush_errors = refl };
      }
