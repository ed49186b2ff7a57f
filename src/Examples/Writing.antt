-- ===== src/Examples/Writing.antt =====
-- The cache and the ingester at concrete inputs.
use take_home_assignments.Prelude.{◌≡◌, refl, ℕ, true, none, [], ◌∷◌, ◌++◌, contains}
use take_home_assignments.Prelude.Int.{pos}
use mathlib.Core.Bool.{not}
use take_home_assignments.Text.{bytes}
use take_home_assignments.Cache.{
  FingerprintCache, new_fingerprint_cache, add, find_item, delete_item, push_front, evict, back,
  remove, move_to_front, find_element,
}
use take_home_assignments.Cache.Lists.{values, without}
use take_home_assignments.Cache.Invariant.{IsCache, new-IsCache}
use take_home_assignments.Cache.Lru.{touch, add-touch}
use take_home_assignments.Store.{foreign}
use take_home_assignments.Store.Recorder.{
  Recorded, recorder, attempted_points, attempted_metadata, stored_points, stored_metadata,
  failures,
}
use take_home_assignments.Ingester.{
  Flusher, IngestItem, with_defaults, or_default, is_empty, accumulate_series, accumulate_metadata,
  accumulate, flush_points, flush_meta, flush, on_item, new_flusher,
}
use take_home_assignments.Ingester.Config.{IsPositive, with_defaults-IsPositive}
use take_home_assignments.Ingester.Flush.{
  flush-calls, points_call, metadata_call, points_error, metadata_error,
}
use take_home_assignments.Ingester.Metadata.{pass, accumulate-pass}
use take_home_assignments.Ingester.Loss.{failed_metadata_lost}
use take_home_assignments.Ingester.Coverage.{fingerprints}
use take_home_assignments.Ingester.System.{
  System, channel, send, enqueue, close_queue, await_done, receive, flush_now, new_ingester,
}
use take_home_assignments.Ingester.System.Run.{
  Reach, item_of, start, acknowledged, received, closing,
}
use take_home_assignments.Ingester.System.Points.{points_of, held_points, held_conserved}
use take_home_assignments.Ingester.System.Drain.{done_stored}
use take_home_assignments.Ingester.System.Rows.{rows_of, done_metadata}
use take_home_assignments.Ingester.System.Batches.{cache_size}
use take_home_assignments.Ingester.System.Invariant.{IsRunning, Reach-IsRunning}
use take_home_assignments.Examples.Data.{
  counting_store, refusing_store, small_config, two_rows, one_reading,
}

unfoldable pub writing : Unit {0}
unfolding find_item delete_item push_front evict back remove move_to_front find_element add
    new_fingerprint_cache without pass contains is_empty accumulate_series accumulate_metadata
    accumulate flush_points flush_meta flush on_item new_flusher with_defaults or_default send
    enqueue close_queue await_done receive flush_now new_ingester points_of rows_of held_points
    attempted_points attempted_metadata stored_points stored_metadata failures
writing = tt

abbrev Sys : Type 0
Sys = System (Recorded ℕ)

abbrev begin : Sys
begin = new_ingester (recorder counting_store) small_config (record { inner = 0; calls = [] })

-- one item, then the end of the queue
abbrev item : IngestItem
item = item_of two_rows one_reading

abbrev queued : Sys
queued = record begin { queue = item ∷ [] }

abbrev closed : Sys
closed = close_queue queued

abbrev taken : Sys
taken = record closed { flusher = on_item (recorder counting_store) item begin.flusher; queue = [] }

abbrev finished : Sys
finished = record taken { flusher = flush (recorder counting_store) taken.flusher; done = true }

Reach-queued : Reach counting_store small_config 0 (item ∷ []) queued
unfolding writing
Reach-queued = acknowledged channel none two_rows one_reading start refl

Reach-closed : Reach counting_store small_config 0 (item ∷ []) closed
Reach-closed = closing Reach-queued

Reach-taken : Reach counting_store small_config 0 (item ∷ []) taken
unfolding writing
Reach-taken = received Reach-closed refl

Reach-finished : Reach counting_store small_config 0 (item ∷ []) finished
unfolding writing
Reach-finished = received Reach-taken refl

held_conserved_example : held_points queued ≡ points_of (item ∷ [])
held_conserved_example = held_conserved counting_store small_config 0 Reach-queued

Reach-IsRunning_example : IsRunning counting_store small_config finished
Reach-IsRunning_example = Reach-IsRunning counting_store small_config 0 Reach-finished

done_metadata_example :
    (attempted_metadata finished.flusher.store.calls
      ≡ (pass (cache_size small_config) [] (rows_of (item ∷ []))).0)
    × ((fp : ℕ)
        → contains (fingerprints (attempted_metadata finished.flusher.store.calls)) fp
          ≡ contains (fingerprints (rows_of (item ∷ []))) fp)
done_metadata_example = done_metadata counting_store small_config 0 Reach-finished refl

done_stored_example : stored_points finished.flusher.store.calls ≡ points_of (item ∷ [])
unfolding writing
done_stored_example = done_stored counting_store small_config 0 Reach-finished refl refl

-- a cache that holds the fingerprints 8 and 7
abbrev full_cache : FingerprintCache
full_cache = (add (add (new_fingerprint_cache (pos 2)) 7).0 8).0

full_cache-IsCache : IsCache 2 full_cache
full_cache-IsCache =
    (add-touch 2 (add (new_fingerprint_cache (pos 2)) 7).0 8
      (add-touch 2 (new_fingerprint_cache (pos 2)) 7 (new-IsCache 2)).0).0

evicted : values (add full_cache 9).0.order ≡ 9 ∷ 8 ∷ []
unfolding writing
evicted = refl

add-touch_example :
    IsCache 2 (add full_cache 9).0
    × (values (add full_cache 9).0.order ≡ touch 2 9 (values full_cache.order))
    × ((add full_cache 9).1 ≡ not (contains (values full_cache.order) 9))
add-touch_example = add-touch 2 full_cache 9 full_cache-IsCache

with_defaults-IsPositive_example :
    IsPositive (with_defaults small_config).max_batch_points
    × IsPositive (with_defaults small_config).flush_interval
    × IsPositive (with_defaults small_config).queue_capacity
    × IsPositive (with_defaults small_config).dedup_cache_size
    × (with_defaults (with_defaults small_config) ≡ with_defaults small_config)
with_defaults-IsPositive_example = with_defaults-IsPositive small_config

-- a goroutine with a batch pending in front of a store that refuses metadata
abbrev refused : Flusher (Recorded ℕ)
refused =
    accumulate item
      (new_flusher (recorder refusing_store) small_config (record { inner = 0; calls = [] }))

refused-IsCache : IsCache 2 refused.seen
unfolding writing
refused-IsCache =
    (accumulate-pass 2 item
      (new_flusher (recorder refusing_store) small_config (record { inner = 0; calls = [] }))
      (new-IsCache 2)).0

flush-calls_example :
    ((flush (recorder refusing_store) refused).store.calls
      ≡ refused.store.calls
        ++ (points_call refused.pending_points (points_error refusing_store refused)
            ++ metadata_call refused.pending_meta
                (metadata_error refusing_store (flush_points (recorder refusing_store) refused))))
    × ((flush (recorder refusing_store) refused).pending_points ≡ [])
    × ((flush (recorder refusing_store) refused).pending_meta ≡ [])
    × ((flush (recorder refusing_store) refused).seen ≡ refused.seen)
    × ((flush (recorder refusing_store) refused).cfg ≡ refused.cfg)
flush-calls_example = flush-calls refusing_store refused

failed_metadata_lost_example :
    stored_metadata
      (flush
        (recorder refusing_store)
        (accumulate item (flush (recorder refusing_store) refused))).store.calls
    ≡ stored_metadata refused.store.calls
unfolding writing
failed_metadata_lost_example =
    failed_metadata_lost refusing_store 2 refused item (foreign (bytes "no")) refused-IsCache refl
      (refl, (refl, tt))
