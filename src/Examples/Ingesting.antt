-- ===== src/Examples/Ingesting.antt =====
-- The ingester across requests at concrete inputs: a full queue, an early flush, a repeated series.
use take_home_assignments.Prelude.{◌≡◌, refl, ◌⊎◌, ℕ, true, none, List, [], ◌∷◌, ◌++◌, arith}
use take_home_assignments.Mapper.Points.{first_of_each}
use take_home_assignments.Mapper.Metadata.{AreDistinct, row_fingerprints}
use take_home_assignments.Store.Recorder.{Recorded, recorder, attempted_points, attempted_metadata}
use take_home_assignments.Ingester.{IngestItem, flush, on_item}
use take_home_assignments.Ingester.System.{
  System, goes, channel, enqueue, receive, await_done, flush_call, close_queue, new_ingester,
}
use take_home_assignments.Ingester.System.Run.{
  Reach, item_of, start, acknowledged, received, closing,
}
use take_home_assignments.Ingester.System.Points.{points_of}
use take_home_assignments.Ingester.System.Rows.{rows_of}
use take_home_assignments.Ingester.System.Dedup.{done_metadata_once}
use take_home_assignments.Ingester.System.Liveness.{enqueue_progress}
use take_home_assignments.Ingester.System.Flushing.{flush_covers}
use take_home_assignments.Ingester.System.Loop.{
  Case, queue_case, flush_case, ticker_case, run_loop, queue_rounds, shutdown_complete,
}
use take_home_assignments.Examples.Data.{counting_store, small_config, two_rows, one_reading}
use take_home_assignments.Examples.Writing.{writing}

abbrev Sys : Type 0
Sys = System (Recorded ℕ)

abbrev begin : Sys
begin = new_ingester (recorder counting_store) small_config (record { inner = 0; calls = [] })

-- two requests with the same two series and a point each
abbrev item : IngestItem
item = item_of two_rows one_reading

abbrev one_queued : Sys
one_queued = record begin { queue = item ∷ [] }

abbrev full : Sys
full = record begin { queue = item ∷ item ∷ [] }

Reach-full : Reach counting_store small_config 0 (item ∷ item ∷ []) full
unfolding writing
Reach-full =
    acknowledged channel none two_rows one_reading
      (acknowledged {sys' = one_queued} channel none two_rows one_reading start refl) refl

enqueue_progress_example :
    ((sys' : Sys) × (enqueue channel none two_rows one_reading full ≡ goes (sys', none)))
    ⊎ ((next sys' : Sys) × (receive (recorder counting_store) full ≡ goes next)
        × (enqueue channel none two_rows one_reading next ≡ goes (sys', none)))
unfolding new_ingester
enqueue_progress_example =
    enqueue_progress counting_store small_config 0 two_rows one_reading none Reach-full refl

-- one item taken and pending, the other still queued
abbrev half : Sys
half = record full {
  flusher = on_item (recorder counting_store) item begin.flusher;
  queue = item ∷ [];
}

Reach-half : Reach counting_store small_config 0 (item ∷ item ∷ []) half
unfolding writing
Reach-half = received Reach-full refl

abbrev flushed_half : Sys
flushed_half = record half { flusher = flush (recorder counting_store) half.flusher }

flush_covers_example :
    (attempted_points flushed_half.flusher.store.calls ++ points_of flushed_half.queue
      ≡ points_of (item ∷ item ∷ []))
    × (flushed_half.queue ≡ half.queue)
    × (flushed_half.flusher.pending_points ≡ [])
    × (flushed_half.flusher.pending_meta ≡ [])
unfolding writing flush_call
flush_covers_example = flush_covers counting_store channel channel none Reach-half refl

still_queued : points_of flushed_half.queue ≡ one_reading
unfolding writing
still_queued = refl

-- a tick, the queued item, a request to flush, and the end of the queue
abbrev cases : List Case
cases = ticker_case ∷ queue_case ∷ flush_case ∷ queue_case ∷ []

shutdown_complete_example :
    (sys' : Sys) × (run_loop (recorder counting_store) cases (close_queue half) ≡ goes sys')
    × (await_done channel none sys' ≡ goes (sys', none))
    × (attempted_points sys'.flusher.store.calls ≡ points_of (item ∷ item ∷ []))
unfolding writing queue_rounds
shutdown_complete_example =
    shutdown_complete counting_store small_config 0 cases (closing Reach-half) refl refl
      (omega arith)

abbrev drained : Sys
drained = record full {
  flusher = on_item (recorder counting_store) item half.flusher;
  queue = [];
  closed = true;
}

abbrev ended : Sys
ended = record drained { flusher = flush (recorder counting_store) drained.flusher; done = true }

Reach-ended : Reach counting_store small_config 0 (item ∷ item ∷ []) ended
unfolding writing
Reach-ended = received (received {sys' = drained} (closing Reach-half) refl) refl

done_metadata_once_example :
    (attempted_metadata ended.flusher.store.calls ≡ first_of_each [] (rows_of (item ∷ item ∷ [])))
    × AreDistinct (row_fingerprints (attempted_metadata ended.flusher.store.calls))
unfolding writing first_of_each
done_metadata_once_example =
    done_metadata_once counting_store small_config 0 Reach-ended refl (omega arith)
