-- ===== src/Ingester/System/Rows.antt =====
-- The metadata rows that reach the store, against the rows of the acknowledged items.
use take_home_assignments.Prelude.{
  ◌≡◌, refl, sym, ap, ◌∙◌, ℕ, true, Option, none, List, [], ◌∷◌, ◌++◌, arith, inl, inr, contains,
}
use take_home_assignments.Series.{SeriesMetadata, DataPoint}
use take_home_assignments.Cache.{new_fingerprint_cache}
use take_home_assignments.Cache.Lists.{values}
use take_home_assignments.Cache.Invariant.{IsCache}
use take_home_assignments.Store.{MetricsStore, Error}
use take_home_assignments.Store.Recorder.{Recorded, recorder, attempted_metadata}
use take_home_assignments.Ingester.{
  IngesterConfig, IngestItem, flush, on_item, is_empty, new_flusher,
}
use take_home_assignments.Ingester.Flush.{Recording, flush-calls}
use take_home_assignments.Ingester.Metadata.{pass}
use take_home_assignments.Ingester.Coverage.{
  pass-append, pass_complete, emitted, emitted-flush, on_item-pass, fingerprints,
}
use take_home_assignments.Ingester.System.{
  System, goes, Choice, send, enqueue, close_queue, receive, flush_now, new_ingester,
}
use take_home_assignments.Ingester.System.Run.{
  item_of, Reach, start, acknowledged, received, flushed, ticked, closing, receive_cases,
  flush_now_cases, flush_call_cases,
}
use take_home_assignments.Ingester.System.Batches.{cache_size}
use take_home_assignments.Ingester.System.Invariant.{IsRunning, Reach-IsRunning}
use mathlib.Core.Path.{ap₂}
use mathlib.Core.List.{append-nil, append_assoc}

-- The metadata rows of a sequence of items.
unfoldable pub rows_of : List IngestItem → List SeriesMetadata
rows_of [] = []
rows_of (item ∷ items) = item.metadata ++ rows_of items

rows_of-append : (is js : List IngestItem) → rows_of (is ++ js) ≡ rows_of is ++ rows_of js
unfolding rows_of
rows_of-append [] js = refl
rows_of-append (i ∷ is) js =
    ap (◌++◌ i.metadata) (rows_of-append is js) ∙ sym (append_assoc i.metadata _ _)

-- Rows that have left the goroutine with an LRU set behind them, and then more rows.
abbrev after : ℕ → List SeriesMetadata × List ℕ → List SeriesMetadata → List SeriesMetadata × List ℕ
after n (out, vs) rows = (out ++ (pass n vs rows).0, (pass n vs rows).1)

after-append :
    (n : ℕ) (out : List SeriesMetadata) (vs : List ℕ) (xs ys : List SeriesMetadata)
    → after n (out, vs) (xs ++ ys) ≡ after n (after n (out, vs) xs) ys
after-append n out vs xs ys = ground (
  arith,
  pass-append n vs xs ys,
  append_assoc out (pass n vs xs).0 (pass n (pass n vs xs).1 ys).0,
)

module _ {S : Type 0} (st : MetricsStore S) (config : IngesterConfig) where
  abbrev state : Recording st → List SeriesMetadata × List ℕ
  state i = (emitted st (cache_size config) i, values i.seen.order)

  -- What the store has been given and the goroutine holds, with the queue still to come.
  abbrev outlook : System (Recorded S) → List SeriesMetadata × List ℕ
  outlook sys = after (cache_size config) (state sys.flusher) (rows_of sys.queue)

  state-flush : (i : Recording st) → state (flush (recorder st) i) ≡ state i
  state-flush i =
      ap₂ (λ out vs. (out, vs)) (emitted-flush st (cache_size config) i)
        (ap (λ c. values c.order) (flush-calls st i).3)

  state-on_item :
      (item : IngestItem) (i : Recording st)
      → IsCache (cache_size config) i.seen
      → state (on_item (recorder st) item i) ≡ after (cache_size config) (state i) item.metadata
  state-on_item item i h =
      let (out, vs) = on_item-pass st (cache_size config) item i h in
      ap₂ (λ out vs. (out, vs)) out vs

  outlook-receive :
      (sys : System (Recorded S)) {sys' : System (Recorded S)}
      → IsRunning st config sys
      → receive (recorder st) sys ≡ goes sys'
      → outlook sys' ≡ outlook sys
  unfolding rows_of
  outlook-receive sys h e = elim (receive_cases st sys e) [
    | inl (item, rest, more, alive, next) ↦
        ap outlook next
        ∙ ap (λ s. after (cache_size config) s (rows_of rest))
            (state-on_item item sys.flusher h.idle.cache)
        ∙ sym (after-append (cache_size config) _ _ item.metadata (rows_of rest))
        ∙ ap (λ q. after (cache_size config) (state sys.flusher) (rows_of q)) (sym more)
    | inr (empty, closed, alive, next) ↦
        ap outlook next
        ∙ ap (λ s. after (cache_size config) s (rows_of sys.queue)) (state-flush sys.flusher)
  ]

  outlook-flush_now :
      (sys : System (Recorded S)) {sys' : System (Recorded S)}
      → flush_now (recorder st) sys ≡ goes sys'
      → outlook sys' ≡ outlook sys
  outlook-flush_now sys e =
      ap outlook (flush_now_cases st sys e).1
      ∙ ap (λ s. after (cache_size config) s (rows_of sys.queue)) (state-flush sys.flusher)

  enqueue_rows :
      (choice : Choice) (ctx : Option Error) (metadata : List SeriesMetadata)
      (points : List DataPoint) (sys : System (Recorded S)) {sys' : System (Recorded S)}
      → enqueue choice ctx metadata points sys ≡ goes (sys', none)
      → (sys'.flusher ≡ sys.flusher) × (rows_of sys'.queue ≡ rows_of sys.queue ++ metadata)
  unfolding enqueue send rows_of is_empty
  enqueue_rows choice ctx metadata points sys e = ground (
    arith,
    append-nil metadata,
    append-nil (rows_of sys.queue),
    rows_of-append sys.queue (item_of metadata points ∷ []),
  )

  outlook-enqueue :
      (choice : Choice) (ctx : Option Error) (metadata : List SeriesMetadata)
      (points : List DataPoint) (sys : System (Recorded S)) {sys' : System (Recorded S)}
      → enqueue choice ctx metadata points sys ≡ goes (sys', none)
      → outlook sys' ≡ after (cache_size config) (outlook sys) metadata
  outlook-enqueue choice ctx metadata points sys e =
      let (same, queued) = enqueue_rows choice ctx metadata points sys e in
      ap₂ (λ i rows. after (cache_size config) (state i) rows) same queued
      ∙ after-append (cache_size config) _ _ (rows_of sys.queue) metadata

module _ {S : Type 0} (st : MetricsStore S) (config : IngesterConfig) (world : S) where
  -- Whatever happened so far, what the store has been given, what is pending and what the queue
  -- will still let through are together the acknowledged rows, filtered by one LRU set of the
  -- configured size.
  pub outlook_conserved :
      {acc : List IngestItem} {sys : System (Recorded S)}
      → Reach st config world acc sys
      → outlook st config sys ≡ pass (cache_size config) [] (rows_of acc)
  unfolding new_ingester new_flusher new_fingerprint_cache attempted_metadata rows_of pass
      close_queue
  outlook_conserved start = refl
  outlook_conserved (acknowledged {acc = acc} {sys = sys} choice ctx metadata points r e) =
      outlook-enqueue st config choice ctx metadata points sys e
      ∙ ap (λ s. after (cache_size config) s metadata) (outlook_conserved r)
      ∙ sym (pass-append (cache_size config) [] (rows_of acc) metadata)
      ∙ ap (pass (cache_size config) []) (
          ap (◌++◌ (rows_of acc)) (sym (append-nil metadata))
          ∙ sym (rows_of-append acc (item_of metadata points ∷ [])))
  outlook_conserved (received {sys = sys} r e) =
      outlook-receive st config sys (Reach-IsRunning st config world r) e ∙ outlook_conserved r
  outlook_conserved (flushed {sys = sys} first second ctx result r e) =
      elim (flush_call_cases st first second ctx result sys e) [
        | inl now ↦ outlook-flush_now st config sys now ∙ outlook_conserved r
        | inr same ↦ ap (outlook st config) same ∙ outlook_conserved r
      ]
  outlook_conserved (ticked {sys = sys} r e) =
      outlook-flush_now st config sys e ∙ outlook_conserved r
  outlook_conserved (closing r) = outlook_conserved r

  -- When the goroutine has returned, the metadata rows handed to the store are the acknowledged
  -- rows filtered by the LRU set, and they name exactly the fingerprints of the acknowledged rows.
  pub done_metadata :
      {acc : List IngestItem} {sys : System (Recorded S)}
      → Reach st config world acc sys
      → sys.done ≡ true
      → (attempted_metadata sys.flusher.store.calls ≡ (pass (cache_size config) [] (rows_of acc)).0)
        × ((fp : ℕ)
            → contains (fingerprints (attempted_metadata sys.flusher.store.calls)) fp
              ≡ contains (fingerprints (rows_of acc)) fp)
  unfolding rows_of pass contains
  done_metadata {acc} {sys = sys} r d =
      let (closed, no_queue, no_points, no_meta) = (Reach-IsRunning st config world r).finished d in
      let given : attempted_metadata sys.flusher.store.calls
          ≡ (pass (cache_size config) [] (rows_of acc)).0 =
        ground (
          arith,
          ap (λ s. s.0) (outlook_conserved r),
          append-nil (attempted_metadata sys.flusher.store.calls),
        ) in
      (
        given,
        λ fp.
            ap (λ rows. contains (fingerprints rows) fp) given
            ∙ pass_complete (cache_size config) (rows_of acc) [] fp refl,
      )
