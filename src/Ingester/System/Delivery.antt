-- ===== src/Ingester/System/Delivery.antt =====
-- From acknowledged points to the contents of the store.
use take_home_assignments.Prelude.{
  ◌≡◌, sym, ap, ◌∙◌, inl, inr, none, List, [], ◌∷◌, ◌++◌, ◌&&◌, arith, length, Bool-cases,
  Option-cases,
}
use take_home_assignments.Prelude.Int.{pos, leb_ℤ}
use take_home_assignments.Series.{SeriesMetadata, DataPoint}
use take_home_assignments.Store.{MetricsStore}
use take_home_assignments.Store.Recorder.{
  Call, points, metadata, Recorded, recorder, failures, failures-append,
}
use take_home_assignments.Ingester.{
  IngesterConfig, IngestItem, is_empty, accumulate, flush_points, flush_meta, flush, on_item,
  new_flusher,
}
use take_home_assignments.Ingester.Flush.{Recording}
use take_home_assignments.Ingester.Metadata.{frame-accumulate_metadata}
use take_home_assignments.Ingester.System.{System, goes, flush_now, new_ingester, close_queue}
use take_home_assignments.Ingester.System.Run.{
  Reach, start, acknowledged, received, flushed, ticked, closing, receive_cases, flush_now_cases,
  flush_call_cases, enqueue_cases,
}
use mathlib.Core.Path.{subst}
use mathlib.Core.List.{append-nil, append_assoc}

-- What a sequence of calls gives, where each call gives a list.
unfoldable pub all_given : {X : Type 0} → (Call → List X) → List Call → List X
all_given given [] = []
all_given given (c ∷ cs) = given c ++ all_given given cs

all_given-snoc :
    {X : Type 0} (given : Call → List X) (cs : List Call) (c : Call)
    → all_given given (cs ++ (c ∷ [])) ≡ all_given given cs ++ given c
unfolding all_given
all_given-snoc given [] c = append-nil (given c)
all_given-snoc given (d ∷ cs) c =
    ap (◌++◌ (given d)) (all_given-snoc given cs c)
    ∙ sym (append_assoc (given d) (all_given given cs) (given c))

-- A store with contents that can be read back, to which an insert that returns nil adds what it was
-- given. Nothing is said of an insert that fails.
pub record IsReadable {S X : Type 0} (st : MetricsStore S) (given : Call → List X) : Type 0 where
  pub contents : S → List X
  pub points_added :
      (rows : List DataPoint) (s : S)
      → (st.insert_points rows s).1 ≡ none
      → contents (st.insert_points rows s).0 ≡ contents s ++ given (points rows none)
  pub metadata_added :
      (rows : List SeriesMetadata) (s : S)
      → (st.insert_metadata rows s).1 ≡ none
      → contents (st.insert_metadata rows s).0 ≡ contents s ++ given (metadata rows none)

module _ {S X : Type 0} (st : MetricsStore S) (given : Call → List X) (h : IsReadable st given)
    (base : List X) where
  -- As long as no call has failed, the store holds its first contents and what it was given.
  abbrev IsDelivered : Recorded S → Type 0
  IsDelivered r = failures r.calls ≡ 0 → h.contents r.inner ≡ base ++ all_given given r.calls

  -- One more call that succeeds.
  next-IsDelivered :
      (r : Recorded S) (c : Call) (now : S)
      → h.contents r.inner ≡ base ++ all_given given r.calls
      → h.contents now ≡ h.contents r.inner ++ given c
      → h.contents now ≡ base ++ all_given given (r.calls ++ (c ∷ []))
  next-IsDelivered r c now before added =
      added
      ∙ ap (λ xs. xs ++ given c) before
      ∙ append_assoc base (all_given given r.calls) (given c)
      ∙ ap (◌++◌ base) (sym (all_given-snoc given r.calls c))

  points-IsDelivered :
      (rows : List DataPoint) (r : Recorded S)
      → IsDelivered r
      → IsDelivered ((recorder st).insert_points rows r).0
  unfolding failures
  points-IsDelivered rows r d clean =
      let count = failures-append r.calls (points rows (st.insert_points rows r.inner).1 ∷ []) in
      elim (Option-cases (st.insert_points rows r.inner).1) [
        | inr (e, bad) ↦ absurd (ground (arith, count, bad, clean))
        | inl good ↦
            let before = d (ground (arith, count, good, clean)) in
            subst
              (λ e.
                h.contents (st.insert_points rows r.inner).0
                ≡ base ++ all_given given (r.calls ++ (points rows e ∷ [])))
              (sym good)
              (next-IsDelivered r (points rows none) _ before (h.points_added rows r.inner good))
      ]

  metadata-IsDelivered :
      (rows : List SeriesMetadata) (r : Recorded S)
      → IsDelivered r
      → IsDelivered ((recorder st).insert_metadata rows r).0
  unfolding failures
  metadata-IsDelivered rows r d clean =
      let count =
        failures-append r.calls (metadata rows (st.insert_metadata rows r.inner).1 ∷ []) in
      elim (Option-cases (st.insert_metadata rows r.inner).1) [
        | inr (e, bad) ↦ absurd (ground (arith, count, bad, clean))
        | inl good ↦
            let before = d (ground (arith, count, good, clean)) in
            subst
              (λ e.
                h.contents (st.insert_metadata rows r.inner).0
                ≡ base ++ all_given given (r.calls ++ (metadata rows e ∷ [])))
              (sym good)
              (next-IsDelivered r (metadata rows none) _ before
                (h.metadata_added rows r.inner good))
      ]

  flush_points-IsDelivered :
      (i : Recording st) → IsDelivered i.store → IsDelivered (flush_points (recorder st) i).store
  unfolding flush_points
  flush_points-IsDelivered i d =
      let written = points-IsDelivered i.pending_points i.store d in
      elim (Bool-cases (is_empty i.pending_points)) [
        | inl e ↦ rw (e, flush_points) d
        | inr e ↦ elim (Option-cases (st.insert_points i.pending_points i.store.inner).1) [
          | inl good ↦ rw (e, flush_points, good) written
          | inr (x, bad) ↦ rw (e, flush_points, bad) written
        ]
      ]

  flush_meta-IsDelivered :
      (i : Recording st) → IsDelivered i.store → IsDelivered (flush_meta (recorder st) i).store
  unfolding flush_meta
  flush_meta-IsDelivered i d =
      let written = metadata-IsDelivered i.pending_meta i.store d in
      elim (Bool-cases (is_empty i.pending_meta)) [
        | inl e ↦ rw (e, flush_meta) d
        | inr e ↦ elim (Option-cases (st.insert_metadata i.pending_meta i.store.inner).1) [
          | inl good ↦ rw (e, flush_meta, good) written
          | inr (x, bad) ↦ rw (e, flush_meta, bad) written
        ]
      ]

  flush-IsDelivered :
      (i : Recording st) → IsDelivered i.store → IsDelivered (flush (recorder st) i).store
  unfolding flush
  flush-IsDelivered i d = elim (Bool-cases (is_empty i.pending_points && is_empty i.pending_meta)) [
    | inl e ↦ rw (e, flush) d
    | inr e ↦ rw (e, flush) (flush_meta-IsDelivered _ (flush_points-IsDelivered i d))
  ]

  on_item-IsDelivered :
      (item : IngestItem) (i : Recording st)
      → IsDelivered i.store
      → IsDelivered (on_item (recorder st) item i).store
  unfolding on_item accumulate
  on_item-IsDelivered item i d =
      let next = accumulate item i in
      let ready : IsDelivered next.store =
        subst IsDelivered (sym (frame-accumulate_metadata item.metadata _).1) d in
      elim (Bool-cases (leb_ℤ next.cfg.max_batch_points (pos (length next.pending_points)))) [
        | inl e ↦ rw (e, on_item) (flush-IsDelivered next ready)
        | inr e ↦ rw (e, on_item) ready
      ]

module _ {S X : Type 0} (st : MetricsStore S) (given : Call → List X) (h : IsReadable st given)
    (config : IngesterConfig) (world : S) where
  abbrev Holds : Recorded S → Type 0
  Holds = IsDelivered st given h (h.contents world)

  flush_now-Holds :
      (sys : System (Recorded S)) {sys' : System (Recorded S)}
      → Holds sys.flusher.store
      → flush_now (recorder st) sys ≡ goes sys'
      → Holds sys'.flusher.store
  flush_now-Holds sys d e =
      let (alive, next) = flush_now_cases st sys e in
      subst (λ s. Holds s.flusher.store) (sym next)
        (flush-IsDelivered st given h (h.contents world) sys.flusher d)

  Reach-Holds :
      {acc : List IngestItem} {sys : System (Recorded S)}
      → Reach st config world acc sys
      → Holds sys.flusher.store
  unfolding new_ingester new_flusher close_queue all_given
  Reach-Holds start = λ clean. sym (append-nil (h.contents world))
  Reach-Holds (acknowledged {sys = sys} choice ctx rows ps r e) =
      elim (enqueue_cases choice ctx none rows ps sys e) [
        | inl same ↦ subst (λ s. Holds s.flusher.store) (sym same) (Reach-Holds r)
        | inr (open_still, room, next) ↦
            subst (λ s. Holds s.flusher.store) (sym next) (Reach-Holds r)
      ]
  Reach-Holds (received {sys = sys} r e) = elim (receive_cases st sys e) [
    | inl (item, rest, more, alive, next) ↦
        subst (λ s. Holds s.flusher.store) (sym next)
          (on_item-IsDelivered st given h (h.contents world) item sys.flusher (Reach-Holds r))
    | inr (empty, closed, alive, next) ↦
        subst (λ s. Holds s.flusher.store) (sym next)
          (flush-IsDelivered st given h (h.contents world) sys.flusher (Reach-Holds r))
  ]
  Reach-Holds (flushed {sys = sys} first second ctx result r e) =
      elim (flush_call_cases st first second ctx result sys e) [
        | inl now ↦ flush_now-Holds sys (Reach-Holds r) now
        | inr same ↦ subst (λ s. Holds s.flusher.store) (sym same) (Reach-Holds r)
      ]
  Reach-Holds (ticked {sys = sys} r e) = flush_now-Holds sys (Reach-Holds r) e
  Reach-Holds (closing r) = Reach-Holds r

  -- In every state that an ingester can reach over a store that can be read back, and if no call has
  -- failed so far, the store holds what it held at the start and then what it was given, in order.
  pub delivered :
      {acc : List IngestItem} {sys : System (Recorded S)}
      → Reach st config world acc sys
      → failures sys.flusher.store.calls ≡ 0
      → h.contents sys.flusher.store.inner
        ≡ h.contents world ++ all_given given sys.flusher.store.calls
  delivered r = Reach-Holds r
