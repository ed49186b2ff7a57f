-- ===== src/Ingester/Coverage.antt =====
-- The metadata rows that leave the goroutine, item by item.
use take_home_assignments.Prelude.{
  ◌≡◌, refl, sym, ap, ◌∙◌, ℕ, zero, suc, false, List, [], ◌∷◌, ◌++◌, ◌==◌, arith, inl, inr, take,
  map, length, contains, ==_iff, Bool-cases,
}
use take_home_assignments.Prelude.Int.{pos, leb_ℤ}
use take_home_assignments.Series.{SeriesMetadata}
use take_home_assignments.Cache.Lists.{values, without}
use take_home_assignments.Cache.Invariant.{IsCache}
use take_home_assignments.Cache.Lru.{touch}
use take_home_assignments.Store.{MetricsStore}
use take_home_assignments.Store.Recorder.{recorder, attempted_metadata}
use take_home_assignments.Ingester.{IngestItem, accumulate, flush, on_item}
use take_home_assignments.Ingester.Flush.{Recording, flush-calls, flush-attempted_metadata}
use take_home_assignments.Ingester.Metadata.{pass, accumulate-pass, frame-accumulate_metadata}
use mathlib.Core.Path.{ap₂}
use mathlib.Core.List.{append-nil, append_assoc}

pub pass-append :
    (n : ℕ) (vs : List ℕ) (xs ys : List SeriesMetadata)
    → pass n vs (xs ++ ys)
      ≡ ((pass n vs xs).0 ++ (pass n (pass n vs xs).1 ys).0, (pass n (pass n vs xs).1 ys).1)
unfolding pass
pass-append n vs [] ys = refl
pass-append n vs (s ∷ xs) ys = ground (arith, pass-append n (touch n s.fingerprint vs) xs ys)

contains-take : (n g : ℕ) (vs : List ℕ) → contains vs g ≡ false → contains (take n vs) g ≡ false
unfolding contains
contains-take zero g vs h = refl
contains-take (suc n) g [] h = refl
contains-take (suc n) g (v ∷ vs) h = ground (arith, contains-take n g vs)

contains-without_none :
    (v g : ℕ) (vs : List ℕ) → contains vs g ≡ false → contains (without v vs) g ≡ false
unfolding contains without
contains-without_none v g [] h = refl
contains-without_none v g (w ∷ vs) h = ground (arith, contains-without_none v g vs)

contains-touch_none :
    (n v g : ℕ) (vs : List ℕ)
    → (v == g) ≡ false
    → contains vs g ≡ false
    → contains (touch n v vs) g ≡ false
unfolding contains
contains-touch_none n v g vs ne h =
    ground (arith, contains-without_none v g vs, contains-take n g (v ∷ vs))

abbrev pub fingerprints : List SeriesMetadata → List ℕ
fingerprints = map (λ s. s.fingerprint)

-- No series is held back for good: the fingerprint of a row that comes in is that of a row that
-- passes, or the set held it at the start.
pub pass_complete :
    (n : ℕ) (rows : List SeriesMetadata) (vs : List ℕ) (fp : ℕ)
    → contains vs fp ≡ false
    → contains (fingerprints (pass n vs rows).0) fp ≡ contains (fingerprints rows) fp
unfolding pass contains
pass_complete n [] vs fp h = refl
pass_complete n (s ∷ rows) vs fp h = elim (Bool-cases (s.fingerprint == fp)) [
  | inl e ↦ ground (arith, ap (contains vs) ((==_iff s.fingerprint fp).0 e))
  | inr e ↦ ground (
    arith,
    pass_complete n rows (touch n s.fingerprint vs) fp
        (contains-touch_none n s.fingerprint fp vs e h),
  )
]

module _ {S : Type 0} (st : MetricsStore S) (n : ℕ) where
  -- The rows handed to the store, then those pending.
  abbrev pub emitted : Recording st → List SeriesMetadata
  emitted i = attempted_metadata i.store.calls ++ i.pending_meta

  pub emitted-flush : (i : Recording st) → emitted (flush (recorder st) i) ≡ emitted i
  emitted-flush i =
      ap₂ ◌++◌ (flush-attempted_metadata st i) (flush-calls st i).2 ∙ append-nil (emitted i)

  emitted-accumulate :
      (item : IngestItem) (i : Recording st)
      → IsCache n i.seen
      → emitted (accumulate item i) ≡ emitted i ++ (pass n (values i.seen.order) item.metadata).0
  unfolding accumulate
  emitted-accumulate item i h =
      let base = record i { pending_points = i.pending_points ++ item.points } in
      ap₂ (λ s ms. attempted_metadata s.calls ++ ms)
        (frame-accumulate_metadata item.metadata base).1 (accumulate-pass n item i h).2
      ∙ sym (append_assoc (attempted_metadata i.store.calls) i.pending_meta _)

  -- A round of the goroutine emits the rows of its item that pass the cache.
  pub on_item-pass :
      (item : IngestItem) (i : Recording st)
      → IsCache n i.seen
      → (emitted (on_item (recorder st) item i)
          ≡ emitted i ++ (pass n (values i.seen.order) item.metadata).0)
        × (values (on_item (recorder st) item i).seen.order
            ≡ (pass n (values i.seen.order) item.metadata).1)
  unfolding on_item
  on_item-pass item i h =
      let next = accumulate item i in
      let seen = (accumulate-pass n item i h).1 in
      let out = emitted-accumulate item i h in
      elim (Bool-cases (leb_ℤ next.cfg.max_batch_points (pos (length next.pending_points)))) [
        | inl e ↦
            rw e (emitted-flush next ∙ out, ap (λ c. values c.order) (flush-calls st next).3 ∙ seen)
        | inr e ↦ rw e (out, seen)
      ]
