-- ===== src/Ingester/Metadata.antt =====
-- Which metadata rows `accumulate` lets through: those whose fingerprint the LRU set does not hold.
use take_home_assignments.Prelude.{
  ◌≡◌, refl, sym, ap, ◌∙◌, ℕ, Bool, true, false, List, [], ◌∷◌, ◌++◌, arith, ◌||◌, ◌==◌, contains,
  All, if◌then◌else◌,
}
use take_home_assignments.Series.{SeriesMetadata}
use take_home_assignments.Cache
use take_home_assignments.Cache.{FingerprintCache}
use take_home_assignments.Cache.Lists.{values, without}
use take_home_assignments.Cache.Invariant.{IsCache}
use take_home_assignments.Cache.Lru.{touch, add-touch}
use take_home_assignments.Ingester.{
  IngestItem, Flusher, accumulate_series, accumulate_metadata, accumulate,
}
use mathlib.Core.Path.{subst, ap₂}
use mathlib.Core.List.{append-nil, append_assoc}

-- The rows that pass an LRU set of `n` fingerprints, and the set after them.
unfoldable pub pass : ℕ → List ℕ → List SeriesMetadata → List SeriesMetadata × List ℕ
pass n vs [] = ([], vs)
pass n vs (s ∷ ss) =
    let rest = pass n (touch n s.fingerprint vs) ss in
    (if contains vs s.fingerprint then rest.0 else s ∷ rest.0, rest.1)

queue_split :
    (ms : List SeriesMetadata) (held : Bool) (s : SeriesMetadata) (rest : List SeriesMetadata)
    → (if held then ms else ms ++ (s ∷ [])) ++ rest ≡ ms ++ (if held then rest else s ∷ rest)
queue_split ms true s rest = refl
queue_split ms false s rest = append_assoc ms (s ∷ []) rest

module _ {S : Type 0} where
  seen-accumulate_series :
      (s : SeriesMetadata) (i : Flusher S)
      → (accumulate_series s i).seen ≡ (Cache.add i.seen s.fingerprint).0
  unfolding accumulate_series
  seen-accumulate_series s i = ground arith

  pub frame-accumulate_metadata :
      (rows : List SeriesMetadata) (i : Flusher S)
      → ((accumulate_metadata rows i).pending_points ≡ i.pending_points)
        × ((accumulate_metadata rows i).store ≡ i.store)
        × ((accumulate_metadata rows i).cfg ≡ i.cfg)
        × ((accumulate_metadata rows i).flushed_points ≡ i.flushed_points)
        × ((accumulate_metadata rows i).flushed_meta ≡ i.flushed_meta)
        × ((accumulate_metadata rows i).flush_errors ≡ i.flush_errors)
  unfolding accumulate_metadata accumulate_series
  frame-accumulate_metadata [] i = (refl, refl, refl, refl, refl, refl)
  frame-accumulate_metadata (s ∷ rows) i =
      ground (arith, frame-accumulate_metadata rows (accumulate_series s i))

module _ {S : Type 0} (n : ℕ) where
  accumulate_series-touch :
      (s : SeriesMetadata) (i : Flusher S)
      → IsCache n i.seen
      → IsCache n (accumulate_series s i).seen
        × (values (accumulate_series s i).seen.order ≡ touch n s.fingerprint (values i.seen.order))
        × ((accumulate_series s i).pending_meta ≡ (
            if contains (values i.seen.order) s.fingerprint
            then i.pending_meta
            else i.pending_meta ++ (s ∷ [])))
  unfolding accumulate_series
  accumulate_series-touch s i h =
      let (valid, kept, added) = add-touch n i.seen s.fingerprint h in
      let same = seen-accumulate_series s i in
      (
        subst (IsCache n) (sym same) valid,
        ap (λ c. values c.order) same ∙ kept,
        ground (arith, added),
      )

  pub accumulate_metadata-pass :
      (rows : List SeriesMetadata) (i : Flusher S)
      → IsCache n i.seen
      → IsCache n (accumulate_metadata rows i).seen
        × (values (accumulate_metadata rows i).seen.order ≡ (pass n (values i.seen.order) rows).1)
        × ((accumulate_metadata rows i).pending_meta
            ≡ i.pending_meta ++ (pass n (values i.seen.order) rows).0)
  unfolding accumulate_metadata pass
  accumulate_metadata-pass [] i h = (h, refl, sym (append-nil i.pending_meta))
  accumulate_metadata-pass (s ∷ rows) i h =
      let (valid, kept, queued) = accumulate_series-touch s i h in
      let (valid', kept', queued') = accumulate_metadata-pass rows (accumulate_series s i) valid in
      (
        valid',
        kept' ∙ ap (λ vs. (pass n vs rows).1) kept,
        queued'
            ∙ ap₂ (λ ms vs. ms ++ (pass n vs rows).0) queued kept
            ∙ queue_split i.pending_meta (contains (values i.seen.order) s.fingerprint) s
                (pass n (touch n s.fingerprint (values i.seen.order)) rows).0,
      )

  -- With a well-formed cache of capacity `n`, `accumulate` queues, after the pending rows, exactly
  -- those rows of the item that an LRU set of `n` fingerprints lets pass, in order; the cache stays
  -- well formed and ends with the fingerprints of that set.
  pub accumulate-pass :
      (item : IngestItem) (i : Flusher S)
      → IsCache n i.seen
      → IsCache n (accumulate item i).seen
        × (values (accumulate item i).seen.order ≡ (pass n (values i.seen.order) item.metadata).1)
        × ((accumulate item i).pending_meta
            ≡ i.pending_meta ++ (pass n (values i.seen.order) item.metadata).0)
  unfolding accumulate
  accumulate-pass item i h =
      accumulate_metadata-pass item.metadata
        (record i { pending_points = i.pending_points ++ item.points }) h

pub contains-without :
    (v g : ℕ) (vs : List ℕ) → (v == g || contains (without v vs) g) ≡ (v == g || contains vs g)
unfolding contains without
contains-without v g [] = refl
contains-without v g (w ∷ vs) = ground (arith, contains-without v g vs)

contains-touch_held :
    (n v g : ℕ) (vs : List ℕ)
    → contains vs v ≡ true
    → contains vs g ≡ true
    → contains (touch n v vs) g ≡ true
unfolding contains
contains-touch_held n v g vs hv hg = ground (arith, contains-without v g vs)

-- The cache holds the series of every row.
abbrev pub AreHeld : List ℕ → List SeriesMetadata → Type 0
AreHeld vs = All (λ s. contains vs s.fingerprint ≡ true)

AreHeld-touch :
    (n v : ℕ) (vs : List ℕ) (rows : List SeriesMetadata)
    → contains vs v ≡ true
    → AreHeld vs rows
    → AreHeld (touch n v vs) rows
AreHeld-touch n v vs [] hv h = tt
AreHeld-touch n v vs (s ∷ rows) hv h =
    (contains-touch_held n v s.fingerprint vs hv h.0, AreHeld-touch n v vs rows hv h.1)

pub pass_held :
    (n : ℕ) (vs : List ℕ) (rows : List SeriesMetadata) → AreHeld vs rows → (pass n vs rows).0 ≡ []
unfolding pass
pass_held n vs [] h = refl
pass_held n vs (s ∷ rows) h =
    let later =
      pass_held n (touch n s.fingerprint vs) rows (AreHeld-touch n s.fingerprint vs rows h.0 h.1) in
    ground (arith, h.0, later)
