-- ===== src/Ingester/Once.antt =====
-- A cache with room for every series that comes in: each is described once.
use take_home_assignments.Prelude.{
  ◌≡◌, refl, sym, ap, ◌∙◌, ℕ, ◌+◌, ◌≤◌, ◌<◌, true, false, List, [], ◌∷◌, ◌||◌, ◌==◌, ==_iff, arith,
  inl, inr, length, contains, Bool-cases,
}
use mathlib.Core.Path.{subst}
use take_home_assignments.Series.{SeriesMetadata}
use take_home_assignments.Cache.Lists.{without}
use take_home_assignments.Cache.Lru.{touch, take_of_length-le}
use take_home_assignments.Mapper.Points.{first_of_each}
use take_home_assignments.Ingester.Metadata.{pass, contains-without}

length-without : (v : ℕ) (vs : List ℕ) → contains vs v ≡ true → length (without v vs) < length vs
unfolding without contains
length-without v [] h = cc
length-without v (w ∷ vs) h = ground (arith, length-without v vs)

-- The same numbers, whatever their order.
abbrev SameMembers : List ℕ → List ℕ → Type 0
SameMembers vs ws = (f : ℕ) → contains vs f ≡ contains ws f

SameMembers-front :
    (v : ℕ) (vs ws : List ℕ)
    → contains vs v ≡ true
    → SameMembers vs ws
    → SameMembers (v ∷ without v vs) ws
unfolding contains
SameMembers-front v vs ws held same f =
    contains-without v f vs ∙ ground (arith, same f, same v, ==_iff v f)

touch-held : (n v : ℕ) (vs : List ℕ) → contains vs v ≡ true → touch n v vs ≡ v ∷ without v vs
touch-held n v vs h = rw h refl

touch-fresh :
    (n v : ℕ) (vs : List ℕ) → contains vs v ≡ false → length vs < n → touch n v vs ≡ v ∷ vs
touch-fresh n v vs h room = rw h (take_of_length-le n (v ∷ vs) room)

-- With room for the rows that are new, the LRU set lets pass the first row of each fingerprint.
pass-first_of_each :
    (n : ℕ) (vs seen : List ℕ) (rows : List SeriesMetadata)
    → SameMembers vs seen
    → length vs + length (first_of_each seen rows) ≤ n
    → (pass n vs rows).0 ≡ first_of_each seen rows
unfolding pass first_of_each contains
pass-first_of_each n vs seen [] same room = refl
pass-first_of_each n vs seen (s ∷ rows) same room =
    let fp = s.fingerprint in
    elim (Bool-cases (contains seen fp)) [
      | inl old ↦
          let held = same fp ∙ old in
          let kept = touch-held n fp vs held in
          let rest =
            pass-first_of_each n (touch n fp vs) seen rows
              (subst (λ ws. SameMembers ws seen) (sym kept)
                (SameMembers-front fp vs seen held same))
              (subst (λ ws. length ws + length (first_of_each seen rows) ≤ n) (sym kept)
                (ground (arith, length-without fp vs held))) in
          ground (arith, held, rest)
      | inr new ↦
          let missing = same fp ∙ new in
          let kept = touch-fresh n fp vs missing (ground (arith, room)) in
          let rest =
            pass-first_of_each n (touch n fp vs) (fp ∷ seen) rows
              (subst (λ ws. SameMembers ws (fp ∷ seen)) (sym kept)
                (λ f. ap (◌||◌ (fp == f)) (same f)))
              (subst (λ ws. length ws + length (first_of_each (fp ∷ seen) rows) ≤ n) (sym kept)
                (ground arith)) in
          ground (arith, missing, rest)
    ]

-- If the cache has room for the distinct fingerprints of the rows, an LRU set that starts empty lets
-- pass exactly the first row of each.
pub pass_once :
    (n : ℕ) (rows : List SeriesMetadata)
    → length (first_of_each [] rows) ≤ n
    → (pass n [] rows).0 ≡ first_of_each [] rows
pass_once n rows room = pass-first_of_each n [] [] rows (λ f. refl) (omega arith)
