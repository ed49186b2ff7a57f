-- ===== src/Cache/Lru.antt =====
-- The cache is the list of the fingerprints seen last, the latest first.
use take_home_assignments.Prelude.{
  ◌≡◌, refl, sym, ap, ◌∙◌, ℕ, zero, suc, ◌≤◌, ◌<◌, true, false, none, some, List, [], ◌∷◌, arith,
  inl, inr, ◌⊎◌, length, length-map, take, contains, Option-cases, if◌then◌else◌,
}
use mathlib.Core.Bool.{not}
use native.Mathlib.Decide.{dec_lt}
use take_home_assignments.Cache.{FingerprintCache, find_item, push_front, evict, add}
use take_home_assignments.Cache.Lists.{
  values, without, values-remove, address_of-back, back_total, without-back, contains-values,
  length-remove,
}
use take_home_assignments.Cache.Invariant.{
  IsCoherent, IsCache, hit, move_to_front-remove, hit-IsCoherent, push_front-IsCoherent,
  evict-IsCoherent,
}

-- A use of `fp` in a set of at most `n` fingerprints: it comes first, and the last one goes if
-- there is no room.
abbrev pub touch : ℕ → ℕ → List ℕ → List ℕ
touch n fp vs = if contains vs fp then fp ∷ without fp vs else take n (fp ∷ vs)

evict_last :
    (d : FingerprintCache) (m : ℕ)
    → IsCoherent d
    → length d.order ≡ suc m
    → (values (evict d).order ≡ take m (values d.order))
      × (length (evict d).order ≡ m)
      × ((evict d).capacity ≡ d.capacity)
unfolding evict
evict_last d m h len =
    let (o, last) = back_total m d.order len in
    let found = address_of-back o d.order h.linked last in
    rw (last, evict)
      (
        values-remove o.value o.address d.order h.linked found
            ∙ without-back o m d.order h.linked len last,
        omega (arith, length-remove o.value o.address d.order found, len),
        refl,
      )

pub take_of_length-le : (n : ℕ) (vs : List ℕ) → length vs ≤ n → take n vs ≡ vs
take_of_length-le zero [] h = refl
take_of_length-le zero (v ∷ vs) h = absurd (omega arith)
take_of_length-le (suc n) [] h = refl
take_of_length-le (suc n) (v ∷ vs) h = ap (◌∷◌ v) (take_of_length-le n vs (omega arith))

module _ (n : ℕ) (c : FingerprintCache) (fp : ℕ) (h : IsCache n c) where
  found_contains : (a : ℕ) → find_item fp c.items ≡ some a → contains (values c.order) fp ≡ true
  found_contains a e =
      let found = sym (h.coherent.agree fp) ∙ e in contains-values fp c.order ∙ rw found

  missing_contains : find_item fp c.items ≡ none → contains (values c.order) fp ≡ false
  missing_contains e =
      let missing = sym (h.coherent.agree fp) ∙ e in contains-values fp c.order ∙ rw missing

  add_cases :
      ((a : ℕ) × (find_item fp c.items ≡ some a) × (add c fp ≡ (hit c a, false)))
      ⊎ ((find_item fp c.items ≡ none)
          × (length c.order < n)
          × (add c fp ≡ (push_front c fp, true)))
      ⊎ ((find_item fp c.items ≡ none)
          × (n ≡ length c.order)
          × (add c fp ≡ (evict (push_front c fp), true)))
  unfolding add hit push_front
  add_cases = elim (Option-cases (find_item fp c.items)) [
    | inr (a, e) ↦ inl (a, e, rw (e, add))
    | inl e ↦ elim (dec_lt (length c.order) n) [
      | yes room ↦ inr (inl (e, room, ground (arith, h.capacity)))
      | no full ↦ inr (inr (e, omega (arith, h.bounded), ground (arith, h.capacity, h.bounded)))
    ]
  ]

  hit-touch :
      (a : ℕ)
      → find_item fp c.items ≡ some a
      → IsCache n (hit c a) × (values (hit c a).order ≡ touch n fp (values c.order))
  unfolding hit
  hit-touch a e =
      let found = sym (h.coherent.agree fp) ∙ e in
      let front = move_to_front-remove c fp h.coherent a e in
      rw (found_contains a e) (
        record {
          coherent = hit-IsCoherent c fp h.coherent a e;
          capacity = h.capacity;
          bounded = omega (arith, ap length front, length-remove fp a c.order found, h.bounded);
        },
        rw front (ap (◌∷◌ fp) (values-remove fp a c.order h.coherent.linked found)),
      )

  push_front-touch :
      find_item fp c.items ≡ none
      → length c.order < n
      → IsCache n (push_front c fp) × (values (push_front c fp).order ≡ touch n fp (values c.order))
  unfolding push_front
  push_front-touch e room = rw (missing_contains e) (
    record {
      coherent = push_front-IsCoherent c fp h.coherent e;
      capacity = h.capacity;
      bounded = room;
    },
    sym (
        take_of_length-le n (fp ∷ values c.order)
          (omega (arith, length-map (λ e. e.value) c.order))),
  )

  evict-touch :
      find_item fp c.items ≡ none
      → n ≡ length c.order
      → IsCache n (evict (push_front c fp))
        × (values (evict (push_front c fp)).order ≡ touch n fp (values c.order))
  unfolding push_front
  evict-touch e full =
      let coherent = push_front-IsCoherent c fp h.coherent e in
      let (kept, len, cap) = evict_last (push_front c fp) n coherent (omega arith) in
      rw (missing_contains e) (
        record {
          coherent = evict-IsCoherent (push_front c fp) fp coherent;
          capacity = cap ∙ h.capacity;
          bounded = omega (arith, len);
        },
        kept,
      )

  -- `add` keeps a cache of capacity `n` well formed, keeps the `n` fingerprints that were used
  -- last, latest first, and reports `true` exactly if the fingerprint was not there.
  pub add-touch :
      IsCache n (add c fp).0
      × (values (add c fp).0.order ≡ touch n fp (values c.order))
      × ((add c fp).1 ≡ not (contains (values c.order) fp))
  add-touch = elim add_cases [
    | inl (a, e, r) ↦
        let (valid, kept) = hit-touch a e in rw r (valid, kept, rw (found_contains a e) refl)
    | inr (inl (e, room, r)) ↦
        let (valid, kept) = push_front-touch e room in
        rw r (valid, kept, rw (missing_contains e) refl)
    | inr (inr (e, full, r)) ↦
        let (valid, kept) = evict-touch e full in rw r (valid, kept, rw (missing_contains e) refl)
  ]
