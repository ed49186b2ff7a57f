-- ===== src/Cache/Invariant.antt =====
-- The map and the list of the cache stay in step: `add` keeps them so, whatever the fingerprint.
use take_home_assignments.Prelude.{
  ◌≡◌, refl, sym, ◌∙◌, ℕ, ◌+◌, ◌≤◌, ◌<◌, none, some, ◌∷◌, arith, inl, inr, length, All, All-mono,
  Option-cases,
}
use take_home_assignments.Prelude.Int.{pos}
use take_home_assignments.Cache.{
  FingerprintCache, new_fingerprint_cache, find_item, remove, move_to_front, back, push_front,
  evict,
}
use take_home_assignments.Cache.Lists.{
  address_of, IsLinked, find_item-delete_item, find_element_gone, remove-IsLinked,
  find_element-address_of, address_of-remove, address_of-back, find_element_fresh, All-remove,
  All-find_element,
}

-- The list is linked, the map leads from each fingerprint to its element, and new addresses are
-- new. The number of elements is bounded apart, since an insertion passes the bound for a moment.
pub record IsCoherent (c : FingerprintCache) : Type 0 where
  pub linked : IsLinked c.order
  pub agree : (fp : ℕ) → find_item fp c.items ≡ address_of fp c.order
  pub fresh : All (λ e. e.address < c.next) c.order

-- A cache of capacity `n`.
pub record IsCache (n : ℕ) (c : FingerprintCache) : Type 0 where
  pub coherent : IsCoherent c
  pub capacity : c.capacity ≡ pos n
  pub bounded : length c.order ≤ n

pub new-IsCache : (n : ℕ) → IsCache n (new_fingerprint_cache (pos n))
unfolding new_fingerprint_cache find_item address_of
new-IsCache n = record {
  coherent = record { linked = tt; agree = λ fp. refl; fresh = tt };
  capacity = refl;
  bounded = omega arith;
}

-- what `add` makes of a fingerprint that is there
unfoldable pub hit : FingerprintCache → ℕ → FingerprintCache
hit c element = record c { order = move_to_front element c.order }

module _ (c : FingerprintCache) (fp : ℕ) (h : IsCoherent c) where
  pub move_to_front-remove :
      (a : ℕ)
      → find_item fp c.items ≡ some a
      → move_to_front a c.order ≡ record { address = a; value = fp } ∷ remove a c.order
  unfolding move_to_front
  move_to_front-remove a e =
      ground (arith, find_element-address_of fp a c.order h.linked, h.agree fp)

  pub hit-IsCoherent : (a : ℕ) → find_item fp c.items ≡ some a → IsCoherent (hit c a)
  unfolding hit address_of
  hit-IsCoherent a e =
      let found = sym (h.agree fp) ∙ e in
      let front = move_to_front-remove a e in
      let dropped = λ (g : ℕ). address_of-remove fp g a c.order h.linked found in
      let old =
        All-find_element (λ x. x.address < c.next) a _ c.order h.fresh
          (find_element-address_of fp a c.order h.linked found) in
      record {
        linked = rw front (
          find_element_gone a c.order h.linked,
          ground (arith, dropped fp),
          remove-IsLinked a c.order h.linked,
        );
        agree = λ g. ground (arith, front, dropped g, h.agree g, h.agree fp);
        fresh = rw front (old, All-remove (λ x. x.address < c.next) a c.order h.fresh);
      }

  pub push_front-IsCoherent : find_item fp c.items ≡ none → IsCoherent (push_front c fp)
  unfolding push_front find_item address_of
  push_front-IsCoherent e = record {
    linked = (find_element_fresh c.next c.order h.fresh, sym (h.agree fp) ∙ e, h.linked);
    agree = λ g. ground (arith, find_item-delete_item fp g c.items, h.agree g);
    fresh = (
      omega arith,
      All-mono (λ x. x.address < c.next) (λ x. x.address < c.next + 1) c.order (λ x p. omega arith)
          h.fresh,
    );
  }

  pub evict-IsCoherent : IsCoherent (evict c)
  unfolding evict
  evict-IsCoherent = elim (Option-cases (back c.order)) [
    | inl e ↦ rw (e, evict) h
    | inr (o, e) ↦
        let found = address_of-back o c.order h.linked e in
        rw (e, evict)
          (record {
            linked = remove-IsLinked o.address c.order h.linked;
            agree = λ g. ground (
              arith,
              find_item-delete_item o.value g c.items,
              address_of-remove o.value g o.address c.order h.linked found,
              h.agree g,
            );
            fresh = All-remove (λ x. x.address < c.next) o.address c.order h.fresh;
          })
  ]
