-- ===== src/Cache.antt =====
-- `fingerprintCache` (ingester.go): a bounded LRU set of fingerprints, kept as a map from
-- fingerprints to the elements of a doubly linked list (container/list). An element is told from
-- the others by its address, so the list is a sequence of elements with an address and a value.
pub mod Lists
pub mod Invariant
pub mod Lru
use take_home_assignments.Prelude.{
  ℕ, suc, ◌+◌, Bool, true, false, Option, none, some, List, [], ◌∷◌, ◌==◌, length, if◌then◌else◌,
}
use take_home_assignments.Prelude.Int.{ℤ, pos, ltb_ℤ}

pub record Element : Type 0 where
  pub address : ℕ
  pub value : ℕ

-- `items` maps a fingerprint to the address of its element; `next` is the next free address.
pub record FingerprintCache : Type 0 where
  pub capacity : ℤ
  pub items : List (ℕ × ℕ)
  pub order : List Element
  pub next : ℕ

unfoldable pub new_fingerprint_cache : ℤ → FingerprintCache
new_fingerprint_cache capacity = record { capacity = capacity; items = []; order = []; next = 0 }

-- `element, ok := c.items[fingerprint]`
unfoldable pub find_item : ℕ → List (ℕ × ℕ) → Option ℕ
find_item fp [] = none
find_item fp ((f, a) ∷ items) = if f == fp then some a else find_item fp items

-- `delete(c.items, fingerprint)`
unfoldable pub delete_item : ℕ → List (ℕ × ℕ) → List (ℕ × ℕ)
delete_item fp [] = []
delete_item fp ((f, a) ∷ items) =
    if f == fp then delete_item fp items else (f, a) ∷ delete_item fp items

-- `c.order.Remove(element)`: the list without the element at an address
unfoldable pub remove : ℕ → List Element → List Element
remove a [] = []
remove a (e ∷ es) = if e.address == a then es else e ∷ remove a es

-- the element at an address, if the list holds it
unfoldable pub find_element : ℕ → List Element → Option Element
find_element a [] = none
find_element a (e ∷ es) = if e.address == a then some e else find_element a es

-- `c.order.MoveToFront(element)`, which does nothing to an element of no list
unfoldable pub move_to_front : ℕ → List Element → List Element
move_to_front a es = elim (find_element a es) [ none ↦ es | some e ↦ e ∷ remove a es ]

-- `c.order.Back()`
unfoldable pub back : List Element → Option Element
back [] = none
back (e ∷ []) = some e
back (e ∷ f ∷ es) = back (f ∷ es)

-- `c.items[fingerprint] = c.order.PushFront(fingerprint)`
unfoldable pub push_front : FingerprintCache → ℕ → FingerprintCache
push_front c fp = record c {
  items = (fp, c.next) ∷ delete_item fp c.items;
  order = record { address = c.next; value = fp } ∷ c.order;
  next = c.next + 1;
}

-- the body of `if c.order.Len() > c.capacity`
unfoldable pub evict : FingerprintCache → FingerprintCache
evict c = elim (back c.order) [
  | none ↦ c
  | some oldest ↦ record c {
    order = remove oldest.address c.order;
    items = delete_item oldest.value c.items;
  }
]

unfoldable pub add : FingerprintCache → ℕ → FingerprintCache × Bool
add c fp = elim (find_item fp c.items) [
  | some element ↦ (record c { order = move_to_front element c.order }, false)
  | none ↦
      let c = push_front c fp in
      (if ltb_ℤ c.capacity (pos (length c.order)) then evict c else c, true)
]
