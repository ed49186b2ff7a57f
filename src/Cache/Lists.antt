-- ===== src/Cache/Lists.antt =====
-- The map and the list of the cache, each by itself.
use take_home_assignments.Prelude.{
  ◌≡◌, refl, ℕ, suc, ◌+◌, ◌<◌, true, false, Option, none, some, List, [], ◌∷◌, map, arith, ◌==◌,
  inl, inr, length, take, zero, All, contains, Bool-cases, if◌then◌else◌,
}
use mathlib.Core.Path.{subst}
use take_home_assignments.Cache.{Element, find_item, delete_item, remove, find_element, back}

-- The address of the element with a value.
unfoldable pub address_of : ℕ → List Element → Option ℕ
address_of v [] = none
address_of v (e ∷ es) = if e.value == v then some e.address else address_of v es

abbrev pub values : List Element → List ℕ
values = map (λ e. e.value)

-- No address and no value occurs twice.
abbrev pub IsLinked : List Element → Type 0
IsLinked [] = Unit {0}
IsLinked (e ∷ es) =
    (find_element e.address es ≡ none) × (address_of e.value es ≡ none) × IsLinked es

pub find_item-delete_item :
    (f g : ℕ) (items : List (ℕ × ℕ))
    → find_item g (delete_item f items) ≡ (if f == g then none else find_item g items)
unfolding find_item delete_item
find_item-delete_item f g [] = ground arith
find_item-delete_item f g ((h, a) ∷ items) = ground (arith, find_item-delete_item f g items)

-- the list without a value
unfoldable pub without : ℕ → List ℕ → List ℕ
without v [] = []
without v (w ∷ ws) = if w == v then ws else w ∷ without v ws

pub find_element-none :
    (a b : ℕ) (es : List Element) → find_element b es ≡ none → find_element b (remove a es) ≡ none
unfolding find_element remove
find_element-none a b [] h = refl
find_element-none a b (e ∷ es) h = ground (arith, find_element-none a b es)

pub address_of-none :
    (a v : ℕ) (es : List Element) → address_of v es ≡ none → address_of v (remove a es) ≡ none
unfolding address_of remove
address_of-none a v [] h = refl
address_of-none a v (e ∷ es) h = ground (arith, address_of-none a v es)

pub remove-IsLinked : (a : ℕ) (es : List Element) → IsLinked es → IsLinked (remove a es)
unfolding remove
remove-IsLinked a [] h = tt
remove-IsLinked a (e ∷ es) h = ground (
  arith,
  remove-IsLinked a es h.2,
  find_element-none a e.address es,
  address_of-none a e.value es,
)

-- In a linked list the address of a value leads to the element with that value.
pub find_element-address_of :
    (v a : ℕ) (es : List Element)
    → IsLinked es
    → address_of v es ≡ some a
    → find_element a es ≡ some (record { address = a; value = v })
unfolding address_of find_element
find_element-address_of v a [] h e = cc
find_element-address_of v a (f ∷ es) h e = ground (arith, find_element-address_of v a es h.2)

pub find_element_gone :
    (a : ℕ) (es : List Element) → IsLinked es → find_element a (remove a es) ≡ none
unfolding find_element remove
find_element_gone a [] h = refl
find_element_gone a (e ∷ es) h = ground (arith, find_element_gone a es h.2)

-- Removing the element of a value drops the value and no other.
pub address_of-remove :
    (v w a : ℕ) (es : List Element)
    → IsLinked es
    → address_of v es ≡ some a
    → address_of w (remove a es) ≡ (if v == w then none else address_of w es)
unfolding address_of remove
address_of-remove v w a [] h e = cc
address_of-remove v w a (f ∷ es) h e =
    ground (arith, find_element-address_of v a es h.2, address_of-remove v w a es h.2)

pub values-remove :
    (v a : ℕ) (es : List Element)
    → IsLinked es
    → address_of v es ≡ some a
    → values (remove a es) ≡ without v (values es)
unfolding address_of remove without
values-remove v a [] h e = cc
values-remove v a (f ∷ es) h e =
    ground (arith, find_element-address_of v a es h.2, values-remove v a es h.2)

-- The last element of a linked list is found by its value.
pub address_of-back :
    (o : Element) (es : List Element)
    → IsLinked es
    → back es ≡ some o
    → address_of o.value es ≡ some o.address
unfolding address_of back
address_of-back o [] h e = cc
address_of-back o (f ∷ []) h e = ground arith
address_of-back o (f ∷ g ∷ es) h e = ground (arith, address_of-back o (g ∷ es) h.2 e)

pub back_total :
    (m : ℕ) (es : List Element) → length es ≡ suc m → (o : Element) × (back es ≡ some o)
unfolding back
back_total m [] h = absurd (omega arith)
back_total m (e ∷ []) h = (e, refl)
back_total (suc m) (e ∷ f ∷ es) h = back_total m (f ∷ es) (omega arith)
back_total zero (e ∷ f ∷ es) h = absurd (omega arith)

-- Removing the last value keeps all the others in place.
pub without-back :
    (o : Element) (n : ℕ) (es : List Element)
    → IsLinked es
    → length es ≡ suc n
    → back es ≡ some o
    → without o.value (values es) ≡ take n (values es)
unfolding without back
without-back o n [] h len e = cc
without-back o zero (f ∷ []) h len e = ground arith
without-back o (suc n) (f ∷ []) h len e = absurd (omega arith)
without-back o zero (f ∷ g ∷ es) h len e = absurd (omega arith)
without-back o (suc n) (f ∷ g ∷ es) h len e =
    ground (arith, without-back o n (g ∷ es) h.2 (omega arith) e, address_of-back o (g ∷ es) h.2 e)

pub contains-values :
    (v : ℕ) (es : List Element)
    → contains (values es) v ≡ elim (address_of v es) [ some a ↦ true | none ↦ false ]
unfolding contains address_of
contains-values v [] = refl
contains-values v (e ∷ es) = ground (arith, contains-values v es)

pub find_element_fresh :
    (n : ℕ) (es : List Element) → All (λ e. e.address < n) es → find_element n es ≡ none
unfolding find_element
find_element_fresh n [] h = refl
find_element_fresh n (e ∷ es) h = ground (arith, find_element_fresh n es h.1)

pub All-remove : (P : Element → Type 0) (a : ℕ) (es : List Element) → All P es → All P (remove a es)
unfolding remove
All-remove P a [] h = tt
All-remove P a (e ∷ es) h = elim (Bool-cases (e.address == a)) [
  | inl p ↦ rw p h.1
  | inr p ↦ rw p (h.0, All-remove P a es h.1)
]

pub All-find_element :
    (P : Element → Type 0) (a : ℕ) (o : Element) (es : List Element)
    → All P es
    → find_element a es ≡ some o
    → P o
unfolding find_element
All-find_element P a o [] h e = absurd (cc)
All-find_element P a o (f ∷ es) h e = elim (Bool-cases (f.address == a)) [
  | inl p ↦ subst P (ground arith) h.0
  | inr p ↦ All-find_element P a o es h.1 (ground arith)
]

pub length-remove :
    (v a : ℕ) (es : List Element) → address_of v es ≡ some a → length (remove a es) + 1 ≡ length es
unfolding address_of remove
length-remove v a [] e = cc
length-remove v a (f ∷ es) e = ground (arith, length-remove v a es)
