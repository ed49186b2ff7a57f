-- ===== src/Text/Order.antt =====
-- The comparison of strings is a decidable total order, and the equality test decides equality.
use take_home_assignments.Prelude.{
  ◌≡◌, refl, ◌↔◌, ◌≢◌, inl, inr, true, false, [], ◌∷◌, arith, Bool-cases,
}
use take_home_assignments.Text.{Str, str_eq, str_le}

str_eq→eq : (s t : Str) → str_eq s t ≡ true → s ≡ t
unfolding str_eq
str_eq→eq [] [] h = refl
str_eq→eq [] (y ∷ ys) h = cc
str_eq→eq (x ∷ xs) [] h = cc
str_eq→eq (x ∷ xs) (y ∷ ys) h = ground (arith, str_eq→eq xs ys)

pub str_eq_refl : (s : Str) → str_eq s s ≡ true
unfolding str_eq
str_eq_refl [] = refl
str_eq_refl (x ∷ xs) = ground (arith, str_eq_refl xs)

eq→str_eq : (s t : Str) → s ≡ t → str_eq s t ≡ true
eq→str_eq s t h = rw h (str_eq_refl t)

pub str_eq_iff : (s t : Str) → (str_eq s t ≡ true) ↔ (s ≡ t)
str_eq_iff s t = (str_eq→eq s t, eq→str_eq s t)

pub str_eq_ne : (s t : Str) → s ≢ t → str_eq s t ≡ false
str_eq_ne s t h = elim (Bool-cases (str_eq s t)) [
  | inl e ↦ absurd (h (str_eq→eq s t e))
  | inr e ↦ e
]

pub str_le_refl : (s : Str) → str_le s s ≡ true
unfolding str_le
str_le_refl [] = refl
str_le_refl (x ∷ xs) = ground (arith, str_le_refl xs)

pub str_le_total : (s t : Str) → str_le s t ≡ false → str_le t s ≡ true
unfolding str_le
str_le_total [] t h = cc
str_le_total (x ∷ xs) [] h = refl
str_le_total (x ∷ xs) (y ∷ ys) h = ground (arith, str_le_total xs ys)

pub str_le_trans : (s t u : Str) → str_le s t ≡ true → str_le t u ≡ true → str_le s u ≡ true
unfolding str_le
str_le_trans [] t u h k = refl
str_le_trans (x ∷ xs) [] u h k = cc
str_le_trans (x ∷ xs) (y ∷ ys) [] h k = cc
str_le_trans (x ∷ xs) (y ∷ ys) (z ∷ zs) h k = ground (arith, str_le_trans xs ys zs)

pub str_le_antisymm : (s t : Str) → str_le s t ≡ true → str_le t s ≡ true → s ≡ t
unfolding str_le
str_le_antisymm [] [] h k = refl
str_le_antisymm [] (y ∷ ys) h k = cc
str_le_antisymm (x ∷ xs) [] h k = cc
str_le_antisymm (x ∷ xs) (y ∷ ys) h k = ground (arith, str_le_antisymm xs ys)
