-- ===== src/Text/Sort.antt =====
-- `sort.Strings` returns the one ascending arrangement of its input, whatever order it comes in.
use take_home_assignments.Prelude.{
  ◌≡◌, refl, suc, length, All, true, inl, inr, List, [], ◌∷◌, arith, Bool-cases,
}
use take_home_assignments.Text.{Str, str_le, insert_sorted, sort_strings}
use take_home_assignments.Text.Order.{str_le_total, str_le_trans, str_le_antisymm, str_le_refl}
use mathlib.Core.Path.{ap₂}
use mathlib.Core.List.{Mem, Perm, Pairwise, Pairwise-singleton, mem-cons_self, forall_mem-cons}
use mathlib.Core.List.Perm
use mathlib.Core.List.Pairwise
use mathlib.Core.Bool.{Bool-set}

abbrev pub Le : Str → Str → Type 0
Le s t = str_le s t ≡ true

abbrev pub IsSorted : List Str → Type 0
IsSorted = Pairwise Le

abbrev IsLeast : Str → List Str → Type 0
IsLeast s ts = (t : Str) → Mem t ts → Le s t

insert_sorted-perm : (s : Str) (ts : List Str) → Perm (insert_sorted s ts) (s ∷ ts)
unfolding insert_sorted
insert_sorted-perm s [] = Perm.refl (s ∷ [])
insert_sorted-perm s (t ∷ ts) = elim (Bool-cases (str_le s t)) [
  | inl e ↦ rw e (Perm.refl (s ∷ t ∷ ts))
  | inr e ↦ rw e (Perm.trans (Perm.cons t (insert_sorted-perm s ts)) (Perm.swap s t ts))
]

pub sort_strings-perm : (ss : List Str) → Perm (sort_strings ss) ss
unfolding sort_strings
sort_strings-perm [] = Perm.refl []
sort_strings-perm (s ∷ ss) =
    Perm.trans (insert_sorted-perm s (sort_strings ss)) (Perm.cons s (sort_strings-perm ss))

IsLeast-cons : (s : Str) {t : Str} {ts : List Str} → Le s t → IsLeast s ts → IsLeast s (t ∷ ts)
IsLeast-cons s p h = (forall_mem-cons (λ u. Bool-set _ _)).1 (p, h)

IsLeast-perm : (s : Str) {ts us : List Str} → Perm ts us → IsLeast s us → IsLeast s ts
IsLeast-perm s p h t m = h t ((Perm.mem_iff p).0 m)

IsLeast-trans : (s t : Str) {ts : List Str} → Le s t → IsLeast t ts → IsLeast s ts
IsLeast-trans s t p h u m = str_le_trans s t u p (h u m)

insert_sorted-IsSorted : (s : Str) {ts : List Str} → IsSorted ts → IsSorted (insert_sorted s ts)
unfolding insert_sorted
insert_sorted-IsSorted s Pairwise.nil = Pairwise-singleton _ s
insert_sorted-IsSorted s (Pairwise.cons {a = t} {l = ts} h k) = elim (Bool-cases (str_le s t)) [
  | inl e ↦ rw e (Pairwise.cons (IsLeast-cons s e (IsLeast-trans s t e h)) (Pairwise.cons h k))
  | inr e ↦ rw e (
      Pairwise.cons
        (IsLeast-perm t (insert_sorted-perm s _) (IsLeast-cons t (str_le_total s t e) h))
        (insert_sorted-IsSorted s k))
]

pub sort_strings-IsSorted : (ss : List Str) → IsSorted (sort_strings ss)
unfolding sort_strings
sort_strings-IsSorted [] = Pairwise.nil
sort_strings-IsSorted (s ∷ ss) = insert_sorted-IsSorted s (sort_strings-IsSorted ss)

heads_le : (s t : Str) {ss ts : List Str} → IsSorted (s ∷ ss) → Perm (t ∷ ts) (s ∷ ss) → Le s t
heads_le s t (Pairwise.cons h k) p =
    IsLeast-perm s p (IsLeast-cons s (str_le_refl s) h) t mem-cons_self

-- Two ascending arrangements of one collection are the same list.
pub IsSorted-unique : (ss ts : List Str) → IsSorted ss → IsSorted ts → Perm ss ts → ss ≡ ts
IsSorted-unique [] ts hs ht p = Perm.nil-eq p
IsSorted-unique (s ∷ ss) [] hs ht p = Perm.eq-nil p
IsSorted-unique (s ∷ ss) (t ∷ ts) hs ht p =
    let same = str_le_antisymm s t (heads_le s t hs (Perm.symm p)) (heads_le t s ht p) in
    let rest = Perm.cons_inv (Perm.trans p (Perm.symm (Perm.cons' same (Perm.refl ts)))) in
    ap₂ ◌∷◌ same (IsSorted-unique ss ts (Pairwise.of_cons hs) (Pairwise.of_cons ht) rest)

-- The order in which the strings come does not matter.
pub sort_strings-eq_of_perm : (ss ts : List Str) → Perm ss ts → sort_strings ss ≡ sort_strings ts
sort_strings-eq_of_perm ss ts p =
    IsSorted-unique (sort_strings ss) (sort_strings ts) (sort_strings-IsSorted ss)
      (sort_strings-IsSorted ts)
      (Perm.trans (sort_strings-perm ss) (Perm.trans p (Perm.symm (sort_strings-perm ts))))

length-insert_sorted : (s : Str) (ss : List Str) → length (insert_sorted s ss) ≡ suc (length ss)
unfolding insert_sorted
length-insert_sorted s [] = refl
length-insert_sorted s (t ∷ ss) = ground (arith, length-insert_sorted s ss)

pub length-sort_strings : (ss : List Str) → length (sort_strings ss) ≡ length ss
unfolding sort_strings
length-sort_strings [] = refl
length-sort_strings (s ∷ ss) =
    omega (arith, length-insert_sorted s (sort_strings ss), length-sort_strings ss)

module _ (P : Str → Type 0) where
  All-insert_sorted : (s : Str) (ss : List Str) → P s → All P ss → All P (insert_sorted s ss)
  unfolding insert_sorted
  All-insert_sorted s [] h hs = (h, tt)
  All-insert_sorted s (t ∷ ss) h hs = elim (Bool-cases (str_le s t)) [
    | inl e ↦ rw e (h, hs)
    | inr e ↦ rw e (hs.0, All-insert_sorted s ss h hs.1)
  ]

  pub All-sort_strings : (ss : List Str) → All P ss → All P (sort_strings ss)
  unfolding sort_strings
  All-sort_strings [] h = tt
  All-sort_strings (s ∷ ss) h = All-insert_sorted s _ h.0 (All-sort_strings ss h.1)
