-- ===== src/Dict/Canonical.antt =====
-- The entries of a map in the order of its keys: one list for one map, whatever the order of its
-- entries, and one map for one list.
use take_home_assignments.Prelude.{
  ◌≡◌, refl, sym, ap, ◌∙◌, inl, inr, none, some, List, [], ◌∷◌, map, arith, Bool-cases,
  Option-cases,
}
use take_home_assignments.Text.{Str, str_eq, sort_strings}
use take_home_assignments.Text.Order.{str_eq_iff}
use take_home_assignments.Text.Sort.{sort_strings-perm, sort_strings-eq_of_perm}
use take_home_assignments.Dict.{Dict, lookup, get, keys}
use take_home_assignments.Dict.Laws.{
  OptionStr-set, IsDistinct, Nodup-keys, mem_of_lookup, not-mem_of_lookup, get_of_lookup,
}
use mathlib.Core.Logic.Or
use mathlib.Core.List.{
  Mem, Perm, not-mem-nil, eq-or-mem_of_mem-cons, mem-cons_self, mem-cons_of_mem,
  perm_ext_iff_of_Nodup,
}
use mathlib.Core.List.Perm

-- Two maps hold the same entries.
abbrev pub SameEntries : Dict → Dict → Type 0
SameEntries m n = (k : Str) → lookup k m ≡ lookup k n

abbrev pub entries_at : Dict → List Str → Dict
entries_at m = map (λ k. (k, get k m))

abbrev pub canonical : Dict → Dict
canonical m = entries_at m (sort_strings (keys m))

mem_of_SameEntries : (m n : Dict) → SameEntries m n → (k : Str) → Mem k (keys m) → Mem k (keys n)
mem_of_SameEntries m n h k mem = elim (Option-cases (lookup k n)) [
  | inl e ↦ absurd (not-mem_of_lookup k m (h k ∙ e) mem)
  | inr (v, e) ↦ mem_of_lookup k v n e
]

keys-perm : (m n : Dict) → IsDistinct m → IsDistinct n → SameEntries m n → Perm (keys m) (keys n)
keys-perm m n dm dn h =
    (perm_ext_iff_of_Nodup (Nodup-keys m dm) (Nodup-keys n dn)).1
      (λ k. (mem_of_SameEntries m n h k, mem_of_SameEntries n m (λ j. sym (h j)) k))

get-eq : (m n : Dict) → SameEntries m n → (k : Str) → get k m ≡ get k n
unfolding get
get-eq m n h k = rw (h k, get)

entries_at-eq : (m n : Dict) → SameEntries m n → (ks : List Str) → entries_at m ks ≡ entries_at n ks
entries_at-eq m n h [] = refl
entries_at-eq m n h (k ∷ ks) = rw (get-eq m n h k, entries_at-eq m n h ks)

pub canonical-eq :
    (m n : Dict) → IsDistinct m → IsDistinct n → SameEntries m n → canonical m ≡ canonical n
canonical-eq m n dm dn h =
    entries_at-eq m n h (sort_strings (keys m))
    ∙ ap (entries_at n) (sort_strings-eq_of_perm (keys m) (keys n) (keys-perm m n dm dn h))

lookup-entries_at :
    (m : Dict) (ks : List Str) (k : Str) → Mem k ks → lookup k (entries_at m ks) ≡ some (get k m)
unfolding lookup
lookup-entries_at m [] k mem = absurd (not-mem-nil mem)
lookup-entries_at m (j ∷ ks) k mem = elim (Bool-cases (str_eq j k)) [
  | inl e ↦ rw (e, (str_eq_iff j k).0 e)
  | inr e ↦ rw e (
      Or.elim (OptionStr-set _ _) (eq-or-mem_of_mem-cons mem)
        (λ here. absurd (ground (arith, str_eq_iff j k))) (lookup-entries_at m ks k))
]

lookup-entries_at_absent :
    (m : Dict) (ks : List Str) (k : Str) → ¬ Mem k ks → lookup k (entries_at m ks) ≡ none
unfolding lookup
lookup-entries_at_absent m [] k out = refl
lookup-entries_at_absent m (j ∷ ks) k out = elim (Bool-cases (str_eq j k)) [
  | inl e ↦ absurd (out (rw ((str_eq_iff j k).0 e) mem-cons_self))
  | inr e ↦ rw e (lookup-entries_at_absent m ks k (λ mem. out (mem-cons_of_mem j mem)))
]

-- The canonical list has the entries of the map.
lookup-canonical : (m : Dict) (k : Str) → lookup k (canonical m) ≡ lookup k m
lookup-canonical m k =
    let in_keys = Perm.mem_iff {a = k} (sort_strings-perm (keys m)) in
    elim (Option-cases (lookup k m)) [
      | inl e ↦
          lookup-entries_at_absent m _ k (λ mem. not-mem_of_lookup k m e (in_keys.0 mem)) ∙ sym e
      | inr (v, e) ↦
          lookup-entries_at m _ k (in_keys.1 (mem_of_lookup k v m e))
          ∙ ap some (get_of_lookup k v m e)
          ∙ sym e
    ]

pub canonical_inj : (m n : Dict) → canonical m ≡ canonical n → SameEntries m n
canonical_inj m n h k = sym (lookup-canonical m k) ∙ ap (lookup k) h ∙ lookup-canonical n k
