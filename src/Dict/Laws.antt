-- ===== src/Dict/Laws.antt =====
-- Reading after writing, and the keys of a map.
use take_home_assignments.Prelude.{
  ◌≡◌, refl, inl, inr, Option, none, some, [], ◌∷◌, arith, Bool-cases, if◌then◌else◌,
}
use take_home_assignments.Text.{Str, str_eq}
use take_home_assignments.Text.Order.{str_eq_iff}
use take_home_assignments.Dict.{Dict, put, lookup, get, keys}
use mathlib.Core.HLevel.{⊥_prop}
use mathlib.Core.Logic.Or
use mathlib.Core.List.{
  Mem, Nodup, Nodup-cons, Nodup-nil, not-mem-nil, mem-cons_self, mem-cons_of_mem,
  eq-or-mem_of_mem-cons,
}
use native.Mathlib.Decide.{ℕ_discrete}

pub Str-discrete : Discrete Str
Str-discrete = hlevel ℕ_discrete

pub OptionStr-set : IsSet (Option Str)
OptionStr-set = hlevel

pub lookup-put :
    (k j v : Str) (m : Dict) → lookup j (put k v m) ≡ (if str_eq k j then some v else lookup j m)
unfolding put lookup
lookup-put k j v [] = refl
lookup-put k j v ((i, w) ∷ m) =
    ground (arith, str_eq_iff k j, str_eq_iff i k, str_eq_iff i j, lookup-put k j v m)

pub mem_of_lookup : (k v : Str) (m : Dict) → lookup k m ≡ some v → Mem k (keys m)
unfolding lookup
mem_of_lookup k v [] h = cc
mem_of_lookup k v ((j, w) ∷ m) h = elim (Bool-cases (str_eq j k)) [
  | inl e ↦ rw ((str_eq_iff j k).0 e) mem-cons_self
  | inr e ↦ mem-cons_of_mem j (mem_of_lookup k v m (ground arith))
]

pub not-mem_of_lookup : (k : Str) (m : Dict) → lookup k m ≡ none → ¬ Mem k (keys m)
unfolding lookup
not-mem_of_lookup k [] h = not-mem-nil
not-mem_of_lookup k ((j, w) ∷ m) h = λ mem.
    Or.elim ⊥_prop (eq-or-mem_of_mem-cons mem) (λ here. ground (arith, str_eq_iff j k))
      (not-mem_of_lookup k m (ground arith))

-- No key occurs twice, as in every Go map.
abbrev pub IsDistinct : Dict → Type 0
IsDistinct [] = Unit {0}
IsDistinct ((k, v) ∷ m) = (lookup k m ≡ none) × IsDistinct m

pub put-IsDistinct : (k v : Str) (m : Dict) → IsDistinct m → IsDistinct (put k v m)
unfolding put lookup
put-IsDistinct k v [] d = (refl, tt)
put-IsDistinct k v ((j, w) ∷ m) d =
    ground (arith, str_eq_iff j k, str_eq_iff k j, put-IsDistinct k v m d.1, lookup-put k j v m)

pub Nodup-keys : (m : Dict) → IsDistinct m → Nodup (keys m)
Nodup-keys [] d = Nodup-nil
Nodup-keys ((k, v) ∷ m) d = Nodup-cons.1 (not-mem_of_lookup k m d.0, Nodup-keys m d.1)

pub get_of_lookup : (k v : Str) (m : Dict) → lookup k m ≡ some v → get k m ≡ v
unfolding get
get_of_lookup k v m h = rw (h, get)
