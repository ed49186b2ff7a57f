-- ===== src/Text.antt =====
-- Go strings as the language has them: sequences of bytes, compared byte by byte; and
-- `sort.Strings`, which puts a slice of them in ascending order.
pub mod Order
pub mod Sort
use Prim.Native.Char.{code}
use Prim.Native.String.{String}
use take_home_assignments.Prelude.{
  ℕ, Bool, true, false, List, [], ◌∷◌, ◌&&◌, ltb, ◌==◌, if◌then◌else◌,
}

abbrev pub Str : Type 0
Str = List ℕ

-- The bytes of an ASCII literal.
abbrev pub bytes : String → Str
bytes String.[] = []
bytes (String.◌∷◌ c s) = code c ∷ bytes s

-- `a == b`
unfoldable pub str_eq : Str → Str → Bool
str_eq [] [] = true
str_eq [] (y ∷ ys) = false
str_eq (x ∷ xs) [] = false
str_eq (x ∷ xs) (y ∷ ys) = x == y && str_eq xs ys

-- `a <= b`: the first different byte decides, and a prefix comes first.
unfoldable pub str_le : Str → Str → Bool
str_le [] ys = true
str_le (x ∷ xs) [] = false
str_le (x ∷ xs) (y ∷ ys) =
    let rest = str_le xs ys in if ltb x y then true else if x == y then rest else false

-- `sort.Strings`
pub insert_sorted : Str → List Str → List Str
insert_sorted s [] = s ∷ []
insert_sorted s (t ∷ ts) = if str_le s t then s ∷ t ∷ ts else t ∷ insert_sorted s ts

unfoldable pub sort_strings : List Str → List Str
unfolding insert_sorted
sort_strings [] = []
sort_strings (s ∷ ss) = insert_sorted s (sort_strings ss)
