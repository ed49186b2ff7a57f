-- ===== src/Dict.antt =====
-- Go's `map[string]string` as an association list with distinct keys. The order of the entries
-- stands for the order in which `range` meets them, which the language leaves open.
pub mod Laws
pub mod Canonical
use take_home_assignments.Prelude.{ℕ, Option, none, some, List, [], ◌∷◌, map, if◌then◌else◌}
use take_home_assignments.Text.{Str, str_eq, sort_strings}

abbrev pub Dict : Type 0
Dict = List (Str × Str)

-- `m[k] = v`
unfoldable pub put : Str → Str → Dict → Dict
put k v [] = (k, v) ∷ []
put k v ((j, w) ∷ m) = if str_eq j k then (k, v) ∷ m else (j, w) ∷ put k v m

-- `v, ok := m[k]`
unfoldable pub lookup : Str → Dict → Option Str
lookup k [] = none
lookup k ((j, v) ∷ m) = if str_eq j k then some v else lookup k m

-- `m[k]`, which is "" for a key that is not there
unfoldable pub get : Str → Dict → Str
unfolding lookup
get k m = elim (lookup k m) [ none ↦ [] | some v ↦ v ]

abbrev pub keys : Dict → List Str
keys = map (λ e. e.0)
