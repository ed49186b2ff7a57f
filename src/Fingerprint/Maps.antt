-- ===== src/Fingerprint/Maps.antt =====
-- The encoding of a map: unambiguous, and the same for every order of the entries.
use take_home_assignments.Prelude.{
  ℕ, ◌^◌, ◌<◌, ◌≡◌, sym, ◌∙◌, inl, inr, Bool-cases, ap, List, [], ◌∷◌, ◌++◌, length, arith, All,
  length-map,
}
use take_home_assignments.Text.{Str, str_eq, sort_strings}
use take_home_assignments.Text.Sort.{length-sort_strings, All-sort_strings}
use take_home_assignments.Dict.{Dict, get, keys, lookup}
use take_home_assignments.Dict.Canonical.{
  SameEntries, canonical, entries_at, canonical-eq, canonical_inj,
}
use take_home_assignments.Dict.Laws.{IsDistinct}
use take_home_assignments.Fingerprint.{little_endian}
use take_home_assignments.Fingerprint.Encoding.{encode_entries, encode_map}
use mathlib.Core.Path.{ap₂}
use mathlib.Core.List.{append_assoc}
use take_home_assignments.Fingerprint.Injective.{
  IsShort, IsShortDict, little_endian_inj, encode_entries_inj,
}

length-canonical : (m : Dict) → length (canonical m) ≡ length m
length-canonical m =
    length-map (λ k. (k, get k m)) (sort_strings (keys m))
    ∙ length-sort_strings (keys m)
    ∙ length-map (λ e. e.0) m

IsShort-get : (k : Str) (m : Dict) → IsShortDict m → IsShort (get k m)
unfolding get lookup
IsShort-get k [] h = omega arith
IsShort-get k ((j, v) ∷ m) h = elim (Bool-cases (str_eq j k)) [
  | inl e ↦ rw (e, get) h.0.1
  | inr e ↦ rw (e, get) (IsShort-get k m h.1)
]

IsShort-keys : (m : Dict) → IsShortDict m → All IsShort (keys m)
IsShort-keys [] h = tt
IsShort-keys ((k, v) ∷ m) h = (h.0.0, IsShort-keys m h.1)

IsShortDict-entries_at :
    (m : Dict) (ks : List Str) → IsShortDict m → All IsShort ks → IsShortDict (entries_at m ks)
IsShortDict-entries_at m [] h hs = tt
IsShortDict-entries_at m (k ∷ ks) h hs =
    ((hs.0, IsShort-get k m h), IsShortDict-entries_at m ks h hs.1)

-- A map that a Go program can hold: distinct keys, short texts, a count that fits 64 bits.
pub record IsMap (m : Dict) : Type 0 where
  pub distinct : IsDistinct m
  pub short : IsShortDict m
  pub small : length m < 2 ^ 64

IsMap-canonical : (m : Dict) → IsMap m → IsShortDict (canonical m)
IsMap-canonical m h =
    IsShortDict-entries_at m _ h.short (All-sort_strings IsShort (keys m) (IsShort-keys m h.short))

pub encode_map_inj :
    (m n : Dict) (r q : List ℕ)
    → IsMap m
    → IsMap n
    → encode_map m ++ r ≡ encode_map n ++ q
    → SameEntries m n × (r ≡ q)
unfolding encode_map
encode_map_inj m n r q hm hn e =
    let (count, e₁) =
      little_endian_inj 8 (length m) (length n) _ _ hm.small hn.small (simp append_assoc at e) in
    let (same, rest) =
      encode_entries_inj (canonical m) (canonical n) r q
        (length-canonical m ∙ count ∙ sym (length-canonical n)) (IsMap-canonical m hm)
        (IsMap-canonical n hn) e₁ in
    (canonical_inj m n same, rest)

pub encode_map-eq : (m n : Dict) → IsMap m → IsMap n → SameEntries m n → encode_map m ≡ encode_map n
unfolding encode_map
encode_map-eq m n hm hn h =
    let same = canonical-eq m n hm.distinct hn.distinct h in
    let count = sym (length-canonical m) ∙ ap length same ∙ length-canonical n in
    ap₂ (λ (c : ℕ) (es : Dict). little_endian 8 c ++ encode_entries es) count same
