-- ===== src/Fingerprint/Injective.antt =====
-- The length prefixes make the encoding unambiguous: what was written can be read back, field by
-- field, from any run of bytes that begins with it.
use take_home_assignments.Prelude.{
  ℕ, zero, suc, ◌/◌, ◌%◌, ◌^◌, ◌<◌, ◌≡◌, refl, Bool, true, false, List, [], ◌∷◌, ◌++◌, length,
  arith, All, append_inj,
}
use take_home_assignments.Text.{Str}
use take_home_assignments.Dict.{Dict}
use take_home_assignments.Fingerprint.{little_endian}
use take_home_assignments.Fingerprint.Encoding.{encode_string, encode_entries, encode_bool}
use mathlib.Core.Path.{ap₂}
use native.Mathlib.Nat.{pow-suc}
use mathlib.Core.List.{append_assoc}

-- The low bytes of a number that fits them give the number back.
pub little_endian_inj :
    (w a b : ℕ) (r s : List ℕ)
    → a < 256 ^ w
    → b < 256 ^ w
    → little_endian w a ++ r ≡ little_endian w b ++ s
    → (a ≡ b) × (r ≡ s)
unfolding little_endian
little_endian_inj zero a b r s ha hb e = (omega arith, e)
little_endian_inj (suc w) a b r s ha hb e =
    let ha' : a / 256 < 256 ^ w = omega (arith, pow-suc 256 w) in
    let hb' : b / 256 < 256 ^ w = omega (arith, pow-suc 256 w) in
    let low : a % 256 ≡ b % 256 = cc in
    let (high, rest) = little_endian_inj w (a / 256) (b / 256) r s ha' hb' (cc) in
    (omega arith, rest)

-- `len` of a Go string fits 64 bits.
abbrev pub IsShort : Str → Type 0
IsShort s = length s < 2 ^ 64

pub encode_string_inj :
    (s t : Str) (r q : List ℕ)
    → IsShort s
    → IsShort t
    → encode_string s ++ r ≡ encode_string t ++ q
    → (s ≡ t) × (r ≡ q)
unfolding encode_string
encode_string_inj s t r q hs ht e =
    let (same, rest) =
      little_endian_inj 8 (length s) (length t) (s ++ r) (t ++ q) hs ht (simp append_assoc at e) in
    append_inj s t r q same rest

-- Every key and every value is short.
abbrev pub IsShortDict : Dict → Type 0
IsShortDict = All (λ e. IsShort e.0 × IsShort e.1)

pub encode_entries_inj :
    (m n : Dict) (r q : List ℕ)
    → length m ≡ length n
    → IsShortDict m
    → IsShortDict n
    → encode_entries m ++ r ≡ encode_entries n ++ q
    → (m ≡ n) × (r ≡ q)
unfolding encode_entries
encode_entries_inj [] [] r q h hm hn e = (refl, e)
encode_entries_inj [] (f ∷ n) r q h hm hn e = absurd (omega arith)
encode_entries_inj (f ∷ m) [] r q h hm hn e = absurd (omega arith)
encode_entries_inj ((k, v) ∷ m) ((j, w) ∷ n) r q h ((hk, hv), hm) ((hj, hw), hn) e =
    let (same_key, e₁) = encode_string_inj k j _ _ hk hj (simp append_assoc at e) in
    let (same_value, e₂) = encode_string_inj v w _ _ hv hw e₁ in
    let (same_rest, e₃) = encode_entries_inj m n r q (omega arith) hm hn e₂ in
    (ap₂ ◌∷◌ (ap₂ (λ (a b : Str). (a, b)) same_key same_value) same_rest, e₃)

pub encode_bool_inj : (b c : Bool) → encode_bool b ≡ encode_bool c → b ≡ c
unfolding encode_bool
encode_bool_inj true true e = refl
encode_bool_inj true false e = cc
encode_bool_inj false true e = cc
encode_bool_inj false false e = refl
