-- ===== src/Mapper/Decimal.antt =====
-- `anyValueToString`, against a reader of what it prints.
use take_home_assignments.Prelude.{
  ◌≡◌, refl, sym, ap, ==_ne, ◌∙◌, ℕ, zero, suc, ◌+◌, ◌-◌, ◌*◌, ◌/◌, ◌%◌, ◌^◌, ◌≤◌, ◌<◌, Option,
  none, some, [], Bool, true, false, ◌∷◌, ◌==◌, ◌&&◌, leb, arith, inl, inr, if◌then◌else◌,
  Bool-cases,
}
use take_home_assignments.Prelude.Int.{ℤ, pos, negsuc}
use take_home_assignments.Text.{Str, bytes, str_eq}
use take_home_assignments.Otlp.{
  AnyValue, ValueKind, string_value, int_value, double_value, bool_value, other_value,
}
use take_home_assignments.Fingerprint.{Xxhash}
use mathlib.Core.Option
use take_home_assignments.Mapper.{Formats, decimal, format_d, any_value_to_string}

-- The number that digits stand for, after the digits of `acc`.
unfoldable pub parse_digits : ℕ → Str → Option ℕ
parse_digits acc [] = some acc
parse_digits acc (c ∷ cs) =
    let rest = parse_digits (acc * 10 + (c - 48)) cs in if leb 48 c && leb c 57 then rest else none

abbrev pub non_negative : Option ℕ → Option ℤ
non_negative none = none
non_negative (some n) = some (pos n)

abbrev pub negative : Option ℕ → Option ℤ
negative none = none
negative (some zero) = some (pos 0)
negative (some (suc n)) = some (negsuc n)

-- A number with a minus sign or without one.
unfoldable pub parse_int : Str → Option ℤ
parse_int [] = none
parse_int (c ∷ cs) =
    if c == 45 then negative (parse_digits 0 cs) else non_negative (parse_digits 0 (c ∷ cs))

-- An `int64`.
abbrev pub IsInt64 : ℤ → Type 0
IsInt64 (pos n) = n < 2 ^ 63
IsInt64 (negsuc n) = n < 2 ^ 63

digits_back : (n : ℕ) → n / 10 * 10 + (48 + n % 10 - 48) ≡ n
digits_back n = omega arith

pow-suc : (k : ℕ) → 10 ^ suc k ≡ 10 * 10 ^ k
pow-suc k = ground arith

parse_digits-decimal :
    (fuel n : ℕ) (rest : Str)
    → n < 10 ^ fuel
    → parse_digits 0 (decimal fuel n rest) ≡ parse_digits n rest
unfolding decimal parse_digits
parse_digits-decimal zero n rest h = ap (λ m. parse_digits m rest) (omega arith)
parse_digits-decimal (suc fuel) n rest h =
    let later =
      parse_digits-decimal fuel (n / 10) ((48 + n % 10) ∷ rest) (omega (arith, pow-suc fuel)) in
    ground (arith, later, ap (λ m. parse_digits m rest) (digits_back n))

-- What is printed starts with a digit.
head-decimal :
    (fuel n : ℕ) (c : ℕ) (rest : Str)
    → 48 ≤ c
    → (d : ℕ) × (ds : Str) × (decimal fuel n (c ∷ rest) ≡ d ∷ ds) × (48 ≤ d)
unfolding decimal
head-decimal zero n c rest h = (c, rest, refl, h)
head-decimal (suc fuel) n c rest h = elim (Bool-cases (n / 10 == 0)) [
  | inl e ↦ (48 + n % 10, c ∷ rest, rw e refl, omega arith)
  | inr e ↦
      let (d, ds, starts, digit) =
        head-decimal fuel (n / 10) (48 + n % 10) (c ∷ rest) (omega arith) in
      (d, ds, rw e starts, digit)
]

starts-decimal : (fuel n : ℕ) → (d : ℕ) × (ds : Str) × (decimal (suc fuel) n [] ≡ d ∷ ds) × (48 ≤ d)
unfolding decimal
starts-decimal fuel n = elim (Bool-cases (n / 10 == 0)) [
  | inl e ↦ (48 + n % 10, [], rw e refl, omega arith)
  | inr e ↦
      let (d, ds, starts, digit) = head-decimal fuel (n / 10) (48 + n % 10) [] (omega arith) in
      (d, ds, rw e starts, digit)
]

parse_int-decimal :
    (fuel n : ℕ) → n < 10 ^ suc fuel → parse_int (decimal (suc fuel) n []) ≡ some (pos n)
unfolding parse_int parse_digits
parse_int-decimal fuel n h =
    let (d, ds, starts, digit) = starts-decimal fuel n in
    let read : parse_digits 0 (d ∷ ds) ≡ some n =
      ap (parse_digits 0) (sym starts) ∙ parse_digits-decimal (suc fuel) n [] h in
    ap parse_int starts ∙ rw (==_ne d 45 (λ e. omega arith)) (ap non_negative read)

format_d_round_trip : (i : ℤ) → IsInt64 i → parse_int (format_d i) ≡ some i
unfolding format_d parse_int parse_digits
format_d_round_trip (pos n) h = parse_int-decimal 18 n (omega arith)
format_d_round_trip (negsuc n) h = ap negative (parse_digits-decimal 19 (suc n) [] (omega arith))

-- A value of an attribute, where the client has set a string, an integer or a boolean.
pub data Scalar : Type 0 where
  text : Str → Scalar
  number : ℤ → Scalar
  flag : Bool → Scalar

abbrev pub scalar : AnyValue → Option Scalar
scalar v = elim v.kind [
  | string_value ↦ some (text v.get_string_value)
  | int_value ↦ some (number v.get_int_value)
  | bool_value ↦ some (flag v.get_bool_value)
  | double_value ↦ none
  | other_value ↦ none
]

-- What a column shows, read as a value of a kind.
abbrev pub read_as : ValueKind → Str → Option Scalar
read_as string_value s = some (text s)
read_as int_value s = Option.map number (parse_int s)
read_as bool_value s =
    if str_eq s (bytes "true")
    then some (flag true)
    else if str_eq s (bytes "false")
    then some (flag false)
    else none
read_as double_value s = none
read_as other_value s = none

module _ (x : Xxhash) (fm : Formats) where
  read_as-any_value_to_string :
      (v : AnyValue) (kind : ValueKind)
      → v.kind ≡ kind
      → v.is_nil ≡ false
      → IsInt64 v.get_int_value
      → read_as v.kind (any_value_to_string x fm v) ≡ scalar v
  unfolding any_value_to_string str_eq
  read_as-any_value_to_string v string_value k there h = rw k (rw there refl)
  read_as-any_value_to_string v int_value k there h =
      rw k (rw there (ap (Option.map number) (format_d_round_trip v.get_int_value h)))
  read_as-any_value_to_string v bool_value k there h = elim (Bool-cases v.get_bool_value) [
    | inl e ↦ rw k (rw there (rw e refl))
    | inr e ↦ rw k (rw there (rw e refl))
  ]
  read_as-any_value_to_string v double_value k there h = rw k refl
  read_as-any_value_to_string v other_value k there h = rw k refl

  -- The string, the int64 or the boolean of an attribute that is set is read back from its column, so
  -- that distinct values of one of these kinds differ in the column.
  pub any_value_to_string_round_trip :
      (v : AnyValue)
      → v.is_nil ≡ false
      → IsInt64 v.get_int_value
      → read_as v.kind (any_value_to_string x fm v) ≡ scalar v
  any_value_to_string_round_trip v = read_as-any_value_to_string v v.kind refl
