-- ===== src/Structured/Precision.antt =====
-- src/server/types/json_precision.rs: whether every number of a JSON text is kept. The source
-- walks over bytes; those of a character beyond ASCII pass no test, and JSON has none of them after
-- a backslash, so that characters give the same. A position in the text is what is left of it.
use apcore_mcp_rust.Prelude.{
  ℕ, zero, suc, ◌+◌, ◌-◌, ◌*◌, String, Char, code, Bool, true, false, not, ◌&&◌, ◌||◌, Option, none,
  some, ◌==◌, starts_with, ltb, leb, eqb, if◌then◌else◌, unwrap_or, is_blank, strip_prefix, before,
  split_once, count,
}
use Prim.Native.Nat.{◌^◌}
use apcore_mcp_rust.Json.{and_then}
use apcore_mcp_rust.ApprovalStore.{map_option}
use apcore_mcp_rust.Prelude.Int.{ℤ, pos, negsuc, pos_part, neg_part, ◌+ℤ◌, ◌-ℤ◌}

abbrev pub is : Char → Char → Bool
is d c = eqb (code c) (code d)

abbrev pub is_digit : Char → Bool
is_digit c = leb 48 (code c) && leb (code c) 57

unfoldable pub is_number_byte : Char → Bool
is_number_byte c = is_digit c || is "-" c || is "+" c || is "." c || is "e" c || is "E" c

abbrev pub starts_number : Char → Bool
starts_number c = is "-" c || is_digit c

-- What is left after the quote that ends a string.
unfoldable pub skip_string : String → String
skip_string String.[] = ""
skip_string (String.◌∷◌ c String.[]) = ""
skip_string (String.◌∷◌ c (String.◌∷◌ d s)) = elim (is "\\" c) [
  | true ↦ skip_string s
  | false ↦ elim (is "\"" c) [ true ↦ String.◌∷◌ d s | false ↦ skip_string (String.◌∷◌ d s) ]
]

-- The inner loop, with what is left.
unfoldable pub take_number : String → String × String
unfolding is_number_byte
take_number String.[] = ("", "")
take_number (String.◌∷◌ c s) =
    let rest = take_number s in
    if is_number_byte c then (String.◌∷◌ c rest.0, rest.1) else ("", String.◌∷◌ c s)

pub record NumericValue : Type 0 where
  pub negative : Bool
  pub digits : String
  pub exponent : ℤ

-- `split_once(['e', 'E'])`
unfoldable pub split_exponent : String → Option (String × String)
split_exponent String.[] = none
split_exponent (String.◌∷◌ c s) =
    let rest = split_exponent s in if is "e" c || is "E" c then some ("", s) else before c rest

-- `replace('.', "")`
unfoldable pub without_point : String → String
without_point String.[] = ""
without_point (String.◌∷◌ c s) =
    let rest = without_point s in if is "." c then rest else String.◌∷◌ c rest

unfoldable pub trim_start_zeros : String → String
trim_start_zeros String.[] = ""
trim_start_zeros (String.◌∷◌ c s) =
    let rest = trim_start_zeros s in if is "0" c then rest else String.◌∷◌ c s

unfoldable pub trim_end_zeros : String → String
trim_end_zeros String.[] = ""
trim_end_zeros (String.◌∷◌ c s) =
    let rest = trim_end_zeros s in if is "0" c && is_blank rest then "" else String.◌∷◌ c rest

-- An `i64`, if the integer is one.
unfoldable pub in_i64 : ℤ → Option ℤ
in_i64 (pos n) = if ltb n (2 ^ 63) then some (pos n) else none
in_i64 (negsuc n) = if ltb n (2 ^ 63) then some (negsuc n) else none

unfoldable pub parse_digits : ℕ → String → Option ℕ
parse_digits n String.[] = some n
parse_digits n (String.◌∷◌ c s) =
    let rest = parse_digits (n * 10 + (code c - 48)) s in if is_digit c then rest else none

unfoldable pub parse_unsigned : String → Option ℕ
unfolding parse_digits
parse_unsigned s = if is_blank s then none else parse_digits 0 s

abbrev pub negated : ℕ → ℤ
negated zero = pos 0
negated (suc n) = negsuc n

-- `parse::<i64>()`
unfoldable pub parse_i64 : String → Option ℤ
unfolding parse_unsigned in_i64
parse_i64 String.[] = none
parse_i64 (String.◌∷◌ c s) =
    if is "-" c
    then and_then (parse_unsigned s) (λ n. in_i64 (negated n))
    else if is "+" c
    then and_then (parse_unsigned s) (λ n. in_i64 (pos n))
    else and_then (parse_unsigned (String.◌∷◌ c s)) (λ n. in_i64 (pos n))

-- The coefficient with its point, and the text of the exponent.
unfoldable pub coefficient_and_exponent : String → String × String
unfolding strip_prefix split_exponent
coefficient_and_exponent text =
    let unsigned = unwrap_or (strip_prefix "-" text) text in
    unwrap_or (split_exponent unsigned) (unsigned, "0")

unfoldable pub fraction_length : String → ℕ
unfolding split_once
fraction_length coefficient = elim (split_once "." coefficient) [
  | none ↦ 0
  | some (whole, fraction) ↦ count fraction
]

abbrev pub zero_value : NumericValue
zero_value = record { negative = false; digits = "0"; exponent = pos 0 }

-- The exponent of the significant digits, where nothing overflows; a length is below 2 ^ 63.
unfoldable pub exponent_of : String → ℕ → ℕ → Option ℤ
unfolding parse_i64 in_i64 ◌+ℤ◌ ◌-ℤ◌
exponent_of exponent trailing_zeros fraction =
    and_then (parse_i64 exponent)
      λ e. and_then (in_i64 (e -ℤ pos fraction)) λ e'. in_i64 (e' +ℤ pos trailing_zeros)

unfoldable pub normalize_number : String → Option NumericValue
unfolding coefficient_and_exponent fraction_length without_point trim_start_zeros trim_end_zeros
    exponent_of
normalize_number text =
    let (coefficient, exponent) = coefficient_and_exponent text in
    let digits = trim_start_zeros (without_point coefficient) in
    let significant = trim_end_zeros digits in
    if is_blank digits
    then some zero_value
    else map_option
        (λ e. record { negative = starts_with text "-"; digits = significant; exponent = e })
        (exponent_of exponent (count digits - count significant) (fraction_length coefficient))

abbrev pub same_ℤ : ℤ → ℤ → Bool
same_ℤ a b = eqb (pos_part a) (pos_part b) && eqb (neg_part a) (neg_part b)

abbrev pub same_sign : Bool → Bool → Bool
same_sign true b = b
same_sign false b = not b

-- The derived `PartialEq`
unfoldable pub same_value : NumericValue → NumericValue → Bool
same_value v w =
    same_sign v.negative w.negative && (v.digits == w.digits && same_ℤ v.exponent w.exponent)

-- `serde_json` reads a number and prints it again: a parameter, none where the text is no number.
module _ (reprint : String → Option String) where
  unfoldable pub preserves_number : String → Bool
  unfolding normalize_number same_value
  preserves_number text = elim (reprint text) [
    | none ↦ false
    | some printed ↦ elim (normalize_number text) [
      | none ↦ false
      | some v ↦ elim (normalize_number printed) [ none ↦ false | some w ↦ same_value v w ]
    ]
  ]

  -- The outer loop; none where the fuel runs out.
  unfoldable pub scan : ℕ → String → Option Bool
  unfolding preserves_number take_number skip_string
  scan fuel String.[] = some true
  scan zero (String.◌∷◌ c s) = none
  scan (suc fuel) (String.◌∷◌ c s) = elim (is "\"" c) [
    | true ↦ scan fuel (skip_string s)
    | false ↦ elim (starts_number c) [
      | false ↦ scan fuel s
      | true ↦ elim (preserves_number (String.◌∷◌ c (take_number s).0)) [
        | false ↦ some false
        | true ↦ scan fuel (take_number s).1
      ]
    ]
  ]

  unfoldable pub preserves_numeric_values : String → Bool
  unfolding scan
  preserves_numeric_values text = unwrap_or (scan (count text) text) false
