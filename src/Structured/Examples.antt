-- ===== src/Structured/Examples.antt =====
-- The theorems at a text with a number and a string that holds one.
use apcore_mcp_rust.Prelude.{
  ◌+◌, ◌<◌, String, ◌≡◌, refl, ap, ◌↔◌, Bool, true, false, Option, none, some, List, [], ◌∷◌, map,
  arith, ◌==◌, if◌then◌else◌, all,
}
use apcore_mcp_rust.Json.{
  Number, Value, null, bool, number, string, array, object, Fields, end, field, get, get_str,
}
use apcore_mcp_rust.Structured.References.{
  Draft, draft202012, Referencing, size, size_fields, total, resolve_all_refs,
}
use apcore_mcp_rust.Structured.Resolved.{IsLocal, resolve_all_refs-IsLocal}
use apcore_mcp_rust.Wire.{CallToolResult, new_text}
use apcore_mcp_rust.Structured.Precision.{
  is_number_byte, skip_string, take_number, normalize_number, same_value, preserves_number, scan,
  preserves_numeric_values, trim_start_zeros, trim_end_zeros, parse_i64, parse_digits,
  parse_unsigned, exponent_of, in_i64, without_point, split_exponent, coefficient_and_exponent,
  fraction_length,
}
use apcore_mcp_rust.Structured.Scan.{numbers, outside, scan-numbers}
use apcore_mcp_rust.Structured.Meaning.{IsSameNumber, preserves_number-IsSameNumber}
use apcore_mcp_rust.Structured.Content.{
  value_of, object_of, matches_output_schema, checked, with_structured_content,
}

-- The numbers of the tests, as they are read and printed again; the last one loses a digit.
abbrev reprint : String → Option String
reprint n =
    if n == "0.10"
    then some "0.1"
    else if n == "1e2"
    then some "100.0"
    else if n == "9007199254740993.0"
    then some "9007199254740992.0"
    else none

abbrev text : String
text = "{\"a\": 0.10, \"7\\\"\": 1e2}"

finds : numbers outside text ≡ "0.10" ∷ "1e2" ∷ []
unfolding is_number_byte
finds = refl

keeps :
    map (λ n. preserves_number reprint n) ("0.10" ∷ "1e2" ∷ "9007199254740993.0" ∷ [])
    ≡ true ∷ true ∷ false ∷ []
unfolding preserves_number normalize_number same_value trim_start_zeros trim_end_zeros parse_i64
    parse_digits parse_unsigned exponent_of in_i64 without_point split_exponent
    coefficient_and_exponent fraction_length
keeps = refl

scan-numbers_example :
    scan reprint 40 text ≡ some (all (preserves_number reprint) (numbers outside text))
scan-numbers_example = scan-numbers reprint 40 text (omega arith)

preserves : preserves_number reprint "1e2" ≡ true
unfolding preserves_number normalize_number same_value trim_start_zeros trim_end_zeros parse_i64
    parse_digits parse_unsigned exponent_of in_i64 without_point split_exponent
    coefficient_and_exponent fraction_length
preserves = refl

preserves_number-IsSameNumber_example :
    (printed : String) × (reprint "1e2" ≡ some printed) × IsSameNumber "1e2" printed
preserves_number-IsSameNumber_example = preserves_number-IsSameNumber reprint "1e2" preserves

-- A crate for which the values in an object are the schemas in it, and one reference is found.
values_of : Fields → List Value
values_of end = []
values_of (field k v fs) = v ∷ values_of fs

subresources_of : Value → List Value
subresources_of (object fs) = values_of fs
subresources_of _ = []

abbrev local : Referencing (Unit {0})
local = record {
  draft_of = λ v. some draft202012;
  try_new = λ v d. some tt;
  detect = λ d v. some d;
  in_subresource = λ d v r. some r;
  lookup = λ reference r. reference == "#/$defs/amount";
  subresources_of = λ d v. subresources_of v;
}

total-values_of : (fs : Fields) → total (values_of fs) ≡ size_fields fs
unfolding values_of
total-values_of end = refl
total-values_of (field k v fs) = ap (λ n. size v + n) (total-values_of fs)

fits : (draft : Draft) (v : Value) → total (subresources_of v) < size v
unfolding subresources_of
fits draft (object fs) = omega (arith, total-values_of fs)
fits draft null = omega arith
fits draft (bool b) = omega arith
fits draft (number n) = omega arith
fits draft (string s) = omega arith
fits draft (array vs) = omega arith

abbrev advertised : Value
advertised = object (field "a" (object (field "$ref" (string "#/$defs/amount") end)) end)

-- A reference to somewhere else is refused, at any depth.
local_only :
    map (resolve_all_refs local) (
      advertised
      ∷ object (field "a" (object (field "$ref" (string "https://example.com/") end)) end)
      ∷ [])
    ≡ true ∷ false ∷ []
unfolding resolve_all_refs values_of subresources_of get_str get
local_only = refl

resolve_all_refs-IsLocal_example :
    resolve_all_refs local advertised ≡ true ↔ IsLocal local fits advertised
resolve_all_refs-IsLocal_example = resolve_all_refs-IsLocal local fits advertised

abbrev amounts : Value
amounts = object (field "a" (number (Number.pos_int 0)) end)

abbrev read_text : String → Option Value
read_text t = if t == text then some amounts else none

abbrev result : CallToolResult
result = record {
  content = new_text text ∷ [];
  structured_content = none;
  is_error = false;
  meta = none;
}

abbrev checks : Value → Value → Bool
checks schema v = true

gives :
    (with_structured_content read_text reprint local checks
      (some advertised)
      result).structured_content
    ≡ some amounts
unfolding resolve_all_refs values_of subresources_of get_str get with_structured_content object_of
    value_of checked matches_output_schema preserves_numeric_values scan skip_string take_number
    preserves_number normalize_number same_value trim_start_zeros trim_end_zeros parse_i64
    parse_digits parse_unsigned exponent_of in_i64 without_point split_exponent
    coefficient_and_exponent fraction_length
gives = refl
