-- ===== src/Structured/Decimal.antt =====
-- How a JSON number is read, character by character, and that the string operations of
-- src/server/types/json_precision.rs find the same split_parts of it.
use apcore_mcp_rust.Prelude.{
  ℕ, zero, suc, ◌+◌, ◌-◌, ◌*◌, String, Char, code, ◌≡◌, refl, sym, ap, ◌∙◌, inl, inr, Bool, true,
  false, ◌||◌, Option, none, some, arith, eqb, if◌then◌else◌, Bool-cases, Option-cases, some_unique,
  unwrap_or, is_blank, strip_prefix, before, split_once, count,
}
use mathlib.Core.Option.{none-ne-some}
use apcore_mcp_rust.Json.{and_then}
use apcore_mcp_rust.Prelude.Int.{ℤ, pos, negsuc, ◌-ℤ◌}
use apcore_mcp_rust.Structured.Precision.{
  is, is_digit, without_point, split_exponent, coefficient_and_exponent, fraction_length, in_i64,
  parse_digits, parse_unsigned, negated, parse_i64,
}

-- The number that the digits of a text spell after those of `n`.
abbrev pub spelled : ℕ → String → ℕ
spelled n String.[] = n
spelled n (String.◌∷◌ c s) = spelled (n * 10 + (code c - 48)) s

opens_exponent : Char → Bool
opens_exponent c = eqb (code c) 101 || eqb (code c) 69

is_point : Char → Bool
is_point c = eqb (code c) 46

unfoldable unsigned : String → String
unsigned String.[] = ""
unsigned (String.◌∷◌ c s) = if eqb (code c) 45 then s else String.◌∷◌ c s

-- The number that the digits before the exponent spell after those of `n`.
unfoldable significand_from : ℕ → String → ℕ
unfolding opens_exponent is_point
significand_from n String.[] = n
significand_from n (String.◌∷◌ c s) =
    let point = significand_from n s in
    let digit = significand_from (n * 10 + (code c - 48)) s in
    if opens_exponent c then n else if is_point c then point else digit

-- The characters before the exponent.
unfoldable places : String → ℕ
unfolding opens_exponent
places String.[] = 0
places (String.◌∷◌ c s) = let rest = places s in if opens_exponent c then 0 else rest + 1

-- Those of them behind the point.
unfoldable places_behind : String → ℕ
unfolding opens_exponent is_point places
places_behind String.[] = 0
places_behind (String.◌∷◌ c s) =
    let whole = places_behind s in
    let behind = places s in if opens_exponent c then 0 else if is_point c then behind else whole

unfoldable exponent_text : String → String
unfolding opens_exponent
exponent_text String.[] = "0"
exponent_text (String.◌∷◌ c s) = let rest = exponent_text s in if opens_exponent c then s else rest

unfoldable pub significand : String → ℕ
unfolding unsigned significand_from
significand text = significand_from 0 (unsigned text)

unfoldable pub fraction_places : String → ℕ
unfolding unsigned places_behind
fraction_places text = places_behind (unsigned text)

unfoldable pub written_exponent : String → String
unfolding unsigned exponent_text
written_exponent text = exponent_text (unsigned text)

-- The two split_parts that the code splits an unsigned number into.
abbrev split_parts : String → String × String
split_parts s = unwrap_or (split_exponent s) (s, "0")

split_parts-opens :
    (c : Char) (s : String) → opens_exponent c ≡ true → split_parts (String.◌∷◌ c s) ≡ ("", s)
unfolding split_exponent opens_exponent
split_parts-opens c s y = rw y refl

split_parts-next :
    (c : Char) (s : String)
    → opens_exponent c ≡ false
    → split_parts (String.◌∷◌ c s) ≡ (String.◌∷◌ c (split_parts s).0, (split_parts s).1)
unfolding split_exponent opens_exponent
split_parts-next c s n = elim (Option-cases (split_exponent s)) [
  | inl e ↦ rw (n, e) refl
  | inr (p, e) ↦ rw (n, e) refl
]

strip_prefix-unsigned : (s : String) → unwrap_or (strip_prefix "-" s) s ≡ unsigned s
unfolding strip_prefix unsigned
strip_prefix-unsigned String.[] = refl
strip_prefix-unsigned (String.◌∷◌ c s) = ground arith

split_parts-significand :
    (n : ℕ) (s : String) → spelled n (without_point (split_parts s).0) ≡ significand_from n s
unfolding without_point significand_from is_point split_exponent
split_parts-significand n String.[] = refl
split_parts-significand n (String.◌∷◌ c s) = elim (Bool-cases (opens_exponent c)) [
  | inl y ↦ rw (split_parts-opens c s y, y) refl
  | inr o ↦ elim (Bool-cases (is_point c)) [
    | inl y ↦ rw (split_parts-next c s o, o, y) (split_parts-significand n s)
    | inr p ↦ rw (split_parts-next c s o, o, p) (split_parts-significand (n * 10 + (code c - 48)) s)
  ]
]

split_parts-places : (s : String) → count (split_parts s).0 ≡ places s
unfolding places split_exponent
split_parts-places String.[] = refl
split_parts-places (String.◌∷◌ c s) = elim (Bool-cases (opens_exponent c)) [
  | inl y ↦ rw (split_parts-opens c s y, y) refl
  | inr o ↦ rw (split_parts-next c s o, o) (ap (λ n. n + 1) (split_parts-places s))
]

split_once-point :
    (c : Char) (s : String) → is_point c ≡ true → split_once "." (String.◌∷◌ c s) ≡ some ("", s)
unfolding split_once is_point
split_once-point c s y = rw y refl

split_once-next :
    (c : Char) (s : String)
    → is_point c ≡ false
    → split_once "." (String.◌∷◌ c s) ≡ before c (split_once "." s)
unfolding split_once is_point
split_once-next c s n = rw n refl

fraction_length-point :
    (c : Char) (s : String) → is_point c ≡ true → fraction_length (String.◌∷◌ c s) ≡ count s
unfolding fraction_length
fraction_length-point c s y = rw (split_once-point c s y, fraction_length) refl

fraction_length-next :
    (c : Char) (s : String)
    → is_point c ≡ false
    → fraction_length (String.◌∷◌ c s) ≡ fraction_length s
unfolding fraction_length
fraction_length-next c s n = elim (Option-cases (split_once "." s)) [
  | inl e ↦ rw (split_once-next c s n, e, fraction_length) refl
  | inr (p, e) ↦ rw (split_once-next c s n, e, fraction_length) refl
]

split_parts-places_behind : (s : String) → fraction_length (split_parts s).0 ≡ places_behind s
unfolding places_behind fraction_length split_exponent split_once
split_parts-places_behind String.[] = refl
split_parts-places_behind (String.◌∷◌ c s) = elim (Bool-cases (opens_exponent c)) [
  | inl y ↦ rw (split_parts-opens c s y, y) refl
  | inr o ↦ elim (Bool-cases (is_point c)) [
    | inl y ↦
        rw (split_parts-next c s o, o, y)
          (fraction_length-point c (split_parts s).0 y ∙ split_parts-places s)
    | inr p ↦
        rw (split_parts-next c s o, o, p)
          (fraction_length-next c (split_parts s).0 p ∙ split_parts-places_behind s)
  ]
]

split_parts-exponent_text : (s : String) → (split_parts s).1 ≡ exponent_text s
unfolding exponent_text split_exponent
split_parts-exponent_text String.[] = refl
split_parts-exponent_text (String.◌∷◌ c s) = elim (Bool-cases (opens_exponent c)) [
  | inl y ↦ rw (split_parts-opens c s y, y) refl
  | inr o ↦ rw (split_parts-next c s o, o) (split_parts-exponent_text s)
]

coefficient_and_exponent-split_parts :
    (text : String) → coefficient_and_exponent text ≡ split_parts (unsigned text)
unfolding coefficient_and_exponent
coefficient_and_exponent-split_parts text = ap split_parts (strip_prefix-unsigned text)

pub coefficient-significand :
    (text : String) → spelled 0 (without_point (coefficient_and_exponent text).0) ≡ significand text
unfolding significand
coefficient-significand text =
    ap (λ p. spelled 0 (without_point p.0)) (coefficient_and_exponent-split_parts text)
    ∙ split_parts-significand 0 (unsigned text)

pub fraction_length-places :
    (text : String) → fraction_length (coefficient_and_exponent text).0 ≡ fraction_places text
unfolding fraction_places
fraction_length-places text =
    ap (λ p. fraction_length p.0) (coefficient_and_exponent-split_parts text)
    ∙ split_parts-places_behind (unsigned text)

pub exponent-written : (text : String) → (coefficient_and_exponent text).1 ≡ written_exponent text
unfolding written_exponent
exponent-written text =
    ap (λ p. p.1) (coefficient_and_exponent-split_parts text)
    ∙ split_parts-exponent_text (unsigned text)

pub in_i64-eq : (a b : ℤ) → in_i64 a ≡ some b → a ≡ b
unfolding in_i64
in_i64-eq (pos n) b h = ground arith
in_i64-eq (negsuc n) b h = ground arith

pub and_then-eq-some {ℓ κ} :
    {A : Type ℓ} {B : Type κ} (o : Option A) (f : A → Option B) (b : B)
    → and_then o f ≡ some b
    → (a : A) × (o ≡ some a) × (f a ≡ some b)
and_then-eq-some none f b h = absurd (none-ne-some b h)
and_then-eq-some (some a) f b h = (a, refl, h)

pub when_some {ℓ} :
    {A : Type ℓ} (b : Bool) (o : Option A) (a : A)
    → (if b then o else none) ≡ some a
    → (b ≡ true) × (o ≡ some a)
when_some true o a h = (refl, h)
when_some false o a h = absurd (none-ne-some a h)

-- The integer a text writes, with or without a sign.
unfoldable pub integer_of : String → ℤ
integer_of String.[] = pos 0
integer_of (String.◌∷◌ c s) =
    if eqb (code c) 45
    then pos 0 -ℤ pos (spelled 0 s)
    else if eqb (code c) 43
    then pos (spelled 0 s)
    else pos (spelled 0 (String.◌∷◌ c s))

-- The power of ten that the last digit before the exponent counts.
abbrev pub last_place : String → ℤ
last_place text = integer_of (written_exponent text) -ℤ pos (fraction_places text)

parse_digits-spelled : (n : ℕ) (s : String) (m : ℕ) → parse_digits n s ≡ some m → m ≡ spelled n s
unfolding parse_digits
parse_digits-spelled n String.[] m h = sym (some_unique {o = some n} refl h)
parse_digits-spelled n (String.◌∷◌ c s) m h =
    parse_digits-spelled (n * 10 + (code c - 48)) s m
      (when_some (is_digit c) (parse_digits (n * 10 + (code c - 48)) s) m h).1

parse_unsigned-spelled : (s : String) (m : ℕ) → parse_unsigned s ≡ some m → m ≡ spelled 0 s
unfolding parse_unsigned
parse_unsigned-spelled s m h = elim (Bool-cases (is_blank s)) [
  | inl y ↦ absurd (none-ne-some m (rw y at h))
  | inr n ↦ parse_digits-spelled 0 s m (rw n at h)
]

negated-minus : (n : ℕ) → negated n ≡ pos 0 -ℤ pos n
unfolding ◌-ℤ◌
negated-minus zero = refl
negated-minus (suc n) = ground arith

read_integer :
    (s : String) (sign : ℕ → ℤ) (x : ℤ)
    → and_then (parse_unsigned s) (λ n. in_i64 (sign n)) ≡ some x
    → x ≡ sign (spelled 0 s)
read_integer s sign x h =
    let (n, p, i) = and_then-eq-some (parse_unsigned s) (λ n. in_i64 (sign n)) x h in
    sym (in_i64-eq (sign n) x i) ∙ ap sign (parse_unsigned-spelled s n p)

pub parse_i64-integer_of : (s : String) (x : ℤ) → parse_i64 s ≡ some x → x ≡ integer_of s
unfolding parse_i64 integer_of
parse_i64-integer_of String.[] x h = absurd (none-ne-some x h)
parse_i64-integer_of (String.◌∷◌ c s) x h = elim (Bool-cases (is "-" c)) [
  | inl y ↦ rw y (read_integer s negated x (rw y at h) ∙ negated-minus (spelled 0 s))
  | inr m ↦ elim (Bool-cases (is "+" c)) [
    | inl y ↦ rw (m, y) (read_integer s (λ n. pos n) x (rw (m, y) at h))
    | inr p ↦ rw (m, p) (read_integer (String.◌∷◌ c s) (λ n. pos n) x (rw (m, p) at h))
  ]
]
