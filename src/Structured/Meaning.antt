-- ===== src/Structured/Meaning.antt =====
-- What the comparison of src/server/types/json_precision.rs says of two numbers: their normal
-- forms are equal only where they are the same decimal.
use apcore_mcp_rust.Prelude.{
  ℕ, suc, ◌+◌, ◌-◌, ◌*◌, String, Char, code, ◌≡◌, refl, sym, ap, ◌∙◌, subst, ◌⊎◌, inl, inr, Bool,
  true, false, ◌&&◌, Option, none, some, arith, ◌==◌, starts_with, eq_iff, if◌then◌else◌,
  Bool-cases, Option-cases, some_unique, is_blank, count,
}
use Prim.Native.Nat.{◌^◌}
use native.Mathlib.Nat.{pow-suc}
use mathlib.Core.Option.{none-ne-some}
use apcore_mcp_rust.ApprovalStore.{map_option}
use apcore_mcp_rust.Prelude.Int.{ℤ, pos, ◌+ℤ◌, ◌-ℤ◌}
use apcore_mcp_rust.Structured.Decimal.{
  spelled, significand, written_exponent, integer_of, last_place, coefficient-significand,
  fraction_length-places, exponent-written, parse_i64-integer_of, in_i64-eq, and_then-eq-some,
}
use apcore_mcp_rust.Structured.Precision.{
  is, without_point, trim_start_zeros, trim_end_zeros, in_i64, parse_i64, coefficient_and_exponent,
  fraction_length, NumericValue, zero_value, exponent_of, normalize_number, same_ℤ, same_sign,
  same_value, preserves_number,
}

is-zero : (c : Char) → is "0" c ≡ true → code c - 48 ≡ 0
is-zero c h = ground arith

spelled-trim_start_zeros : (s : String) → spelled 0 (trim_start_zeros s) ≡ spelled 0 s
unfolding trim_start_zeros
spelled-trim_start_zeros String.[] = refl
spelled-trim_start_zeros (String.◌∷◌ c s) = elim (Bool-cases (is "0" c)) [
  | inl y ↦ rw (y, is-zero c y) (spelled-trim_start_zeros s)
  | inr n ↦ rw n refl
]

both_true : (a b : Bool) → a && b ≡ true → (a ≡ true) × (b ≡ true)
both_true a b h = ground arith

tail_zero : (n d k v : ℕ) → d ≡ 0 → v ≡ (n * 10 + d) * 10 ^ k → v ≡ n * 10 ^ suc k
tail_zero n d k v z e = e ∙ rw (z, pow-suc 10 k) (omega arith)

-- Zeros at the end multiply by a power of ten.
spelled-trim_end_zeros :
    (n : ℕ) (s : String)
    → (k : ℕ) × (count s ≡ count (trim_end_zeros s) + k)
      × (spelled n s ≡ spelled n (trim_end_zeros s) * 10 ^ k)
unfolding trim_end_zeros
spelled-trim_end_zeros n String.[] = (0, refl, omega arith)
spelled-trim_end_zeros n (String.◌∷◌ c s) =
    let (k, l, e) = spelled-trim_end_zeros (n * 10 + (code c - 48)) s in
    elim (Bool-cases (is "0" c && is_blank (trim_end_zeros s))) [
      | inr off ↦ rw off (k, omega (arith, l), e)
      | inl y ↦
          let (z, b) = both_true (is "0" c) (is_blank (trim_end_zeros s)) y in
          let none_left : trim_end_zeros s ≡ "" = (eq_iff (trim_end_zeros s) "").0 b in
          let d = code c - 48 in
          rw y (
            suc k,
            omega (arith, l, ap count none_left),
            tail_zero n d k (spelled (n * 10 + d) s) (is-zero c z)
                (e ∙ ap (λ t. spelled (n * 10 + d) t * 10 ^ k) none_left),
          )
    ]

exponent_of-eq-some :
    (exponent : String) (k fraction : ℕ) (e : ℤ)
    → exponent_of exponent k fraction ≡ some e
    → (x : ℤ) × (parse_i64 exponent ≡ some x) × (e ≡ x -ℤ pos fraction +ℤ pos k)
unfolding exponent_of
exponent_of-eq-some exponent k fraction e h =
    let (x, p, h') = and_then-eq-some (parse_i64 exponent) _ e h in
    let (y, q, h'') = and_then-eq-some (in_i64 (x -ℤ pos fraction)) _ e h' in
    (
      x,
      p,
      sym (in_i64-eq (y +ℤ pos k) e h'')
          ∙ ap (λ z. z +ℤ pos k) (sym (in_i64-eq (x -ℤ pos fraction) y q)),
    )

-- A number that normalizes is zero, or its significand is that of the normal form with zeros at the
-- end, which the exponent makes up for.
abbrev pub IsNormal : String → NumericValue → Type 0
IsNormal text v =
    ((significand text ≡ 0) × (v ≡ zero_value))
    ⊎ ((k : ℕ) × (significand text ≡ spelled 0 v.digits * 10 ^ k)
        × (v.exponent ≡ last_place text +ℤ pos k)
        × (v.negative ≡ starts_with text "-"))

if_true {ℓ} : {A : Type ℓ} (b : Bool) (x y : A) → b ≡ true → (if b then x else y) ≡ x
if_true true x y h = refl
if_true false x y h = cc

if_false {ℓ} : {A : Type ℓ} (b : Bool) (x y : A) → b ≡ false → (if b then x else y) ≡ y
if_false false x y h = refl
if_false true x y h = cc

map_option-eq-some {ℓ κ} :
    {A : Type ℓ} {B : Type κ} (f : A → B) (o : Option A) (b : B)
    → map_option f o ≡ some b
    → (a : A) × (o ≡ some a) × (f a ≡ b)
map_option-eq-some f none b h = absurd (none-ne-some b h)
map_option-eq-some f (some a) b h = (a, refl, some_unique {o = some (f a)} refl h)

exponent-last_place :
    (text : String) (x : ℤ)
    → parse_i64 (coefficient_and_exponent text).1 ≡ some x
    → x -ℤ pos (fraction_length (coefficient_and_exponent text).0) ≡ last_place text
exponent-last_place text x r =
    ap (λ y. y -ℤ pos (fraction_length (coefficient_and_exponent text).0))
      (parse_i64-integer_of (coefficient_and_exponent text).1 x r
        ∙ ap integer_of (exponent-written text))
    ∙ ap (λ n. integer_of (written_exponent text) -ℤ pos n) (fraction_length-places text)

normalize_number-IsNormal :
    (text : String) (v : NumericValue) → normalize_number text ≡ some v → IsNormal text v
unfolding normalize_number
normalize_number-IsNormal text v h =
    let (coefficient, exponent) = coefficient_and_exponent text in
    let digits = trim_start_zeros (without_point coefficient) in
    let same : significand text ≡ spelled 0 digits =
      sym (coefficient-significand text)
      ∙ sym (spelled-trim_start_zeros (without_point coefficient)) in
    elim (Bool-cases (is_blank digits)) [
      | inl y ↦ inl (
        same ∙ ap (spelled 0) ((eq_iff digits "").0 y),
        some_unique {o = normalize_number text} h (if_true (is_blank digits) _ _ y),
      )
      | inr n ↦
          let (e, p, q) =
            map_option-eq-some _ (exponent_of exponent _ _) v
              (sym (if_false (is_blank digits) _ _ n) ∙ h) in
          let (x, r, t) = exponent_of-eq-some exponent _ _ e p in
          let (k, l, z) = spelled-trim_end_zeros 0 digits in
          let trailing : count digits - count (trim_end_zeros digits) ≡ k = omega (arith, l) in
          subst (IsNormal text) q (
            inr (
              k,
              same ∙ z,
              t
                  ∙ ap (λ j. x -ℤ pos (fraction_length coefficient) +ℤ pos j) trailing
                  ∙ ap (λ y. y +ℤ pos k) (exponent-last_place text x r),
              refl,
            ))
    ]

-- The same decimal: both zero, or of the same sign and with the same digits, up to zeros at the end
-- that the places of the last digits make up for.
abbrev pub IsSameNumber : String → String → Type 0
IsSameNumber a b =
    ((significand a ≡ 0) × (significand b ≡ 0))
    ⊎ ((starts_with a "-" ≡ starts_with b "-")
        × (d k l : ℕ) × (significand a ≡ d * 10 ^ k)
        × (significand b ≡ d * 10 ^ l)
        × (last_place a +ℤ pos k ≡ last_place b +ℤ pos l))

same_sign-eq : (a b : Bool) → same_sign a b ≡ true → a ≡ b
same_sign-eq true true h = refl
same_sign-eq true false h = sym h
same_sign-eq false true h = h
same_sign-eq false false h = refl

same_ℤ-eq : (a b : ℤ) → same_ℤ a b ≡ true → a ≡ b
same_ℤ-eq a b h = ground arith

same_value-parts :
    (v w : NumericValue)
    → same_value v w ≡ true
    → (v.negative ≡ w.negative) × (v.digits ≡ w.digits) × (v.exponent ≡ w.exponent)
unfolding same_value
same_value-parts v w h =
    let (s, h') = both_true (same_sign v.negative w.negative) _ h in
    let (d, e) = both_true (v.digits == w.digits) _ h' in
    (
      same_sign-eq v.negative w.negative s,
      (eq_iff v.digits w.digits).0 d,
      same_ℤ-eq v.exponent w.exponent e,
    )

zero_digits : (m k : ℕ) (digits : String) → m ≡ spelled 0 digits * 10 ^ k → digits ≡ "0" → m ≡ 0
zero_digits m k digits e z = e ∙ rw z (omega arith)

-- Equal normal forms, the same decimal.
same_value-IsSameNumber :
    (a b : String) (v w : NumericValue)
    → IsNormal a v
    → IsNormal b w
    → same_value v w ≡ true
    → IsSameNumber a b
same_value-IsSameNumber a b v w (inl (m, z)) (inl (n, y)) h = inl (m, n)
same_value-IsSameNumber a b v w (inl (m, z)) (inr (l, n, x, t)) h =
    let (s, d, e) = same_value-parts v w h in
    inl (m, zero_digits (significand b) l w.digits n (sym d ∙ ap (λ u. u.digits) z))
same_value-IsSameNumber a b v w (inr (k, m, y, s)) (inl (n, z)) h =
    let (r, d, x) = same_value-parts v w h in
    inl (zero_digits (significand a) k v.digits m (d ∙ ap (λ u. u.digits) z), n)
same_value-IsSameNumber a b v w (inr (k, m, y, s)) (inr (l, n, x, t)) h =
    let (r, d, q) = same_value-parts v w h in
    inr (
      sym s ∙ r ∙ t,
      spelled 0 v.digits,
      k,
      l,
      m,
      n ∙ ap (λ ds. spelled 0 ds * 10 ^ l) (sym d),
      sym y ∙ q ∙ x,
    )

module _ (reprint : String → Option String) where
  -- A number that is kept is read and printed again as the same decimal.
  pub preserves_number-IsSameNumber :
      (text : String)
      → preserves_number reprint text ≡ true
      → (printed : String) × (reprint text ≡ some printed) × IsSameNumber text printed
  unfolding preserves_number
  preserves_number-IsSameNumber text h = elim (Option-cases (reprint text)) [
    | inl e ↦ cc (rw (e, preserves_number) at h)
    | inr (printed, e) ↦ elim (Option-cases (normalize_number text)) [
      | inl n ↦ cc (rw (e, n, preserves_number) at h)
      | inr (v, n) ↦ elim (Option-cases (normalize_number printed)) [
        | inl m ↦ cc (rw (e, n, m, preserves_number) at h)
        | inr (w, m) ↦ (
          printed,
          e,
          same_value-IsSameNumber text printed v w (normalize_number-IsNormal text v n)
              (normalize_number-IsNormal printed w m) (rw (e, n, m, preserves_number) at h),
        )
      ]
    ]
  ]
