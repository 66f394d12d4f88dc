-- ===== src/Structured/Scan.antt =====
-- The scan of src/server/types/json_precision.rs ends, and tests every number outside strings.
use apcore_mcp_rust.Prelude.{
  ℕ, zero, suc, ◌≤◌, String, Char, ◌≡◌, refl, sym, ap, ◌∙◌, inl, inr, true, false, Option, some,
  List, [], ◌∷◌, arith, Bool-cases, unwrap_or, all, ◌<>◌, count,
}
use text.Mathlib.TextLemmas.{append_assoc, append-nil, cons-append, nil-append}
use apcore_mcp_rust.Structured.Precision.{
  is, is_number_byte, starts_number, skip_string, take_number, preserves_number, scan,
  preserves_numeric_values,
}

-- Where a character stands: outside strings and numbers, in a string, behind a backslash in one,
-- or in a number, of which the first part is given.
pub data Mode : Type 0 where
  outside quoted escaped : Mode
  within : (part : String) → Mode

-- The numbers of a text, character by character.
abbrev pub numbers : Mode → String → List String
numbers (within part) String.[] = part ∷ []
numbers _ String.[] = []
numbers outside (String.◌∷◌ c s) = elim (is "\"" c) [
  | true ↦ numbers quoted s
  | false ↦ elim (starts_number c) [
    | true ↦ numbers (within (String.◌∷◌ c "")) s
    | false ↦ numbers outside s
  ]
]
numbers quoted (String.◌∷◌ c s) = elim (is "\\" c) [
  | true ↦ numbers escaped s
  | false ↦ elim (is "\"" c) [ true ↦ numbers outside s | false ↦ numbers quoted s ]
]
numbers escaped (String.◌∷◌ c s) = numbers quoted s
numbers (within part) (String.◌∷◌ c s) = elim (is_number_byte c) [
  | true ↦ numbers (within (part <> String.◌∷◌ c "")) s
  | false ↦ part ∷ elim (is "\"" c) [ true ↦ numbers quoted s | false ↦ numbers outside s ]
]

count-skip_string : (s : String) → count (skip_string s) ≤ count s
unfolding skip_string
count-skip_string String.[] = omega arith
count-skip_string (String.◌∷◌ c String.[]) = omega arith
count-skip_string (String.◌∷◌ c (String.◌∷◌ d s)) = elim (Bool-cases (is "\\" c)) [
  | inl y ↦ rw (y, skip_string, count) (omega (arith, count-skip_string s))
  | inr n ↦ elim (Bool-cases (is "\"" c)) [
    | inl y ↦ rw (n, y, skip_string, count) (omega arith)
    | inr m ↦ rw (n, m, skip_string, count) (omega (arith, count-skip_string (String.◌∷◌ d s)))
  ]
]

count-take_number : (s : String) → count (take_number s).1 ≤ count s
unfolding take_number
count-take_number String.[] = omega arith
count-take_number (String.◌∷◌ c s) = elim (Bool-cases (is_number_byte c)) [
  | inl y ↦ rw y (omega (arith, count-take_number s))
  | inr n ↦ rw n (omega arith)
]

numbers-skip_string : (s : String) → numbers quoted s ≡ numbers outside (skip_string s)
unfolding skip_string
numbers-skip_string String.[] = refl
numbers-skip_string (String.◌∷◌ c String.[]) = elim (Bool-cases (is "\\" c)) [
  | inl y ↦ rw (y, numbers) refl
  | inr n ↦ elim (Bool-cases (is "\"" c)) [
    | inl y ↦ rw (n, y, numbers) refl
    | inr m ↦ rw (n, m, numbers) refl
  ]
]
numbers-skip_string (String.◌∷◌ c (String.◌∷◌ d s)) = elim (Bool-cases (is "\\" c)) [
  | inl y ↦ rw (y, numbers) (numbers-skip_string s)
  | inr n ↦ elim (Bool-cases (is "\"" c)) [
    | inl y ↦ rw (n, y, numbers) refl
    | inr m ↦ rw (n, m, numbers) (numbers-skip_string (String.◌∷◌ d s))
  ]
]

-- No number begins with a character that ends one.
starts_number-is_number_byte : (c : Char) → is_number_byte c ≡ false → starts_number c ≡ false
unfolding is_number_byte
starts_number-is_number_byte c h = ground arith

one-append : (c : Char) (t : String) → String.◌∷◌ c "" <> t ≡ String.◌∷◌ c t
one-append c t = cons-append c "" t ∙ ap (String.◌∷◌ c) (nil-append t)

append_one :
    (s : String) (c : Char) (t : String) → (s <> String.◌∷◌ c "") <> t ≡ s <> String.◌∷◌ c t
append_one s c t = append_assoc s (String.◌∷◌ c "") t ∙ ap (λ u. s <> u) (one-append c t)

numbers-take_number :
    (part s : String)
    → numbers (within part) s ≡ (part <> (take_number s).0) ∷ numbers outside (take_number s).1
unfolding take_number
numbers-take_number part String.[] = ap (λ p. p ∷ []) (sym (append-nil part))
numbers-take_number part (String.◌∷◌ c s) = elim (Bool-cases (is_number_byte c)) [
  | inl y ↦
      rw (y, numbers)
        (numbers-take_number (part <> String.◌∷◌ c "") s
          ∙ ap (λ p. p ∷ numbers outside (take_number s).1) (append_one part c (take_number s).0))
  | inr n ↦ elim (Bool-cases (is "\"" c)) [
    | inl y ↦ rw (n, y, numbers, append-nil part) refl
    | inr m ↦ rw (n, m, numbers, append-nil part, starts_number-is_number_byte c n) refl
  ]
]

module _ (reprint : String → Option String) where
  -- With as much fuel as the text has characters, or more, the scan does not run out of it, and
  -- its answer is whether each number outside strings is kept.
  pub scan-numbers :
      (fuel : ℕ) (s : String)
      → count s ≤ fuel
      → scan reprint fuel s ≡ some (all (preserves_number reprint) (numbers outside s))
  unfolding scan
  scan-numbers fuel String.[] h = refl
  scan-numbers zero (String.◌∷◌ c s) h = absurd (omega (arith, h))
  scan-numbers (suc fuel) (String.◌∷◌ c s) h = elim (Bool-cases (is "\"" c)) [
    | inl y ↦
        rw (y, scan, numbers, numbers-skip_string s)
          (scan-numbers fuel (skip_string s) (omega (arith, h, count-skip_string s)))
    | inr n ↦ elim (Bool-cases (starts_number c)) [
      | inr m ↦ rw (n, m, scan, numbers) (scan-numbers fuel s (omega (arith, h)))
      | inl y ↦
          rw
            (
              n,
              y,
              scan,
              numbers,
              numbers-take_number (String.◌∷◌ c "") s,
              one-append c (take_number s).0,
            )
            (elim (Bool-cases (preserves_number reprint (String.◌∷◌ c (take_number s).0))) [
              | inr off ↦ rw off refl
              | inl kept ↦
                  rw kept
                    (scan-numbers fuel (take_number s).1 (omega (arith, h, count-take_number s)))
            ])
    ]
  ]

  -- The scan of a text ends within as many rounds as it has characters, and keeps the text exactly
  -- if each number outside its strings is kept.
  pub preserves_numeric_values-numbers :
      (text : String)
      → preserves_numeric_values reprint text
        ≡ all (preserves_number reprint) (numbers outside text)
  unfolding preserves_numeric_values
  preserves_numeric_values-numbers text =
      ap (λ o. unwrap_or o false) (scan-numbers (count text) text (omega arith))
