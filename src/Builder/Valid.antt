-- ===== src/Builder/Valid.antt =====
-- What the checks of src/apcore_mcp.rs say of a configuration that passes them.
use apcore_mcp_rust.Prelude.{
  ℕ, ◌≤◌, String, ◌≡◌, refl, ◌≢◌, inl, inr, Bool, true, false, ◌||◌, Option, none, some, List, [],
  ◌∷◌, arith, eq_iff, ltb, if◌then◌else◌, Bool-cases, any, All, OnSome, is_blank, count,
}
use apcore_mcp_rust.Prelude.Fallible.{ok, err, err-ne-ok}
use apcore_mcp_rust.Builder.{
  Result, ApCoreMcpConfig, ApCoreMcpError, is_log_level, exists, check_log_level, validate,
}

-- A name of 1 to 255 characters, no tag and no prefix that is empty, and a level that is known in
-- some case of its letters.
abbrev pub IsValid : ApCoreMcpConfig → Type 0
IsValid c =
    (c.name ≢ "")
    × (count c.name ≤ 255)
    × OnSome (All (λ tag. tag ≢ "")) c.tags
    × OnSome (λ prefix. prefix ≢ "") c.prefix
    × OnSome (λ level. is_log_level level ≡ true) c.log_level

unless {ℓ} :
    {A : Type ℓ} (b : Bool) (e : ApCoreMcpError) (r : Result A) (a : A)
    → (if b then err e else r) ≡ ok a
    → (b ≡ false) × (r ≡ ok a)
unless true e r a h = absurd (err-ne-ok h)
unless false e r a h = (refl, h)

at_most : (m n : ℕ) → ltb m n ≡ false → n ≤ m
at_most m n h = ground arith

filled_text : (s : String) → is_blank s ≡ false → s ≢ ""
filled_text s h = ground (arith, eq_iff s "")

or_false : (a b : Bool) → a || b ≡ false → (a ≡ false) × (b ≡ false)
or_false a b h = ground arith

none_blank : (tags : List String) → any is_blank tags ≡ false → All (λ tag. tag ≢ "") tags
none_blank [] h = tt
none_blank (tag ∷ tags) h =
    let (b, rest) = or_false (is_blank tag) (any is_blank tags) h in
    (filled_text tag b, none_blank tags rest)

tags-OnSome :
    (tags : Option (List String))
    → exists (any is_blank) tags ≡ false
    → OnSome (All (λ tag. tag ≢ "")) tags
tags-OnSome none h = tt
tags-OnSome (some tags) h = none_blank tags h

prefix-OnSome :
    (prefix : Option String) → exists is_blank prefix ≡ false → OnSome (λ p. p ≢ "") prefix
prefix-OnSome none h = tt
prefix-OnSome (some p) h = filled_text p h

check_log_level-OnSome :
    (level : Option String)
    → check_log_level level ≡ ok tt
    → OnSome (λ l. is_log_level l ≡ true) level
unfolding check_log_level
check_log_level-OnSome none h = tt
check_log_level-OnSome (some l) h = elim (Bool-cases (is_log_level l)) [
  | inl y ↦ y
  | inr n ↦ absurd (err-ne-ok (rw n at h))
]

pub validate-IsValid : (c : ApCoreMcpConfig) → validate c ≡ ok tt → IsValid c
unfolding validate
validate-IsValid c h =
    let (a, h1) = unless (is_blank c.name) _ _ tt h in
    let (b, h2) = unless (ltb 255 (count c.name)) _ _ tt h1 in
    let (t, h3) = unless (exists (any is_blank) c.tags) _ _ tt h2 in
    let (p, h4) = unless (exists is_blank c.prefix) _ _ tt h3 in
    (
      filled_text c.name a,
      at_most 255 (count c.name) b,
      tags-OnSome c.tags t,
      prefix-OnSome c.prefix p,
      check_log_level-OnSome c.log_level h4,
    )
