-- ===== src/ModuleId/RoundTrip.antt =====
-- The two directions of src/adapters/id_normalizer.rs.
use apcore_mcp_rust.Prelude.{
  String, Char, code, ◌≡◌, refl, sym, ap, ◌∙◌, inl, inr, Bool, true, false, some, arith, eqb,
  if◌then◌else◌, Bool-cases, replace,
}
use mathlib.Core.Path.{ap₂}
use text.Mathlib.TextEquality.{Char-path}
use apcore_mcp_rust.ModuleId.{ok, is_valid_module_id, normalize, denormalize, denormalize_checked}
use apcore_mcp_rust.ModuleId.Pattern.{Regex, IsEngine}
use apcore_mcp_rust.ModuleId.Chars.{
  AllChars, AllChars-mono, Matches-AllChars, IsIdChar, IsIdChar-NotDash, NotDash,
  module_id_pattern-Classes,
}

-- `replace` on one character.
abbrev swap : Char → Char → Char → Char
swap from to c = if eqb (code c) (code from) then to else c

swap-swap : (from to c : Char) → eqb (code c) (code to) ≡ false → swap to from (swap from to c) ≡ c
swap-swap from to c h = elim (Bool-cases (eqb (code c) (code from))) [
  | inl e ↦ let same : c ≡ from = Char-path c from (ground arith) in rw same (ground arith)
  | inr e ↦ rw (e, h) refl
]

-- Replacing `from` by `to` and back gives the text again if it holds no `to`.
replace-replace :
    (from to : Char) (s : String)
    → AllChars (λ c. eqb (code c) (code to) ≡ false) s
    → replace to from (replace from to s) ≡ s
unfolding replace
replace-replace from to String.[] h = refl
replace-replace from to (String.◌∷◌ c s) (p, h) =
    ap₂ String.◌∷◌ (swap-swap from to c p) (replace-replace from to s h)

module _ (is_match : Regex → String → Bool) (engine : IsEngine is_match) where
  valid-AllChars : (id : String) → is_valid_module_id is_match id ≡ true → AllChars IsIdChar id
  unfolding is_valid_module_id
  valid-AllChars id h =
      Matches-AllChars IsIdChar ((engine.decides id).0 h) module_id_pattern-Classes

  normalize-eq-ok :
      (id : String)
      → is_valid_module_id is_match id ≡ true
      → normalize is_match id ≡ ok (replace "." "-" id)
  unfolding normalize
  normalize-eq-ok id h = rw h

  denormalize_checked-eq-some :
      (name id : String)
      → denormalize name ≡ id
      → is_valid_module_id is_match id ≡ true
      → denormalize_checked is_match name ≡ some id
  unfolding denormalize denormalize_checked
  denormalize_checked-eq-some name id e h = rw (e, h)

  -- On a valid module ID the normalizer succeeds, and both ways back from its result, the
  -- unchecked and the checked one, give the ID.
  pub denormalize-normalize :
      (id : String)
      → is_valid_module_id is_match id ≡ true
      → (name : String) × (normalize is_match id ≡ ok name)
        × (denormalize name ≡ id)
        × (denormalize_checked is_match name ≡ some id)
  unfolding denormalize
  denormalize-normalize id h =
      let back : denormalize (replace "." "-" id) ≡ id =
        replace-replace "." "-" id
          (AllChars-mono IsIdChar NotDash IsIdChar-NotDash id (valid-AllChars id h)) in
      (replace "." "-" id, normalize-eq-ok id h, back, denormalize_checked-eq-some _ id back h)

  ok-of-normalize :
      (id name : String)
      → normalize is_match id ≡ ok name
      → (is_valid_module_id is_match id ≡ true) × (replace "." "-" id ≡ name)
  unfolding normalize
  ok-of-normalize id name e = ground arith

  pub denormalize-eq : (id name : String) → normalize is_match id ≡ ok name → denormalize name ≡ id
  unfolding denormalize
  denormalize-eq id name p =
      let (v, e) = ok-of-normalize id name p in
      ap (replace "-" ".") (sym e)
      ∙ replace-replace "." "-" id
          (AllChars-mono IsIdChar NotDash IsIdChar-NotDash id (valid-AllChars id v))

  -- Two IDs that the normalizer sends to one tool name are the same ID.
  pub normalize_injective :
      (a b name : String) → normalize is_match a ≡ ok name → normalize is_match b ≡ ok name → a ≡ b
  normalize_injective a b name p q = sym (denormalize-eq a name p) ∙ denormalize-eq b name q
