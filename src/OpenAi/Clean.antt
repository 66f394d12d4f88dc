-- ===== src/OpenAi/Clean.antt =====
-- What strip_extensions of src/converters/openai.rs removes stays away in the strict walk.
use apcore_mcp_rust.Prelude.{
  String, ◌≡◌, refl, sym, ◌∙◌, subst, inl, inr, false, some, List, [], ◌∷◌, ◌++◌, map, arith, ◌==◌,
  Bool-cases, Option-cases, some_unique, any, contains,
}
use apcore_mcp_rust.Json.{
  Value, null, bool, number, string, array, object, Items, nil, cons, Fields, end, field, get,
  insert, items, to_items,
}
use apcore_mcp_rust.OpenAi.{
  Place, properties, schema, list, defs, place_of, has_properties, optional_names, nullable_type,
  is_extension, strip_extensions, strip_fields, strip_items, or_null, is_null_text, enforce,
  convert_to_strict, strict_nullable, strict_fields, strict_at, strict_props, strict_items,
}
use apcore_mcp_rust.OpenAi.Strict.{required_names}

-- No key of an extension and no default, at any depth.
unfoldable mutual
  pub Clean : Value → Type 0
  Clean (object m) = CleanFields m
  Clean (array vs) = CleanItems vs
  Clean _ = Unit {0}

  pub CleanFields : Fields → Type 0
  CleanFields end = Unit {0}
  CleanFields (field k v fs) = (is_extension k ≡ false) × Clean v × CleanFields fs

  pub CleanItems : Items → Type 0
  CleanItems nil = Unit {0}
  CleanItems (cons v vs) = Clean v × CleanItems vs

mutual
  unfolding Clean strip_extensions

  pub strip_extensions-Clean : (v : Value) → Clean (strip_extensions v)
  strip_extensions-Clean (object m) = strip_fields-Clean m
  strip_extensions-Clean (array vs) = strip_items-Clean vs
  strip_extensions-Clean _ = tt

  strip_fields-Clean : (fs : Fields) → CleanFields (strip_fields fs)
  strip_fields-Clean end = tt
  strip_fields-Clean (field k v fs) = elim (Bool-cases (is_extension k)) [
    | inl y ↦ rw y (strip_fields-Clean fs)
    | inr off ↦ rw off (off, strip_extensions-Clean v, strip_fields-Clean fs)
  ]

  strip_items-Clean : (vs : Items) → CleanItems (strip_items vs)
  strip_items-Clean nil = tt
  strip_items-Clean (cons v vs) = (strip_extensions-Clean v, strip_items-Clean vs)

CleanFields-insert :
    (k : String) (v : Value) (fs : Fields)
    → is_extension k ≡ false
    → Clean v
    → CleanFields fs
    → CleanFields (insert k v fs)
unfolding Clean insert
CleanFields-insert k v end e h g = (e, h, tt)
CleanFields-insert k v (field j w fs) e h g = ground (arith, CleanFields-insert k v fs e h)

texts-Clean : (ns : List String) → CleanItems (to_items (map string ns))
unfolding Clean
texts-Clean [] = tt
texts-Clean (n ∷ ns) = (tt, texts-Clean ns)

with_null-Clean :
    (vs : Items) → CleanItems vs → CleanItems (to_items (items vs ++ string "null" ∷ []))
unfolding Clean
with_null-Clean nil h = (tt, tt)
with_null-Clean (cons v vs) (c, h) = (c, with_null-Clean vs h)

nullable_type-Clean : (t : Value) → Clean t → Clean (nullable_type t)
unfolding Clean
nullable_type-Clean (string s) h = (tt, (tt, tt))
nullable_type-Clean (array vs) h = elim (Bool-cases (any is_null_text (items vs))) [
  | inl y ↦ rw y h
  | inr off ↦ rw off (with_null-Clean vs h)
]
nullable_type-Clean null h = tt
nullable_type-Clean (bool b) h = tt
nullable_type-Clean (number n) h = tt
nullable_type-Clean (object m) h = h

Clean-get : (k : String) (fs : Fields) (v : Value) → CleanFields fs → get k fs ≡ some v → Clean v
unfolding Clean get
Clean-get k end v h e = cc
Clean-get k (field j w fs) v (x, c, h) e = elim (Bool-cases (j == k)) [
  | inl y ↦ subst Clean (some_unique {o = some w} refl (sym (rw y refl) ∙ e)) c
  | inr off ↦ Clean-get k fs v h (sym (rw off refl) ∙ e)
]

enforce-Clean : (m below : Fields) → CleanFields below → CleanFields (enforce m below)
unfolding enforce Clean is_extension
enforce-Clean m below h = elim (Bool-cases (has_properties m)) [
  | inl y ↦ rw y (
      CleanFields-insert "required" (required_names m)
        (insert "additionalProperties" (bool false) below) refl (texts-Clean _)
        (CleanFields-insert "additionalProperties" (bool false) below refl tt h))
  | inr off ↦ rw off h
]

type_is_kept : is_extension "type" ≡ false
unfolding is_extension
type_is_kept = refl

or_null-Clean : (v : Value) → Clean v → Clean (or_null v)
unfolding Clean is_extension
or_null-Clean v h = (refl, (h, ((refl, tt, tt), tt)), tt)

mutual
  unfolding Clean strict_at

  pub convert_to_strict-Clean : (v : Value) → Clean v → Clean (convert_to_strict v)
  convert_to_strict-Clean (object m) h =
      enforce-Clean m (strict_fields (optional_names m) m)
        (strict_fields-Clean (optional_names m) m h)
  convert_to_strict-Clean (array vs) h = h
  convert_to_strict-Clean null h = tt
  convert_to_strict-Clean (bool b) h = tt
  convert_to_strict-Clean (number n) h = tt
  convert_to_strict-Clean (string s) h = tt

  strict_nullable-Clean : (v : Value) → Clean v → Clean (strict_nullable v)
  strict_nullable-Clean (object m) h = elim (Option-cases (get "type" m)) [
    | inl e ↦
        rw (e, strict_nullable)
          (or_null-Clean (object (enforce m (strict_fields (optional_names m) m))) (
            enforce-Clean m (strict_fields (optional_names m) m)
              (strict_fields-Clean (optional_names m) m h)))
    | inr (t, e) ↦
        rw (e, strict_nullable)
          (CleanFields-insert "type" (nullable_type t) (strict_fields [] m) type_is_kept
            (nullable_type-Clean t (Clean-get "type" m t h e)) (strict_fields-Clean [] m h))
  ]
  strict_nullable-Clean (array vs) h = h
  strict_nullable-Clean null h = tt
  strict_nullable-Clean (bool b) h = tt
  strict_nullable-Clean (number n) h = tt
  strict_nullable-Clean (string s) h = tt

  strict_fields-Clean :
      (o : List String) (fs : Fields) → CleanFields fs → CleanFields (strict_fields o fs)
  strict_fields-Clean o end h = tt
  strict_fields-Clean o (field k v fs) (e, c, h) =
      (e, strict_at-Clean (place_of k) o v c, strict_fields-Clean o fs h)

  strict_at-Clean : (p : Place) (o : List String) (v : Value) → Clean v → Clean (strict_at p o v)
  strict_at-Clean properties o (object ps) h = strict_props-Clean o ps h
  strict_at-Clean schema o (object m) h =
      enforce-Clean m (strict_fields (optional_names m) m)
        (strict_fields-Clean (optional_names m) m h)
  strict_at-Clean list o (array vs) h = strict_items-Clean vs h
  strict_at-Clean defs o (object ds) h = strict_props-Clean [] ds h
  strict_at-Clean _ o _ h = h

  strict_props-Clean :
      (o : List String) (ps : Fields) → CleanFields ps → CleanFields (strict_props o ps)
  strict_props-Clean o end h = tt
  strict_props-Clean o (field k v ps) (e, c, h) = elim (Bool-cases (contains o k)) [
    | inl y ↦ rw y (e, strict_nullable-Clean v c, strict_props-Clean o ps h)
    | inr off ↦ rw off (e, convert_to_strict-Clean v c, strict_props-Clean o ps h)
  ]

  strict_items-Clean : (vs : Items) → CleanItems vs → CleanItems (strict_items vs)
  strict_items-Clean nil h = tt
  strict_items-Clean (cons v vs) (c, h) = (convert_to_strict-Clean v c, strict_items-Clean vs h)
