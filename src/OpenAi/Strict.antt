-- ===== src/OpenAi/Strict.antt =====
-- The strict walk of src/converters/openai.rs, by induction over the schema.
use apcore_mcp_rust.Prelude.{
  String, ◌≡◌, refl, sym, ap, ◌∙◌, subst, ◌⊎◌, inl, inr, Bool, true, false, ◌&&◌, Option, none,
  some, List, [], map, arith, Bool-cases, Option-cases, any, contains,
}
use apcore_mcp_rust.Json.{
  Value, bool, string, array, object, Items, nil, cons, Fields, end, field, get, insert, items,
  to_items, contains_key, get-insert,
}
use apcore_mcp_rust.Acl.{sort}
use apcore_mcp_rust.Schema.{is_object_text}
use apcore_mcp_rust.OpenAi.{
  Place, properties, schema, list, defs, place_of, is_text_object, has_properties, all_names,
  optional_names, nullable_type, or_null, enforce, convert_to_strict, strict_nullable,
  strict_fields, strict_at, strict_props, strict_items, is_null_text,
}
use apcore_mcp_rust.OpenAi.Keys.{
  all_names-strict_fields, has_properties-strict_fields, get-enforced, all_names-enforced,
}

-- Where the walk arrives at an object schema with properties, it is closed and requires them all.
abbrev pub required_names : Fields → Value
required_names m = array (to_items (map string (sort (all_names m))))

-- Its type is not the text "object", or it has no properties.
abbrev pub IsOther : Fields → Type 0
IsOther m = (get "type" m ≡ some (string "object") → ⊥) ⊎ (get "properties" m ≡ none)

abbrev pub IsSealed : Fields → Type 0
IsSealed m =
    (get "additionalProperties" m ≡ some (bool false))
    × (get "required" m ≡ some (required_names m))

abbrev pub IsClosed : Fields → Type 0
IsClosed m = IsOther m ⊎ IsSealed m

first_off : (b : Bool) → b && true ≡ false → b ≡ false
first_off b h = ground arith

is_text_object-off : (o : Option Value) → is_text_object o ≡ false → o ≡ some (string "object") → ⊥
is_text_object-off o n e = cc (subst (λ u. is_text_object u ≡ false) e n)

has_properties-off : (m : Fields) → has_properties m ≡ false → IsOther m
unfolding has_properties contains_key
has_properties-off m n = elim (Option-cases (get "properties" m)) [
  | inl e ↦ inr e
  | inr (ps, e) ↦
      inl
        (is_text_object-off (get "type" m) (first_off (is_text_object (get "type" m)) (rw e at n)))
]

IsClosed-if : (m : Fields) → (has_properties m ≡ true → IsSealed m) → IsClosed m
IsClosed-if m h = elim (Bool-cases (has_properties m)) [
  | inl y ↦ inr (h y)
  | inr n ↦ inl (has_properties-off m n)
]

unfoldable mutual
  pub Strict : Place → Value → Type 0
  Strict properties (object ps) = StrictValues ps
  Strict schema (object m) = IsClosed m × StrictFields m
  Strict list (array vs) = StrictItems vs
  Strict defs (object ds) = StrictValues ds
  Strict _ v = Unit {0}

  pub StrictFields : Fields → Type 0
  StrictFields end = Unit {0}
  StrictFields (field k v fs) = Strict (place_of k) v × StrictFields fs

  pub StrictValues : Fields → Type 0
  StrictValues end = Unit {0}
  StrictValues (field k v fs) = Strict schema v × StrictValues fs

  pub StrictItems : Items → Type 0
  StrictItems nil = Unit {0}
  StrictItems (cons v vs) = Strict schema v × StrictItems vs

StrictFields-insert :
    (k : String) (v : Value) (fs : Fields)
    → Strict (place_of k) v
    → StrictFields fs
    → StrictFields (insert k v fs)
unfolding Strict insert
StrictFields-insert k v end h g = (h, tt)
StrictFields-insert k v (field j w fs) h g = ground (arith, StrictFields-insert k v fs h)

enforce-IsSealed :
    (m : Fields) (o : List String)
    → has_properties (enforce m (strict_fields o m)) ≡ true
    → IsSealed (enforce m (strict_fields o m))
unfolding enforce
enforce-IsSealed m o = elim (Bool-cases (has_properties m)) [
  | inl y ↦ rw y (λ h.
      let r = required_names m in
      let below = strict_fields o m in
      (
        get-enforced "additionalProperties" r below,
        get-enforced "required" r below
            ∙ ap (λ ns. some (array (to_items (map string (sort ns)))))
                (sym (all_names-enforced r below ∙ all_names-strict_fields o m)),
      ))
  | inr off ↦ rw off (λ h. cc (off, sym (has_properties-strict_fields o m), h))
]

enforce-IsClosed : (m : Fields) (o : List String) → IsClosed (enforce m (strict_fields o m))
enforce-IsClosed m o = IsClosed-if (enforce m (strict_fields o m)) (enforce-IsSealed m o)

enforce-StrictFields : (m below : Fields) → StrictFields below → StrictFields (enforce m below)
unfolding enforce Strict place_of
enforce-StrictFields m below h = elim (Bool-cases (has_properties m)) [
  | inl y ↦ rw y (
      StrictFields-insert "required" (required_names m)
        (insert "additionalProperties" (bool false) below) tt
        (StrictFields-insert "additionalProperties" (bool false) below tt h))
  | inr off ↦ rw off h
]

-- A type that admits null is not the text "object".
nullable_type-is_object_text : (t : Value) → is_object_text (nullable_type t) ≡ false
nullable_type-is_object_text (array arr) = elim (Bool-cases (any is_null_text (items arr))) [
  | inl y ↦ rw y refl
  | inr off ↦ rw off refl
]
nullable_type-is_object_text _ = refl

pub has_properties-nullable :
    (t : Value) (fs : Fields) → has_properties (insert "type" (nullable_type t) fs) ≡ false
unfolding has_properties
has_properties-nullable t fs =
    rw (get-insert "type" "type" (nullable_type t) fs, nullable_type-is_object_text t) refl

or_null-Strict : (v : Value) → Strict schema v → Strict schema (or_null v)
unfolding Strict place_of has_properties get
or_null-Strict v h = (inl (inr refl), ((h, ((inl (inr refl), (tt, tt)), tt)), tt))

mutual
  unfolding Strict strict_at place_of

  pub convert_to_strict-Strict : (v : Value) → Strict schema (convert_to_strict v)
  convert_to_strict-Strict (object m) = (
    enforce-IsClosed m (optional_names m),
    enforce-StrictFields m (strict_fields (optional_names m) m)
        (strict_fields-Strict (optional_names m) m),
  )
  convert_to_strict-Strict _ = tt

  strict_nullable-Strict : (v : Value) → Strict schema (strict_nullable v)
  strict_nullable-Strict (object m) = elim (Option-cases (get "type" m)) [
    | inl e ↦
        rw (e, strict_nullable)
          (or_null-Strict (object (enforce m (strict_fields (optional_names m) m))) (
            enforce-IsClosed m (optional_names m),
            enforce-StrictFields m (strict_fields (optional_names m) m)
                (strict_fields-Strict (optional_names m) m),
          ))
    | inr (t, e) ↦
        rw (e, strict_nullable)
          (
            inl (
                has_properties-off (insert "type" (nullable_type t) (strict_fields [] m))
                  (has_properties-nullable t (strict_fields [] m))),
            StrictFields-insert "type" (nullable_type t) (strict_fields [] m) tt
                (strict_fields-Strict [] m),
          )
  ]
  strict_nullable-Strict _ = tt

  strict_fields-Strict : (o : List String) (fs : Fields) → StrictFields (strict_fields o fs)
  strict_fields-Strict o end = tt
  strict_fields-Strict o (field k v fs) =
      (strict_at-Strict (place_of k) o v, strict_fields-Strict o fs)

  strict_at-Strict : (p : Place) (o : List String) (v : Value) → Strict p (strict_at p o v)
  strict_at-Strict properties o (object ps) = strict_props-Strict o ps
  strict_at-Strict schema o (object m) = (
    enforce-IsClosed m (optional_names m),
    enforce-StrictFields m (strict_fields (optional_names m) m)
        (strict_fields-Strict (optional_names m) m),
  )
  strict_at-Strict list o (array vs) = strict_items-Strict vs
  strict_at-Strict defs o (object ds) = strict_props-Strict [] ds
  strict_at-Strict _ o v = tt

  strict_props-Strict : (o : List String) (ps : Fields) → StrictValues (strict_props o ps)
  strict_props-Strict o end = tt
  strict_props-Strict o (field k v ps) = elim (Bool-cases (contains o k)) [
    | inl y ↦ rw y (strict_nullable-Strict v, strict_props-Strict o ps)
    | inr off ↦ rw off (convert_to_strict-Strict v, strict_props-Strict o ps)
  ]

  strict_items-Strict : (vs : Items) → StrictItems (strict_items vs)
  strict_items-Strict nil = tt
  strict_items-Strict (cons v vs) = (convert_to_strict-Strict v, strict_items-Strict vs)
