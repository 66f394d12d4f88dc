-- ===== src/OpenAi/Order.antt =====
-- The strict walk of src/converters/openai.rs against the order in which the source writes.
use apcore_mcp_rust.Prelude.{
  String, ◌≡◌, refl, sym, ap, ◌∙◌, inl, inr, Bool, true, false, List, [], ◌∷◌, map, arith, ◌==◌,
  eq_iff, if◌then◌else◌, Bool-cases, Option-cases, contains,
}
use apcore_mcp_rust.Json.{
  Value, bool, string, array, object, Fields, end, field, get, insert, to_items,
}
use apcore_mcp_rust.Acl.{sort}
use apcore_mcp_rust.OpenAi.{
  Place, properties, schema, list, defs, place_of, has_properties, all_names, optional_names,
  nullable_type, make_nullable, enforce, convert_to_strict, strict_nullable, strict_fields,
  strict_at, strict_props,
}
use apcore_mcp_rust.OpenAi.Strict.{has_properties-nullable}

-- Make optional properties nullable
unfoldable pub nullable_props : List String → Fields → Fields
unfolding make_nullable
nullable_props optional end = end
nullable_props optional (field name prop props) =
    field name (if contains optional name then make_nullable prop else prop)
      (nullable_props optional props)

abbrev pub nullable_at : List String → Value → Value
unfolding nullable_props
nullable_at optional (object props) = object (nullable_props optional props)
nullable_at optional v = v

unfoldable pub nullable_fields : List String → Fields → Fields
unfolding nullable_props
nullable_fields optional end = end
nullable_fields optional (field k v fs) =
    field k (if k == "properties" then nullable_at optional v else v) (nullable_fields optional fs)

-- Process object schemas with properties
unfoldable pub process : Fields → Fields
unfolding nullable_fields has_properties optional_names all_names
process obj =
    if has_properties obj
    then insert "required" (array (to_items (map string (sort (all_names obj)))))
        (nullable_fields (optional_names obj) (insert "additionalProperties" (bool false) obj))
    else obj

-- The recursions
unfoldable pub recurse : Fields → Fields
unfolding strict_at
recurse obj = strict_fields [] obj

strict_fields-insert :
    (o : List String) (k : String) (v : Value) (fs : Fields)
    → strict_fields o (insert k v fs) ≡ insert k (strict_at (place_of k) o v) (strict_fields o fs)
unfolding strict_at insert
strict_fields-insert o k v end = refl
strict_fields-insert o k v (field j w fs) = ground (arith, strict_fields-insert o k v fs)

enforce_off :
    (m : Fields)
    → has_properties m ≡ false
    → enforce m (strict_fields (optional_names m) m) ≡ strict_fields [] m
unfolding enforce optional_names
enforce_off m off = rw off refl

strict_nullable-make_nullable :
    (v : Value) → strict_nullable v ≡ convert_to_strict (make_nullable v)
unfolding strict_at make_nullable enforce optional_names has_properties get place_of
strict_nullable-make_nullable (object m) = elim (Option-cases (get "type" m)) [
  | inl e ↦ rw (e, strict_nullable, make_nullable) refl
  | inr (t, e) ↦
      rw (e, strict_nullable, make_nullable)
        (ap object (
          sym (
            enforce_off (insert "type" (nullable_type t) m) (has_properties-nullable t m)
            ∙ strict_fields-insert [] "type" (nullable_type t) m)))
]
strict_nullable-make_nullable _ = refl

strict_props-nullable_props :
    (o : List String) (ps : Fields) → strict_props [] (nullable_props o ps) ≡ strict_props o ps
unfolding strict_at nullable_props
strict_props-nullable_props o end = refl
strict_props-nullable_props o (field k v ps) = elim (Bool-cases (contains o k)) [
  | inl y ↦ rw (y, strict_props-nullable_props o ps, strict_nullable-make_nullable v) refl
  | inr off ↦ rw (off, strict_props-nullable_props o ps) refl
]

strict_at-nullable_at :
    (o : List String) (v : Value)
    → strict_at (place_of "properties") [] (nullable_at o v) ≡ strict_at (place_of "properties") o v
unfolding strict_at nullable_at place_of
strict_at-nullable_at o (object ps) = ap object (strict_props-nullable_props o ps)
strict_at-nullable_at o _ = refl

-- Only the properties of a schema can be optional.
abbrev is_properties : Place → Bool
is_properties properties = true
is_properties _ = false

strict_at_elsewhere :
    (p : Place) (o : List String) (v : Value)
    → is_properties p ≡ false
    → strict_at p [] v ≡ strict_at p o v
unfolding strict_at
strict_at_elsewhere properties o v h = cc
strict_at_elsewhere schema o (object m) h = refl
strict_at_elsewhere list o (array vs) h = refl
strict_at_elsewhere defs o (object ds) h = refl
strict_at_elsewhere _ o _ h = refl

is_properties-place_of :
    (k : String) → (k == "properties") ≡ false → is_properties (place_of k) ≡ false
unfolding place_of
is_properties-place_of k off = rw off (elim (Bool-cases (k == "items")) [
  | inl y ↦ rw y refl
  | inr n ↦ rw n (elim (Bool-cases (contains ("oneOf" ∷ "anyOf" ∷ "allOf" ∷ []) k)) [
    | inl y ↦ rw y refl
    | inr n' ↦ rw n' (elim (Bool-cases (contains ("$defs" ∷ "definitions" ∷ []) k)) [
      | inl y ↦ rw y refl
      | inr n'' ↦ rw n'' refl
    ])
  ])
])

strict_fields-nullable_fields :
    (o : List String) (fs : Fields) → strict_fields [] (nullable_fields o fs) ≡ strict_fields o fs
unfolding strict_at nullable_fields
strict_fields-nullable_fields o end = refl
strict_fields-nullable_fields o (field k v fs) = elim (Bool-cases (k == "properties")) [
  | inl y ↦
      rw (y, (eq_iff k "properties").0 y, strict_fields-nullable_fields o fs)
        (ap (λ w. field "properties" w (strict_fields o fs)) (strict_at-nullable_at o v))
  | inr off ↦
      rw (off, strict_fields-nullable_fields o fs)
        (ap (λ w. field k w (strict_fields o fs))
          (strict_at_elsewhere (place_of k) o v (is_properties-place_of k off)))
]

strict_fields_ordered :
    (o : List String) (r : Value) (m : Fields)
    → strict_fields []
        (insert "required" r (nullable_fields o (insert "additionalProperties" (bool false) m)))
      ≡ insert "required" r (insert "additionalProperties" (bool false) (strict_fields o m))
unfolding strict_at place_of
strict_fields_ordered o r m =
    let sealed = insert "additionalProperties" (bool false) m in
    strict_fields-insert [] "required" r (nullable_fields o sealed)
    ∙ ap (insert "required" (strict_at (place_of "required") [] r)) (
        strict_fields-nullable_fields o sealed
        ∙ strict_fields-insert o "additionalProperties" (bool false) m)

-- convert_to_strict is the preparation of the map, where an optional property is made nullable
-- before anything descends into it, followed by the recursions into the prepared map.
pub convert_to_strict-process :
    (m : Fields) → convert_to_strict (object m) ≡ object (recurse (process m))
unfolding process recurse strict_at enforce
convert_to_strict-process m = elim (Bool-cases (has_properties m)) [
  | inl y ↦ rw y (ap object (sym (strict_fields_ordered _ _ m)))
  | inr off ↦ rw off refl
]
