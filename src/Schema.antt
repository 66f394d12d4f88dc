-- ===== src/Schema.antt =====
-- src/adapters/schema.rs: JSON schemas of modules made into schemas of tools.
pub mod References
pub mod Objects
pub mod Strict
pub mod Walk
pub mod Tool
mod Examples
use apcore_mcp_rust.Prelude.{
  ℕ, zero, suc, ◌+◌, String, Bool, true, false, not, ◌&&◌, none, some, List, [], ◌∷◌, ◌==◌,
  starts_with, if◌then◌else◌, unwrap_or, any, ◌<>◌, contains,
}
use Prim.Native.String.{len, slice}
use apcore_mcp_rust.Adapters.{schema_conversion, Result}
use apcore_mcp_rust.Prelude.Fallible.{ok, err, ◌>>=◌, ok_or}
use apcore_mcp_rust.Json.{
  Value, null, bool, string, array, object, Items, nil, cons, Fields, end, field, get, insert,
  remove, contains_key, has_no_fields, items, as_str, as_object, get_key, fields_of,
}

-- `MAX_REF_DEPTH`; a call at depth `d` of the source has `max_ref_depth + 1 - d` levels left.
abbrev max_ref_depth : ℕ
max_ref_depth = 32

unfoldable pub resolve_ref : String → Value → Result Value
resolve_ref ref_path defs =
    if not (starts_with ref_path "#/$defs/")
    then err (schema_conversion ("Unsupported $ref format: " <> ref_path))
    else do
      defs_map ← ok_or (as_object defs) (schema_conversion "$defs must be an object")
      let def_name = slice ref_path 8 (len ref_path)
      ok_or (get def_name defs_map) (schema_conversion ("Definition not found: " <> def_name))

-- The loops over a map and over an array, with the call for one entry as an argument.
unfoldable pub inline_fields : (Value → Result Value) → String → Fields → Fields → Result Fields
inline_fields inline skipped end result = ok result
inline_fields inline skipped (field key value fs) result =
    if key == skipped
    then inline_fields inline skipped fs result
    else do inlined ← inline value; inline_fields inline skipped fs (insert key inlined result)

unfoldable pub inline_items : (Value → Result Value) → Items → Result Items
inline_items inline nil = ok nil
inline_items inline (cons v vs) = do
  item ← inline v
  rest ← inline_items inline vs
  ok (cons item rest)

-- The map is the reference alone.
abbrev pub is_single : Fields → Bool
is_single (field k v end) = true
is_single _ = false

abbrev pub base_of : Value → Fields
base_of (object m) = m
base_of _ = end

abbrev pub is_object : Value → Bool
is_object (object m) = true
is_object _ = false

-- What a reference together with its siblings becomes, given its inlined target.
abbrev pub merge : (Value → Result Value) → Fields → Value → Result Value
merge inline m inlined =
    if not (is_object inlined) && is_single m
    then ok inlined
    else do result ← inline_fields inline "$ref" m (base_of inlined); ok (object result)

module _ (defs : Value) where
  unfoldable pub inline_refs : ℕ → List String → Value → Result Value
  unfolding resolve_ref inline_fields inline_items
  inline_refs zero seen v = err (schema_conversion "$ref resolution exceeded maximum depth of 32")
  inline_refs (suc room) seen (object m) = elim (get "$ref" m) [
    | none ↦ do result ← inline_fields (inline_refs room seen) "$defs" m end; ok (object result)
    | some ref_val ↦ do
      ref_path ← ok_or (as_str ref_val) (schema_conversion "$ref value must be a string")
      if contains seen ref_path
          then err (schema_conversion ("Circular $ref detected: " <> ref_path))
          else do
            resolved ← resolve_ref ref_path defs
            inlined ← inline_refs room (ref_path ∷ seen) resolved
            merge (inline_refs room seen) m inlined
  ]
  inline_refs (suc room) seen (array arr) = do
    vs ← inline_items (inline_refs room seen) arr
    ok (array vs)
  inline_refs (suc room) seen null = ok null
  inline_refs (suc room) seen (bool b) = ok (bool b)
  inline_refs (suc room) seen (Value.number n) = ok (Value.number n)
  inline_refs (suc room) seen (string s) = ok (string s)

abbrev pub is_object_text : Value → Bool
is_object_text (string s) = s == "object"
is_object_text _ = false

-- `"object"`, or a list of types that has it.
abbrev pub names_object : Value → Bool
names_object (string s) = s == "object"
names_object (array vs) = any is_object_text (items vs)
names_object _ = false

unfoldable pub ensure_object_type : Value → Value
ensure_object_type (object m) = elim (get "type" m) [
  | none ↦ object (insert "type" (string "object") m)
  | some t ↦
      if contains_key "properties" m && not (names_object t)
      then object (insert "type" (string "object") m)
      else object m
]
ensure_object_type v = v

abbrev pub is_object_type : Fields → Bool
is_object_type m = elim (get "type" m) [
  | none ↦ contains_key "properties" m
  | some t ↦ names_object t
]

abbrev pub dict_keys : List String
dict_keys = "properties" ∷ "patternProperties" ∷ "$defs" ∷ "definitions" ∷ []

abbrev pub schema_keys : List String
schema_keys =
    "items" ∷ "additionalProperties" ∷ "not" ∷ "if" ∷ "then" ∷ "else" ∷ "contains" ∷ "propertyNames"
    ∷ []

abbrev pub list_keys : List String
list_keys = "oneOf" ∷ "anyOf" ∷ "allOf" ∷ "prefixItems" ∷ []

-- The insertion of `"additionalProperties": false`. The source makes it before it descends, which
-- leaves the `false` as it is; here it comes after, on the tests of the map as given.
abbrev pub seal : Fields → Fields → Fields
seal m below =
    if is_object_type m && not (contains_key "additionalProperties" m)
    then insert "additionalProperties" (bool false) below
    else below

-- How the walk treats the value under a key: as a map of schemas, a schema, a list of schemas, or
-- not at all.
pub data Role : Type 0 where
  dict schema list plain : Role

unfoldable pub role : String → Role
role k =
    if contains dict_keys k
    then dict
    else if contains schema_keys k
    then schema
    else if contains list_keys k
    then list
    else plain

-- Each key of a map is visited once: `inject_fields` does at each entry what the three loops over
-- the lists of keys do.
unfoldable mutual
  pub inject : Role → Value → Value
  inject schema (object m) = object (seal m (inject_fields m))
  inject schema (array vs) = array (inject_items vs)
  inject dict (object inner) = object (inject_values inner)
  inject list (array vs) = array (inject_items vs)
  inject _ v = v

  pub inject_items : Items → Items
  inject_items nil = nil
  inject_items (cons v vs) = cons (inject schema v) (inject_items vs)

  pub inject_fields : Fields → Fields
  inject_fields end = end
  inject_fields (field k v fs) = field k (inject (role k) v) (inject_fields fs)

  pub inject_values : Fields → Fields
  inject_values end = end
  inject_values (field k v fs) = field k (inject schema v) (inject_values fs)

unfoldable pub inject_strict : Value → Value
unfolding inject
inject_strict node = inject schema node

abbrev pub is_blank_schema : Value → Bool
is_blank_schema null = true
is_blank_schema (object m) = has_no_fields m
is_blank_schema _ = false

abbrev pub base_fields : Bool → Fields
base_fields strict =
    let base = ("type", string "object") ∷ ("properties", object end) ∷ [] in
    fields_of (if strict then ("additionalProperties", bool false) ∷ base else base)

abbrev pub base_schema : Bool → Value
base_schema strict = object (base_fields strict)

abbrev pub without_defs : Value → Value
without_defs (object m) = object (remove "$defs" m)
without_defs v = v

unfoldable pub convert_schema_with : Value → Bool → Result Value
unfolding inline_refs ensure_object_type inject_strict
convert_schema_with v strict = if is_blank_schema v then ok (base_schema strict) else do
  let defs = unwrap_or (get_key "$defs" v) (object end)
  inlined ← inline_refs defs (max_ref_depth + 1) [] v
  let typed = ensure_object_type (without_defs inlined)
  ok (if strict then inject_strict typed else typed)

unfoldable pub convert_input_schema_strict : Value → Bool → Result Value
unfolding convert_schema_with
convert_input_schema_strict v strict = convert_schema_with v strict

unfoldable pub convert_output_schema_strict : Value → Bool → Result Value
unfolding convert_schema_with
convert_output_schema_strict v strict = convert_schema_with v strict

unfoldable pub convert_input_schema : Value → Result Value
unfolding convert_schema_with
convert_input_schema v = convert_schema_with v true

unfoldable pub convert_output_schema : Value → Result Value
unfolding convert_schema_with
convert_output_schema v = convert_schema_with v true
