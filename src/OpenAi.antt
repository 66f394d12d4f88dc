-- ===== src/OpenAi.antt =====
-- src/converters/openai.rs: the strict mode of OpenAI tools. A map keeps its keys sorted.
pub mod Keys
pub mod Strict
pub mod Order
pub mod Clean
pub mod Tools
pub mod Converted
pub mod Named
mod Examples
use apcore_mcp_rust.Prelude.{
  String, Bool, true, false, not, ◌&&◌, ◌||◌, Option, none, some, List, [], ◌∷◌, ◌++◌, map, ◌==◌,
  starts_with, if◌then◌else◌, any, contains,
}
use apcore_mcp_rust.Json.{
  Value, bool, string, array, object, Items, nil, cons, Fields, end, field, get, insert,
  contains_key, keys, items, to_items, as_str,
}
use apcore_mcp_rust.Acl.{sort, filter, texts}
use apcore_mcp_rust.Schema.{is_object_text}

pub record ConvertOptions : Type 0 where
  embed_annotations : Bool
  strict : Bool
  rich_description : Bool

-- `apply_llm_descriptions`. The source inserts the description before it descends, which leaves
-- the text as it is.
abbrev pub promote : Fields → Fields → Fields
promote m below = elim (get "x-llm-description" m) [
  | none ↦ below
  | some v ↦ elim (as_str v) [
    | none ↦ below
    | some llm_desc ↦ insert "description" (string llm_desc) below
  ]
]

unfoldable mutual
  pub apply_llm_descriptions : Value → Value
  apply_llm_descriptions (object map) = object (promote map (llm_fields map))
  apply_llm_descriptions (array arr) = array (llm_items arr)
  apply_llm_descriptions v = v

  pub llm_fields : Fields → Fields
  llm_fields end = end
  llm_fields (field k v fs) = field k (apply_llm_descriptions v) (llm_fields fs)

  pub llm_items : Items → Items
  llm_items nil = nil
  llm_items (cons v vs) = cons (apply_llm_descriptions v) (llm_items vs)

unfoldable pub is_extension : String → Bool
is_extension k = starts_with k "x-" || k == "default"

unfoldable mutual
  pub strip_extensions : Value → Value
  strip_extensions (object map) = object (strip_fields map)
  strip_extensions (array arr) = array (strip_items arr)
  strip_extensions v = v

  -- `retain` and the loop over what it leaves.
  pub strip_fields : Fields → Fields
  strip_fields end = end
  strip_fields (field k v fs) =
      let rest = strip_fields fs in
      let stripped = strip_extensions v in if is_extension k then rest else field k stripped rest

  pub strip_items : Items → Items
  strip_items nil = nil
  strip_items (cons v vs) = cons (strip_extensions v) (strip_items vs)

-- An object schema with properties.
abbrev pub is_text_object : Option Value → Bool
is_text_object none = false
is_text_object (some t) = is_object_text t

unfoldable pub has_properties : Fields → Bool
has_properties m = is_text_object (get "type" m) && contains_key "properties" m

abbrev pub names_at : Option Value → List String
names_at (some (object props)) = keys props
names_at _ = []

abbrev pub texts_at : Option Value → List String
texts_at (some (array arr)) = texts (items arr)
texts_at _ = []

unfoldable pub all_names : Fields → List String
all_names m = names_at (get "properties" m)

unfoldable pub existing_required : Fields → List String
existing_required m = texts_at (get "required" m)

-- The properties that are made nullable before the walk descends into them.
unfoldable pub optional_names : Fields → List String
unfolding has_properties all_names existing_required
optional_names m =
    if has_properties m
    then filter (λ n. not (contains (existing_required m) n)) (all_names m)
    else []

abbrev pub is_null_text : Value → Bool
is_null_text (string s) = s == "null"
is_null_text _ = false

abbrev pub nullable_type : Value → Value
nullable_type (string original) = array (cons (string original) (cons (string "null") nil))
nullable_type (array arr) =
    if any is_null_text (items arr)
    then array arr
    else array (to_items (items arr ++ string "null" ∷ []))
nullable_type t = t

abbrev pub null_schema : Value
null_schema = object (field "type" (string "null") end)

-- `json!({"oneOf": [original, {"type": "null"}]})`
abbrev pub or_null : Value → Value
or_null original = object (field "oneOf" (array (cons original (cons null_schema nil))) end)

unfoldable pub make_nullable : Value → Value
make_nullable (object obj) = elim (get "type" obj) [
  | none ↦ or_null (object obj)
  | some type_val ↦ object (insert "type" (nullable_type type_val) obj)
]
make_nullable v = v

-- What the walk makes of the value under a key.
pub data Place : Type 0 where
  properties schema list defs other : Place

unfoldable pub place_of : String → Place
place_of k =
    if k == "properties"
    then properties
    else if k == "items"
    then schema
    else if contains ("oneOf" ∷ "anyOf" ∷ "allOf" ∷ []) k
    then list
    else if contains ("$defs" ∷ "definitions" ∷ []) k
    then defs
    else other

-- The two insertions on an object schema with properties. The source makes them before it
-- descends, which leaves their values as they are; here they come after, on the map as given.
unfoldable pub enforce : Fields → Fields → Fields
unfolding has_properties all_names
enforce m below =
    if has_properties m
    then insert "required" (array (to_items (map string (sort (all_names m)))))
        (insert "additionalProperties" (bool false) below)
    else below

unfoldable mutual
  unfolding enforce optional_names

  pub convert_to_strict : Value → Value
  convert_to_strict (object obj) = object (enforce obj (strict_fields (optional_names obj) obj))
  convert_to_strict v = v

  -- `make_nullable` and then the walk: see `strict_nullable-make_nullable`.
  pub strict_nullable : Value → Value
  strict_nullable (object obj) = elim (get "type" obj) [
    | none ↦ or_null (object (enforce obj (strict_fields (optional_names obj) obj)))
    | some type_val ↦ object (insert "type" (nullable_type type_val) (strict_fields [] obj))
  ]
  strict_nullable v = v

  pub strict_fields : List String → Fields → Fields
  strict_fields optional end = end
  strict_fields optional (field k v fs) =
      field k (strict_at (place_of k) optional v) (strict_fields optional fs)

  pub strict_at : Place → List String → Value → Value
  strict_at properties optional (object props) = object (strict_props optional props)
  strict_at schema optional (object obj) =
      object (enforce obj (strict_fields (optional_names obj) obj))
  strict_at list optional (array arr) = array (strict_items arr)
  strict_at defs optional (object ds) = object (strict_props [] ds)
  strict_at _ optional v = v

  pub strict_props : List String → Fields → Fields
  strict_props optional end = end
  strict_props optional (field name prop props) =
      field name
        (elim (contains optional name) [
          | true ↦ strict_nullable prop
          | false ↦ convert_to_strict prop
        ])
        (strict_props optional props)

  pub strict_items : Items → Items
  strict_items nil = nil
  strict_items (cons v vs) = cons (convert_to_strict v) (strict_items vs)

unfoldable pub apply_strict_mode : Value → Value
unfolding convert_to_strict strip_extensions apply_llm_descriptions
apply_strict_mode v = convert_to_strict (strip_extensions (apply_llm_descriptions v))
