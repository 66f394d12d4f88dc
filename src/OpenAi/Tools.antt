-- ===== src/OpenAi/Tools.antt =====
-- src/converters/openai.rs: descriptors and registries made into OpenAI tools.
use apcore_mcp_rust.Prelude.{
  ℕ, String, Bool, true, false, not, Option, none, some, List, [], ◌∷◌, ◌++◌, map, ◌==◌,
  starts_with, if◌then◌else◌, unwrap_or, all, ◌<>◌, contains,
}
use apcore_mcp_rust.Prelude.Map.{Map}
use apcore_mcp_rust.Prelude.Map
use apcore_mcp_rust.Prelude.Fallible.{Fallible, ok, err, ◌>>=◌}
use apcore_mcp_rust.Json.{
  Value, null, bool, string, array, object, Fields, end, get, insert, keys, as_str, as_array,
  as_object, get_key, and_then, get_str, json, fields_of, to_items,
}
use apcore_mcp_rust.Acl.{sort, texts}
use apcore_mcp_rust.Adapters.{AdapterError}
use apcore_mcp_rust.Schema.{convert_input_schema_strict}
use apcore_mcp_rust.ModuleId.Pattern.{Regex}
use apcore_mcp_rust.ModuleId.{normalize}
use apcore_mcp_rust.Annotations.{ModuleAnnotations, to_description_suffix}
use apcore_mcp_rust.OpenAi.{ConvertOptions, apply_strict_mode}

pub data ConverterError : Type 0 where
  adapter : AdapterError → ConverterError
  strict_mode : String → ConverterError

abbrev pub Result {ℓ} : Type ℓ → Type ℓ
Result A = Fallible ConverterError A

-- `?` on a result of an adapter
abbrev pub from {ℓ} : {A : Type ℓ} → Fallible AdapterError A → Result A
from (err e) = err (adapter e)
from (ok a) = ok a

-- apcore-toolkit's `ScannedModule`, with the fields that are set from an entry; `Example` is
-- apcore's type of examples.
pub record ScannedModule (Example : Type 0) : Type 0 where
  pub module_id : String
  pub description : String
  pub input_schema : Value
  pub output_schema : Value
  pub tags : List String
  pub version : String
  pub annotations : Option ModuleAnnotations
  pub documentation : Option String
  pub examples : List Example
  pub metadata : Fields
  pub display : Option Value

-- apcore's readers of values, its default annotations, `{}` of a number, and the formatter of
-- apcore-toolkit in the style Markdown, none where its output is no text.
pub record Api (Example : Type 0) : Type 0 where
  pub annotations_of : Value → Option ModuleAnnotations
  pub example_of : Value → Option Example
  pub defaults : ModuleAnnotations
  pub show : ℕ → String
  pub format_module : ScannedModule Example → Option String

abbrev pub filter_map {ℓ} : {A : Type ℓ} → (Value → Option A) → List Value → List A
filter_map f [] = []
filter_map f (v ∷ vs) = elim (f v) [ none ↦ filter_map f vs | some a ↦ a ∷ filter_map f vs ]

abbrev pub tags_of : Value → List String
tags_of entry = elim (and_then (get_key "tags" entry) as_array) [ none ↦ [] | some arr ↦ texts arr ]

abbrev pub tool_name_of : Value → String
unfolding get_key
tool_name_of tool =
    unwrap_or (and_then (and_then (get_key "function" tool) (get_key "name")) as_str) ""

-- A module of apcore's registry, as far as it is read.
pub record ModuleDescriptor : Type 0 where
  pub description : String
  pub input_schema : Value
  pub annotations : Value
  pub tags : List String

abbrev pub plain_options : (embed_annotations strict : Bool) → ConvertOptions
plain_options embed_annotations strict = record {
  embed_annotations = embed_annotations;
  strict = strict;
  rich_description = false;
}

-- Another module that has the name.
unfoldable pub colliding : Map String → String → String → Option String
unfolding Map.get
colliding seen_names tool_name module_id = elim (Map.get tool_name seen_names) [
  | none ↦ none
  | some existing ↦ if existing == module_id then none else some existing
]

abbrev pub passes_prefix : Option String → String → Bool
passes_prefix none module_id = true
passes_prefix (some pfx) module_id = starts_with module_id pfx

abbrev pub passes_tags : Option (List String) → Value → Bool
passes_tags none entry = true
passes_tags (some required_tags) entry = all (contains (tags_of entry)) required_tags

abbrev pub collision : String → String → String → String → ConverterError
collision hint existing module_id tool_name = strict_mode (
    "OpenAI function-name collision: module ids '" <> existing <> "' and '" <> module_id
    <> "' both normalize to '" <> tool_name <> "'." <> hint)

abbrev pub rename_hint : String
rename_hint =
    " OpenAI requires unique function names; rename one of the modules to avoid the collision."

module _ {Example : Type 0} (api : Api Example) where
  unfoldable pub json_entry_to_scanned_module : String → Value → ScannedModule Example
  json_entry_to_scanned_module module_id entry = record {
    module_id = module_id;
    description = unwrap_or (get_str "description" entry) "";
    input_schema = unwrap_or (get_key "input_schema" entry) (object end);
    output_schema = unwrap_or (get_key "output_schema" entry) (object end);
    tags = tags_of entry;
    version = unwrap_or (get_str "version" entry) "1.0.0";
    annotations = and_then (get_key "annotations" entry) api.annotations_of;
    documentation = get_str "documentation" entry;
    examples =
        filter_map api.example_of (unwrap_or (and_then (get_key "examples" entry) as_array) []);
    metadata = unwrap_or (and_then (get_key "metadata" entry) as_object) end;
    display = get_key "display" entry;
  }

  unfoldable pub described : ConvertOptions → String → Value → String → String
  unfolding json_entry_to_scanned_module
  described options name entry plain =
      if options.rich_description
      then unwrap_or (api.format_module (json_entry_to_scanned_module name entry)) plain
      else plain

  unfoldable pub suffix_of : ConvertOptions → Value → String
  unfolding to_description_suffix
  suffix_of options descriptor =
      if options.embed_annotations
      then to_description_suffix api.show api.defaults
          (and_then (get_key "annotations" descriptor) api.annotations_of)
      else ""

  -- The tool of a descriptor whose name and schema are converted.
  unfoldable pub tool_of : ConvertOptions → String → String → Value → Value
  unfolding apply_strict_mode fields_of insert
  tool_of options name desc parameters =
      let function =
        ("name", string name)
        ∷ ("description", string desc)
        ∷ ("parameters", if options.strict then apply_strict_mode parameters else parameters)
        ∷ [] in
      json (
        ("type", string "function")
        ∷ (
          "function",
          json (function ++ (if options.strict then ("strict", bool true) ∷ [] else [])),
        )
        ∷ [])

  unfoldable pub select_entry :
      Fields
      → ConvertOptions
      → Option (List String)
      → Option String
      → String
      → Option (Value × String)
  unfolding get described
  select_entry modules options tags prefix module_id =
      if not (passes_prefix prefix module_id) then none else elim (get module_id modules) [
        | none ↦ none
        | some entry ↦
            if not (passes_tags tags entry)
            then none
            else some (
              entry,
              described options module_id entry (unwrap_or (get_str "description" entry) ""),
            )
      ]

  module _ (is_match : Regex → String → Bool) where
    unfoldable pub convert_descriptor_with_options :
        String → Value → String → ConvertOptions → Result Value
    unfolding normalize convert_input_schema_strict tool_of described suffix_of
    convert_descriptor_with_options name descriptor description options = do
      normalized_name ← from (normalize is_match name)
      let input_schema = unwrap_or (get_key "input_schema" descriptor) null
      parameters ← from (convert_input_schema_strict input_schema false)
      let desc = described options name descriptor description <> suffix_of options descriptor
      ok (tool_of options normalized_name desc parameters)

    unfoldable pub convert_descriptor : String → Value → String → Bool → Bool → Result Value
    unfolding convert_descriptor_with_options
    convert_descriptor name descriptor description embed_annotations strict =
        convert_descriptor_with_options name descriptor description
          (plain_options embed_annotations strict)

    -- The loop over the IDs: `select` is the descriptor and the description of a module that is
    -- not skipped, and `hint` the end of the message on a collision.
    module _ (options : ConvertOptions) (select : String → Option (Value × String))
        (hint : String) where
      unfoldable pub convert_modules : Map String → List String → Result (List Value)
      unfolding convert_descriptor_with_options Map.insert
      convert_modules seen_names [] = ok []
      convert_modules seen_names (module_id ∷ ids) = elim (select module_id) [
        | none ↦ convert_modules seen_names ids
        | some (descriptor, description) ↦ do
          tool ←
              convert_descriptor_with_options module_id descriptor description
                (record options { rich_description = false })
          let tool_name = tool_name_of tool
          elim (colliding seen_names tool_name module_id) [
            | some existing ↦ err (collision hint existing module_id tool_name)
            | none ↦ do
              tools ← convert_modules (Map.insert tool_name module_id seen_names) ids
              ok (tool ∷ tools)
          ]
      ]

    unfoldable pub convert_registry_json_with_options :
        Value → ConvertOptions → Option (List String) → Option String → Result (List Value)
    unfolding convert_modules select_entry
    convert_registry_json_with_options registry options tags prefix = elim (as_object registry) [
      | none ↦ ok []
      | some modules ↦
          convert_modules options (select_entry modules options tags prefix) rename_hint []
            (sort (keys modules))
    ]

    unfoldable pub convert_registry_json :
        Value → Bool → Bool → Option (List String) → Option String → Result (List Value)
    unfolding convert_registry_json_with_options
    convert_registry_json registry embed_annotations strict tags prefix =
        convert_registry_json_with_options registry (plain_options embed_annotations strict) tags
          prefix

    -- apcore's registry by its list and its definitions, and the Markdown of a descriptor.
    module _ (registry_list : Option (List String) → Option String → List String)
        (get_definition : String → Option ModuleDescriptor)
        (render_module_markdown : String → ModuleDescriptor → Option String) where
      unfoldable pub select_descriptor : ConvertOptions → String → Option (Value × String)
      unfolding fields_of insert
      select_descriptor options module_id = elim (get_definition module_id) [
        | none ↦ none
        | some d ↦ some (
          json (
              ("input_schema", d.input_schema)
              ∷ ("annotations", d.annotations)
              ∷ ("tags", array (to_items (map string d.tags)))
              ∷ []),
          (if options.rich_description
              then unwrap_or (render_module_markdown module_id d) d.description
              else d.description),
        )
      ]

      unfoldable pub convert_registry_with_options :
          ConvertOptions → Option (List String) → Option String → Result (List Value)
      unfolding convert_modules select_descriptor
      convert_registry_with_options options tags prefix =
          convert_modules options (select_descriptor options) "" []
            (sort (registry_list tags prefix))

      unfoldable pub convert_registry :
          Bool → Bool → Option (List String) → Option String → Result (List Value)
      unfolding convert_registry_with_options
      convert_registry embed_annotations strict tags prefix =
          convert_registry_with_options (plain_options embed_annotations strict) tags prefix
