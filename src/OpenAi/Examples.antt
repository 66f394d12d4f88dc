-- ===== src/OpenAi/Examples.antt =====
-- The theorems at a module with a parameter of each kind.
use apcore_mcp_rust.Prelude.{String, ◌≡◌, refl, true, false, Option, none, some, [], ◌∷◌}
use apcore_mcp_rust.Json.{
  array, nil, cons, field, Value, null, bool, string, object, Fields, end, get, insert,
  contains_key,
}
use apcore_mcp_rust.ModuleId.Engine.{engine, engine-IsEngine}
use apcore_mcp_rust.Annotations.{ModuleAnnotations}
use apcore_mcp_rust.OpenAi.{
  ConvertOptions, place_of, is_extension, has_properties, all_names, existing_required,
  optional_names, enforce, apply_llm_descriptions, strip_extensions, convert_to_strict,
  apply_strict_mode, make_nullable,
}
use apcore_mcp_rust.OpenAi.Tools.{select_entry, Api, convert_registry_json_with_options}
use apcore_mcp_rust.OpenAi.Named.{IsConverted, convert_registry_json-IsConverted}

abbrev text_schema : Fields
text_schema =
    field "default" null
      (field "type" (string "string") (field "x-llm-description" (string "The text.") end))

abbrev nested : Fields
nested =
    field "properties" (object (field "text" (object text_schema) end))
      (field "type" (string "object") end)

-- A required parameter, an optional one and an optional object.
abbrev parameters : Fields
parameters =
    field "properties"
      (object (
        field "config" (object nested) (
          field "limit" (object (field "type" (string "integer") end))
            (field "query" (object text_schema) end))))
      (field "required" (array (cons (string "query") nil)) (field "type" (string "object") end))

walk : Unit {0}
unfolding get insert contains_key place_of is_extension has_properties all_names existing_required
    optional_names enforce apply_llm_descriptions strip_extensions convert_to_strict
    apply_strict_mode make_nullable
walk = tt

-- An optional object is made nullable first and stays open.
strict_parameters :
    apply_strict_mode (object parameters)
    ≡ object (
        field "additionalProperties" (bool false) (
          field "properties"
            (object (
              field "config"
                (object (
                  field "properties"
                    (object (
                      field "text"
                        (object (
                          field "description"
                            (string "The text.")
                            (field "type" (string "string") end)))
                        end))
                    (field "type" (array (cons (string "object") (cons (string "null") nil))) end)))
                (field "limit"
                  (object
                    (field "type" (array (cons (string "integer") (cons (string "null") nil))) end))
                  (field "query"
                    (object (
                      field "description"
                        (string "The text.")
                        (field "type" (string "string") end)))
                    end))))
            (field "required"
              (array (cons (string "config") (cons (string "limit") (cons (string "query") nil))))
              (field "type" (string "object") end))))
unfolding walk
strict_parameters = refl

abbrev defaults : ModuleAnnotations
defaults = record {
  readonly = false;
  destructive = false;
  idempotent = false;
  requires_approval = false;
  open_world = true;
  streaming = false;
  cacheable = false;
  cache_ttl = 0;
  cache_key_fields = none;
  paginated = false;
  pagination_style = "cursor";
  extra = [];
}

-- Annotations that say whether a module destroys something; numbers without digits.
abbrev annotations_of : Value → Option ModuleAnnotations
annotations_of (bool b) = some (record defaults { destructive = b })
annotations_of _ = none

abbrev api : Api Value
api = record {
  annotations_of = annotations_of;
  example_of = λ v. some v;
  defaults = defaults;
  show = λ n. "";
  format_module = λ m. none;
}

abbrev entry : Value
entry = object (field "annotations" (bool true) (field "input_schema" (object parameters) end))

abbrev options : ConvertOptions
options = record { embed_annotations = true; strict = true; rich_description = false }

abbrev suffix : String
suffix =
    "Resizes.\n\nWARNING: DESTRUCTIVE - This operation may irreversibly modify or delete data. Confirm with user before calling.\n\n[Annotations: destructive=true]"

abbrev registry : Value
registry = object (field "image.resize" entry (field "text-count" entry end))

convert_registry_json-IsConverted_example :
    IsConverted api engine
      ("image.resize" ∷ [])
      (convert_registry_json_with_options api engine registry options none (some "image"))
unfolding select_entry get
convert_registry_json-IsConverted_example =
    convert_registry_json-IsConverted api engine engine-IsEngine registry options none
      (some "image")
