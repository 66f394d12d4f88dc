-- ===== src/Factory.antt =====
-- src/server/factory.rs: the tools of modules. The registry of apcore is its list of IDs and its
-- definitions.
pub mod Tools
pub mod Rooted
pub mod Built
pub mod Resources
pub mod Reads
pub mod Handlers
pub mod Listed
pub mod Fits
pub mod Served
mod Examples
use apcore_mcp_rust.Prelude.{
  String, Bool, true, false, not, ◌&&◌, Option, none, some, List, [], ◌∷◌, ◌++◌, map, ◌==◌,
  if◌then◌else◌, any, all, is_empty, ◌<>◌, join, contains, is_blank,
}
use apcore_mcp_rust.Prelude.Map.{Map}
use apcore_mcp_rust.Prelude.Map
use apcore_mcp_rust.Prelude.Fallible.{Fallible, ok, err, ◌>>=◌, ok_or}
use apcore_mcp_rust.Json.{
  Value, null, bool, string, array, object, Fields, end, field, insert, has_no_fields, items,
  as_str, as_object, get_key, and_then,
}
use apcore_mcp_rust.Acl.{texts}
use apcore_mcp_rust.Wire.{ToolAnnotations}
use apcore_mcp_rust.Schema.{is_object_text}
use apcore_mcp_rust.Annotations.{ModuleAnnotations, McpAnnotations, has_requires_approval}

-- apcore's `ModuleDescriptor`, as far as it is read.
pub record ModuleDescriptor : Type 0 where
  pub module_id : String
  pub description : String
  pub input_schema : Value
  pub output_schema : Value
  pub annotations : Option ModuleAnnotations
  pub metadata : Map Value
  pub display : Option Value

pub data FactoryError : Type 0 where
  resource_not_found : (uri : String) → FactoryError
  unsupported_scheme : (uri : String) → FactoryError
  reserved_prefix : (id : String) → FactoryError
  other_error : String → FactoryError

abbrev pub Result {ℓ} : Type ℓ → Type ℓ
Result A = Fallible FactoryError A

-- `AI_INTENT_KEYS`, each with its `format_intent_label`.
abbrev pub ai_intent_keys : List (String × String)
ai_intent_keys =
    ("x-when-to-use", "When To Use")
    ∷ ("x-when-not-to-use", "When Not To Use")
    ∷ ("x-common-mistakes", "Common Mistakes")
    ∷ ("x-workflow-hints", "Workflow Hints")
    ∷ []

unfoldable pub intent_parts : Map String → List (String × String) → List String
unfolding Map.get
intent_parts metadata [] = []
intent_parts metadata ((key, label) ∷ rest) =
    let parts = intent_parts metadata rest in
    elim (Map.get key metadata) [
      | none ↦ parts
      | some val ↦ if is_blank val then parts else (label <> ": " <> val) ∷ parts
    ]

unfoldable pub enrich_description : String → Option (Map String) → String
unfolding intent_parts join
enrich_description base none = base
enrich_description base (some metadata) =
    let parts = intent_parts metadata ai_intent_keys in
    if is_empty parts then base else base <> "\n\n" <> join "\n" parts

unfoldable pub intent_metadata : Map Value → Map String
intent_metadata [] = []
intent_metadata ((k, v) ∷ rest) = elim (as_str v) [
  | none ↦ intent_metadata rest
  | some s ↦ (k, s) ∷ intent_metadata rest
]

abbrev pub filled : Map String → Option (Map String)
filled m = if is_empty m then none else some m

pub record ToolMeta : Type 0 where
  pub requires_approval : Bool
  pub streaming : Bool

unfoldable pub is_streaming : Option ModuleAnnotations → Bool
is_streaming none = false
is_streaming (some a) = a.streaming

unfoldable pub build_meta : Option ModuleAnnotations → ToolMeta
unfolding is_streaming has_requires_approval
build_meta annotations = record {
  requires_approval = has_requires_approval annotations;
  streaming = is_streaming annotations;
}

unfoldable pub build_meta_value : Option ModuleAnnotations → Fields
unfolding build_meta insert
build_meta_value annotations =
    let meta = build_meta annotations in
    let map = if meta.requires_approval then insert "requiresApproval" (bool true) end else end in
    if meta.streaming then insert "streaming" (bool true) map else map

-- The root of the input schema.
abbrev pub is_blank_schema : Value → Bool
is_blank_schema null = true
is_blank_schema (object m) = has_no_fields m
is_blank_schema _ = false

unfoldable pub base_schema : Value → Value
base_schema v = if is_blank_schema v then object (field "properties" (object end) end) else v

abbrev pub is_kind : Value → Bool
is_kind (string kind) =
    contains ("object" ∷ "array" ∷ "string" ∷ "number" ∷ "integer" ∷ "boolean" ∷ "null" ∷ []) kind
is_kind _ = false

abbrev pub are_distinct : List String → Bool
are_distinct [] = true
are_distinct (s ∷ ss) = not (contains ss s) && are_distinct ss

unfoldable pub allows_object : Option Value → Bool
allows_object none = true
allows_object (some (string kind)) = kind == "object"
allows_object (some (array types)) =
    any is_object_text (items types)
    && all is_kind (items types)
    && are_distinct (texts (items types))
allows_object (some _) = false

unfoldable pub input_schema_of : Value → Result Value
unfolding base_schema allows_object insert get_key
input_schema_of v =
    if not (allows_object (get_key "type" (base_schema v)))
    then err (other_error "MCP input schema must allow an object root")
    else do
      m ← ok_or (as_object (base_schema v)) (other_error "MCP input schema must be an object")
      ok (object (insert "type" (string "object") m))

unfoldable pub tool_annotations : McpAnnotations → ToolAnnotations
tool_annotations a = record {
  title = a.title;
  read_only_hint = some a.read_only_hint;
  destructive_hint = some a.destructive_hint;
  idempotent_hint = some a.idempotent_hint;
  open_world_hint = some a.open_world_hint;
}

-- `SYSTEM_RESOURCE_MODULES` and `SYSTEM_RESOURCE_TEMPLATE_MODULES`, by their IDs
abbrev pub system_resource_modules : List String
system_resource_modules =
    "system.health.summary" ∷ "system.usage.summary" ∷ "system.manifest.full" ∷ []

abbrev pub system_resource_template_modules : List String
system_resource_template_modules =
    "system.health.module" ∷ "system.usage.module" ∷ "system.manifest.module" ∷ []

unfoldable pub is_readonly_system_resource_module_id : String → Bool
is_readonly_system_resource_module_id module_id =
    contains (system_resource_modules ++ system_resource_template_modules) module_id

abbrev pub display_text : String → Option Value → Option String
display_text key mcp_display = and_then mcp_display (λ d. and_then (get_key key d) as_str)
