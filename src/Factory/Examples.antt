-- ===== src/Factory/Examples.antt =====
-- The theorems at a module with a display.
use apcore_mcp_rust.Prelude.{
  ℕ, ◌+◌, String, ◌≡◌, refl, true, false, Option, none, some, List, [], ◌∷◌, map, ◌==◌,
  if◌then◌else◌, All, join, strip_prefix, split_once, split,
}
use apcore_mcp_rust.Prelude.Map.{Map}
use apcore_mcp_rust.Prelude.Map
use apcore_mcp_rust.Prelude.Fallible.{ok}
use apcore_mcp_rust.Session.{Sessions, new, set_structured_results}
use apcore_mcp_rust.Structured.References.{draft202012, Referencing, resolve_all_refs}
use apcore_mcp_rust.Structured.Precision.{
  skip_string, take_number, normalize_number, same_value, preserves_number, scan,
  preserves_numeric_values,
}
use apcore_mcp_rust.Structured.Content.{
  value_of, object_of, matches_output_schema, checked, with_structured_content,
}
use apcore_mcp_rust.Factory.Handlers.{
  text_items, meta_trace, traceparent, result_of, output_schemas_of, is_structured, call_tool,
}
use apcore_mcp_rust.Factory.Listed.{doc_resources, listed_of, list_resources}
use apcore_mcp_rust.Factory.Served.{IsServed, list_resources-IsServed}
use apcore_mcp_rust.Json.{
  Number, null, number, get_str, Value, bool, string, array, object, nil, cons, end, field, get,
  insert, get_key,
}
use apcore_mcp_rust.Wire.{Tool, CallToolResult}
use apcore_mcp_rust.Annotations.{to_mcp_annotations, has_requires_approval}
use apcore_mcp_rust.Tasks.{is_reserved_id, is_async_module}
use apcore_mcp_rust.Factory.{
  ModuleDescriptor, base_schema, allows_object, input_schema_of, intent_parts, enrich_description,
  intent_metadata, is_streaming, build_meta, build_meta_value, tool_annotations,
  is_readonly_system_resource_module_id,
}
use apcore_mcp_rust.Factory.Tools.{
  build_tool_with_registry, output_schema_of, is_async_module_descriptor, mcp_display_of,
  description_of, displayed_tool, build_tools,
}
use apcore_mcp_rust.Router.{text_item, Reply}
use apcore_mcp_rust.Factory.Resources.{
  read_resource, read_system_resource, read_templated, call_router_as_resource, find_period,
  with_period, text_parts,
}
use apcore_mcp_rust.Factory.Reads.{IsRead, read_resource-IsRead}
use apcore_mcp_rust.Factory.Built.{
  IsTool, AreBuilt, build_tool_with_registry-IsTool, build_tools-AreBuilt,
}

abbrev schema : Value
schema = object (field "type" (array (cons (string "object") (cons (string "null") nil))) end)

-- A module with a hint and a text of guidance, asynchronous.
abbrev resize : ModuleDescriptor
resize = record {
  module_id = "image.resize";
  description = "Resizes.";
  input_schema = schema;
  output_schema = schema;
  annotations = none;
  metadata = ("async", bool true) ∷ ("x-when-to-use", string "For images.") ∷ [];
  display = some (
      object (
        field "mcp"
          (object (field "alias" (string "resize") (field "guidance" (string "Be brief.") end)))
          end));
}

abbrev resize_tool : Tool
resize_tool = record {
  name = "resize";
  description = "Resizes.\n\nGuidance: Be brief.\n\nWhen To Use: For images.";
  input_schema = object (field "type" (string "object") end);
  output_schema = none;
  annotations = some (tool_annotations (to_mcp_annotations none));
  meta = none;
}

builds :
    build_tool_with_registry resize "Resizes.\n\nGuidance: Be brief." (some "resize")
    ≡ ok resize_tool
unfolding build_tool_with_registry is_reserved_id input_schema_of base_schema allows_object insert
    get_key get output_schema_of is_async_module_descriptor is_async_module build_meta_value
    build_meta is_streaming has_requires_approval enrich_description intent_metadata intent_parts
    join Map.get
builds = refl

build_tool_with_registry-IsTool_example : IsTool resize (some "resize") resize_tool
build_tool_with_registry-IsTool_example =
    build_tool_with_registry-IsTool resize "Resizes.\n\nGuidance: Be brief." (some "resize")
      resize_tool builds

-- A registry with the module under one ID.
abbrev definition : String → Option ModuleDescriptor
definition id = if id == "image.resize" then some resize else none

build_tools_resize :
    build_tools
      (λ d. none)
      false
      definition
      ("image.resize" ∷ "system.health.summary" ∷ "text.count" ∷ [])
    ≡ ok (resize_tool ∷ [])
unfolding builds build_tools displayed_tool description_of mcp_display_of
    is_readonly_system_resource_module_id build_tool_with_registry is_reserved_id input_schema_of
    base_schema allows_object insert get_key get output_schema_of is_async_module_descriptor
    is_async_module build_meta_value build_meta is_streaming has_requires_approval
    enrich_description intent_metadata intent_parts join Map.get
build_tools_resize = refl

build_tools-AreBuilt_example :
    AreBuilt
      (λ d. none)
      false
      definition
      ("image.resize" ∷ "system.health.summary" ∷ [])
      (build_tools (λ d. none) false definition ("image.resize" ∷ "system.health.summary" ∷ []))
build_tools-AreBuilt_example =
    build_tools-AreBuilt (λ d. none) false definition
      ("image.resize" ∷ "system.health.summary" ∷ [])

-- A router that counts its calls.
abbrev counting : String → Value → ℕ → ℕ × Reply
counting id args n = (n + 1, (text_item "{}" ∷ [], false, none))

abbrev health : List String
health = "system.health.module" ∷ []

abbrev health_of_resize : String
health_of_resize = "apcore://system.health.module/image.resize"

reads :
    read_resource counting health [] health_of_resize 0
    ≡ (1, ok (record { content = "{}"; mime_type = "application/json" } ∷ []))
unfolding read_resource read_system_resource read_templated call_router_as_resource strip_prefix
    split split_once find_period with_period text_parts insert join
reads = refl

read_resource-IsRead_example :
    IsRead counting health [] health_of_resize 0
      (read_resource counting health [] health_of_resize 0)
read_resource-IsRead_example = read_resource-IsRead counting health [] health_of_resize 0

abbrev documentation : Map String
documentation = ("image.resize", "Resizes an image.") ∷ []

abbrev summary : List String
summary = "system.health.summary" ∷ []

lists :
    map (λ r. r.uri) (list_resources documentation summary)
    ≡ "docs://image.resize" ∷ "apcore://system.health.summary" ∷ []
unfolding list_resources doc_resources listed_of
lists = refl

list_resources-IsServed_example :
    All (IsServed counting summary documentation 0) (list_resources documentation summary)
list_resources-IsServed_example = list_resources-IsServed counting summary documentation 0

-- The reply of a router to any call, and its one connection.
abbrev answering : String → Value → Option Value → ℕ → ℕ × Reply
answering name arguments extra n =
    (n + 1, (text_item "{\"size\":1.0}" ∷ [], false, some "0123456789abcdef0123456789abcdef"))

abbrev one_session : ℕ → Sessions
one_session n = ("s1", set_structured_results true (new "s1")) ∷ []

abbrev size : Value
size = object (field "size" (number (Number.pos_int 1)) end)

abbrev read_size : String → Option Value
read_size text = if text == "{\"size\":1.0}" then some size else none

abbrev reprint_one : String → Option String
reprint_one n = if n == "1.0" then some "1.0" else none

-- A schema of one part, without references.
abbrev local : Referencing (Unit {0})
local = record {
  draft_of = λ v. some draft202012;
  try_new = λ v d. some tt;
  detect = λ d v. some d;
  in_subresource = λ d v r. some r;
  lookup = λ reference r. false;
  subresources_of = λ d v. [];
}

abbrev sized_tool : Tool
sized_tool = record resize_tool { output_schema = some schema }

abbrev in_session : Option Value
in_session = some (object (field "sessionId" (string "s1") end))

abbrev answered : ℕ × CallToolResult
answered =
    call_tool answering one_session read_size reprint_one local (λ s v. true) (sized_tool ∷ [])
      "00f067aa0ba902b7" "resize" null in_session 4

calls : (answered.0 ≡ 5) × (answered.1.structured_content ≡ some size)
unfolding resolve_all_refs call_tool is_structured result_of output_schemas_of
    with_structured_content object_of value_of checked matches_output_schema
    preserves_numeric_values scan skip_string take_number preserves_number normalize_number
    same_value text_items meta_trace traceparent insert get_key get_str Map.get Map.insert
calls = (refl, refl)
