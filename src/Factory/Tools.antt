-- ===== src/Factory/Tools.antt =====
-- src/server/factory.rs: build_tool and build_tools.
use apcore_mcp_rust.Prelude.{
  String, Bool, not, ◌&&◌, Option, none, some, List, [], ◌∷◌, if◌then◌else◌, unwrap_or, or_else,
  ◌<>◌,
}
use apcore_mcp_rust.Prelude.Map.{Map}
use apcore_mcp_rust.Prelude.Map
use apcore_mcp_rust.Prelude.Fallible.{ok, err, ◌>>=◌}
use apcore_mcp_rust.Json.{Value, object, Fields, has_no_fields, get_key, and_then}
use apcore_mcp_rust.ApprovalStore.{map_option}
use apcore_mcp_rust.Wire.{Tool}
use apcore_mcp_rust.Rpc.{index}
use apcore_mcp_rust.Schema.{is_object_text}
use apcore_mcp_rust.Tasks.{is_reserved_id, is_async_module}
use apcore_mcp_rust.Annotations.{to_mcp_annotations}
use apcore_mcp_rust.Factory.{
  ModuleDescriptor, reserved_prefix, Result, enrich_description, intent_metadata, filled,
  build_meta_value, input_schema_of, tool_annotations, is_readonly_system_resource_module_id,
  display_text,
}

unfoldable pub is_async_module_descriptor : ModuleDescriptor → Bool
unfolding is_async_module
is_async_module_descriptor d = is_async_module d.metadata (map_option (λ a. a.extra) d.annotations)

unfoldable pub output_schema_of : ModuleDescriptor → Option Value
unfolding get_key is_async_module_descriptor
output_schema_of d =
    if is_object_text (index "type" d.output_schema) && not (is_async_module_descriptor d)
    then some d.output_schema
    else none

abbrev pub meta_of : Fields → Option Value
meta_of meta = if has_no_fields meta then none else some (object meta)

unfoldable pub build_tool_with_registry : ModuleDescriptor → String → Option String → Result Tool
unfolding is_reserved_id input_schema_of output_schema_of to_mcp_annotations tool_annotations
    build_meta_value enrich_description intent_metadata
build_tool_with_registry descriptor description name_override =
    if is_reserved_id descriptor.module_id then err (reserved_prefix descriptor.module_id) else do
      input_schema ← input_schema_of descriptor.input_schema
      ok (record {
        name = unwrap_or name_override descriptor.module_id;
        description = enrich_description description (filled (intent_metadata descriptor.metadata));
        input_schema = input_schema;
        output_schema = output_schema_of descriptor;
        annotations = some (tool_annotations (to_mcp_annotations descriptor.annotations));
        meta = meta_of (build_meta_value descriptor.annotations);
      })

unfoldable pub build_tool : ModuleDescriptor → String → Option String → Result Tool
unfolding build_tool_with_registry
build_tool descriptor description name_override =
    build_tool_with_registry descriptor description name_override

-- `display.mcp` of a descriptor: the field, or the metadata.
unfoldable pub mcp_display_of : ModuleDescriptor → Option Value
unfolding Map.get get_key
mcp_display_of d = and_then (or_else d.display (Map.get "display" d.metadata)) (get_key "mcp")

-- What a result of building one tool does to the tools that follow it.
abbrev pub keep : String → Result Tool → Result (List Tool) → Result (List Tool)
keep module_id (ok tool) tools = do rest ← tools; ok (tool ∷ rest)
keep module_id (err (reserved_prefix id)) tools = err (reserved_prefix module_id)
keep module_id (err _) tools = tools

-- The Markdown of apcore-toolkit is a parameter, none where it fails.
module _ (render_module_markdown : ModuleDescriptor → Option String) (rich_description : Bool) where
  unfoldable pub description_of : ModuleDescriptor → String
  unfolding mcp_display_of get_key
  description_of d =
      let plain =
        if rich_description
        then unwrap_or (render_module_markdown d) d.description
        else d.description in
      let description = unwrap_or (display_text "description" (mcp_display_of d)) plain in
      elim (display_text "guidance" (mcp_display_of d)) [
        | none ↦ description
        | some guidance ↦ description <> "\n\nGuidance: " <> guidance
      ]

  -- The tool of a descriptor with its display.
  unfoldable pub displayed_tool : ModuleDescriptor → Result Tool
  unfolding build_tool_with_registry description_of
  displayed_tool d =
      build_tool_with_registry d (description_of d) (display_text "alias" (mcp_display_of d))

  -- The loop over the IDs that the registry lists.
  module _ (get_definition : String → Option ModuleDescriptor) where
    unfoldable pub build_tools : List String → Result (List Tool)
    unfolding is_readonly_system_resource_module_id is_reserved_id displayed_tool
    build_tools [] = ok []
    build_tools (module_id ∷ ids) =
        let rest = build_tools ids in
        if is_readonly_system_resource_module_id module_id
        then rest
        else if is_reserved_id module_id
        then err (reserved_prefix module_id)
        else elim (get_definition module_id) [
          | none ↦ rest
          | some descriptor ↦ keep module_id (displayed_tool descriptor) rest
        ]
