-- ===== src/Wire.antt =====
-- src/server/types.rs: what the server tells a client of tools, results and resources, as derived
-- `Serialize` writes it.
use apcore_mcp_rust.Prelude.{String, Bool, true, false, Option, none, some, List, [], ◌∷◌}
use apcore_mcp_rust.Json.{
  Value, bool, string, array, object, Fields, insert, fields_of, json, Items, nil, cons,
}
use apcore_mcp_rust.ApprovalStore.{map_option}

pub record ToolAnnotations : Type 0 where
  pub title : Option String
  pub read_only_hint : Option Bool
  pub destructive_hint : Option Bool
  pub idempotent_hint : Option Bool
  pub open_world_hint : Option Bool

abbrev pub default_annotations : ToolAnnotations
default_annotations = record {
  title = none;
  read_only_hint = some false;
  destructive_hint = some false;
  idempotent_hint = some false;
  open_world_hint = some true;
}

pub record Tool : Type 0 where
  pub name : String
  pub description : String
  pub input_schema : Value
  pub output_schema : Option Value
  pub annotations : Option ToolAnnotations
  pub meta : Option Value

pub record TextContent : Type 0 where
  pub content_type : String
  pub text : String

abbrev pub new_text : String → TextContent
new_text text = record { content_type = "text"; text = text }

pub record CallToolResult : Type 0 where
  pub content : List TextContent
  pub structured_content : Option Value
  pub is_error : Bool
  pub meta : Option Value

abbrev pub new_result : List TextContent → Bool → CallToolResult
new_result content is_error = record {
  content = content;
  structured_content = none;
  is_error = is_error;
  meta = none;
}

pub record Resource : Type 0 where
  pub uri : String
  pub name : String
  pub mime_type : String

pub record ReadResourceContents : Type 0 where
  pub content : String
  pub mime_type : String

pub record ResourceTemplate : Type 0 where
  pub uri_template : String
  pub name : String
  pub mime_type : String

pub record InitializationOptions : Type 0 where
  pub server_name : String
  pub server_version : String
  pub extensions : Option Value

-- `skip_serializing_if = "Option::is_none"`
abbrev pub set : String → Option Value → Fields → Fields
set key none fs = fs
set key (some v) fs = insert key v fs

abbrev pub list_of {ℓ} : {A : Type ℓ} → (A → Value) → List A → Items
list_of f [] = nil
list_of f (x ∷ xs) = cons (f x) (list_of f xs)

abbrev pub annotations_value : ToolAnnotations → Value
annotations_value a = object (
    set "title" (map_option string a.title) (
      set "readOnlyHint" (map_option bool a.read_only_hint) (
        set "destructiveHint" (map_option bool a.destructive_hint) (
          set "idempotentHint" (map_option bool a.idempotent_hint)
            (set "openWorldHint" (map_option bool a.open_world_hint) (fields_of []))))))

unfoldable pub tool_fields : Tool → Fields
tool_fields t = set "outputSchema" t.output_schema (
    set "annotations" (map_option annotations_value t.annotations) (
      set "_meta" t.meta (
        fields_of (
          ("name", string t.name)
          ∷ ("description", string t.description)
          ∷ ("inputSchema", t.input_schema)
          ∷ []))))

abbrev pub text_value : TextContent → Value
text_value c = json (("type", string c.content_type) ∷ ("text", string c.text) ∷ [])

unfoldable pub result_fields : CallToolResult → Fields
result_fields r = set "structuredContent" r.structured_content (
    set "_meta" r.meta (
      fields_of
        (("content", array (list_of text_value r.content)) ∷ ("isError", bool r.is_error) ∷ [])))
