-- ===== src/Structured/Content.antt =====
-- src/server/types.rs: with_structured_content. The readers of serde_json and the validator of the
-- jsonschema crate are parameters, and so are the calls of the crate referencing.
use apcore_mcp_rust.Prelude.{
  String, Bool, true, false, ◌&&◌, Option, none, some, List, [], ◌∷◌, ◌==◌, if◌then◌else◌,
}
use apcore_mcp_rust.Json.{Value, object, and_then}
use apcore_mcp_rust.Wire.{TextContent, new_text, CallToolResult}
use apcore_mcp_rust.Structured.References.{Referencing, resolve_all_refs}
use apcore_mcp_rust.Structured.Precision.{preserves_numeric_values}

abbrev pub is_object : Value → Bool
is_object (object m) = true
is_object _ = false

-- `Option::filter`
abbrev pub keep_if {ℓ} : {A : Type ℓ} → (A → Bool) → Option A → Option A
keep_if p none = none
keep_if p (some a) = if p a then some a else none

abbrev pub mismatch : String
mismatch = "Output does not match the advertised output schema after redaction"

abbrev pub refused : CallToolResult → CallToolResult
refused r = record r {
  content = new_text mismatch ∷ [];
  structured_content = none;
  is_error = true;
  meta = none;
}

module _ {Resolver : Type 0} (crate : Referencing Resolver) (is_valid : Value → Value → Bool) where
  unfoldable pub matches_output_schema : Value → Value → Bool
  unfolding resolve_all_refs
  matches_output_schema value schema = resolve_all_refs crate schema && is_valid schema value

  -- Against the advertised schema.
  unfoldable pub checked : CallToolResult → Option Value → Option Value → CallToolResult
  unfolding matches_output_schema
  checked r value none = record r { structured_content = value }
  checked r none (some schema) = refused r
  checked r (some value) (some schema) =
      if matches_output_schema value schema
      then record r { structured_content = some value }
      else refused r

module _ (from_str : String → Option Value) (reprint : String → Option String) where
  unfoldable pub value_of : TextContent → Option Value
  unfolding preserves_numeric_values
  value_of item =
      if item.content_type == "text"
      then and_then (from_str item.text)
          (λ value. if preserves_numeric_values reprint item.text then some value else none)
      else none

  unfoldable pub object_of : List TextContent → Option Value
  unfolding value_of
  object_of [] = none
  object_of (item ∷ rest) = keep_if is_object (value_of item)

  module _ {Resolver : Type 0} (crate : Referencing Resolver)
      (is_valid : Value → Value → Bool) where
    unfoldable pub with_structured_content : Option Value → CallToolResult → CallToolResult
    unfolding object_of checked
    with_structured_content schema r =
        if r.is_error
        then record r { structured_content = none }
        else checked crate is_valid r (object_of r.content) schema
