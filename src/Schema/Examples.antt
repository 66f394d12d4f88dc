-- ===== src/Schema/Examples.antt =====
-- The theorems at a schema with a reference.
use apcore_mcp_rust.Prelude.{◌≡◌, refl, false, [], ◌∷◌}
use apcore_mcp_rust.Prelude.Fallible.{ok}
use apcore_mcp_rust.Json.{
  Value, bool, string, get, insert, remove, contains_key, get_key, fields_of, json,
}
use apcore_mcp_rust.Schema.{
  role, resolve_ref, inline_fields, inline_items, inline_refs, ensure_object_type, inject,
  inject_strict, convert_schema_with,
}

converter : Unit {0}
unfolding resolve_ref inline_fields inline_items inline_refs ensure_object_type inject inject_strict
    convert_schema_with get insert remove contains_key get_key fields_of role
converter = tt

abbrev size : Value
size = json (
    ("type", string "object")
    ∷ ("properties", json (("width", json (("type", string "integer") ∷ [])) ∷ []))
    ∷ [])

abbrev size_ref : Value
size_ref = json (("$ref", string "#/$defs/Size") ∷ [])

abbrev input : Value
input =
    json
      (("$defs", json (("Size", size) ∷ [])) ∷ ("properties", json (("size", size_ref) ∷ [])) ∷ [])

abbrev closed_size : Value
closed_size = json (
    ("additionalProperties", bool false)
    ∷ ("type", string "object")
    ∷ ("properties", json (("width", json (("type", string "integer") ∷ [])) ∷ []))
    ∷ [])

abbrev output : Value
output = json (
    ("additionalProperties", bool false)
    ∷ ("type", string "object")
    ∷ ("properties", json (("size", closed_size) ∷ []))
    ∷ [])

inlines : inline_refs (json (("Size", size) ∷ [])) 33 [] size_ref ≡ ok size
unfolding converter
inlines = refl
