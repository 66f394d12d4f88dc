-- ===== src/Schema/Tool.antt =====
-- convert_schema_with of src/adapters/schema.rs as a whole.
use apcore_mcp_rust.Prelude.{◌≡◌, Bool, true, if◌then◌else◌}
use apcore_mcp_rust.Json.{Value, object, Fields}
use apcore_mcp_rust.Schema.{schema, ensure_object_type, inject_strict, without_defs}
use apcore_mcp_rust.Schema.References.{NoRefs}
use apcore_mcp_rust.Schema.Objects.{IsTyped}
use apcore_mcp_rust.Schema.Walk.{Closed}

-- What a client may rely on of a tool's schema.
abbrev pub IsToolSchema : Bool → Value → Type 0
IsToolSchema strict w =
    (fs : Fields) × (w ≡ object fs) × IsTyped fs × NoRefs w × (strict ≡ true → Closed schema w)

-- The last steps of the converter.
abbrev finished : Bool → Value → Value
finished strict v =
    let typed = ensure_object_type (without_defs v) in if strict then inject_strict typed else typed
