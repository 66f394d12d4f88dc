-- ===== src/Adapters.antt =====
-- src/adapters/mod.rs: the error that the adapters share.
use apcore_mcp_rust.Prelude.{String}
use apcore_mcp_rust.Prelude.Fallible.{Fallible}

pub data AdapterError : Type 0 where
  schema_conversion : String → AdapterError
  invalid_module_id : (id : String) → AdapterError

abbrev pub Result {ℓ} : Type ℓ → Type ℓ
Result A = Fallible AdapterError A
