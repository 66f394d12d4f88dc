-- ===== src/Approval/Registry.antt =====
-- src/server/elicit_registry.rs: the process-wide map from call IDs to callbacks. The UUID that
-- `register` draws is an argument.
use apcore_mcp_rust.Prelude.{String, Option}
use apcore_mcp_rust.Prelude.Map
use apcore_mcp_rust.Prelude.Map.{Map}

module _ {C : Type 0} where
  unfoldable pub register : String → C → Map C → Map C
  register id callback registry = Map.insert id callback registry

  -- What dropping the guard does.
  unfoldable pub drop_guard : String → Map C → Map C
  drop_guard id registry = Map.remove id registry

  unfoldable pub lookup : String → Map C → Option C
  lookup id registry = Map.get id registry
