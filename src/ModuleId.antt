-- ===== src/ModuleId.antt =====
-- src/constants.rs (the module ID pattern) and src/adapters/id_normalizer.rs.
pub mod Pattern
pub mod Chars
pub mod RoundTrip
pub mod Engine
mod Examples
use apcore_mcp_rust.Prelude.{String, Bool, not, Option, none, some, if◌then◌else◌, replace}
pub use apcore_mcp_rust.Adapters.{AdapterError, invalid_module_id, Result}
pub use apcore_mcp_rust.Prelude.Fallible.{ok, err}
use Pattern.{Regex}
use Pattern

-- The engine of the `regex` crate is a parameter: `is_match r s` is `Regex::new(r).is_match(s)`.
module _ (is_match : Regex → String → Bool) where
  unfoldable pub is_valid_module_id : String → Bool
  is_valid_module_id id = is_match Pattern.module_id_pattern id

  unfoldable pub normalize : String → Result String
  unfolding replace
  normalize module_id =
      if not (is_valid_module_id module_id)
      then err (invalid_module_id module_id)
      else ok (replace "." "-" module_id)

unfoldable pub denormalize : String → String
unfolding replace
denormalize tool_name = replace "-" "." tool_name

module _ (is_match : Regex → String → Bool) where
  unfoldable pub denormalize_checked : String → Option String
  unfolding replace
  denormalize_checked tool_name =
      let candidate = replace "-" "." tool_name in
      if not (is_valid_module_id is_match candidate) then none else some candidate
