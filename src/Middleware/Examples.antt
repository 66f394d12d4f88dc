-- ===== src/Middleware/Examples.antt =====
-- Two entries of mcp.middleware, for src/middleware_builder.rs.
use apcore_mcp_rust.Prelude.{◌≡◌, refl, true, false, some, List, [], ◌∷◌}
use apcore_mcp_rust.Json
use apcore_mcp_rust.Json.{Value, Items, null, bool, string, array, json, to_items}
use apcore_mcp_rust.Prelude.Fallible.{ok}
use apcore_mcp_rust.Middleware.{
  Middleware, retry, logging, RetryApi, build_retry, build_logging, build_error_history,
  build_entry, build_entries, build_middleware_from_config,
}

abbrev retries : RetryApi Value
retries = record {
  default = null;
  default_max_retries = null;
  from_value = λ v. ok v;
  show = λ n. "0";
}

abbrev config : Items
config = to_items (
    json (("type", string "retry") ∷ [])
    ∷ json (("type", string "logging") ∷ ("log_inputs", bool false) ∷ [])
    ∷ [])

abbrev chain : List (Middleware Value)
chain = retry null ∷ logging false true true ∷ []

builds : build_middleware_from_config retries (some (array config)) ≡ ok chain
unfolding build_middleware_from_config build_entries build_entry build_retry build_logging
    build_error_history Json.get Json.insert Json.remove Json.fields_of Json.contains_key
builds = refl
