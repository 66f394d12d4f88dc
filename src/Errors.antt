-- ===== src/Errors.antt =====
-- src/adapters/errors.rs: what the client sees of an error of a module.
pub mod Hidden
mod Examples
use apcore_mcp_rust.Prelude.{
  String, code, Bool, true, Option, none, some, List, [], ◌∷◌, map, ◌==◌, if◌then◌else◌, unwrap_or,
  or_else, ◌<>◌, join, is_blank,
}
use apcore_mcp_rust.Json.{
  Value, array, object, items, end, insert, get_str, as_str, and_then, json, Fields,
}
use apcore_mcp_rust.Prelude.Map.{Map, get}

-- The variants of apcore's `ErrorCode` that the mapper names, and any other one by its text.
pub data ErrorCode : Type 0 where
  call_depth_exceeded circular_call call_frequency_exceeded : ErrorCode
  acl_denied schema_validation_error : ErrorCode
  approval_pending approval_timeout approval_denied : ErrorCode
  execution_cancelled task_limit_exceeded circuit_breaker_open : ErrorCode
  other : String → ErrorCode

-- apcore's `ModuleError`, as far as the mapper reads it.
pub record ModuleError : Type 0 where
  pub code : ErrorCode
  pub message : String
  pub details : Map Value
  pub retryable : Option Bool
  pub ai_guidance : Option String
  pub user_fixable : Option Bool
  pub suggestion : Option String

pub record McpErrorResponse : Type 0 where
  pub is_error : Bool
  pub error_type : String
  pub message : String
  pub details : Option Value
  pub retryable : Option Bool
  pub ai_guidance : Option String
  pub user_fixable : Option Bool
  pub suggestion : Option String

abbrev pub bare : String → String → Option Value → McpErrorResponse
bare error_type message details = record {
  is_error = true;
  error_type = error_type;
  message = message;
  details = details;
  retryable = none;
  ai_guidance = none;
  user_fixable = none;
  suggestion = none;
}

unfoldable pub internal_error_response : McpErrorResponse
internal_error_response = bare "GENERAL_INTERNAL_ERROR" "Internal error occurred" none

-- Fill in what the response does not set yet.
unfoldable pub attach_ai_guidance : ModuleError → McpErrorResponse → McpErrorResponse
attach_ai_guidance error resp = record resp {
  retryable = or_else resp.retryable error.retryable;
  ai_guidance = or_else resp.ai_guidance error.ai_guidance;
  user_fixable = or_else resp.user_fixable error.user_fixable;
  suggestion = or_else resp.suggestion error.suggestion;
}

-- `e.get("path")`, with a blank path named, else `e.get("field")`.
unfoldable pub error_field : Value → String
error_field e = elim (get_str "path" e) [
  | some path ↦ if is_blank path then "<root>" else path
  | none ↦ unwrap_or (get_str "field" e) "unknown"
]

unfoldable pub error_line : Value → String
unfolding error_field
error_line e = "  " <> error_field e <> ": " <> unwrap_or (get_str "message" e) "invalid"

unfoldable pub error_list : Option Value → List Value
error_list (some (array vs)) = items vs
error_list _ = []

unfoldable pub format_validation_errors : Map Value → String
unfolding error_list error_line join
format_validation_errors details = elim (error_list (get "errors" details)) [
  | [] ↦ "Schema validation failed"
  | e ∷ es ↦ "Schema validation failed:\n" <> join "\n" (error_line e ∷ map error_line es)
]

abbrev to_fields : Map Value → Fields
to_fields [] = end
to_fields ((k, v) ∷ m) = insert k v (to_fields m)

-- `serde_json::to_value` of the map.
unfoldable pub details_value : ModuleError → Value
details_value error = object (to_fields error.details)

-- The texts of the codes, which serde derives in apcore, are a parameter.
module _ (text : ErrorCode → String) where
  unfoldable pub build_detail_response : ModuleError → String → McpErrorResponse
  unfolding attach_ai_guidance details_value
  build_detail_response error message =
      attach_ai_guidance error (bare (text error.code) message (some (details_value error)))

  abbrev task_limit_hint : String
  task_limit_hint =
      "AsyncTaskManager has reached its max_tasks cap. Wait for in-flight tasks to complete, or cancel tasks via __apcore_task_cancel before retrying."

  abbrev circuit_hint : String
  circuit_hint =
      "Module's circuit breaker is OPEN — repeated failures have tripped the breaker. Wait until the recovery window elapses, then retry; the breaker will move to HALF_OPEN and accept a trial call."

  abbrev retry_later : String → McpErrorResponse → McpErrorResponse
  retry_later hint resp = record resp {
    retryable = or_else resp.retryable (some true);
    ai_guidance = or_else resp.ai_guidance (some hint);
  }

  -- The tests from the code's text on, which come after those on the code.
  unfoldable pub by_text : ModuleError → McpErrorResponse → McpErrorResponse
  unfolding build_detail_response
  by_text error rest =
      if text error.code == "CONFIG_ENV_MAP_CONFLICT"
      then build_detail_response error (
          "Config env map conflict: "
          <> unwrap_or (and_then (get "env_var" error.details) as_str) "unknown")
      else if text error.code == "PIPELINE_ABORT"
      then build_detail_response error (
          "Pipeline aborted at step: "
          <> unwrap_or (and_then (get "step" error.details) as_str) "unknown")
      else if text error.code == "STEP_NOT_FOUND"
      then build_detail_response error ("Pipeline step not found: " <> error.message)
      else if text error.code == "VERSION_INCOMPATIBLE"
      then build_detail_response error ("Version incompatible: " <> error.message)
      else rest

  abbrev narrowed : Option Value → Option Value
  narrowed none = none
  narrowed (some v) = some (json (("approvalId", v) ∷ []))

  abbrev denial : ModuleError → Option Value → Option Value
  denial error none = some (details_value error)
  denial error (some r) = some (json (("reason", r) ∷ []))

  unfoldable pub respond : ErrorCode → ModuleError → McpErrorResponse
  unfolding attach_ai_guidance details_value format_validation_errors build_detail_response by_text
  respond call_depth_exceeded error = bare (text error.code) "Internal error occurred" none
  respond circular_call error = bare (text error.code) "Internal error occurred" none
  respond call_frequency_exceeded error = bare (text error.code) "Internal error occurred" none
  respond acl_denied error = bare (text error.code) "Access denied" none
  respond schema_validation_error error =
      attach_ai_guidance error (
        bare (text error.code) (format_validation_errors error.details)
          (some (details_value error)))
  respond approval_pending error =
      attach_ai_guidance error
        (bare (text error.code) error.message (narrowed (get "approval_id" error.details)))
  respond approval_timeout error =
      let resp = bare (text error.code) error.message (some (details_value error)) in
      attach_ai_guidance error (record resp { retryable = some true })
  respond approval_denied error =
      attach_ai_guidance error
        (bare (text error.code) error.message (denial error (get "reason" error.details)))
  respond execution_cancelled error =
      let resp = bare (text error.code) "Execution was cancelled" none in
      attach_ai_guidance error (record resp { retryable = some true })
  respond task_limit_exceeded error =
      by_text error (retry_later task_limit_hint (build_detail_response error error.message))
  respond circuit_breaker_open error =
      by_text error (retry_later circuit_hint (build_detail_response error error.message))
  respond (other name) error =
      by_text error (
        attach_ai_guidance error
          (bare (text error.code) error.message (some (details_value error))))

  unfoldable pub to_mcp_error : ModuleError → McpErrorResponse
  unfolding respond
  to_mcp_error error = respond error.code error

  -- Any other error than a module's is reported without its text.
  unfoldable pub to_mcp_error_any : Option ModuleError → McpErrorResponse
  unfolding to_mcp_error internal_error_response
  to_mcp_error_any none = internal_error_response
  to_mcp_error_any (some error) = to_mcp_error error
