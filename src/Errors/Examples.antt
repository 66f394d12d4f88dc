-- ===== src/Errors/Examples.antt =====
-- The theorems at concrete errors.
use apcore_mcp_rust.Prelude.{String, ◌≡◌, refl, true, none, some, [], ◌∷◌}
use apcore_mcp_rust.Json.{string}
use apcore_mcp_rust.Errors.{
  ErrorCode, call_depth_exceeded, circular_call, call_frequency_exceeded, acl_denied,
  schema_validation_error, approval_pending, approval_timeout, approval_denied, execution_cancelled,
  task_limit_exceeded, circuit_breaker_open, other, ModuleError, to_mcp_error,
}
use apcore_mcp_rust.Errors.Hidden.{to_mcp_error-hidden}

abbrev code_text : ErrorCode → String
code_text call_depth_exceeded = "CALL_DEPTH_EXCEEDED"
code_text circular_call = "CIRCULAR_CALL"
code_text call_frequency_exceeded = "CALL_FREQUENCY_EXCEEDED"
code_text acl_denied = "ACL_DENIED"
code_text schema_validation_error = "SCHEMA_VALIDATION_ERROR"
code_text approval_pending = "APPROVAL_PENDING"
code_text approval_timeout = "APPROVAL_TIMEOUT"
code_text approval_denied = "APPROVAL_DENIED"
code_text execution_cancelled = "EXECUTION_CANCELLED"
code_text task_limit_exceeded = "TASK_LIMIT_EXCEEDED"
code_text circuit_breaker_open = "CIRCUIT_BREAKER_OPEN"
code_text (other name) = name

abbrev denied : String → ModuleError
denied message = record {
  code = acl_denied;
  message = message;
  details = ("caller", string "alice") ∷ [];
  retryable = some true;
  ai_guidance = none;
  user_fixable = none;
  suggestion = none;
}

abbrev full : ModuleError
full = record (denied "1000 tasks") { code = task_limit_exceeded; retryable = none }

to_mcp_error-hidden_example :
    (to_mcp_error code_text (denied "alice may not") ≡ to_mcp_error code_text (denied "rule 7"))
    × ((to_mcp_error code_text (denied "alice may not")).details ≡ none)
to_mcp_error-hidden_example =
    to_mcp_error-hidden code_text (denied "alice may not") (denied "rule 7") refl refl
