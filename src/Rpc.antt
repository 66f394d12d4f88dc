-- ===== src/Rpc.antt =====
-- src/server/server.rs: what a JSON-RPC message is to the handler, and its answer's envelope.
pub mod Handler
pub mod Methods
pub mod Answers
pub mod Legacy
pub mod Negotiated
mod Examples
use apcore_mcp_rust.Prelude.{
  String, Bool, true, false, not, ◌||◌, Option, none, some, List, [], ◌∷◌, ◌==◌, if◌then◌else◌,
  unwrap_or,
}
use apcore_mcp_rust.Json.{
  Number, Value, null, number, string, object, get_key, get_str, and_then, json,
}
use apcore_mcp_rust.Prelude.Map.{get}
use apcore_mcp_rust.Prelude.Fallible.{Fallible}
use apcore_mcp_rust.ApprovalStore.{map_option}
use apcore_mcp_rust.Session.{
  Session, Sessions, insert_session, set_client_capabilities, set_structured_results,
}
use apcore_mcp_rust.Wire.{
  Tool, CallToolResult, Resource, ReadResourceContents, ResourceTemplate, InitializationOptions,
}

-- What the handlers share: the registry of live sessions, where there is one, and all else.
pub record State (World : Type 0) : Type 0 where
  pub session_registry : Option Sessions
  pub world : World

pub record ServerHandler (World : Type 0) : Type 0 where
  pub list_tools : State World → List Tool
  pub call_tool : String → Value → Option Value → State World → State World × CallToolResult
  pub list_resources : Option (State World → List Resource)
  pub read_resource :
      Option (String → State World → State World × Fallible String (List ReadResourceContents))
  pub list_resource_templates : Option (State World → List ResourceTemplate)
  pub init_options : InitializationOptions
  pub cancel_handler : Option (String → State World → State World)

pub data RpcResult : Type 0 where
  success : Value → RpcResult
  error : Number → String → RpcResult
  notification : RpcResult

-- -32600, -32601 and -32602
abbrev pub invalid_request : Number
invalid_request = Number.neg_int 32599

abbrev pub method_not_found : Number
method_not_found = Number.neg_int 32600

abbrev pub invalid_params : Number
invalid_params = Number.neg_int 32601

-- `value[key]`
abbrev pub index : String → Value → Value
index key v = unwrap_or (get_key key v) null

-- `value == text`
abbrev pub is_text : String → Value → Bool
is_text s (string t) = t == s
is_text s _ = false

abbrev pub is_string : Value → Bool
is_string (string t) = true
is_string _ = false

abbrev pub is_object : Value → Bool
is_object (object fs) = true
is_object _ = false

unfoldable pub valid_request_id : Value → Bool
valid_request_id (string s) = true
valid_request_id (number (Number.pos_int n)) = true
valid_request_id (number (Number.neg_int n)) = true
valid_request_id _ = false

-- `is_some_and`
abbrev pub is_some_and : (Value → Bool) → Option Value → Bool
is_some_and p none = false
is_some_and p (some v) = p v

unfoldable pub request_error : Value → Option (Number × String)
unfolding valid_request_id
request_error message =
    if not (is_object message)
      || not (is_text "2.0" (index "jsonrpc" message))
      || is_some_and (λ id. not (valid_request_id id)) (get_key "id" message)
    then some (invalid_request, "Invalid Request: invalid JSON-RPC envelope")
    else if is_some_and (λ params. not (is_object params)) (get_key "params" message)
    then some (invalid_params, "Invalid params: expected an object")
    else none

unfoldable pub negotiated_protocol : Value → String
negotiated_protocol message =
    if is_text "2024-11-05" (index "protocolVersion" (index "params" message))
    then "2024-11-05"
    else if is_text "2025-03-26" (index "protocolVersion" (index "params" message))
    then "2025-03-26"
    else "2025-06-18"

-- `message["params"]["_meta"]["sessionId"].as_str()`
abbrev pub session_of : Value → Option String
session_of message = get_str "sessionId" (index "_meta" (index "params" message))

abbrev pub session_supports : Option Session → Bool
session_supports none = false
session_supports (some s) = s.structured_results

unfoldable pub supports_structured_results : Option Sessions → Value → Bool
supports_structured_results registry message =
    if is_text "2025-06-18" (index "mcpProtocolVersion" (index "_meta" (index "params" message)))
    then true
    else session_supports
        (and_then (session_of message) λ id. and_then registry λ sessions. get id sessions)

abbrev pub declare_capabilities : Value → Value → Session → Session
declare_capabilities message params s =
    set_client_capabilities (unwrap_or (get_key "capabilities" params) (json []))
      (set_structured_results (negotiated_protocol message == "2025-06-18") s)

-- The registry holds a session under its ID.
unfoldable pub record_client_capabilities : Value → Option Sessions → Option Sessions
record_client_capabilities message registry = elim registry [
  | none ↦ none
  | some sessions ↦ elim (get_key "params" message) [
    | none ↦ some sessions
    | some params ↦ elim (and_then (get_key "_meta" params) (get_str "sessionId")) [
      | none ↦ some sessions
      | some id ↦ elim (get id sessions) [
        | none ↦ some sessions
        | some s ↦ some (insert_session (declare_capabilities message params s) sessions)
      ]
    ]
  ]
]

unfoldable pub wrap_response : Option Value → RpcResult → Option Value
wrap_response id notification = none
wrap_response id (success v) =
    map_option (λ i. json (("jsonrpc", string "2.0") ∷ ("id", i) ∷ ("result", v) ∷ [])) id
wrap_response id (error c m) =
    map_option
      (λ i. json (
        ("jsonrpc", string "2.0")
        ∷ ("id", i)
        ∷ ("error", json (("code", number c) ∷ ("message", string m) ∷ []))
        ∷ []))
      id
