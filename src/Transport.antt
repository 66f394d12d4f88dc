-- ===== src/Transport.antt =====
-- src/server/transport.rs: what the transports write on a message before it is handled, and the
-- endpoints of the HTTP transport.
pub mod Sse
pub mod Stamped
pub mod Isolated
pub mod Reach
mod Examples
use apcore_mcp_rust.Prelude.{
  ℕ, String, Option, none, some, [], ◌∷◌, eqb, if◌then◌else◌, unwrap_or, ◌<>◌, contains, is_blank,
}
use apcore_mcp_rust.Json.{Value, string, object, Fields, end, get, insert, remove, json}
use apcore_mcp_rust.Prelude.Fallible.{Fallible, ok, err}
use apcore_mcp_rust.Rpc.{State, ServerHandler}
use apcore_mcp_rust.Rpc.Handler.{handle_message}

pub data TransportError : Type 0 where
  invalid_host : String → TransportError
  invalid_port : ℕ → TransportError
  io : String → TransportError
  bind : (host : String) (port : ℕ) (source : String) → TransportError
  server : String → TransportError

unfoldable pub validate_host_port : String → ℕ → Fallible TransportError (Unit {0})
validate_host_port host port =
    if is_blank host
    then err (invalid_host host)
    else if eqb port 0
    then err (invalid_port port)
    else ok tt

-- `object.entry("params").or_insert_with(…).as_object_mut()`: the parameters, where they are an
-- object or absent, and what writing them back makes of the message.
abbrev pub with_params : (Fields → Fields) → Value → Value
with_params f (object fs) = elim (unwrap_or (get "params" fs) (json [])) [
  | object params ↦ object (insert "params" (object (f params)) fs)
  | _ ↦ object fs
]
with_params f message = message

abbrev pub stamp_meta : String → Fields → Fields
stamp_meta session_id params = elim (get "_meta" params) [
  | some meta ↦ elim meta [
    | object fs ↦
        insert "_meta"
          (object (insert "sessionId" (string session_id) (remove "mcpProtocolVersion" fs))) params
    | _ ↦ insert "_meta" (json (("sessionId", string session_id) ∷ [])) params
  ]
  | none ↦ insert "_meta" (json (("sessionId", string session_id) ∷ [])) params
]

unfoldable pub stamp_session_id : String → Value → Value
stamp_session_id session_id message = with_params (stamp_meta session_id) message

-- `_meta`, where it is an object, else an empty one.
abbrev pub meta_of : Fields → Fields
meta_of params = elim (get "_meta" params) [
  | some meta ↦ elim meta [ object fs ↦ fs | _ ↦ end ]
  | none ↦ end
]

abbrev pub stamp_version : String → Fields → Fields
stamp_version version params =
    insert "_meta"
      (object (insert "mcpProtocolVersion" (string version) (remove "sessionId" (meta_of params))))
      params

unfoldable pub stamp_http_protocol : String → Value → Value
stamp_http_protocol version message = with_params (stamp_version version) message

-- A header's value: none where it is not text.
abbrev pub Header : Type 0
Header = Option String

-- The revision of a request, by its header; an error that is answered by 400.
unfoldable pub http_protocol_version : Option Header → Fallible (Unit {0}) String
http_protocol_version header =
    let version : String = elim header [ none ↦ "2025-03-26" | some value ↦ unwrap_or value "" ] in
    if contains ("2024-11-05" ∷ "2025-03-26" ∷ "2025-06-18" ∷ []) version
    then ok version
    else err tt

pub data Body : Type 0 where
  empty : Body
  json_body : Value → Body
  text_body : String → Body
  event_stream : (first : String) → Body

pub record HttpResponse : Type 0 where
  pub status : ℕ
  pub session_header : Option String
  pub body : Body

abbrev pub http_response : ℕ → Body → HttpResponse
http_response status body = record { status = status; session_header = none; body = body }

abbrev unsupported_version : HttpResponse
unsupported_version =
    http_response 400 (json_body (json (("error", string "Unsupported MCP-Protocol-Version") ∷ [])))

-- The transport's session ID is an argument.
module _ {World : Type 0} (print : Value → String) (h : ServerHandler World)
    (session_id : String) where
  unfoldable pub streamable_http_post_handler :
      Option Header → Value → State World → State World × HttpResponse
  streamable_http_post_handler header body st = elim (http_protocol_version header) [
    | err e ↦ (st, unsupported_version)
    | ok version ↦
        let (st', answer) = handle_message print h (stamp_http_protocol version body) st in
        elim answer [
          | some response ↦ (
            st',
            record { status = 200; session_header = some session_id; body = json_body response },
          )
          | none ↦ (st', record { status = 202; session_header = some session_id; body = empty })
        ]
  ]

unfoldable pub streamable_http_get_handler : String → Option Header → HttpResponse
streamable_http_get_handler session_id header = elim (http_protocol_version header) [
  | err e ↦ unsupported_version
  | ok version ↦ http_response 200 (event_stream ("/mcp?sessionId=" <> session_id))
]

unfoldable pub streamable_http_delete_handler : Option Header → HttpResponse
streamable_http_delete_handler header = elim (http_protocol_version header) [
  | err e ↦ unsupported_version
  | ok version ↦ http_response 200 empty
]
