-- ===== src/Session.antt =====
-- src/server/session.rs: one connection and the requests that the server has outstanding on it.
pub mod Live
pub mod Invariant
pub mod Requests
mod Examples
pub mod Correlation
use apcore_mcp_rust.Prelude.{
  ℕ, String, Bool, true, false, not, Option, none, some, [], ◌∷◌, if◌then◌else◌, is_some, unwrap_or,
  length, ◌<>◌,
}
use apcore_mcp_rust.Json.{Number, Value, number, string, get_key, get_str, and_then, is_null, json}
use apcore_mcp_rust.Prelude.Map.{Map, get, insert, remove}
use apcore_mcp_rust.Prelude.Fallible.{Fallible, ok, err, ◌>>=◌}
use apcore_mcp_rust.ApprovalStore.{map_option}
use apcore_mcp_rust.Approval.Elicitation.{ElicitResult}

pub data SessionError : Type 0 where
  elicitation_unsupported : SessionError
  send : String → SessionError
  timeout : ℕ → SessionError
  closed : SessionError
  client_error : String → SessionError
  malformed : String → SessionError

-- The sender of a one-shot channel, which is named by the request that made the channel.
abbrev pub Waiter : Type 0
Waiter = String

-- The sink, through which the session writes, is an argument of the calls that write.
pub record Session : Type 0 where
  pub id : String
  pub pending : Map Waiter
  pub client_capabilities : Option Value
  pub structured_results : Bool
  pub elicit_timeout : ℕ

-- In seconds.
abbrev pub default_elicit_timeout : ℕ
default_elicit_timeout = 300

abbrev pub new : String → Session
new id = record {
  id = id;
  pending = [];
  client_capabilities = none;
  structured_results = false;
  elicit_timeout = default_elicit_timeout;
}

abbrev pub with_elicit_timeout : ℕ → Session → Session
with_elicit_timeout limit s = record s { elicit_timeout = limit }

abbrev pub set_client_capabilities : Value → Session → Session
set_client_capabilities capabilities s = record s { client_capabilities = some capabilities }

abbrev pub set_structured_results : Bool → Session → Session
set_structured_results supported s = record s { structured_results = supported }

abbrev pub supports_elicitation : Session → Bool
supports_elicitation s = elim (and_then s.client_capabilities (get_key "elicitation")) [
  | none ↦ false
  | some v ↦ not (is_null v)
]

-- `close` drops every sender.
unfoldable pub close : Session → Session
close s = record s { pending = [] }

abbrev pub pending_count : Session → ℕ
pending_count s = length s.pending

-- `PendingGuard`: what making it and dropping it do.
unfoldable pub register : String → Waiter → Session → Session
register id waiter s = record s { pending = insert id waiter s.pending }

unfoldable pub drop_guard : String → Session → Session
drop_guard id s = record s { pending = remove id s.pending }

-- `serde_json` prints a number: a parameter.
module _ (print : Number → String) where
  unfoldable pub response_id_key : Value → Option String
  response_id_key (string s) = some s
  response_id_key (number n) = some (print n)
  response_id_key _ = none

  -- The session afterwards, the waiter that is sent the message, and whether it was consumed.
  unfoldable pub try_take_response : Value → Session → Session × Option Waiter × Bool
  unfolding response_id_key
  try_take_response message s =
      if is_some (get_key "method" message)
      then (s, none, false)
      else elim (and_then (get_key "id" message) response_id_key) [
        | none ↦ (s, none, false)
        | some id ↦ elim (get id s.pending) [
          | none ↦ (s, none, false)
          | some waiter ↦ (record s { pending = remove id s.pending }, some waiter, true)
        ]
      ]

-- What awaiting the receiver under a timeout gives.
pub data Wake : Type 0 where
  answered : Value → Wake
  sender_dropped elapsed : Wake

abbrev pub outcome : ℕ → Wake → Fallible SessionError Value
outcome limit (answered response) = ok response
outcome limit sender_dropped = err closed
outcome limit elapsed = err (timeout limit)

abbrev pub request_message : String → String → Value → Value
request_message id method params = json (
    ("jsonrpc", string "2.0")
    ∷ ("id", string id)
    ∷ ("method", string method)
    ∷ ("params", params)
    ∷ [])

-- What happens to a session while a call of it awaits, and what the call is given then.
abbrev pub Await : Type 0 → Type 0
Await A = Session → Session × A

-- The reader of the result, which serde derives, is a parameter.
unfoldable pub read_response :
    (Value → Fallible String ElicitResult) → Value → Fallible SessionError ElicitResult
read_response from_value response = elim (get_key "error" response) [
  | some error ↦ err (client_error (unwrap_or (get_str "message" error) "unspecified"))
  | none ↦ elim (get_key "result" response) [
    | none ↦ err (malformed "response has neither result nor error")
    | some result ↦ elim (from_value result) [ err e ↦ err (malformed e) | ok r ↦ ok r ]
  ]
]

-- The sink, the wait and the UUID drawn are arguments.
module _ (sink : Value → Await (Fallible SessionError (Unit {0}))) (wait : Await Wake)
    (uuid : String) where
  unfoldable pub request : String → Value → Session → Session × Fallible SessionError Value
  unfolding register drop_guard
  request method params s =
      let id = "apcore-mcp-" <> uuid in
      let (s', sent) = sink (request_message id method params) (register id id s) in
      elim sent [
        | err e ↦ (drop_guard id s', err e)
        | ok u ↦ (drop_guard id (wait s').0, outcome s'.elicit_timeout (wait s').1)
      ]

  unfoldable pub elicit_form :
      (Value → Fallible String ElicitResult)
      → String
      → Value
      → Session
      → Session × Fallible SessionError ElicitResult
  unfolding request read_response
  elicit_form from_value message requested_schema s =
      if not (supports_elicitation s)
      then (s, err elicitation_unsupported)
      else let (s', response) =
          request "elicitation/create"
            (json (("message", string message) ∷ ("requestedSchema", requested_schema) ∷ [])) s in
        (s', response >>= read_response from_value)

-- `SessionRegistry`
abbrev pub Sessions : Type 0
Sessions = Map Session

abbrev pub insert_session : Session → Sessions → Sessions
insert_session s sessions = insert s.id s sessions

-- The registry, and the session that was in it, which is closed.
unfoldable pub remove_session : String → Sessions → Sessions × Option Session
unfolding close
remove_session id sessions = (remove id sessions, map_option close (get id sessions))
