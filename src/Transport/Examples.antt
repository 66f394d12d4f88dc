-- ===== src/Transport/Examples.antt =====
-- The transports of src/server/transport.rs at concrete messages.
use apcore_mcp_rust.Prelude.{
  ℕ, String, ◌≡◌, refl, true, false, none, some, List, [], ◌∷◌, ◌==◌, if◌then◌else◌,
}
use apcore_mcp_rust.Json.{
  Number, Value, array, nil, string, number, json, get_key, get_str, get, fields_of,
}
use apcore_mcp_rust.Prelude.Map
use apcore_mcp_rust.Prelude.Fallible.{ok}
use apcore_mcp_rust.Session.{try_take_response, Session, new}
use apcore_mcp_rust.Rpc.{
  State, ServerHandler, request_error, negotiated_protocol, session_supports,
  supports_structured_results, valid_request_id,
}
use apcore_mcp_rust.Rpc.Handler.{handle_message, tools_list}
use apcore_mcp_rust.Rpc.Negotiated.{IsLive}
use apcore_mcp_rust.Wire.{new_text, new_result}
use apcore_mcp_rust.Transport.{
  json_body, http_protocol_version, streamable_http_post_handler, stamp_session_id,
  stamp_http_protocol,
}
use apcore_mcp_rust.Transport.Stamped.{is_call}
use apcore_mcp_rust.Transport.Isolated.{stamp_session_id-negotiates}
use apcore_mcp_rust.Transport.Sse.{Sse, open_session, sse_messages_handler, receive, run, send}
use apcore_mcp_rust.Transport.Reach.{
  Live, Inv, here, next, opens, posts, receives, runs, sends, start-Reach-Inv,
}

abbrev echo : ServerHandler ℕ
echo = record {
  list_tools = λ st. [];
  call_tool = λ name arguments extra st. (st, new_result (new_text name ∷ []) false);
  list_resources = none;
  read_resource = none;
  list_resource_templates = none;
  init_options = record { server_name = "s"; server_version = "1"; extensions = none };
  cancel_handler = none;
}

abbrev printed : Value → String
printed v = "?"

abbrev digits : Number → String
digits n = "1"

abbrev sessions : List (String × Session)
sessions = ("s1", new "s1") ∷ []

abbrev server : State ℕ
server = record { session_registry = some sessions; world = 0 }

abbrev hello : Value
hello = json (
    ("jsonrpc", string "2.0")
    ∷ ("id", number (Number.pos_int 1))
    ∷ ("method", string "initialize")
    ∷ (
      "params",
      json (
          ("protocolVersion", string "2024-11-05")
          ∷ ("_meta", json (("sessionId", string "s2") ∷ []))
          ∷ []),
    )
    ∷ [])

abbrev listing : Value
listing = json (
    ("jsonrpc", string "2.0")
    ∷ ("id", number (Number.pos_int 2))
    ∷ ("method", string "tools/list")
    ∷ [])

hello-method : get_str "method" hello ≡ some "initialize"
unfolding get_str get_key fields_of
hello-method = refl

hello-admitted : request_error hello ≡ none
unfolding request_error get_key fields_of valid_request_id
hello-admitted = refl

live : IsLive "s1" (new "s1") server.session_registry
unfolding Map.get
live = record { sessions = sessions; some_sessions = refl; found = refl; own_id = refl }

listing-is_call : is_call listing ≡ true
unfolding get_key fields_of
listing-is_call = refl

stamp_session_id-negotiates_example :
    supports_structured_results
      (handle_message printed echo (stamp_session_id "s1" hello) server).0.session_registry
      (stamp_session_id "s1" listing)
    ≡ (if "s1" == "s1"
        then negotiated_protocol hello == "2025-06-18"
        else session_supports (Map.get "s1" live.sessions))
stamp_session_id-negotiates_example =
    stamp_session_id-negotiates printed echo "s1" "s1" hello listing (new "s1") server
      hello-admitted hello-method live listing-is_call

abbrev empty_sse : Sse ℕ
empty_sse = record { queues = []; server = server; in_flight = []; events = [] }

abbrev nothing : Live ℕ
nothing = record { sse = empty_sse; posted = []; sent = [] }

abbrev opened : Live ℕ
opened = record nothing { sse = open_session "s3" empty_sse }

-- A message that is posted, received and answered.
abbrev posted : Live ℕ
posted = record {
  sse = (sse_messages_handler (some "s3") listing opened.sse).0;
  posted = ("s3", listing) ∷ [];
  sent = [];
}

abbrev received : Live ℕ
received = record posted { sse = receive digits "s3" posted.sse }

abbrev answered : Live ℕ
answered = record received {
  sse = run printed echo [] ("s3", stamp_session_id "s3" listing) [] received.sse;
}

waits : received.sse.in_flight ≡ ("s3", stamp_session_id "s3" listing) ∷ []
unfolding receive sse_messages_handler open_session Map.get Map.insert try_take_response get_key
    fields_of
waits = refl

-- A request of the server.
abbrev asked : Live ℕ
asked = record answered { sse = send "s3" listing answered.sse; sent = ("s3", listing) ∷ [] }

start-Reach-Inv_example : Inv asked
start-Reach-Inv_example = start-Reach-Inv digits printed echo none server asked (
    next
      (next (next (next (next here (opens "s3")) (posts (some "s3") listing)) (receives "s3"))
        (runs [] ("s3", stamp_session_id "s3" listing) [] waits))
      (sends "s3" listing))

abbrev shown : Value
shown = json (("tools", array nil) ∷ [])

abbrev answer : Value
answer =
    json (("jsonrpc", string "2.0") ∷ ("id", number (Number.pos_int 2)) ∷ ("result", shown) ∷ [])

answers :
    (streamable_http_post_handler printed echo "t" none listing server).1.body ≡ json_body answer
unfolding streamable_http_post_handler http_protocol_version stamp_http_protocol handle_message
    request_error get fields_of get_key get_str tools_list
answers = refl

default_version : http_protocol_version none ≡ ok "2025-03-26"
unfolding http_protocol_version
default_version = refl
