-- ===== src/Rpc/Examples.antt =====
-- The handler of src/server/server.rs at concrete messages.
use apcore_mcp_rust.Prelude.{ℕ, ◌+◌, String, ◌≡◌, refl, false, none, some, List, [], ◌∷◌, is_some}
use apcore_mcp_rust.Json.{
  Number, Value, number, string, array, nil, cons, json, get_key, get_str, fields_of,
}
use apcore_mcp_rust.Prelude.Map.{Map, get}
use apcore_mcp_rust.Prelude.Fallible.{Fallible, ok}
use apcore_mcp_rust.Session.{Session, SessionError, Await, Wake, new, sender_dropped}
use apcore_mcp_rust.Wire.{Tool, new_text, new_result}
use apcore_mcp_rust.Rpc.{
  State, ServerHandler, supports_structured_results, request_error, valid_request_id,
}
use apcore_mcp_rust.Rpc.Handler.{handle_message, dispatch, tools_list, listed}
use apcore_mcp_rust.Rpc.Answers.{
  IsResponse, handle_message-IsResponse, wants_answer, handle_message-wants_answer,
}
use apcore_mcp_rust.Rpc.Legacy.{IsLegacy, handle_message-IsLegacy}
use apcore_mcp_rust.Rpc.Negotiated.{IsLive}

abbrev count_tool : Tool
count_tool = record {
  name = "count";
  description = "Counts.";
  input_schema = json (("type", string "object") ∷ []);
  output_schema = some (json (("type", string "object") ∷ []));
  annotations = none;
  meta = none;
}

abbrev counter : ServerHandler ℕ
counter = record {
  list_tools = λ st. count_tool ∷ [];
  call_tool = λ name arguments extra st.
      (record st { world = st.world + 1 }, new_result (new_text "1" ∷ []) false);
  list_resources = none;
  read_resource = none;
  list_resource_templates = none;
  init_options = record { server_name = "s"; server_version = "1"; extensions = none };
  cancel_handler = none;
}

abbrev printed : Value → String
printed v = "?"

abbrev one_session : State ℕ
one_session = record { session_registry = some (("s1", new "s1") ∷ []); world = 0 }

abbrev stamped : List (String × Value) → Value
stamped params = json (("_meta", json (("sessionId", string "s1") ∷ [])) ∷ params)

abbrev message : String → List (String × Value) → Value
message method params = json (
    ("jsonrpc", string "2.0")
    ∷ ("id", number (Number.pos_int 7))
    ∷ ("method", string method)
    ∷ ("params", stamped params)
    ∷ [])

abbrev hello : Value
hello = message "initialize" (("protocolVersion", string "2025-03-26") ∷ [])

abbrev list_message : Value
list_message = message "tools/list" []

abbrev shown : Value
shown = json (("tools", array (cons (listed false count_tool) nil)) ∷ [])

abbrev listing : Value
listing =
    json (("jsonrpc", string "2.0") ∷ ("id", number (Number.pos_int 7)) ∷ ("result", shown) ∷ [])

lists : (handle_message printed counter list_message one_session).1 ≡ some listing
unfolding handle_message request_error dispatch tools_list get_key valid_request_id get_str
    supports_structured_results fields_of get
lists = refl

handle_message-IsResponse_example : IsResponse list_message listing
handle_message-IsResponse_example =
    handle_message-IsResponse printed counter list_message listing one_session lists

handle_message-wants_answer_example :
    is_some (handle_message printed counter list_message one_session).1 ≡ wants_answer list_message
handle_message-wants_answer_example =
    handle_message-wants_answer printed counter list_message one_session

result-shown : get_key "result" listing ≡ some shown
unfolding get_key fields_of
result-shown = refl

list_message-unsupported :
    supports_structured_results
      (handle_message printed counter list_message one_session).0.session_registry
      list_message
    ≡ false
unfolding handle_message request_error dispatch tools_list get_key valid_request_id get_str
    supports_structured_results fields_of get
list_message-unsupported = refl

handle_message-IsLegacy_example : IsLegacy shown
handle_message-IsLegacy_example =
    handle_message-IsLegacy printed counter list_message listing shown one_session lists
      result-shown list_message-unsupported

abbrev sessions : Map Session
sessions = ("s1", new "s1") ∷ []

live : IsLive "s1" (new "s1") one_session.session_registry
unfolding get
live = record { sessions = sessions; some_sessions = refl; found = refl; own_id = refl }

abbrev sent : Value → Await (Fallible SessionError (Unit {0}))
sent v s = (s, ok tt)

abbrev hung_up : Await Wake
hung_up s = (s, sender_dropped)
