-- ===== src/Transport/Sse.antt =====
-- src/server/transport.rs: the connections of the SSE transport. A message that is dispatched waits
-- in a list until its handler runs.
use apcore_mcp_rust.Prelude.{
  String, Bool, true, false, Option, none, some, List, [], ◌∷◌, ◌++◌, if◌then◌else◌, ◌<>◌, before,
}
use apcore_mcp_rust.Json.{Number, Value, and_then}
use apcore_mcp_rust.Prelude.Map.{Map, get, insert, remove}
use apcore_mcp_rust.ApprovalStore.{map_option}
use apcore_mcp_rust.Session.{Sessions, new, insert_session, remove_session, try_take_response}
use apcore_mcp_rust.Rpc.{State, ServerHandler}
use apcore_mcp_rust.Rpc.Handler.{handle_message}
use apcore_mcp_rust.Transport.{HttpResponse, http_response, Body, stamp_session_id}

-- A connection's inbound messages; closed once its consumer stops.
pub record Queue : Type 0 where
  pub is_open : Bool
  pub messages : List Value

-- What a stream carries: the URL to post to, and messages.
pub data Event : Type 0 where
  endpoint_event : String → Event
  message_event : Value → Event

abbrev pub endpoint_of : String → Event
endpoint_of session_id = endpoint_event ("/messages/?sessionId=" <> session_id)

-- The queues by session, the server's state, the messages whose handler has not run, and the
-- events sent, each with the session whose stream it is for.
pub record Sse (World : Type 0) : Type 0 where
  pub queues : Map Queue
  pub server : State World
  pub in_flight : List (String × Value)
  pub events : List (String × Event)

abbrev forget : String → Sessions → Sessions
forget session_id sessions = (remove_session session_id sessions).0

module _ {World : Type 0} where
  abbrev with_registry : (Sessions → Sessions) → State World → State World
  with_registry f st = record st { session_registry = map_option f st.session_registry }

  -- With what the spawned task sends first.
  unfoldable pub open_session : String → Sse World → Sse World
  open_session session_id s = record s {
    queues = insert session_id (record { is_open = true; messages = [] }) s.queues;
    server = with_registry (insert_session (new session_id)) s.server;
    events = s.events ++ (session_id, endpoint_of session_id) ∷ [];
  }

  -- `SseSink::send`, on the stream that the responses go to: a request of the server itself.
  unfoldable pub send : String → Value → Sse World → Sse World
  send session_id message s = record s {
    events = s.events ++ (session_id, message_event message) ∷ [];
  }

  unfoldable pub sse_messages_handler : Option String → Value → Sse World → Sse World × HttpResponse
  sse_messages_handler query body s = elim query [
    | none ↦ (
      s,
      http_response 400
          (Body.text_body "missing sessionId query parameter; use the URL from the endpoint event"),
    )
    | some session_id ↦ elim (get session_id s.queues) [
      | none ↦ (s, http_response 400 (Body.text_body "unknown session"))
      | some q ↦
          if q.is_open
          then (
            record s {
              queues = insert session_id (record q { messages = q.messages ++ body ∷ [] }) s.queues;
            },
            http_response 202 Body.empty,
          )
          else (s, http_response 400 (Body.text_body "session closed"))
    ]
  ]

  -- The session's answer to a request of the server, if the message is one.
  abbrev pub taken : (Number → String) → String → Value → State World → State World × Bool
  taken print session_id message st = elim (and_then st.session_registry (get session_id)) [
    | none ↦ (st, false)
    | some session ↦
        let (session', waiter, consumed) = try_take_response print message session in
        (with_registry (insert session_id session') st, consumed)
  ]

  -- The consumer receives a message.
  unfoldable pub receive : (Number → String) → String → Sse World → Sse World
  unfolding stamp_session_id
  receive print session_id s = elim (get session_id s.queues) [
    | none ↦ s
    | some q ↦ elim q.messages [
      | [] ↦ s
      | message ∷ rest ↦
          let (server', consumed) = taken print session_id message s.server in
          let s' : Sse World = record s {
            queues = insert session_id (record q { messages = rest }) s.queues;
            server = server';
          } in
          if consumed then s' else record s' {
            in_flight = s.in_flight ++ (session_id, stamp_session_id session_id message) ∷ [];
          }
    ]
  ]

  -- `inbound_rx.close()`
  unfoldable pub stop_accepting : String → Sse World → Sse World
  stop_accepting session_id s = elim (get session_id s.queues) [
    | none ↦ s
    | some q ↦ record s { queues = insert session_id (record q { is_open = false }) s.queues }
  ]

  -- `SseSessionGuard::drop`, with the transport's cancel handler
  unfoldable pub drop_guard :
      Option (String → State World → State World) → String → Sse World → Sse World
  unfolding remove_session
  drop_guard cancel session_id s =
      let server' = with_registry (forget session_id) s.server in
      record s {
        queues = remove session_id s.queues;
        server = elim cancel [ none ↦ server' | some handler ↦ handler session_id server' ];
      }

-- The handler runs on a dispatched message, the others being `before` and `after` it.
module _ {World : Type 0} (print : Value → String) (h : ServerHandler World) where
  unfoldable pub run :
      List (String × Value) → String × Value → List (String × Value) → Sse World → Sse World
  run before (session_id, message) after s =
      let (server', answer) = handle_message print h message s.server in
      record s {
        server = server';
        in_flight = before ++ after;
        events = elim answer [
          | none ↦ s.events
          | some response ↦ s.events ++ (session_id, message_event response) ∷ []
        ];
      }
