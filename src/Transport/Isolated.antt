-- ===== src/Transport/Isolated.antt =====
-- Which session a request over a transport of src/server/transport.rs is read by.
use apcore_mcp_rust.Prelude.{
  String, ◌≡◌, refl, ap, ◌∙◌, inl, inr, true, false, Option, none, some, arith, ◌==◌, if◌then◌else◌,
  Bool-cases, Option-cases,
}
use apcore_mcp_rust.Json.{
  Value, Fields, string, object, get, insert, remove, get_key, get_str, get-insert,
}
use apcore_mcp_rust.Prelude.Map
use apcore_mcp_rust.Prelude.Fallible.{Fallible-cases}
use apcore_mcp_rust.Session.{Session}
use apcore_mcp_rust.Rpc.{
  State, ServerHandler, index, request_error, is_object, negotiated_protocol, session_supports,
  supports_structured_results,
}
use apcore_mcp_rust.Rpc.Handler.{handle_message}
use apcore_mcp_rust.Rpc.Negotiated.{
  Opens, IsLive, handle_message-negotiates, handle_message-initialize, handle_message-refused,
}
use apcore_mcp_rust.Transport.{
  Header, http_protocol_version, stamp_session_id, stamp_http_protocol, stamp_meta, stamp_version,
  meta_of, streamable_http_post_handler,
}
use apcore_mcp_rust.Transport.Stamped.{
  is_call, is_malformed, params_of, request_error-with_params, stamp_session_id-IsStamped,
  stamp_http_protocol-IsVersioned, record-IsVersioned, get_key-with_params, index-with_params,
  stamp_meta-insert, get_key-params,
}

is_call-of : (message : Value) → request_error message ≡ none → is_call message ≡ true
unfolding request_error
is_call-of message e = elim (Bool-cases (is_object message)) [
  | inl o ↦ elim (Bool-cases (is_malformed (get_key "params" message))) [
    | inl p ↦ absurd (ground (arith, e, o, p))
    | inr p ↦ rw (o, p, is_call) refl
  ]
  | inr o ↦ absurd (ground (arith, e, o))
]

request_error-stamp_http_protocol :
    (version : String) (message : Value)
    → request_error (stamp_http_protocol version message) ≡ request_error message
unfolding stamp_http_protocol
request_error-stamp_http_protocol version message =
    request_error-with_params (stamp_version version) message

module _ {World : Type 0} (print : Value → String) (h : ServerHandler World)
    (session_id : String) where
  handle_message-http :
      (version : String) (body : Value) (st : State World)
      → get_str "method" body ≡ some "initialize"
      → (handle_message print h (stamp_http_protocol version body) st).0.session_registry
        ≡ st.session_registry
  unfolding stamp_http_protocol get_str
  handle_message-http version body st m =
      let stamped = stamp_http_protocol version body in
      elim (Option-cases (request_error body)) [
        | inl e ↦
            handle_message-initialize print h stamped st
              (request_error-stamp_http_protocol version body ∙ e)
              (rw (get_key-with_params (stamp_version version) "method" body refl) m)
            ∙ record-IsVersioned version stamped st.session_registry
                (stamp_http_protocol-IsVersioned version body (is_call-of body e))
        | inr (x, e) ↦
            ap (λ st. st.session_registry)
              (handle_message-refused print h stamped x st
                (request_error-stamp_http_protocol version body ∙ e))
      ]

  -- Whatever session it names, `initialize` over HTTP changes no live session.
  pub streamable_http_post_handler-initialize :
      (header : Option Header) (body : Value) (st : State World)
      → get_str "method" body ≡ some "initialize"
      → (streamable_http_post_handler print h session_id header body st).0.session_registry
        ≡ st.session_registry
  unfolding streamable_http_post_handler
  streamable_http_post_handler-initialize header body st m =
      elim (Fallible-cases (http_protocol_version header)) [
        | inl (e, p) ↦ rw (p, streamable_http_post_handler) refl
        | inr (version, p) ↦
            elim (Option-cases (handle_message print h (stamp_http_protocol version body) st).1) [
              | inl a ↦
                  rw (p, a, streamable_http_post_handler) (handle_message-http version body st m)
              | inr (r, a) ↦
                  rw (p, a, streamable_http_post_handler) (handle_message-http version body st m)
            ]
      ]

request_error-stamp_session_id :
    (id : String) (message : Value)
    → request_error (stamp_session_id id message) ≡ request_error message
unfolding stamp_session_id
request_error-stamp_session_id id message = request_error-with_params (stamp_meta id) message

stamp_meta-get :
    (id k : String) (params : Fields)
    → "_meta" == k ≡ false
    → get k (stamp_meta id params) ≡ get k params
stamp_meta-get id k params h =
    rw
      (
        stamp_meta-insert id params,
        get-insert "_meta" k
            (object (insert "sessionId" (string id) (remove "mcpProtocolVersion" (meta_of params))))
            params,
        h,
      )
      refl

negotiated_protocol-stamp_session_id :
    (id : String) (message : Value)
    → is_call message ≡ true
    → negotiated_protocol (stamp_session_id id message) ≡ negotiated_protocol message
unfolding negotiated_protocol stamp_session_id get_key
negotiated_protocol-stamp_session_id id message h =
    let same : index "protocolVersion" (index "params" (stamp_session_id id message))
        ≡ index "protocolVersion" (index "params" message) =
      rw
        (
          index-with_params (stamp_meta id) message h,
          stamp_meta-get id "protocolVersion" (params_of message) refl,
          get_key-params "protocolVersion" message h,
        )
        refl in
    rw same refl

stamped-Opens :
    (id : String) (hello : Value)
    → request_error hello ≡ none
    → get_str "method" hello ≡ some "initialize"
    → Opens id (stamp_session_id id hello)
unfolding get_str
stamped-Opens id hello e m =
    let i = stamp_session_id-IsStamped id hello (is_call-of hello e) in
    record {
      admitted = request_error-stamp_session_id id hello ∙ e;
      method = rw (i.rest "method" refl) m;
      session = i.session;
    }

module _ {World : Type 0} (print : Value → String) (h : ServerHandler World) where
  -- On a connection whose messages are stamped with its session's ID, the revision that
  -- `initialize` settles there decides how every later message on it is read, whatever session or
  -- revision that message itself names, and no message on another connection is read differently.
  pub stamp_session_id-negotiates :
      (id k : String) (hello later : Value) (s : Session) (st : State World)
      → request_error hello ≡ none
      → get_str "method" hello ≡ some "initialize"
      → (l : IsLive id s st.session_registry) → is_call later ≡ true
      → supports_structured_results
          (handle_message print h (stamp_session_id id hello) st).0.session_registry
          (stamp_session_id k later)
        ≡ (if id == k
            then negotiated_protocol hello == "2025-06-18"
            else session_supports (Map.get k l.sessions))
  stamp_session_id-negotiates id k hello later s st e m l c =
      let i = stamp_session_id-IsStamped k later c in
      handle_message-negotiates print h id k (stamp_session_id id hello) (stamp_session_id k later)
        s st (stamped-Opens id hello e m) l i.session (rw i.no_version refl)
      ∙ rw (negotiated_protocol-stamp_session_id id hello (is_call-of hello e)) refl
