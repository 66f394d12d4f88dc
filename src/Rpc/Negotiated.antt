-- ===== src/Rpc/Negotiated.antt =====
-- What `initialize` settles for a session, in src/server/server.rs.
use apcore_mcp_rust.Prelude.{
  String, ◌≡◌, refl, ◌∙◌, inl, inr, Bool, false, not, Option, none, some, arith, ◌==◌, eq_refl,
  if◌then◌else◌, Bool-cases, Option-cases,
}
use apcore_mcp_rust.Json.{Number, Value, get_key, get_str, and_then, is_null, fields_of}
use apcore_mcp_rust.Prelude.Map.{get, insert, get-insert}
use apcore_mcp_rust.Prelude.Fallible.{Fallible, err}
use apcore_mcp_rust.Approval.Elicitation.{ElicitResult}
use apcore_mcp_rust.Session.{
  Session, Sessions, SessionError, elicitation_unsupported, Await, Wake, elicit_form,
  supports_elicitation,
}
use apcore_mcp_rust.Rpc.{
  State, ServerHandler, index, is_text, request_error, negotiated_protocol, session_of,
  session_supports, supports_structured_results, record_client_capabilities, declare_capabilities,
}
use apcore_mcp_rust.Rpc.Handler.{handle_message, dispatch, initialize, is_unanswered}

-- The message asks for `initialize`, and the transport has stamped the session's ID on it.
pub record Opens (id : String) (message : Value) : Type 0 where
  pub admitted : request_error message ≡ none
  pub method : get_str "method" message ≡ some "initialize"
  pub session : session_of message ≡ some id

-- The session is in the registry under its ID.
pub record IsLive (id : String) (s : Session) (registry : Option Sessions) : Type 0 where
  pub sessions : Sessions
  pub some_sessions : registry ≡ some sessions
  pub found : get id sessions ≡ some s
  pub own_id : s.id ≡ id

-- Whether the message declares elicitation.
abbrev pub declares_elicitation : Value → Bool
declares_elicitation message =
    elim (and_then (get_key "capabilities" (index "params" message)) (get_key "elicitation")) [
      | none ↦ false
      | some v ↦ not (is_null v)
    ]

supports-declared :
    (message : Value) (s : Session)
    → supports_elicitation (declare_capabilities message (index "params" message) s)
      ≡ declares_elicitation message
unfolding get_key fields_of
supports-declared message s =
    elim (Option-cases (get_key "capabilities" (index "params" message))) [
      | inl c ↦ rw (c, declares_elicitation) refl
      | inr (v, c) ↦ rw (c, declares_elicitation) refl
    ]

record-insert :
    (id : String) (message : Value) (s : Session) (sessions : Sessions)
    → session_of message ≡ some id
    → get id sessions ≡ some s
    → s.id ≡ id
    → record_client_capabilities message (some sessions)
      ≡ some (insert id (declare_capabilities message (index "params" message) s) sessions)
unfolding record_client_capabilities get_str get_key
record-insert id message s sessions m g e = elim (Option-cases (get_key "params" message)) [
  | inl p ↦ absurd (ground (arith, m, p))
  | inr (params, p) ↦ elim (Option-cases (get_key "_meta" params)) [
    | inl q ↦ absurd (ground (arith, m, p, q))
    | inr (meta, q) ↦
        let i : get_str "sessionId" meta ≡ some id = rw (p, q) at m in
        rw (p, q, i, g, e, record_client_capabilities) refl
  ]
]

module _ {World : Type 0} (print : Value → String) (h : ServerHandler World) where
  pub handle_message-refused :
      (message : Value) (x : Number × String) (st : State World)
      → request_error message ≡ some x
      → (handle_message print h message st).0 ≡ st
  unfolding handle_message
  handle_message-refused message (c, t) st e = elim (Bool-cases (is_unanswered message)) [
    | inl b ↦ rw (e, b, handle_message) refl
    | inr b ↦ rw (e, b, handle_message) refl
  ]

  pub handle_message-initialize :
      (message : Value) (st : State World)
      → request_error message ≡ none
      → get_str "method" message ≡ some "initialize"
      → (handle_message print h message st).0.session_registry
        ≡ record_client_capabilities message st.session_registry
  unfolding handle_message dispatch initialize
  handle_message-initialize message st e m = rw (e, m, handle_message) refl

  opened-registry :
      (id : String) (message : Value) (s : Session) (st : State World)
      → Opens id message
      → (l : IsLive id s st.session_registry)
      → (handle_message print h message st).0.session_registry
        ≡ some (insert id (declare_capabilities message (index "params" message) s) l.sessions)
  opened-registry id message s st o l =
      handle_message-initialize message st o.admitted o.method
      ∙ rw l.some_sessions (record-insert id message s l.sessions o.session l.found l.own_id)

  -- After `initialize` on a live session, that session has structured results exactly if the
  -- revision it settled is 2025-06-18, what it has declared decides whether it can be asked, and
  -- every other session is as before; so a later message that states no revision of its own is
  -- treated by the session it names.
  pub handle_message-negotiates :
      (id k : String) (message later : Value) (s : Session) (st : State World)
      → Opens id message
      → (l : IsLive id s st.session_registry) → session_of later ≡ some k
      → is_text "2025-06-18" (index "mcpProtocolVersion" (index "_meta" (index "params" later)))
        ≡ false
      → supports_structured_results (handle_message print h message st).0.session_registry later ≡ (
          if id == k
          then negotiated_protocol message == "2025-06-18"
          else session_supports (get k l.sessions))
  unfolding supports_structured_results
  handle_message-negotiates id k message later s st o l m v =
      rw
        (
          v,
          m,
          opened-registry id message s st o l,
          get-insert id k (declare_capabilities message (index "params" message) s) l.sessions,
          supports_structured_results,
        )
        (elim (Bool-cases (id == k)) [ inl b ↦ rw b refl | inr b ↦ rw b refl ])

  -- After `initialize` on a live session by a client that declares no elicitation, the session's
  -- requests in flight are as before, and a form for the client fails and sends nothing.
  pub handle_message-unasked :
      (id : String) (message : Value) (s : Session) (st : State World)
      (sink : Value → Await (Fallible SessionError (Unit {0}))) (wait : Await Wake) (uuid : String)
      (from_value : Value → Fallible String ElicitResult) (text : String) (schema : Value)
      → Opens id message
      → (l : IsLive id s st.session_registry) → declares_elicitation message ≡ false
      → (s' : Session) × (and_then (handle_message print h message st).0.session_registry (get id)
          ≡ some s')
        × (s'.pending ≡ s.pending)
        × (elicit_form sink wait uuid from_value text schema s' ≡ (s', err elicitation_unsupported))
  unfolding elicit_form get_key fields_of
  handle_message-unasked id message s st sink wait uuid from_value text schema o l d = (
    declare_capabilities message (index "params" message) s,
    rw (opened-registry id message s st o l) (
        get-insert id id (declare_capabilities message (index "params" message) s) l.sessions
        ∙ rw (eq_refl id) refl),
    refl,
    rw (supports-declared message s ∙ d, elicit_form) refl,
  )
