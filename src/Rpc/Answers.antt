-- ===== src/Rpc/Answers.antt =====
-- The answers of src/server/server.rs: their envelope, and which messages get one.
use apcore_mcp_rust.Prelude.{
  String, ◌≡◌, refl, ap, subst, inl, inr, Bool, true, false, not, ◌&&◌, Option, none, some, arith,
  Bool-cases, Option-cases, some_unique, is_some, unwrap_or,
}
use mathlib.Core.Option.{none-ne-some}
use apcore_mcp_rust.Json.{Value, null, get_key, get_str, fields_of}
use apcore_mcp_rust.Prelude.Fallible.{Fallible-cases}
use apcore_mcp_rust.Rpc.{
  State, ServerHandler, RpcResult, success, error, notification, invalid_request, valid_request_id,
  request_error, wrap_response,
}
use apcore_mcp_rust.Rpc.Methods.{is_notification, dispatch-by}
use apcore_mcp_rust.Rpc.Handler.{
  handle_message, dispatch, valid_id, is_unanswered, initialize, tools_list, tools_call,
  resources_list, resources_read, resource_templates_list, cancelled,
}

-- The ID that an answer carries: the message's own, or null where that is no ID.
abbrev pub reply_id : Value → Value
reply_id message = unwrap_or (valid_id (get_key "id" message)) null

-- A JSON-RPC 2.0 response to the message: a result or an error, and not both.
pub record IsResponse (message : Value) (r : Value) : Type 0 where
  pub version : get_str "jsonrpc" r ≡ some "2.0"
  pub answered_id : get_key "id" r ≡ some (reply_id message)
  pub one_of : is_some (get_key "result" r) ≡ not (is_some (get_key "error" r))

wrap_response-IsResponse :
    (message i r : Value) (result : RpcResult)
    → i ≡ reply_id message
    → wrap_response (some i) result ≡ some r
    → IsResponse message r
unfolding wrap_response get_str fields_of
wrap_response-IsResponse message i r notification e h = cc
wrap_response-IsResponse message i r (success v) e h =
    subst (IsResponse message) (some_unique refl h)
      record { version = refl; answered_id = ap some e; one_of = refl }
wrap_response-IsResponse message i r (error c m) e h =
    subst (IsResponse message) (some_unique refl h)
      record { version = refl; answered_id = ap some e; one_of = refl }

wrap_response-none : (result : RpcResult) (r : Value) → wrap_response none result ≡ some r → ⊥
unfolding wrap_response
wrap_response-none notification r h = cc
wrap_response-none (success v) r h = cc
wrap_response-none (error c m) r h = cc

valid_id-some :
    (message i : Value)
    → request_error message ≡ none
    → get_key "id" message ≡ some i
    → valid_id (get_key "id" message) ≡ some i
unfolding request_error
valid_id-some message i e h = elim (Bool-cases (valid_request_id i)) [
  | inl v ↦ rw (h, v) refl
  | inr v ↦ absurd (ground (arith, e, h, v))
]

wrapped :
    (message r : Value) (result : RpcResult)
    → request_error message ≡ none
    → wrap_response (get_key "id" message) result ≡ some r
    → IsResponse message r
wrapped message r result e h = elim (Option-cases (get_key "id" message)) [
  | inl n ↦ absurd (wrap_response-none result r (rw n at h))
  | inr (i, n) ↦
      wrap_response-IsResponse message i r result (rw (valid_id-some message i e n) refl)
        (rw n at h)
]

module _ {World : Type 0} (print : Value → String) (h : ServerHandler World) where
  -- Every answer is a JSON-RPC 2.0 response: it carries the message's ID, or null where the message
  -- has no valid one, and a result or an error, and not both.
  pub handle_message-IsResponse :
      (message r : Value) (st : State World)
      → (handle_message print h message st).1 ≡ some r
      → IsResponse message r
  unfolding handle_message
  handle_message-IsResponse message r st p = elim (Option-cases (request_error message)) [
    | inl e ↦ elim (Option-cases (get_str "method" message)) [
      | inl m ↦
          wrapped message r (error invalid_request "Invalid Request: missing 'method'") e
            (rw (e, m, handle_message) at p)
      | inr (method, m) ↦
          wrapped message r (dispatch print h method message st).1 e
            (rw (e, m, handle_message) at p)
    ]
    | inr ((c, t), e) ↦ elim (Bool-cases (is_unanswered message)) [
      | inl b ↦ absurd (none-ne-some r (rw (e, b, handle_message) at p))
      | inr b ↦
          wrap_response-IsResponse message (reply_id message) r (error c t) refl
            (rw (e, b, handle_message) at p)
    ]
  ]

abbrev is_notice : RpcResult → Bool
is_notice notification = true
is_notice (success v) = false
is_notice (error c m) = false

wrap_response-is_some :
    (id : Option Value) (result : RpcResult)
    → is_some (wrap_response id result) ≡ (is_some id && not (is_notice result))
unfolding wrap_response
wrap_response-is_some none notification = refl
wrap_response-is_some none (success v) = refl
wrap_response-is_some none (error c m) = refl
wrap_response-is_some (some i) notification = refl
wrap_response-is_some (some i) (success v) = refl
wrap_response-is_some (some i) (error c m) = refl

-- The messages that are to be answered: of those the envelope admits, those with an ID whose
-- method is no notification, and of the others those that are not left unanswered.
abbrev pub wants_answer : Value → Bool
wants_answer message = elim (request_error message) [
  | some e ↦ not (is_unanswered message)
  | none ↦ elim (get_str "method" message) [
    | none ↦ is_some (get_key "id" message)
    | some method ↦ is_some (get_key "id" message) && not (is_notification method)
  ]
]

module _ {World : Type 0} (print : Value → String) (h : ServerHandler World) where
  tools_call-is_notice :
      (message : Value) (st : State World) → is_notice (tools_call print h message st).1 ≡ false
  unfolding tools_call
  tools_call-is_notice message st = elim (Option-cases (get_key "params" message)) [
    | inl p ↦ ground (arith, p)
    | inr (params, p) ↦ elim (Option-cases (get_str "name" params)) [
      | inl n ↦ ground (arith, p, n)
      | inr (name, n) ↦ ground (arith, p, n)
    ]
  ]

  resources_read-is_notice :
      (message : Value) (st : State World) → is_notice (resources_read print h message st).1 ≡ false
  unfolding resources_read
  resources_read-is_notice message st = elim (Option-cases (get_key "params" message)) [
    | inl p ↦ ground (arith, p)
    | inr (params, p) ↦ elim (Option-cases (get_str "uri" params)) [
      | inl n ↦ ground (arith, p, n)
      | inr (uri, n) ↦ elim (Option-cases h.read_resource) [
        | inl o ↦ ground (arith, p, n, o)
        | inr (handler, o) ↦ elim (Fallible-cases (handler uri st).1) [
          | inl (e, f) ↦ ground (arith, p, n, o, f)
          | inr (c, f) ↦ ground (arith, p, n, o, f)
        ]
      ]
    ]
  ]

  resources_list-is_notice : (st : State World) → is_notice (resources_list print h st).1 ≡ false
  unfolding resources_list
  resources_list-is_notice st = ground arith

  resource_templates_list-is_notice :
      (st : State World) → is_notice (resource_templates_list print h st).1 ≡ false
  unfolding resource_templates_list
  resource_templates_list-is_notice st = ground arith

  cancelled-is_notice :
      (message : Value) (st : State World) → is_notice (cancelled print h message st).1 ≡ true
  unfolding cancelled
  cancelled-is_notice message st = ground arith

  dispatch-is_notice :
      (method : String) (message : Value) (st : State World)
      → is_notice (dispatch print h method message st).1 ≡ is_notification method
  unfolding initialize tools_list
  dispatch-is_notice method message st =
      dispatch-by print h (λ k o. is_notice o.1 ≡ is_notification k) method message st refl refl
        (tools_call-is_notice message st) (resources_list-is_notice st)
        (resources_read-is_notice message st) (resource_templates_list-is_notice st) refl
        (cancelled-is_notice message st) λ k n. rw n refl

  -- A message is answered exactly if it is to be: a well-formed message if it has an ID and its
  -- method is no notification, and a malformed one unless it says 2.0 and has a
  -- method and no ID.
  pub handle_message-wants_answer :
      (message : Value) (st : State World)
      → is_some (handle_message print h message st).1 ≡ wants_answer message
  unfolding handle_message
  handle_message-wants_answer message st = elim (Option-cases (request_error message)) [
    | inl e ↦ elim (Option-cases (get_str "method" message)) [
      | inl m ↦ ground (
        arith,
        e,
        m,
        wrap_response-is_some (get_key "id" message)
            (error invalid_request "Invalid Request: missing 'method'"),
      )
      | inr (method, m) ↦ ground (
        arith,
        e,
        m,
        dispatch-is_notice method message st,
        wrap_response-is_some (get_key "id" message) (dispatch print h method message st).1,
      )
    ]
    | inr ((c, t), e) ↦
        ground (arith, e, wrap_response-is_some (some (reply_id message)) (error c t))
  ]
