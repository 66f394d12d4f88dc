-- ===== src/Rpc/Legacy.antt =====
-- What src/server/server.rs shows of structured results, and what a refused message changes.
use apcore_mcp_rust.Prelude.{
  String, ◌≡◌, refl, sym, ap, subst, inl, inr, false, Option, none, some, List, [], ◌∷◌, Bool-cases,
  Option-cases, some_unique, unwrap_or, All,
}
use mathlib.Core.Option.{none-ne-some}
use apcore_mcp_rust.Json.{
  Number, Value, items, get_key, get_str, and_then, as_array, fields_of, get-remove,
}
use apcore_mcp_rust.Prelude.Fallible.{Fallible-cases}
use apcore_mcp_rust.Wire.{Tool, CallToolResult, list_of, tool_fields, result_fields}
use apcore_mcp_rust.Rpc.{
  State, ServerHandler, RpcResult, success, error, notification, invalid_request, request_error,
  supports_structured_results, wrap_response,
}
use apcore_mcp_rust.Rpc.Answers.{reply_id}
use apcore_mcp_rust.Rpc.Methods.{dispatch-by}
use apcore_mcp_rust.Rpc.Handler.{
  is_unanswered, handle_message, dispatch, listed, called, initialize, tools_list, tools_call,
  resources_list, resources_read, resource_templates_list, cancelled,
}

-- The tools that a result lists.
abbrev pub tools_of : Value → List Value
tools_of v = unwrap_or (and_then (get_key "tools" v) as_array) []

error-ne-success : {c : Number} {m : String} {v : Value} → error c m ≡ success v → ⊥
error-ne-success p = cc

-- A result that shows neither structured content nor an output schema.
abbrev pub IsLegacy : Value → Type 0
IsLegacy v =
    (get_key "structuredContent" v ≡ none) × All (λ t. get_key "outputSchema" t ≡ none) (tools_of v)

listed-no_schema : (t : Tool) → get_key "outputSchema" (listed false t) ≡ none
unfolding listed get_key
listed-no_schema t = get-remove "outputSchema" "outputSchema" (tool_fields t)

list_of-no_schema :
    (ts : List Tool)
    → All (λ t. get_key "outputSchema" t ≡ none) (items (list_of (listed false) ts))
list_of-no_schema [] = tt
list_of-no_schema (t ∷ ts) = (listed-no_schema t, list_of-no_schema ts)

called-IsLegacy : (r : CallToolResult) → IsLegacy (called false r)
unfolding called result_fields get_key fields_of
called-IsLegacy r = elim (Option-cases r.meta) [
  | inl m ↦ rw m (refl, tt)
  | inr (v, m) ↦ rw m (refl, tt)
]

-- The outcome of an answer with a result.
wrap_response-success :
    (id : Option Value) (o : RpcResult) (r v : Value)
    → wrap_response id o ≡ some r
    → get_key "result" r ≡ some v
    → o ≡ success v
unfolding wrap_response get_key fields_of
wrap_response-success none notification r v p q = cc
wrap_response-success none (success u) r v p q = cc
wrap_response-success none (error c m) r v p q = cc
wrap_response-success (some i) notification r v p q = cc
wrap_response-success (some i) (success u) r v p q =
    ap success
      (some_unique refl (subst (λ x. get_key "result" x ≡ some v) (sym (some_unique refl p)) q))
wrap_response-success (some i) (error c m) r v p q =
    absurd (none-ne-some v (subst (λ x. get_key "result" x ≡ some v) (sym (some_unique refl p)) q))

module _ {World : Type 0} where
  -- What an outcome shows a client whose session has no structured results.
  abbrev Shows : Value → State World × RpcResult → Type 0
  Shows message (st, success v) =
      supports_structured_results st.session_registry message ≡ false → IsLegacy v
  Shows message (st, error c m) = Unit
  Shows message (st, notification) = Unit

module _ {World : Type 0} (print : Value → String) (h : ServerHandler World) where
  tools_call-Shows :
      (message : Value) (st : State World) → Shows message (tools_call print h message st)
  unfolding tools_call
  tools_call-Shows message st = elim (Option-cases (get_key "params" message)) [
    | inl p ↦ rw (p, Shows) tt
    | inr (params, p) ↦ elim (Option-cases (get_str "name" params)) [
      | inl n ↦ rw (p, n, Shows) tt
      | inr (name, n) ↦ rw (p, n, Shows) λ e. rw (rw (p, n, tools_call) at e) (called-IsLegacy _)
    ]
  ]

  resources_read-Shows :
      (message : Value) (st : State World) → Shows message (resources_read print h message st)
  unfolding resources_read get_key fields_of
  resources_read-Shows message st = elim (Option-cases (get_key "params" message)) [
    | inl p ↦ rw (p, Shows) tt
    | inr (params, p) ↦ elim (Option-cases (get_str "uri" params)) [
      | inl n ↦ rw (p, n, Shows) tt
      | inr (uri, n) ↦ elim (Option-cases h.read_resource) [
        | inl o ↦ rw (p, n, o, Shows) tt
        | inr (handler, o) ↦ elim (Fallible-cases (handler uri st).1) [
          | inl (e, f) ↦ rw (p, n, o, f, Shows) tt
          | inr (c, f) ↦ rw (p, n, o, f, Shows) λ e. (refl, tt)
        ]
      ]
    ]
  ]

  dispatch-Shows :
      (method : String) (message : Value) (st : State World)
      → Shows message (dispatch print h method message st)
  unfolding initialize tools_list resources_list resource_templates_list cancelled get_key fields_of
  dispatch-Shows method message st =
      dispatch-by print h (λ k o. Shows message o) method message st (λ e. (refl, tt))
        (λ e. rw e (refl, list_of-no_schema (h.list_tools st))) (tools_call-Shows message st)
        (elim (Option-cases h.list_resources) [
          | inl o ↦ rw (o, Shows) λ e. (refl, tt)
          | inr (f, o) ↦ rw (o, Shows) λ e. (refl, tt)
        ])
        (resources_read-Shows message st)
        (elim (Option-cases h.list_resource_templates) [
          | inl o ↦ rw (o, Shows) λ e. (refl, tt)
          | inr (f, o) ↦ rw (o, Shows) λ e. (refl, tt)
        ])
        tt
        (elim (Option-cases h.cancel_handler) [
          | inl o ↦ rw (o, Shows) tt
          | inr (f, o) ↦ rw (o, Shows) tt
        ])
        λ k n. tt

  pub handle_message-outcome :
      (message r v : Value) (st : State World)
      → (handle_message print h message st).1 ≡ some r
      → get_key "result" r ≡ some v
      → (request_error message ≡ none)
        × (method : String) × (dispatch print h method message st
            ≡ ((handle_message print h message st).0, success v))
  unfolding handle_message
  handle_message-outcome message r v st p q = elim (Option-cases (request_error message)) [
    | inl e ↦ elim (Option-cases (get_str "method" message)) [
      | inl m ↦ absurd (
          error-ne-success (
            wrap_response-success (get_key "id" message)
              (error invalid_request "Invalid Request: missing 'method'") r v
              (rw (e, m, handle_message) at p) q))
      | inr (method, m) ↦ (
        e,
        method,
        rw (e, m, handle_message)
            (ap (λ o. ((dispatch print h method message st).0, o))
              (wrap_response-success (get_key "id" message) (dispatch print h method message st).1 r
                v (rw (e, m, handle_message) at p) q)),
      )
    ]
    | inr ((c, t), e) ↦ elim (Bool-cases (is_unanswered message)) [
      | inl b ↦ absurd (none-ne-some r (rw (e, b, handle_message) at p))
      | inr b ↦ absurd (
          error-ne-success (
            wrap_response-success (some (reply_id message)) (error c t) r v
              (rw (e, b, handle_message) at p) q))
    ]
  ]

  -- Whatever the message, a result shows no structured content and no output schema where the
  -- session has no structured results.
  pub handle_message-IsLegacy :
      (message r v : Value) (st : State World)
      → (handle_message print h message st).1 ≡ some r
      → get_key "result" r ≡ some v
      → supports_structured_results (handle_message print h message st).0.session_registry message
        ≡ false
      → IsLegacy v
  handle_message-IsLegacy message r v st p q =
      let (e, method, d) = handle_message-outcome message r v st p q in
      subst (Shows message) d (dispatch-Shows method message st)
