-- ===== src/Router/Calls/Redacted.antt =====
-- What the replies and notifications of src/server/router.rs show of a result.
use apcore_mcp_rust.Prelude.{
  String, ◌≡◌, refl, ap, ◌⊎◌, inl, inr, Bool, true, false, Option, none, some, List, [], ◌∷◌,
  if◌then◌else◌, Option-cases,
}
use apcore_mcp_rust.Json.{Value, string, get_key}
use apcore_mcp_rust.Prelude.Map.{get}
use apcore_mcp_rust.Prelude.Fallible.{Fallible, ok, err, Fallible-cases}
use apcore_mcp_rust.Rpc.{index}
use apcore_mcp_rust.Router.{
  ExecutorError, Attempt, panicked, finished, Executor, ExecutionRouter, ContentItem, text_item,
  trace_item, Reply, error_reply, redacted, format_result,
}
use apcore_mcp_rust.Router.Calls.{
  handle_call_async_with_hint, render_call_outcome, call_untraced, call_traced, call_untyped,
  call_with, shown,
}

pub Attempt-cases {ℓ} : {A : Type ℓ} (x : Attempt A) → (x ≡ panicked) ⊎ ((a : A) × (x ≡ finished a))
Attempt-cases panicked = inl refl
Attempt-cases (finished a) = inr (a, refl)

pub with_executor :
    {World Context B : Type 0}
    → (P : B → Type 0) → (o : Option (Executor World Context)) → (x : B)
    → (f : Executor World Context → B) → P x
    → ((executor : Executor World Context) → P (f executor))
    → P (elim o as (λ _. B) [ none ↦ x | some executor ↦ f executor ])
with_executor P none x f h k = h
with_executor P (some executor) x f h k = k executor

-- After a text there is nothing but a trace.
abbrev pub IsTrace : List ContentItem → Type 0
IsTrace items = (items ≡ []) ⊎ ((trace : Value) × (items ≡ trace_item trace ∷ []))

module _ (print : Value → String) {World Context : Type 0}
    (redact_sensitive : Value → Value → Value) (r : ExecutionRouter World Context)
    (tool_name : String) (schema : Value) where
  -- An error, or the text that formats what the schema leaves of a result, and a trace at most.
  abbrev pub IsRedacted : Reply → Type 0
  IsRedacted reply =
      (reply.1 ≡ true)
      ⊎ ((result : Value) × (rest : List ContentItem) × (reply.0
            ≡ text_item (format_result print redact_sensitive r (redact_sensitive result schema))
              ∷ rest)
          × IsTrace rest)

  -- A notification whose message is what the schema leaves of a chunk.
  abbrev pub IsRedactedChunk : Value → Type 0
  IsRedactedChunk n =
      (chunk : Value) × (get_key "message" (index "params" n)
        ≡ some (string (print (redact_sensitive chunk schema))))

  either :
      (b : Bool) (x y : World × Reply)
      → IsRedacted x.1
      → IsRedacted y.1
      → IsRedacted (if b then x else y).1
  either true x y h k = h
  either false x y h k = k

  module _ (on : r.redact_output ≡ true) (has : get tool_name r.output_schemas ≡ some schema) where
    pub redacted-redact_sensitive :
        (result : Value)
        → redacted print redact_sensitive r tool_name result ≡ redact_sensitive result schema
    unfolding redacted
    redacted-redact_sensitive result = rw (on, has, redacted) refl

    pub shown-redact_sensitive :
        (result : Value)
        → shown print redact_sensitive r tool_name result
          ≡ format_result print redact_sensitive r (redact_sensitive result schema)
    unfolding shown
    shown-redact_sensitive result =
        ap (format_result print redact_sensitive r) (redacted-redact_sensitive result)

    render-IsRedacted :
        (outcome : Fallible ExecutorError (Value × Option Value)) (context : Option Value)
        → IsRedacted (render_call_outcome print redact_sensitive r tool_name outcome context)
    unfolding render_call_outcome
    render-IsRedacted (err e) context = inl refl
    render-IsRedacted (ok (result, none)) context =
        inr (result, [], rw (shown-redact_sensitive result) refl, inl refl)
    render-IsRedacted (ok (result, some trace)) context =
        inr (
          result,
          trace_item trace ∷ [],
          rw (shown-redact_sensitive result) refl,
          inr (trace, refl),
        )

    module _ (executor : Executor World Context) (arguments : Value) (context : Option Value)
        (version_hint : Option String) where
      untraced-IsRedacted :
          (w : World)
          → IsRedacted
              (call_untraced print redact_sensitive r executor tool_name arguments context
                version_hint w).1
      untraced-IsRedacted w =
          elim (Attempt-cases (executor.call_async tool_name arguments context version_hint w).1) [
            | inl p ↦ rw (p, call_untraced) (inl refl)
            | inr (outcome, p) ↦ elim (Fallible-cases outcome) [
              | inl (e, q) ↦ rw (p, q, call_untraced) (render-IsRedacted (err e) context)
              | inr (result, q) ↦
                  rw (p, q, call_untraced) (render-IsRedacted (ok (result, none)) context)
            ]
          ]

      traced-IsRedacted :
          (w : World)
          → IsRedacted
              (call_traced print redact_sensitive r executor tool_name arguments context
                version_hint w).1
      traced-IsRedacted w =
          let (w', traced) = executor.call_with_trace tool_name arguments context version_hint w in
          elim (Option-cases traced) [
            | inl p ↦ rw (p, call_traced) (untraced-IsRedacted w')
            | inr (outcome, p) ↦ elim (Fallible-cases outcome) [
              | inl (e, q) ↦ rw (p, q, call_traced) (render-IsRedacted (err e) context)
              | inr ((result, trace), q) ↦
                  rw (p, q, call_traced) (render-IsRedacted (ok (result, some trace)) context)
            ]
          ]

      untyped-IsRedacted :
          (w : World)
          → IsRedacted
              (call_untyped print redact_sensitive r executor tool_name arguments context
                version_hint w).1
      untyped-IsRedacted w = either r.trace _ _ (traced-IsRedacted w) (untraced-IsRedacted w)

    call_with-IsRedacted :
        (executor : Executor World Context) (arguments : Value) (context : Option Value)
        (version_hint : Option String) (apcore_ctx : Option Context) (w : World)
        → IsRedacted
            (call_with print redact_sensitive r executor tool_name arguments context version_hint
              apcore_ctx w).1
    call_with-IsRedacted executor arguments context version_hint none w =
        untyped-IsRedacted executor arguments context version_hint w
    call_with-IsRedacted executor arguments context version_hint (some ctx) w =
        let (w', attempt) = executor.call_typed tool_name arguments ctx version_hint r.trace w in
        elim (Attempt-cases attempt) [
          | inl p ↦ rw (p, call_with) (inl refl)
          | inr (typed, p) ↦ elim (Option-cases typed) [
            | inl q ↦
                rw (p, q, call_with) (untyped-IsRedacted executor arguments context version_hint w')
            | inr (outcome, q) ↦ rw (p, q, call_with) (render-IsRedacted outcome context)
          ]
        ]

    pub handle_call_async_with_hint-IsRedacted :
        (arguments : Value) (context : Option Value) (version_hint : Option String)
        (apcore_ctx : Option Context) (w : World)
        → IsRedacted
            (handle_call_async_with_hint print redact_sensitive r tool_name arguments context
              version_hint apcore_ctx w).1
    unfolding handle_call_async_with_hint
    handle_call_async_with_hint-IsRedacted arguments context version_hint apcore_ctx w =
        with_executor (λ x. IsRedacted x.1) r.executor (w, error_reply "No executor configured")
          (λ executor.
            call_with print redact_sensitive r executor tool_name arguments context version_hint
              apcore_ctx w)
          (inl refl)
          λ executor. call_with-IsRedacted executor arguments context version_hint apcore_ctx w
