-- ===== src/Router/Calls.antt =====
-- src/server/router.rs: the execution paths of a tool call, and its validation.
pub mod Redacted
pub mod Sent
pub mod Streamed
use apcore_mcp_rust.Prelude.{
  ℕ, ◌+◌, String, code, Bool, true, false, not, Option, none, some, List, [], ◌∷◌, ◌++◌,
  if◌then◌else◌, unwrap_or, ◌<>◌, join,
}
use apcore_mcp_rust.Json.{
  Number, Value, null, bool, number, string, array, object, Fields, Items, nil, cons, has_no_fields,
  insert, get_key, get_str, and_then, end, json, to_items,
}
use apcore_mcp_rust.Prelude.Fallible.{Fallible, ok, err}
use apcore_mcp_rust.Router.{
  ExecutorError, execution, validation, other, invalid, ValidationErrors, no_errors, more, panicked,
  finished, Executor, ExecutionRouter, text_item, trace_item, Reply, error_reply, redacted,
  format_result,
}
use apcore_mcp_rust.Router.Merge.{deep_merge, deep_merge_max_depth}

pub data ProgressToken : Type 0 where
  text_token : String → ProgressToken
  integer_token : Number → ProgressToken

unfoldable pub progress_token_to_value : ProgressToken → Value
progress_token_to_value (text_token s) = string s
progress_token_to_value (integer_token n) = number n

abbrev guidance_from : List String → Value → Fields
guidance_from [] details = end
guidance_from (k ∷ ks) details = elim (get_key k details) [
  | none ↦ guidance_from ks details
  | some v ↦ insert k v (guidance_from ks details)
]

abbrev sub_parts : ValidationErrors → List String
sub_parts no_errors = []
sub_parts (more (invalid f m es) rest) = (unwrap_or f "?" <> ": " <> m) ∷ sub_parts rest

abbrev parts_of : ValidationErrors → List String
parts_of no_errors = []
parts_of (more (invalid f m (more e es)) rest) = sub_parts (more e es) ++ parts_of rest
parts_of (more (invalid (some f) m no_errors) rest) = (f <> ": " <> m) ∷ parts_of rest
parts_of (more (invalid none m no_errors) rest) = m ∷ parts_of rest

unfoldable pub format_validation_errors : ValidationErrors → String
format_validation_errors errors = join "; " (parts_of errors)

abbrev checks_of : ValidationErrors → Items
checks_of no_errors = nil
checks_of (more (invalid f m es) rest) =
    cons
      (json (
        ("check", string (unwrap_or f "general"))
        ∷ ("message", string m)
        ∷ ("passed", bool false)
        ∷ []))
      (checks_of rest)

abbrev report : Bool → Items → Bool → Value
report valid checks requires_approval = json (
    ("valid", bool valid)
    ∷ ("checks", array checks)
    ∷ ("requires_approval", bool requires_approval)
    ∷ [])

abbrev unexpected : String → Value
unexpected message =
    report false
      (to_items (json (("check", string "unexpected") ∷ ("message", string message) ∷ []) ∷ []))
      false

-- `context.get("trace_id")`
abbrev pub trace_id_of : Option Value → Option String
trace_id_of context = and_then context (get_str "trace_id")

module _ {World Context : Type 0} (executor : Executor World Context) where
  unfoldable pub checked_by : String → Value → Option Value → World → World × Option String
  unfolding format_validation_errors
  checked_by tool_name arguments context w =
      let (w', attempt) = executor.validate tool_name arguments context w in
      elim attempt [
        | panicked ↦ (w', some "Validation failed: validator panicked")
        | finished checked ↦ elim checked [
          | none ↦ (w', none)
          | some v ↦
              if v.valid
              then (w', none)
              else (w', some ("Validation failed: " <> format_validation_errors v.errors))
        ]
      ]

module _ (print : Value → String) where
  unfoldable pub build_error_text : ExecutorError → String
  build_error_text (execution code message none) = message
  build_error_text (execution code message (some details)) =
      let guidance : Fields =
        guidance_from ("retryable" ∷ "aiGuidance" ∷ "userFixable" ∷ "suggestion" ∷ []) details in
      if has_no_fields guidance then message else message <> "\n\n" <> print (object guidance)
  build_error_text (validation message) = "Validation failed: " <> message
  build_error_text (other e) = e

  module _ {World Context : Type 0} (redact_sensitive : Value → Value → Value)
      (r : ExecutionRouter World Context) where
    -- The text that shows a result.
    unfoldable pub shown : String → Value → String
    unfolding redacted format_result
    shown tool_name result =
        format_result print redact_sensitive r (redacted print redact_sensitive r tool_name result)

    unfoldable pub render_call_outcome :
        String → Fallible ExecutorError (Value × Option Value) → Option Value → Reply
    unfolding shown build_error_text
    render_call_outcome tool_name (ok (result, none)) context =
        (text_item (shown tool_name result) ∷ [], false, trace_id_of context)
    render_call_outcome tool_name (ok (result, some trace)) context =
        (text_item (shown tool_name result) ∷ trace_item trace ∷ [], false, trace_id_of context)
    render_call_outcome tool_name (err e) context = error_reply (build_error_text e)

    abbrev pub panic_reply : String → Reply
    panic_reply tool_name =
        error_reply ("Internal error: executor panicked while invoking " <> tool_name)

    -- The last resort: a call without a typed context and without a trace.
    abbrev pub call_untraced :
        Executor World Context
        → String
        → Value
        → Option Value
        → Option String
        → World
        → World × Reply
    call_untraced executor tool_name arguments context version_hint w =
        let (w', attempt) = executor.call_async tool_name arguments context version_hint w in
        elim attempt [
          | panicked ↦ (w', panic_reply tool_name)
          | finished outcome ↦ elim outcome [
            | ok result ↦ (w', render_call_outcome tool_name (ok (result, none)) context)
            | err e ↦ (w', render_call_outcome tool_name (err e) context)
          ]
        ]

    abbrev pub call_traced :
        Executor World Context
        → String
        → Value
        → Option Value
        → Option String
        → World
        → World × Reply
    call_traced executor tool_name arguments context version_hint w =
        let (w', traced) = executor.call_with_trace tool_name arguments context version_hint w in
        elim traced [
          | none ↦ call_untraced executor tool_name arguments context version_hint w'
          | some outcome ↦ elim outcome [
            | ok (result, trace) ↦
                (w', render_call_outcome tool_name (ok (result, some trace)) context)
            | err e ↦ (w', render_call_outcome tool_name (err e) context)
          ]
        ]

    abbrev pub call_untyped :
        Executor World Context
        → String
        → Value
        → Option Value
        → Option String
        → World
        → World × Reply
    call_untyped executor tool_name arguments context version_hint w =
        if r.trace
        then call_traced executor tool_name arguments context version_hint w
        else call_untraced executor tool_name arguments context version_hint w

    -- A typed context goes to the executor if it takes one.
    abbrev pub call_with :
        Executor World Context
        → String
        → Value
        → Option Value
        → Option String
        → Option Context
        → World
        → World × Reply
    call_with executor tool_name arguments context version_hint none w =
        call_untyped executor tool_name arguments context version_hint w
    call_with executor tool_name arguments context version_hint (some ctx) w =
        let (w', attempt) = executor.call_typed tool_name arguments ctx version_hint r.trace w in
        elim attempt [
          | panicked ↦ (w', panic_reply tool_name)
          | finished typed ↦ elim typed [
            | some outcome ↦ (w', render_call_outcome tool_name outcome context)
            | none ↦ call_untyped executor tool_name arguments context version_hint w'
          ]
        ]

    unfoldable pub handle_call_async_with_hint :
        String → Value → Option Value → Option String → Option Context → World → World × Reply
    unfolding render_call_outcome
    handle_call_async_with_hint tool_name arguments context version_hint apcore_ctx w =
        elim r.executor [
          | none ↦ (w, error_reply "No executor configured")
          | some executor ↦ call_with executor tool_name arguments context version_hint apcore_ctx w
        ]

    -- The notification of a chunk, whose index is counted from 0.
    unfoldable pub progress_notification : String → ProgressToken → ℕ → Value → Value
    unfolding progress_token_to_value redacted
    progress_notification tool_name progress_token chunk_index chunk = json (
        ("method", string "notifications/progress")
        ∷ (
          "params",
          json (
              ("progressToken", progress_token_to_value progress_token)
              ∷ ("progress", number (Number.pos_int (chunk_index + 1)))
              ∷ ("total", null)
              ∷ ("message", string (print (redacted print redact_sensitive r tool_name chunk)))
              ∷ []),
        )
        ∷ [])

    -- The loop over what the stream gives: the notifications that are sent, and the reply.
    unfoldable pub stream_loop :
        String
        → ProgressToken
        → Option Value
        → (accumulated : Value) → (chunk_index : ℕ) → List (Fallible ExecutorError Value)
        → List Value × Reply
    unfolding shown progress_notification deep_merge build_error_text
    stream_loop tool_name progress_token context accumulated chunk_index [] =
        ([], (text_item (shown tool_name accumulated) ∷ [], false, trace_id_of context))
    stream_loop tool_name progress_token context accumulated chunk_index (err e ∷ rest) =
        ([], error_reply (build_error_text e))
    stream_loop tool_name progress_token context accumulated chunk_index (ok chunk ∷ rest) =
        let (sent, reply) =
          stream_loop tool_name progress_token context
            (deep_merge deep_merge_max_depth accumulated chunk) (chunk_index + 1) rest in
        (progress_notification tool_name progress_token chunk_index chunk ∷ sent, reply)

    abbrev pub stream_with :
        Executor World Context
        → String
        → Value
        → ProgressToken
        → Option Value
        → Option String
        → Option Context
        → World
        → World × List Value × Reply
    stream_with executor tool_name arguments progress_token context version_hint apcore_ctx w =
        let (w', stream) = executor.stream tool_name arguments context version_hint w in
        elim stream [
          | none ↦
              let (w'', reply) =
                handle_call_async_with_hint tool_name arguments context version_hint apcore_ctx
                  w' in
              (w'', [], reply)
          | some chunks ↦
              let (sent, reply) = stream_loop tool_name progress_token context (json []) 0 chunks in
              (w', sent, reply)
        ]

    unfoldable pub handle_stream :
        String
        → Value
        → ProgressToken
        → Option Value
        → Option String
        → Option Context
        → World
        → World × List Value × Reply
    unfolding stream_loop handle_call_async_with_hint
    handle_stream tool_name arguments progress_token context version_hint apcore_ctx w =
        elim r.executor [
          | none ↦ (w, [], error_reply "No executor configured")
          | some executor ↦
              stream_with executor tool_name arguments progress_token context version_hint
                apcore_ctx w
        ]

    -- What refuses the arguments before the call, if anything does.
    unfoldable pub refusal : String → Value → Option Value → World → World × Option String
    unfolding checked_by
    refusal tool_name arguments context w =
        if not r.validate_inputs then (w, none) else elim r.executor [
          | none ↦ (w, none)
          | some executor ↦ checked_by executor tool_name arguments context w
        ]

    -- Where a progress token comes with a sender of notifications, the call is streamed.
    abbrev pub run_call :
        String
        → Value
        → Option Value
        → Option String
        → Option ProgressToken
        → Option Context
        → World
        → World × List Value × Reply
    run_call tool_name arguments context version_hint none apcore_ctx w =
        let (w', reply) =
          handle_call_async_with_hint tool_name arguments context version_hint apcore_ctx w in
        (w', [], reply)
    run_call tool_name arguments context version_hint (some progress_token) apcore_ctx w =
        handle_stream tool_name arguments progress_token context version_hint apcore_ctx w

    unfoldable pub run_validated :
        String
        → Value
        → Option Value
        → Option String
        → Option ProgressToken
        → Option Context
        → World
        → World × List Value × Reply
    unfolding refusal handle_stream
    run_validated tool_name arguments context version_hint streamed apcore_ctx w =
        let (w', refused) = refusal tool_name arguments context w in
        elim refused [
          | some text ↦ (w', [], error_reply text)
          | none ↦ run_call tool_name arguments context version_hint streamed apcore_ctx w'
        ]

    unfoldable pub validate_tool : String → Value → World → World × Value
    validate_tool tool_name arguments w = elim r.executor [
      | none ↦ (w, unexpected "No executor configured")
      | some executor ↦
          let (w', attempt) = executor.validate tool_name arguments none w in
          elim attempt [
            | panicked ↦ (w', unexpected "validation panicked")
            | finished checked ↦ elim checked [
              | none ↦ (w', report true nil false)
              | some v ↦ (w', report v.valid (checks_of v.errors) v.requires_approval)
            ]
          ]
    ]
