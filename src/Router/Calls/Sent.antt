-- ===== src/Router/Calls/Sent.antt =====
-- What src/server/router.rs sends while it streams a result.
use apcore_mcp_rust.Prelude.{
  ℕ, ◌+◌, String, ◌≡◌, refl, ap, inl, inr, true, Option, none, some, List, [], ◌∷◌, Option-cases,
  All,
}
use apcore_mcp_rust.Json.{Value, string, get_key, json, fields_of}
use apcore_mcp_rust.Prelude.Map.{get}
use apcore_mcp_rust.Prelude.Fallible.{Fallible, ok, err}
use apcore_mcp_rust.Router.{ExecutorError, Executor, ExecutionRouter, Reply, error_reply}
use apcore_mcp_rust.Router.Merge.{deep_merge, deep_merge_max_depth}
use apcore_mcp_rust.Router.Calls.{
  ProgressToken, progress_notification, stream_loop, handle_stream, stream_with, run_call, refusal,
  run_validated,
}
use apcore_mcp_rust.Router.Calls.Redacted.{
  IsRedacted, IsRedactedChunk, with_executor, redacted-redact_sensitive, shown-redact_sensitive,
  handle_call_async_with_hint-IsRedacted,
}

module _ (print : Value → String) {World Context : Type 0}
    (redact_sensitive : Value → Value → Value) (r : ExecutionRouter World Context)
    (tool_name : String) (schema : Value) where
  -- What a call sends and what it replies.
  abbrev pub AreRedacted : List Value × Reply → Type 0
  AreRedacted (sent, reply) =
      All (IsRedactedChunk print redact_sensitive r tool_name schema) sent
      × IsRedacted print redact_sensitive r tool_name schema reply

  abbrev pub AreRedactedAfter : World × List Value × Reply → Type 0
  AreRedactedAfter (w, sent, reply) =
      All (IsRedactedChunk print redact_sensitive r tool_name schema) sent
      × IsRedacted print redact_sensitive r tool_name schema reply

  module _ (on : r.redact_output ≡ true) (has : get tool_name r.output_schemas ≡ some schema) where
    stream_loop-IsRedacted :
        (progress_token : ProgressToken) (context : Option Value) (accumulated : Value)
        (chunk_index : ℕ) (chunks : List (Fallible ExecutorError Value))
        → AreRedacted (
            stream_loop print redact_sensitive r tool_name progress_token context accumulated
              chunk_index chunks)
    unfolding stream_loop progress_notification get_key fields_of
    stream_loop-IsRedacted progress_token context accumulated chunk_index [] = (
      tt,
      inr (
        accumulated,
        [],
        rw (shown-redact_sensitive print redact_sensitive r tool_name schema on has accumulated)
            refl,
        inl refl,
      ),
    )
    stream_loop-IsRedacted progress_token context accumulated chunk_index (err e ∷ rest) =
        (tt, inl refl)
    stream_loop-IsRedacted progress_token context accumulated chunk_index (ok chunk ∷ rest) =
        let (sent, reply) =
          stream_loop-IsRedacted progress_token context
            (deep_merge deep_merge_max_depth accumulated chunk) (chunk_index + 1) rest in
        (
          (
            (
              chunk,
              ap (λ v. some (string (print v)))
                  (redacted-redact_sensitive print redact_sensitive r tool_name schema on has
                    chunk),
            ),
            sent,
          ),
          reply,
        )

    stream_with-IsRedacted :
        (executor : Executor World Context) (arguments : Value) (progress_token : ProgressToken)
        (context : Option Value) (version_hint : Option String) (apcore_ctx : Option Context)
        (w : World)
        → AreRedactedAfter (
            stream_with print redact_sensitive r executor tool_name arguments progress_token context
              version_hint apcore_ctx w)
    stream_with-IsRedacted executor arguments progress_token context version_hint apcore_ctx w =
        let (w', stream) = executor.stream tool_name arguments context version_hint w in
        elim (Option-cases stream) [
          | inl p ↦
              rw (p, stream_with)
                (
                  tt,
                  handle_call_async_with_hint-IsRedacted print redact_sensitive r tool_name schema
                      on has arguments context version_hint apcore_ctx w',
                )
          | inr (chunks, p) ↦
              rw (p, stream_with) (stream_loop-IsRedacted progress_token context (json []) 0 chunks)
        ]

    handle_stream-IsRedacted :
        (arguments : Value) (progress_token : ProgressToken) (context : Option Value)
        (version_hint : Option String) (apcore_ctx : Option Context) (w : World)
        → AreRedactedAfter (
            handle_stream print redact_sensitive r tool_name arguments progress_token context
              version_hint apcore_ctx w)
    unfolding handle_stream
    handle_stream-IsRedacted arguments progress_token context version_hint apcore_ctx w =
        with_executor AreRedactedAfter r.executor (w, [], error_reply "No executor configured")
          (λ executor.
            stream_with print redact_sensitive r executor tool_name arguments progress_token context
              version_hint apcore_ctx w)
          (tt, inl refl)
          λ executor.
            stream_with-IsRedacted executor arguments progress_token context version_hint apcore_ctx
              w

    run_call-AreRedacted :
        (arguments : Value) (context : Option Value) (version_hint : Option String)
        (streamed : Option ProgressToken) (apcore_ctx : Option Context) (w : World)
        → AreRedactedAfter (
            run_call print redact_sensitive r tool_name arguments context version_hint streamed
              apcore_ctx w)
    run_call-AreRedacted arguments context version_hint none apcore_ctx w = (
      tt,
      handle_call_async_with_hint-IsRedacted print redact_sensitive r tool_name schema on has
          arguments context version_hint apcore_ctx w,
    )
    run_call-AreRedacted arguments context version_hint (some progress_token) apcore_ctx w =
        handle_stream-IsRedacted arguments progress_token context version_hint apcore_ctx w

    -- Where output is redacted and the tool has a schema, whatever the executor does, each
    -- notification that is sent shows what the schema leaves of a chunk, and the reply is an error
    -- or shows what the schema leaves of a result, with a trace at most.
    pub run_validated-AreRedacted :
        (arguments : Value) (context : Option Value) (version_hint : Option String)
        (streamed : Option ProgressToken) (apcore_ctx : Option Context) (w : World)
        → AreRedactedAfter (
            run_validated print redact_sensitive r tool_name arguments context version_hint streamed
              apcore_ctx w)
    unfolding run_validated
    run_validated-AreRedacted arguments context version_hint streamed apcore_ctx w =
        let (w', refused) = refusal print redact_sensitive r tool_name arguments context w in
        elim (Option-cases refused) [
          | inl p ↦
              rw (p, run_validated)
                (run_call-AreRedacted arguments context version_hint streamed apcore_ctx w')
          | inr (text, p) ↦ rw (p, run_validated) (tt, inl refl)
        ]
