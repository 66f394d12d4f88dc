-- ===== src/Router/Dispatch.antt =====
-- src/server/router.rs: `handle_call`, which sends a call to the approval bridge, to the bridge of
-- tasks or to the executor. The context that `build_context_with_trace` makes of a call, with the
-- trace's ID and the identity in it, is an argument.
use apcore_mcp_rust.Prelude.{
  String, Bool, true, false, Option, none, some, List, [], ◌∷◌, if◌then◌else◌, unwrap_or,
}
use apcore_mcp_rust.Json.{Value, string, get_key, get_str, and_then, json}
use apcore_mcp_rust.Prelude.Fallible.{ok, err}
use apcore_mcp_rust.Auth.{Identity}
use apcore_mcp_rust.Approval.{ApprovalResult}
use apcore_mcp_rust.Approval
use apcore_mcp_rust.Approval.Bridge.{is_meta_tool}
use apcore_mcp_rust.Approval.Bridge
use apcore_mcp_rust.Tasks.{TaskError, invalid_input, Outcome}
use apcore_mcp_rust.Tasks.Bridge.{ManagerApi, ApcoreApi, Bridge, submit}
use apcore_mcp_rust.Tasks.Handlers.{is_async_registered, handle_meta_tool}
use apcore_mcp_rust.Router.{ExecutionRouter, text_item, Reply}
use apcore_mcp_rust.Router.Calls.{ProgressToken, run_validated}
use apcore_mcp_rust.Router.Extra.{session_key_of, version_hint_of}

-- The bridge of tasks, where there is one, and the world of the executor. The bridge and its task
-- manager go over the same executor, so that a call sets the manager's state from the world.
pub record Served (Sender World : Type 0) : Type 0 where
  pub bridge : Option (Bridge World Sender)
  pub world : World

-- A call's context: apcore's, its form in JSON, the trace's ID and the caller.
pub record CallContext (Context : Type 0) : Type 0 where
  pub value : Value
  pub apcore_ctx : Context
  pub trace_id : String
  pub identity : Option Identity

abbrev pub submitted : Outcome String → Outcome Value
submitted (err e) = err e
submitted (ok task_id) = ok (json (("task_id", string task_id) ∷ ("status", string "pending") ∷ []))

-- The text of an error is what `serde_json` prints of its mapped form: a parameter.
module _ (print : Value → String) (error_text : TaskError → String) where
  unfoldable pub meta_tool_response : String → Outcome Value → Reply
  meta_tool_response trace_id (ok value) = (text_item (print value) ∷ [], false, some trace_id)
  meta_tool_response trace_id (err e) = (text_item (error_text e) ∷ [], true, some trace_id)

  abbrev approval_outcome : Value × Bool → Outcome Value
  approval_outcome (value, is_error) =
      if is_error
      then err (invalid_input (unwrap_or (get_str "error" value) "approval check failed"))
      else ok value

  module _ {Sender World Context : Type 0} (api : ManagerApi World) (apcore : ApcoreApi)
      (redact_sensitive : Value → Value → Value) (r : ExecutionRouter World Context)
      (version_hint_default : String → Option String) where
    -- A call carries no sender of notifications, so that it is not streamed.
    abbrev pub run_call :
        String
        → Value
        → Option Value
        → CallContext Context
        → Served Sender World
        → Served Sender World × Reply
    run_call tool_name arguments extra context s =
        let (w, sent, reply) =
          run_validated print redact_sensitive r tool_name arguments (some context.value)
            (version_hint_of version_hint_default tool_name extra) none (some context.apcore_ctx)
            s.world in
        (record s { world = w }, reply)

    abbrev pub run_bridged :
        String
        → Value
        → Option Value
        → CallContext Context
        → Bridge World Sender
        → Served Sender World
        → Served Sender World × Reply
    run_bridged tool_name arguments extra context b s =
        let token = and_then extra (get_key "progressToken") in
        let session_key = session_key_of extra in
        let (b', handled) =
          handle_meta_tool api apcore tool_name arguments context.identity token none session_key
            (record b { manager = s.world }) in
        elim handled [
          | some result ↦ (
            record s { bridge = some b'; world = b'.manager },
            meta_tool_response context.trace_id result,
          )
          | none ↦
              if is_async_registered apcore tool_name
              then (let (b'', task) =
                    submit api tool_name arguments context.identity token none session_key b' in
                  (
                    record s { bridge = some b''; world = b''.manager },
                    meta_tool_response context.trace_id (submitted task),
                  ))
              else run_call tool_name arguments extra context
                  (record s { bridge = some b'; world = b'.manager })
        ]

    abbrev pub run_unapproved :
        String
        → Value
        → Option Value
        → CallContext Context
        → Served Sender World
        → Served Sender World × Reply
    run_unapproved tool_name arguments extra context s = elim s.bridge [
      | none ↦ run_call tool_name arguments extra context s
      | some b ↦ run_bridged tool_name arguments extra context b s
    ]

    unfoldable pub handle_call :
        Option (String → Approval.Outcome ApprovalResult)
        → String
        → Value
        → Option Value
        → CallContext Context
        → Served Sender World
        → Served Sender World × Reply
    unfolding meta_tool_response
    handle_call approvals tool_name arguments extra context s = elim approvals [
      | none ↦ run_unapproved tool_name arguments extra context s
      | some check ↦
          if is_meta_tool tool_name
          then (
            s,
            meta_tool_response context.trace_id
                (approval_outcome (Bridge.handle_meta_tool check tool_name arguments)),
          )
          else run_unapproved tool_name arguments extra context s
    ]

-- The typed extra parameters of a caller of the library: a progress token, and whether there is a
-- sender of notifications.
pub record CallExtra : Type 0 where
  pub progress_token : Option ProgressToken
  pub has_sender : Bool

unfoldable pub handle_call_with_extra :
    {World Context : Type 0}
    → (print : Value → String) → (redact_sensitive : Value → Value → Value)
    → ExecutionRouter World Context
    → String
    → Value
    → CallExtra
    → CallContext Context
    → World
    → World × List Value × Reply
unfolding run_validated
handle_call_with_extra print redact_sensitive r tool_name arguments extra context w =
    run_validated print redact_sensitive r tool_name arguments (some context.value) none
      (if extra.has_sender then extra.progress_token else none) (some context.apcore_ctx) w
