-- ===== src/Tasks/Handlers.antt =====
-- src/server/async_task_bridge.rs: the handlers of the tools.
use apcore_mcp_rust.Prelude.{
  String, Bool, false, not, Option, none, some, [], ◌∷◌, map, ◌==◌, if◌then◌else◌, ◌<>◌,
}
use apcore_mcp_rust.Json.{Value, null, bool, string, array, object, end, json, to_items}
use apcore_mcp_rust.Prelude.Map.{get}
use apcore_mcp_rust.Prelude.Fallible.{ok, err, ◌>>=◌}
use apcore_mcp_rust.Auth.{Identity}
use apcore_mcp_rust.Tasks.{
  invalid_input, Outcome, TaskStatus, completed, TaskInfo, is_async_module, is_reserved_id,
  required_text, inputs_of, status_of, not_found,
}
use apcore_mcp_rust.Tasks.Bridge.{ManagerApi, ApcoreApi, Bridge, submit, cancel}

-- What `handle_preview` checks: the module's ID and the inputs.
unfoldable pub preview_request : Value → Outcome (String × Value)
unfolding is_reserved_id inputs_of
preview_request arguments = do
  module_id ←
      required_text "module_id" "__apcore_module_preview requires a non-empty 'module_id'" arguments
  if is_reserved_id module_id
      then err (
          invalid_input (
            "Reserved module id: '" <> module_id
            <> "'. Names starting with '__apcore_' are reserved for apcore-mcp meta-tools and cannot be previewed via this handler."))
      else do
        inputs ←
            inputs_of null
              "__apcore_module_preview requires 'arguments' to be a JSON object or null" arguments
        ok (module_id, inputs)

module _ (apcore : ApcoreApi) where
  unfoldable pub is_async_registered : String → Bool
  unfolding is_async_module
  is_async_registered module_id = elim (apcore.get_definition module_id) [
    | none ↦ false
    | some d ↦ is_async_module d.0 d.1
  ]

  -- What `handle_submit` checks: the module's ID and the inputs.
  unfoldable pub submission : Value → Outcome (String × Value)
  unfolding is_reserved_id is_async_registered inputs_of
  submission arguments = do
    module_id ←
        required_text "module_id" "__apcore_task_submit requires a non-empty 'module_id'" arguments
    if is_reserved_id module_id
        then err (
            invalid_input (
              "module id '" <> module_id
              <> "' is reserved by the async task bridge (__apcore_ prefix)"))
        else if not (is_async_registered module_id)
        then err (
            invalid_input (
              "ASYNC_MODULE_NOT_ASYNC: module '" <> module_id
              <> "' is not async-hinted; use regular tools/call instead of __apcore_task_submit"))
        else do
          inputs ←
              inputs_of (object end) "__apcore_task_submit requires `arguments` to be a JSON object"
                arguments
          ok (module_id, inputs)

module _ {M Sender : Type 0} (api : ManagerApi M) (apcore : ApcoreApi) where
  abbrev pub redacted : Bridge M Sender → TaskInfo → Value → Value → TaskInfo
  redacted b info result schema = elim (apcore.redact_sensitive result schema) [
    | none ↦ info
    | some v ↦ record info { result = some v }
  ]

  abbrev pub redact_result : Bridge M Sender → TaskInfo → TaskInfo
  redact_result b info = elim info.status [
    | completed ↦ elim info.result [
      | none ↦ info
      | some result ↦ elim (get info.module_id b.output_schemas) [
        | none ↦ info
        | some schema ↦ redacted b info result schema
      ]
    ]
    | TaskStatus.pending ↦ info
    | TaskStatus.running ↦ info
    | TaskStatus.failed ↦ info
    | TaskStatus.cancelled ↦ info
  ]

  unfoldable pub get_status : String → Bridge M Sender → Outcome (Option TaskInfo)
  get_status task_id b = api.get_status task_id b.manager >>= λ found.
      ok (elim found [ none ↦ none | some info ↦ some (redact_result b info) ])

  unfoldable pub handle_submit :
      Value
      → Option Identity
      → Option Value
      → Option Sender
      → Option String
      → Bridge M Sender
      → Bridge M Sender × Outcome Value
  unfolding submission submit
  handle_submit arguments identity token sender session b = elim (submission apcore arguments) [
    | err e ↦ (b, err e)
    | ok checked ↦
        let (b', submitted) = submit api checked.0 checked.1 identity token sender session b in
        (
          b',
          submitted >>= λ task_id.
              ok (json (("task_id", string task_id) ∷ ("status", string "pending") ∷ [])),
        )
  ]

  unfoldable pub handle_status : Value → Bridge M Sender → Outcome Value
  unfolding get_status
  handle_status arguments b = do
    task_id ←
        required_text "task_id" "__apcore_task_status requires a non-empty 'task_id'" arguments
    found ← get_status task_id b
    ok (elim found [ none ↦ not_found task_id | some info ↦ apcore.to_value info ])

  abbrev pub cancel_found :
      String → Bridge M Sender → Option TaskInfo → Bridge M Sender × Outcome Value
  cancel_found task_id b none = (b, ok (not_found task_id))
  cancel_found task_id b (some info) =
      let (b', result) = cancel api task_id b in
      (
        b',
        result >>= λ cancelled.
            ok (json (("task_id", string task_id) ∷ ("cancelled", bool cancelled) ∷ [])),
      )

  unfoldable pub handle_cancel : Value → Bridge M Sender → Bridge M Sender × Outcome Value
  unfolding get_status cancel
  handle_cancel arguments b =
      elim (required_text "task_id" "__apcore_task_cancel requires a non-empty 'task_id'"
        arguments) [
          | err e ↦ (b, err e)
          | ok task_id ↦ elim (get_status task_id b) [
            | err e ↦ (b, err e)
            | ok found ↦ cancel_found task_id b found
          ]
        ]

  unfoldable pub handle_list : Value → Bridge M Sender → Outcome Value
  unfolding status_of
  handle_list arguments b = do
    filter ← status_of arguments
    tasks ← api.list_tasks filter b.manager
    ok (json (("tasks", array (to_items (map apcore.to_value tasks))) ∷ []))

  unfoldable pub handle_preview :
      Value → Option Identity → Bridge M Sender → Bridge M Sender × Outcome Value
  unfolding preview_request
  handle_preview arguments identity b = elim (preview_request arguments) [
    | err e ↦ (b, err e)
    | ok (module_id, inputs) ↦
        let (m, r) = api.validate module_id inputs identity b.manager in
        (record b { manager = m }, r)
  ]

  unfoldable pub handle_meta_tool :
      String
      → Value
      → Option Identity
      → Option Value
      → Option Sender
      → Option String
      → Bridge M Sender
      → Bridge M Sender × Option (Outcome Value)
  unfolding handle_submit handle_status handle_cancel handle_list handle_preview
  handle_meta_tool tool_name arguments identity token sender session b =
      if tool_name == "__apcore_task_submit"
      then (let (b', r) = handle_submit arguments identity token sender session b in (b', some r))
      else if tool_name == "__apcore_task_status"
      then (b, some (handle_status arguments b))
      else if tool_name == "__apcore_task_cancel"
      then (let (b', r) = handle_cancel arguments b in (b', some r))
      else if tool_name == "__apcore_task_list"
      then (b, some (handle_list arguments b))
      else if tool_name == "__apcore_module_preview"
      then (let (b', r) = handle_preview arguments identity b in (b', some r))
      else (b, none)
