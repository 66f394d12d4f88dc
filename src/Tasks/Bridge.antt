-- ===== src/Tasks/Bridge.antt =====
-- src/server/async_task_bridge.rs: the bridge's state and its calls.
use apcore_mcp_rust.Prelude.{
  ℕ, ◌+◌, String, Bool, true, false, Option, none, some, List, [], ◌∷◌, ◌++◌, unwrap_or,
}
use apcore_mcp_rust.Json.{Value, string, object, and_then, json, insert, fields_of}
use apcore_mcp_rust.Prelude.Map
use apcore_mcp_rust.Prelude.Map.{Map, get, remove}
use apcore_mcp_rust.Prelude.Fallible.{ok, err}
use apcore_mcp_rust.Auth.{Identity}
use apcore_mcp_rust.Tasks.{Outcome, TaskStatus, TaskInfo, Descriptor}

-- apcore's `AsyncTaskManager`, over its state.
pub record ManagerApi (M : Type 0) : Type 0 where
  pub submit : String → Value → Option Identity → M → M × Outcome String
  pub cancel : String → M → M × Outcome Bool
  pub get_status : String → M → Outcome (Option TaskInfo)
  pub list_tasks : Option TaskStatus → M → Outcome (List TaskInfo)
  pub validate : String → Value → Option Identity → M → M × Outcome Value

-- apcore's registry and redactor, which may panic, and serde's printer of a task.
pub record ApcoreApi : Type 0 where
  pub get_definition : String → Option Descriptor
  pub redact_sensitive : Value → Value → Option Value
  pub to_value : TaskInfo → Value

pub record Bridge (M Sender : Type 0) : Type 0 where
  pub manager : M
  pub output_schemas : Map Value
  pub progress_tokens : Map Value
  pub progress_senders : Map Sender
  pub session_tasks : Map (List String)

abbrev pub tasks_of : String → Map (List String) → List String
tasks_of session m = unwrap_or (get session m) []

abbrev pub counted : Outcome Bool → ℕ
counted (ok true) = 1
counted (ok false) = 0
counted (err e) = 0

module _ {M Sender : Type 0} where
  abbrev pub with_manager : M → Bridge M Sender → Bridge M Sender
  with_manager m b = record b { manager = m }

  -- The progress sink is installed only with both the token and the sender.
  abbrev pub install : String → Option Value → Option Sender → Bridge M Sender → Bridge M Sender
  install task_id (some token) (some sender) b = record b {
    progress_tokens = Map.insert task_id token b.progress_tokens;
    progress_senders = Map.insert task_id sender b.progress_senders;
  }
  install task_id (some token) none b = b
  install task_id none sender b = b

  abbrev pub note_session : String → Option String → Bridge M Sender → Bridge M Sender
  note_session task_id none b = b
  note_session task_id (some session) b = record b {
    session_tasks =
        Map.insert session (tasks_of session b.session_tasks ++ (task_id ∷ [])) b.session_tasks;
  }

  abbrev pub uninstall : String → Bridge M Sender → Bridge M Sender
  uninstall task_id b = record b {
    progress_tokens = remove task_id b.progress_tokens;
    progress_senders = remove task_id b.progress_senders;
  }

  -- The sender, the token and the message that is sent, where the task has both.
  unfoldable pub emit_progress :
      String → (progress total : Value) → Option String → Bridge M Sender → Option (Sender × Value)
  emit_progress task_id progress total message b = and_then (get task_id b.progress_tokens) λ token.
      and_then (get task_id b.progress_senders) λ sender.
        let params =
          fields_of (("progressToken", token) ∷ ("progress", progress) ∷ ("total", total) ∷ []) in
        some (
          sender,
          json (
              ("method", string "notifications/progress")
              ∷ (
                "params",
                object (elim message [
                  | none ↦ params
                  | some msg ↦ insert "message" (string msg) params
                ]),
              )
              ∷ []),
        )

module _ {M Sender : Type 0} (api : ManagerApi M) where
  unfoldable pub submit :
      String
      → Value
      → Option Identity
      → Option Value
      → Option Sender
      → Option String
      → Bridge M Sender
      → Bridge M Sender × Outcome String
  submit module_id inputs identity token sender session b =
      let (m, submitted) = api.submit module_id inputs identity b.manager in
      elim submitted [
        | err e ↦ (with_manager m b, err e)
        | ok task_id ↦ (
          note_session task_id session (install task_id token sender (with_manager m b)),
          ok task_id,
        )
      ]

  unfoldable pub cancel : String → Bridge M Sender → Bridge M Sender × Outcome Bool
  cancel task_id b = (
    uninstall task_id (with_manager (api.cancel task_id b.manager).0 b),
    (api.cancel task_id b.manager).1,
  )

  unfoldable pub cancel_all : List String → Bridge M Sender → Bridge M Sender × ℕ
  unfolding cancel
  cancel_all [] b = (b, 0)
  cancel_all (id ∷ ids) b =
      let (b', result) = cancel id b in
      let (b'', n) = cancel_all ids b' in (b'', counted result + n)

  unfoldable pub cancel_session_tasks : String → Bridge M Sender → Bridge M Sender × ℕ
  unfolding cancel_all
  cancel_session_tasks session b =
      cancel_all (tasks_of session b.session_tasks)
        (record b { session_tasks = remove session b.session_tasks })
