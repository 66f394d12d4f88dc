-- ===== src/Tasks/Examples.antt =====
-- One task of one session, for src/server/async_task_bridge.rs.
use apcore_mcp_rust.Prelude.{ℕ, ◌+◌, ◌-◌, String, ◌≡◌, refl, ◌⊎◌, true, none, some, [], ◌∷◌, ltb}
use apcore_mcp_rust.Json.{Value, null, bool, string, object, end, json}
use apcore_mcp_rust.Prelude.Map
use apcore_mcp_rust.Prelude.Map.{Map, get}
use apcore_mcp_rust.Prelude.Fallible.{ok, err}
use apcore_mcp_rust.Tasks.{TaskError}
use apcore_mcp_rust.Tasks.Handlers.{handle_submit}
use apcore_mcp_rust.Tasks.Bridge.{
  ManagerApi, ApcoreApi, Bridge, submit, cancel_all, cancel, cancel_session_tasks,
}
use apcore_mcp_rust.Tasks.Submitted.{IsSubmission, handle_submit-guarded}

-- The manager counts its tasks and names each "t1"; it cancels what is there.
abbrev manager : ManagerApi ℕ
manager = record {
  submit = λ module_id inputs identity n. (n + 1, ok "t1");
  cancel = λ task_id n. (n - 1, ok (ltb 0 n));
  get_status = λ task_id n. ok none;
  list_tasks = λ filter n. ok [];
  validate = λ module_id inputs identity n. (n, ok null);
}

abbrev apcore : ApcoreApi
apcore = record {
  get_definition = λ module_id. some (("async", bool true) ∷ [], none);
  redact_sensitive = λ result schema. some null;
  to_value = λ info. null;
}

-- Senders are named.
abbrev fresh : Bridge ℕ String
fresh = record {
  manager = 0;
  output_schemas = [];
  progress_tokens = [];
  progress_senders = [];
  session_tasks = [];
}

abbrev busy : Bridge ℕ String
busy =
    (submit manager "image.resize" (object end) none (some (string "p")) (some "client") (some "s1")
      fresh).0

abbrev arguments : Value
arguments = json (("module_id", string "image.resize") ∷ [])

handle_submit-guarded_example :
    ((e : TaskError) × (handle_submit manager apcore arguments none none none (some "s1") fresh
        ≡ (fresh, err e)))
    ⊎ ((module_id : String) × (inputs : Value) × ((handle_submit manager apcore arguments none none
            none
            (some "s1")
            fresh).0
          ≡ (submit manager module_id inputs none none none (some "s1") fresh).0)
        × IsSubmission apcore arguments module_id inputs)
handle_submit-guarded_example =
    handle_submit-guarded manager apcore arguments none none none (some "s1") fresh

-- The session's end cancels its one task.
counts : (cancel_session_tasks manager "s1" busy).1 ≡ 1
unfolding cancel_session_tasks cancel_all cancel submit get Map.insert
counts = refl
