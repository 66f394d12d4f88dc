-- ===== src/Tasks.antt =====
-- src/server/async_task_bridge.rs: the tools that run modules in the background.
pub mod Bridge
pub mod Handlers
pub mod Submitted
mod Examples
use apcore_mcp_rust.Prelude.{
  String, Bool, true, false, not, ◌||◌, Option, none, some, [], ◌∷◌, ◌==◌, starts_with,
  if◌then◌else◌, unwrap_or, ◌<>◌, is_blank,
}
use apcore_mcp_rust.Json.{
  Value, null, bool, string, array, object, get_key, get_str, as_str, as_bool, json,
}
use apcore_mcp_rust.Prelude.Map.{Map, get}
use apcore_mcp_rust.Prelude.Fallible.{Fallible, ok, err, ok_or}
use apcore_mcp_rust.ApprovalStore.{map_option}
use apcore_mcp_rust.Acl.{keep_if}
use apcore_mcp_rust.Auth.Texts.{eq_ignore_ascii_case, trim}

-- apcore's `ModuleError`: one that the bridge makes (`GeneralInvalidInput`), or one of apcore's.
pub data TaskError : Type 0 where
  invalid_input : String → TaskError
  from_apcore : String → TaskError

abbrev pub Outcome {ℓ} : Type ℓ → Type ℓ
Outcome A = Fallible TaskError A

pub data TaskStatus : Type 0 where
  pending running completed failed cancelled : TaskStatus

-- What the bridge reads and writes of apcore's `TaskInfo`, and the rest.
pub record TaskInfo : Type 0 where
  pub module_id : String
  pub status : TaskStatus
  pub result : Option Value
  pub rest : Value

-- What the bridge reads of a descriptor: its metadata, and its annotations' extra keys.
abbrev pub Descriptor : Type 0
Descriptor = Map Value × Option (Map Value)

abbrev pub is_truthy_async : Value → Bool
is_truthy_async v =
    unwrap_or (as_bool v) false
    || unwrap_or (map_option (λ s. eq_ignore_ascii_case (trim s) "true") (as_str v)) false

-- `if let Some(v) = map.get(k) { if … { return true } }`
abbrev pub hints : String → Map Value → Bool
hints k m = unwrap_or (map_option is_truthy_async (get k m)) false

unfoldable pub is_async_module : Map Value → Option (Map Value) → Bool
is_async_module metadata extra =
    hints "async" metadata || unwrap_or (map_option (hints "mcp_async") extra) false

unfoldable pub is_reserved_id : String → Bool
is_reserved_id module_id = starts_with module_id "__apcore_"

-- A text under the key that is not empty.
abbrev pub required_text : String → String → Value → Outcome String
required_text k message arguments =
    ok_or (keep_if (λ s. not (is_blank s)) (get_str k arguments)) (invalid_input message)

-- The value under "arguments"; the first argument where it is missing or null.
unfoldable pub inputs_of : Value → String → Value → Outcome Value
inputs_of none_given message arguments = elim (get_key "arguments" arguments) [
  | none ↦ ok none_given
  | some inputs ↦ elim inputs [
    | null ↦ ok none_given
    | object fs ↦ ok (object fs)
    | bool b ↦ err (invalid_input message)
    | Value.number n ↦ err (invalid_input message)
    | string s ↦ err (invalid_input message)
    | array vs ↦ err (invalid_input message)
  ]
]

unfoldable pub status_of : Value → Outcome (Option TaskStatus)
status_of arguments = elim (get_key "status" arguments) [
  | none ↦ ok none
  | some status ↦ elim status [
    | null ↦ ok none
    | string s ↦
        if s == "pending"
        then ok (some pending)
        else if s == "running"
        then ok (some running)
        else if s == "completed"
        then ok (some completed)
        else if s == "failed"
        then ok (some failed)
        else if s == "cancelled"
        then ok (some cancelled)
        else err (invalid_input ("unknown task status filter: " <> s))
    | bool b ↦ err (invalid_input "__apcore_task_list `status` filter must be a string")
    | Value.number n ↦ err (invalid_input "__apcore_task_list `status` filter must be a string")
    | array vs ↦ err (invalid_input "__apcore_task_list `status` filter must be a string")
    | object fs ↦ err (invalid_input "__apcore_task_list `status` filter must be a string")
  ]
]

abbrev pub not_found : String → Value
not_found task_id = json (
    ("error", string "ASYNC_TASK_NOT_FOUND")
    ∷ ("task_id", string task_id)
    ∷ ("is_error", bool true)
    ∷ [])
