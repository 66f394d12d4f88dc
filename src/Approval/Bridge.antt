-- ===== src/Approval/Bridge.antt =====
-- src/server/approval_bridge.rs: the tool that polls an approval.
use apcore_mcp_rust.Prelude.{
  String, Bool, true, false, not, none, some, [], ◌∷◌, ◌==◌, if◌then◌else◌, ◌<>◌, contains,
  is_blank,
}
use apcore_mcp_rust.Json.{Value, bool, string, get_str, json, object, insert, fields_of}
use apcore_mcp_rust.Approval.{ApprovalResult, Outcome}
use apcore_mcp_rust.Prelude.Fallible.{ok, err}

unfoldable pub is_meta_tool : String → Bool
is_meta_tool name = contains ("__apcore_approval_check" ∷ []) name

-- `check` is the handler's `check_approval`.
module _ (check : String → Outcome ApprovalResult) where
  unfoldable pub payload : String → ApprovalResult → Value
  payload approval_id result = elim result.reason [
    | none ↦ json (("approval_id", string approval_id) ∷ ("status", string result.status) ∷ [])
    | some r ↦ object (
        insert "reason" (string r)
          (fields_of (("approval_id", string approval_id) ∷ ("status", string result.status) ∷ [])))
  ]

  unfoldable pub check_id : String → Value × Bool
  unfolding payload
  check_id approval_id = elim (check approval_id) [
    | ok result ↦ (payload approval_id result, false)
    | err e ↦ (json (("error", string ("store error: " <> e)) ∷ ("is_error", bool true) ∷ []), true)
  ]

  abbrev missing_id : Value × Bool
  missing_id =
      (json (("error", string "approval_id is required") ∷ ("is_error", bool true) ∷ []), true)

  unfoldable pub handle_check : Value → Value × Bool
  unfolding check_id
  handle_check args = elim (get_str "approval_id" args) [
    | none ↦ missing_id
    | some id ↦ if not (is_blank id) then check_id id else missing_id
  ]

  unfoldable pub handle_meta_tool : String → Value → Value × Bool
  unfolding handle_check
  handle_meta_tool name arguments =
      if name == "__apcore_approval_check"
      then handle_check arguments
      else (json (("error", string ("Unknown approval meta-tool: " <> name)) ∷ []), true)
