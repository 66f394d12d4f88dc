-- ===== src/Approval/Elicitation.antt =====
-- src/adapters/approval.rs: the handler that asks the client, and src/helpers.rs: what it answers.
use apcore_mcp_rust.Prelude.{
  String, Bool, true, false, not, Option, none, some, [], ◌∷◌, ◌==◌, eqb, if◌then◌else◌, unwrap_or,
  or_else, ◌<>◌, is_blank,
}
use apcore_mcp_rust.Json.{
  Number, Value, null, bool, number, string, array, object, get_key, as_str, and_then, json,
  to_items,
}
use apcore_mcp_rust.Prelude.Map.{Map, get}
use apcore_mcp_rust.ApprovalStore.{map_option}
use apcore_mcp_rust.Approval.{ApprovalRequest, ApprovalResult}
use apcore_mcp_rust.Approval.Registry.{lookup}

pub data ElicitAction : Type 0 where
  accept decline cancel : ElicitAction
  unknown : String → ElicitAction

pub record ElicitResult : Type 0 where
  pub action : ElicitAction
  pub content : Option Value

-- `Deserialize` and `Serialize` of the action, on its text.
unfoldable pub parse_action : String → ElicitAction
parse_action s =
    if s == "accept"
    then accept
    else if s == "decline"
    then decline
    else if s == "cancel"
    then cancel
    else unknown s

unfoldable pub print_action : ElicitAction → String
print_action accept = "accept"
print_action decline = "decline"
print_action cancel = "cancel"
print_action (unknown raw) = raw

-- What awaiting a callback under `catch_unwind` gives.
pub data Answer : Type 0 where
  panicked : Answer
  returned : Option ElicitResult → Answer

abbrev pub ElicitCallback : Type 0
ElicitCallback = String → Option Value → Answer

unfoldable pub approve_truthiness : Value → Bool
approve_truthiness (bool b) = b
approve_truthiness null = false
approve_truthiness (number (Number.pos_int n)) = not (eqb n 0)
approve_truthiness (number (Number.neg_int n)) = true
approve_truthiness (number (Number.float text is_zero)) = not is_zero
approve_truthiness (string s) = not (is_blank s)
approve_truthiness (array vs) = false
approve_truthiness (object fs) = false

unfoldable pub approval_schema : Value
approval_schema = json (
    ("type", string "object")
    ∷ ("title", string "Approval required")
    ∷ (
      "properties",
      json (
          (
            "approve",
            json (
                ("type", string "boolean")
                ∷ ("title", string "Approve this action?")
                ∷ ("description", string "Select yes to allow the operation to proceed.")
                ∷ []),
          )
          ∷ []),
    )
    ∷ ("required", array (to_items (string "approve" ∷ [])))
    ∷ [])

-- The content's answer to the form; true where there is none.
unfoldable pub consents : Option Value → Bool
unfolding approve_truthiness
consents content =
    unwrap_or (map_option approve_truthiness (and_then content (get_key "approve"))) true

-- The callback: by the call ID in the context's data, else the handler's own.
unfoldable pub resolve_callback :
    Map ElicitCallback → Option ElicitCallback → Map Value → Option ElicitCallback
unfolding lookup
resolve_callback registry own context =
    or_else
      (and_then (and_then (get "_mcp_elicit_call_id" context) as_str)
        (λ call_id. lookup call_id registry))
      own

-- The printer of JSON values is a parameter.
unfoldable pub approval_message : (Value → String) → ApprovalRequest → String
approval_message print request =
    "Approval required for tool: "
    <> request.module_id
    <> "\n\n"
    <> unwrap_or request.description ""
    <> "\n\nArguments: "
    <> print request.arguments

-- `ApprovalResult::default()` of apcore is a parameter.
module _ (default : ApprovalResult) where
  unfoldable pub rejected : String → ApprovalResult
  rejected reason = record default { status = "rejected"; reason = some reason }

  unfoldable pub approved : ApprovalResult
  approved = record default { status = "approved" }

  unfoldable pub judge : Answer → ApprovalResult
  unfolding rejected approved consents
  judge panicked = rejected "Elicitation request failed"
  judge (returned none) = rejected "Elicitation returned no response"
  judge (returned (some r)) = elim r.action [
    | accept ↦ if consents r.content then approved else rejected "User declined approval"
    | decline ↦ rejected "User action: decline"
    | cancel ↦ rejected "User action: cancel"
    | unknown raw ↦ rejected ("User action: " <> raw)
  ]

  unfoldable pub request_approval :
      (Value → String)
      → Map ElicitCallback
      → Option ElicitCallback
      → ApprovalRequest
      → ApprovalResult
  unfolding rejected judge resolve_callback approval_message
  request_approval print registry own request = elim request.context [
    | none ↦ rejected "No context available for elicitation"
    | some context ↦ elim (resolve_callback registry own context) [
      | none ↦ rejected "No elicitation callback available"
      | some elicit ↦ judge (elicit (approval_message print request) (some approval_schema))
    ]
  ]

  unfoldable pub check_approval : String → ApprovalResult
  unfolding rejected
  check_approval approval_id = rejected "Phase B not supported via MCP elicitation"
