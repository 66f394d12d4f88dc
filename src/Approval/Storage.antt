-- ===== src/Approval/Storage.antt =====
-- src/adapters/approval.rs: the handler over an approval store, and the store's trait of
-- src/approval_store.rs with the in-memory store as its implementation.
use apcore_mcp_rust.Prelude.{
  ℕ, String, Bool, Option, none, some, List, [], ◌∷◌, if◌then◌else◌, ◌<>◌,
}
use apcore_mcp_rust.Json.{Value}
use apcore_mcp_rust.ApprovalStore
use apcore_mcp_rust.ApprovalStore.{pending, approved, rejected, ApprovalRecord, Store, get_result}
use apcore_mcp_rust.Approval.{ApprovalRequest, ApprovalResult, Outcome}
use apcore_mcp_rust.Prelude.Fallible.{ok, err}

-- The trait's operations that the handler calls, over the store's state.
pub record StoreApi (S : Type 0) : Type 0 where
  pub save_pending : String → String → Value → S → S × Outcome (Unit {0})
  pub get_result : String → S → Outcome (Option ApprovalRecord)

-- The in-memory store at a time; its calls do not fail.
abbrev pub in_memory : ℕ → StoreApi Store
in_memory now = record {
  save_pending = λ id module_id arguments s. (ApprovalStore.save_pending now id module_id s, ok tt);
  get_result = λ id s. ok (ApprovalStore.get_result id s);
}

-- A call of the notification callback.
abbrev pub Notification : Type 0
Notification = String × String × Value

abbrev pub reading : ApprovalResult → String → ApprovalRecord → ApprovalResult
reading default approval_id rec = elim rec.status [
  | approved ↦ record default { status = "approved"; approval_id = some approval_id }
  | rejected ↦ record default {
    status = "rejected";
    reason = rec.reason;
    approval_id = some approval_id;
  }
  | pending ↦ record default { status = "pending"; approval_id = some approval_id }
]

module _ (default : ApprovalResult) {S : Type 0} (api : StoreApi S) where
  -- The state afterwards, the notifications sent, and the result. The UUID drawn is an argument.
  unfoldable pub request_approval :
      String → (notifies : Bool) → ApprovalRequest → S → S × List Notification × ApprovalResult
  request_approval approval_id notifies request s =
      let (s', saved) = api.save_pending approval_id request.module_id request.arguments s in
      elim saved [
        | err e ↦
            (s', [], record default { status = "rejected"; reason = some "internal store error" })
        | ok u ↦ (
          s',
          if notifies then (approval_id, request.module_id, request.arguments) ∷ [] else [],
          record default { status = "pending"; approval_id = some approval_id },
        )
      ]

  unfoldable pub check_approval : String → S → ApprovalResult
  check_approval approval_id s = elim (api.get_result approval_id s) [
    | err e ↦ record default { status = "rejected"; reason = some ("store error: " <> e) }
    | ok found ↦ elim found [
      | none ↦ record default { status = "rejected"; reason = some "approval_id not found" }
      | some rec ↦ reading default approval_id rec
    ]
  ]
