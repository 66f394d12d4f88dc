-- ===== src/Approval/Polling.antt =====
-- Requests, decisions and polls over the in-memory store.
use apcore_mcp_rust.Prelude.{
  ℕ, String, ◌≡◌, refl, sym, ap, subst, ◌≢◌, inl, inr, Bool, true, false, Option, none, some, arith,
  eq_iff, eq_refl, if◌then◌else◌, Option-cases,
}
use apcore_mcp_rust.Json.{Value, get, insert, fields_of, get_key, get_str}
use apcore_mcp_rust.ApprovalStore.{pending, ApprovalRecord, Store, get_result, decided, resolve}
use apcore_mcp_rust.ApprovalStore.Resolve.{get_result-resolve}
use apcore_mcp_rust.ApprovalStore.Capacity.{get_result-save_pending}
use apcore_mcp_rust.Approval.{ApprovalRequest, ApprovalResult, Outcome}
use apcore_mcp_rust.Prelude.Fallible.{ok}
use apcore_mcp_rust.Approval.Storage.{in_memory, request_approval, check_approval, reading}
use apcore_mcp_rust.Approval.Bridge.{payload, check_id, handle_check, handle_meta_tool}

module _ (check : String → Outcome ApprovalResult) where
  payload-status :
      (id : String) (result : ApprovalResult)
      → (get_str "status" (payload check id result) ≡ some result.status)
        × (get_str "reason" (payload check id result) ≡ result.reason)
  unfolding payload get_str get_key get insert fields_of
  payload-status id result = elim (Option-cases result.reason) [
    | inl e ↦ rw (e, payload) (refl, refl)
    | inr (r, e) ↦ rw (e, payload) (refl, refl)
  ]

  -- A poll with an ID that is not blank answers with the handler's result.
  poll-eq :
      (id : String) (args : Value) (result : ApprovalResult)
      → get_str "approval_id" args ≡ some id
      → id ≢ ""
      → check id ≡ ok result
      → handle_meta_tool check "__apcore_approval_check" args ≡ (payload check id result, false)
  unfolding handle_meta_tool handle_check check_id
  poll-eq id args result e ne c = ground (arith, eq_iff id "")

module _ (default : ApprovalResult) where
  check-of-get_result :
      (now : ℕ) (id : String) (s : Store) (rec : ApprovalRecord)
      → get_result id s ≡ some rec
      → check_approval default (in_memory now) id s ≡ reading default id rec
  unfolding check_approval
  check-of-get_result now id s rec e = rw (e, check_approval) refl

  request_approval-saves :
      (now : ℕ) (id : String) (notifies : Bool) (request : ApprovalRequest) (s : Store)
      → get_result id (request_approval default (in_memory now) id notifies request s).0
        ≡ some (record { status = pending; module_id = request.module_id; reason = none })
  unfolding request_approval
  request_approval-saves now id notifies request s =
      get_result-save_pending now id request.module_id s

-- The polling tool over the in-memory store at a time.
abbrev pub poll : ApprovalResult → ℕ → Value → Store → Value × Bool
poll default now args s =
    handle_meta_tool (λ id. ok (check_approval default (in_memory now) id s))
      "__apcore_approval_check" args

abbrev pub Shows : String → Option String → Value × Bool → Type 0
Shows status reason (v, is_error) =
    (is_error ≡ false) × (get_str "status" v ≡ some status) × (get_str "reason" v ≡ reason)

poll-Shows :
    (default : ApprovalResult) (now : ℕ) (id : String) (args : Value) (s : Store)
    (rec : ApprovalRecord)
    → get_str "approval_id" args ≡ some id
    → id ≢ ""
    → get_result id s ≡ some rec
    → Shows
        (reading default id rec).status
        (reading default id rec).reason
        (poll default now args s)
poll-Shows default now id args s rec e ne g =
    let check = λ (j : String). ok (check_approval default (in_memory now) j s) in
    let answer =
      poll-eq check id args (reading default id rec) e ne
        (ap ok (check-of-get_result default now id s rec g)) in
    let (a, b) = payload-status check id (reading default id rec) in
    subst (Shows (reading default id rec).status (reading default id rec).reason) (sym answer)
      (refl, a, b)

abbrev pub status_text : Bool → String
status_text true = "approved"
status_text false = "rejected"

-- From the request to the decision, over the in-memory store: polling an ID that was handed out
-- shows "pending" after the request, whatever the store held before, and once `resolve` has taken
-- it shows the decision, with its reason if it is a rejection.
pub poll-request_approval-resolve :
    (default : ApprovalResult) (now later latest : ℕ) (id : String) (notifies b : Bool)
    (why : Option String) (request : ApprovalRequest) (args : Value) (s : Store)
    → get_str "approval_id" args ≡ some id
    → id ≢ ""
    → Shows "pending" default.reason
        (poll default later args (request_approval default (in_memory now) id notifies request s).0)
      × Shows (status_text b) (if b then default.reason else why) (
          poll default latest args
            (resolve later id b why
              (request_approval default (in_memory now) id notifies request s).0).0)
poll-request_approval-resolve default now later latest id notifies b why request args s e ne =
    let s' = (request_approval default (in_memory now) id notifies request s).0 in
    let saved = request_approval-saves default now id notifies request s in
    let decision = rw (eq_refl id) at (get_result-resolve later id b why s' _ id saved refl) in
    (poll-Shows default later id args s' _ e ne saved, decided-Shows b decision)
  where
    decided-Shows :
        (c : Bool)
        → get_result id
            (resolve later id b why
              (request_approval default (in_memory now) id notifies request s).0).0
          ≡ some (record { status = decided c; module_id = request.module_id; reason = why })
        → Shows (status_text c) (if c then default.reason else why) (
            poll default latest args
              (resolve later id b why
                (request_approval default (in_memory now) id notifies request s).0).0)
    decided-Shows true g = poll-Shows default latest id args _ _ e ne g
    decided-Shows false g = poll-Shows default latest id args _ _ e ne g
