-- ===== src/Approval/Examples.antt =====
-- The theorems at concrete requests and answers.
use apcore_mcp_rust.Prelude.{String, ◌≡◌, refl, ◌↔◌, true, false, none, some, [], ◌∷◌, eq_iff}
use apcore_mcp_rust.Json.{Value, null, string, get_str, get_key, get, insert, fields_of, json}
use apcore_mcp_rust.Prelude.Map.{Map}
use apcore_mcp_rust.Prelude.Map
use apcore_mcp_rust.ApprovalStore.{with_options, resolve}
use apcore_mcp_rust.Approval.{ApprovalRequest, ApprovalResult}
use apcore_mcp_rust.Approval.Elicitation.{
  accept, ElicitResult, returned, ElicitCallback, approval_schema, approval_message,
  resolve_callback,
}
use apcore_mcp_rust.Approval.Elicitation
use apcore_mcp_rust.Approval.Closed.{request_approval-approved_iff, Agrees, Decided}
use apcore_mcp_rust.Approval.Storage.{in_memory, request_approval}
use apcore_mcp_rust.Approval.Polling.{poll, Shows, status_text, poll-request_approval-resolve}

abbrev blank_result : ApprovalResult
blank_result = record { status = ""; reason = none; approval_id = none }

abbrev print : Value → String
print v = "{}"

abbrev says_yes : ElicitCallback
says_yes message schema = returned (some (record { action = accept; content = none }))

abbrev request : ApprovalRequest
request = record {
  module_id = "image.delete";
  description = none;
  arguments = null;
  context = some (("_mcp_elicit_call_id", string "c1") ∷ []);
}

abbrev args : Value
args = json (("approval_id", string "a1") ∷ [])

args_read : get_str "approval_id" args ≡ some "a1"
unfolding get_str get_key get insert fields_of
args_read = refl

request_approval-approved_iff_example :
    (((Elicitation.request_approval blank_result print (("c1", says_yes) ∷ []) none request).status
        ≡ "approved")
      ↔ ((context : Map Value) × (elicit : ElicitCallback) × (r : ElicitResult) × (request.context
            ≡ some context)
          × (resolve_callback (("c1", says_yes) ∷ []) none context ≡ some elicit)
          × (elicit (approval_message print request) (some approval_schema) ≡ returned (some r))
          × Agrees r))
    × Decided (Elicitation.request_approval blank_result print (("c1", says_yes) ∷ []) none request)
request_approval-approved_iff_example =
    request_approval-approved_iff blank_result print (("c1", says_yes) ∷ []) none request

approves :
    (Elicitation.request_approval blank_result print (("c1", says_yes) ∷ []) none request).status
    ≡ "approved"
unfolding Elicitation.request_approval Map.get
approves = refl

poll-request_approval-resolve_example :
    Shows "pending" none (
      poll blank_result 6 args
        (request_approval blank_result (in_memory 5) "a1" true request (with_options 10 20 3)).0)
    × Shows (status_text false) (some "no") (
        poll blank_result 9 args
          (resolve 6 "a1" false
            (some "no")
            (request_approval blank_result
              (in_memory 5)
              "a1"
              true
              request
              (with_options 10 20 3)).0).0)
poll-request_approval-resolve_example =
    poll-request_approval-resolve blank_result 5 6 9 "a1" true false (some "no") request args
      (with_options 10 20 3) args_read (λ e. cc ((eq_iff "a1" "").1 e))
