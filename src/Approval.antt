-- ===== src/Approval.antt =====
-- The approval handlers of src/adapters/approval.rs, the registry of elicitation callbacks of
-- src/server/elicit_registry.rs, and the polling tool of src/server/approval_bridge.rs.
pub mod Registry
pub mod Elicitation
pub mod Storage
pub mod Bridge
pub mod Closed
pub mod Polling
mod Examples
use apcore_mcp_rust.Prelude.{String, Option}
use apcore_mcp_rust.Prelude.Fallible.{Fallible}
use apcore_mcp_rust.Json.{Value}
use apcore_mcp_rust.Prelude.Map.{Map}

-- What the handlers read and write of apcore's `ApprovalRequest` and `ApprovalResult`.
pub record ApprovalRequest : Type 0 where
  pub module_id : String
  pub description : Option String
  pub arguments : Value
  pub context : Option (Map Value)

pub record ApprovalResult : Type 0 where
  pub status : String
  pub reason : Option String
  pub approval_id : Option String

-- A call that may fail with a text.
abbrev pub Outcome {ℓ} : Type ℓ → Type ℓ
Outcome A = Fallible String A
