-- ===== src/Session/Requests.antt =====
-- A whole request of src/server/session.rs, and the form that it asks the user to fill.
use apcore_mcp_rust.Prelude.{String, ◌<>◌}
use apcore_mcp_rust.Json.{Value}
use apcore_mcp_rust.Prelude.Fallible.{Fallible}
use apcore_mcp_rust.Session.{SessionError, Wake, Await}

module _ (sink : Value → Await (Fallible SessionError (Unit {0}))) (wait : Await Wake)
    (uuid : String) where
  abbrev call_id : String
  call_id = "apcore-mcp-" <> uuid
