-- ===== src/Session/Examples.antt =====
-- Sessions of src/server/session.rs at concrete messages.
use apcore_mcp_rust.Prelude.{String, ◌≡◌, refl, false, some, [], ◌∷◌, ◌==◌, if◌then◌else◌}
use apcore_mcp_rust.Json.{Number, Value, string, get_key, json}
use apcore_mcp_rust.Prelude.Map.{get, insert}
use apcore_mcp_rust.Prelude.Fallible.{Fallible, ok}
use apcore_mcp_rust.Approval.Elicitation.{ElicitResult, accept}
use apcore_mcp_rust.Session.{
  SessionError, register, response_id_key, try_take_response, Wake, answered, Await,
}
use apcore_mcp_rust.Session.Invariant.{new-Reach-Inv}
use apcore_mcp_rust.Session.Live.{
  waiting, dropped, received, Live, hang_up_all, receive, Reach, here, next, starts, receives,
  IsAnswer, Inv, opened,
}
use apcore_mcp_rust.Session.Correlation.{receive-delivers}

abbrev digits : Number → String
digits n = "1"

abbrev reply : Value
reply = json (("id", string "a") ∷ ("result", string "filled") ∷ [])

-- A request waits on a new connection.
abbrev asked : Live
asked = record {
  session = register "a" "a" (opened "s1" 60).session;
  calls = insert "a" waiting [];
}

asked-Reach : Reach digits (opened "s1" 60) asked
unfolding get
asked-Reach = next here (starts "a" refl)

abbrev replied : Live
replied = receive digits reply asked

replied-Reach : Reach digits (opened "s1" 60) replied
replied-Reach = next asked-Reach (receives reply)

asked-waits : get "a" asked.calls ≡ some waiting
unfolding get insert
asked-waits = refl

replied-received : get "a" replied.calls ≡ some (received reply)
unfolding get insert receive try_take_response response_id_key register get_key
    apcore_mcp_rust.Json.get apcore_mcp_rust.Json.fields_of apcore_mcp_rust.Json.insert
replied-received = refl

reply-IsAnswer : IsAnswer digits "a" reply
unfolding response_id_key get_key apcore_mcp_rust.Json.get apcore_mcp_rust.Json.fields_of
    apcore_mcp_rust.Json.insert
reply-IsAnswer = (refl, refl)

hung_up : get "a" (hang_up_all asked.calls) ≡ some dropped
unfolding get insert
hung_up = refl

new-Reach-Inv_example : Inv digits replied
new-Reach-Inv_example = new-Reach-Inv digits "s1" 60 replied replied-Reach

receive-delivers_example :
    ((k : String)
      → get k (receive digits reply asked).calls
        ≡ (if "a" == k then some (received reply) else get k asked.calls))
    × ((try_take_response digits reply (receive digits reply asked).session).2 ≡ false)
receive-delivers_example =
    receive-delivers digits "s1" 60 asked asked-Reach "a" reply reply-IsAnswer asked-waits

-- A sink that writes, a client that answers, and the reader of its result.
abbrev writes : Value → Await (Fallible SessionError (Unit {0}))
writes message s = (s, ok tt)

abbrev replies : Await Wake
replies s = (s, answered reply)

abbrev reads : Value → Fallible String ElicitResult
reads v = ok (record { action = accept; content = some v })

abbrev filled : ElicitResult
filled = record { action = accept; content = some (string "filled") }
