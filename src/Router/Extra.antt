-- ===== src/Router/Extra.antt =====
-- src/server/router.rs: what a call reads of the metadata that comes with it.
use apcore_mcp_rust.Prelude.{
  String, ◌≡◌, refl, inl, inr, true, Option, none, some, [], ltb, if◌then◌else◌, Option-cases,
  unwrap_or, or_else,
}
use mathlib.Core.Option.{none-ne-some}
use apcore_mcp_rust.Acl.Shape.{as_str-some}
use apcore_mcp_rust.Json.{Number, Value, string, number, get_key, get_str, as_str, and_then, json}
use apcore_mcp_rust.Prelude.Map.{get}
use apcore_mcp_rust.Prelude.Fallible.{Fallible, ok, err}
use apcore_mcp_rust.ApprovalStore.{map_option}
use apcore_mcp_rust.Approval.Elicitation.{ElicitResult}
use apcore_mcp_rust.Session.{Session, Sessions, SessionError, Await, Wake, elicit_form}
use apcore_mcp_rust.Rpc.{index, session_of}
use apcore_mcp_rust.Transport.{stamp_session_id}
use apcore_mcp_rust.Transport.Stamped.{is_call, stamp_session_id-IsStamped}

-- `Value::as_i64`
abbrev pub as_i64 : Value → Option Number
as_i64 (number (Number.pos_int n)) =
    if ltb n 9_223_372_036_854_775_808 then some (Number.pos_int n) else none
as_i64 (number (Number.neg_int n)) = some (Number.neg_int n)
as_i64 _ = none

-- The UUID drawn and the printer of numbers are arguments.
unfoldable pub call_id_of : (Number → String) → String → Option Value → String
call_id_of print uuid extra =
    let text_of : Value → Option String = λ v. or_else (as_str v) (map_option print (as_i64 v)) in
    unwrap_or
      (or_else (and_then (and_then extra (get_key "call_id")) text_of)
        (and_then (and_then (and_then extra (get_key "_meta")) (get_key "progressToken")) text_of))
      uuid

unfoldable pub version_hint_of : (String → Option String) → String → Option Value → Option String
version_hint_of default_of tool_name extra =
    or_else
      (and_then (and_then extra λ v. or_else (get_key "version_hint" v) (get_key "versionHint" v))
        as_str)
      (or_else
        (and_then (and_then (and_then extra (get_key "_meta")) (get_key "apcore"))
          (get_str "version"))
        (default_of tool_name))

unfoldable pub session_id_from_extra : Option Value → Option String
session_id_from_extra none = none
session_id_from_extra (some extra) =
    and_then
      (or_else (get_key "sessionId" extra) (and_then (get_key "_meta" extra) (get_key "sessionId")))
      as_str

-- The session that the call can ask.
unfoldable pub session_in : Sessions → Option Value → Option Session
unfolding session_id_from_extra
session_in sessions extra = and_then (session_id_from_extra extra) λ id. get id sessions

-- The session by which the bridge of tasks remembers what it submits.
unfoldable pub session_key_of : Option Value → Option String
session_key_of extra = and_then extra (get_str "sessionId")

-- The callback by which a call asks the client of its session.
unfoldable pub make_elicit_callback :
    (Value → Await (Fallible SessionError (Unit {0})))
    → Await Wake
    → String
    → (Value → Fallible String ElicitResult)
    → String
    → Option Value
    → Session
    → Session × Option ElicitResult
unfolding elicit_form
make_elicit_callback sink wait uuid from_value message requested_schema s =
    let (s', result) =
      elicit_form sink wait uuid from_value message (unwrap_or requested_schema (json [])) s in
    (s', elim result [ ok r ↦ some r | err e ↦ none ])

-- The metadata of a tool call that is passed on as its extra parameters.
abbrev pub extra_of : Value → Option Value
extra_of message = and_then (get_key "params" message) (get_key "_meta")

extra_of-session :
    (stamped : Value) (id : String)
    → session_of stamped ≡ some id
    → (meta : Value) × (extra_of stamped ≡ some meta)
      × (get_key "sessionId" meta ≡ some (string id))
unfolding get_str get_key
extra_of-session stamped id s = elim (Option-cases (get_key "params" stamped)) [
  | inl p ↦ absurd (none-ne-some id (rw (p, index) at s))
  | inr (params, p) ↦ elim (Option-cases (get_key "_meta" params)) [
    | inl q ↦ absurd (none-ne-some id (rw (p, q, index) at s))
    | inr (meta, q) ↦
        (meta, rw (p, q) refl, as_str-some (get_key "sessionId" meta) id (rw (p, q, index) at s))
  ]
]

-- On a connection whose messages are stamped with its session's ID, a tool call asks the client of
-- that session and its tasks are bound to that session, whatever session its message names.
pub stamp_session_id-session_in :
    (id : String) (message : Value) (sessions : Sessions)
    → is_call message ≡ true
    → (session_in sessions (extra_of (stamp_session_id id message)) ≡ get id sessions)
      × (session_key_of (extra_of (stamp_session_id id message)) ≡ some id)
unfolding session_in session_id_from_extra session_key_of get_str get_key
stamp_session_id-session_in id message sessions c =
    let (meta, e, i) =
      extra_of-session (stamp_session_id id message) id
        (stamp_session_id-IsStamped id message c).session in
    (rw (e, session_in, session_id_from_extra, i) refl, rw (e, i, session_key_of) refl)
