-- ===== src/Cancellation/Examples.antt =====
-- A call that is cancelled, for src/server/router.rs.
use apcore_mcp_rust.Prelude.{◌≡◌, refl, true, false, [], arith}
use apcore_mcp_rust.Prelude.Map.{insert}
use apcore_mcp_rust.Cancellation.{
  CancelTokens, evict_cancel_tokens, cancel_call, cancel_guard, drop_cancel_guard,
}
use apcore_mcp_rust.Cancellation.Delivered.{
  HasRoom, Meanwhile, here, starts, ends, cancel_guard-cancel_call,
}

abbrev idle : CancelTokens
idle = record { tokens = []; cancelled = λ t. false; next = 0 }

idle-HasRoom : HasRoom idle
idle-HasRoom = omega arith

abbrev started : CancelTokens
started = (cancel_guard "7" idle).0

started-HasRoom : HasRoom started
unfolding cancel_guard insert evict_cancel_tokens
started-HasRoom = omega arith

-- Another call starts and ends while the first is in flight.
abbrev after_another : CancelTokens
after_another = drop_cancel_guard "8" (cancel_guard "8" started).0

another : Meanwhile "7" started after_another
another = ends "8" (starts "8" here refl started-HasRoom) refl

cancel_guard-cancel_call_example :
    ((cancel_call "7" after_another).1 ≡ true)
    × ((cancel_call "7" after_another).0.cancelled (cancel_guard "7" idle).1 ≡ true)
cancel_guard-cancel_call_example =
    cancel_guard-cancel_call "7" idle after_another idle-HasRoom another
