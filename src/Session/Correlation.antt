-- ===== src/Session/Correlation.antt =====
-- Requests of src/server/session.rs and the messages that answer them.
use apcore_mcp_rust.Prelude.{
  ℕ, String, ◌≡◌, refl, ap, ◌∙◌, ◌⊎◌, inl, inr, false, some, arith, ◌==◌, eq_refl, if◌then◌else◌,
}
use apcore_mcp_rust.Json.{Number, Value}
use apcore_mcp_rust.Prelude.Map.{get, get-remove}
use apcore_mcp_rust.Session.{try_take_response, Wake, answered, sender_dropped}
use apcore_mcp_rust.Session.Invariant.{new-Reach-Inv}
use apcore_mcp_rust.Session.Live.{
  Channel, waiting, received, Live, Wakes, by_answer, by_hang_up, by_time, hang_up_all, receive,
  Reach, IsAnswer, opened, hang_up, still_received, not_waiting, get-hang_up_all, get-deliver,
}

woken :
    (c : Channel) (k : Wake) (d : Channel)
    → Wakes c k
    → c ≡ hang_up d
    → (k ≡ sender_dropped) ⊎ ((v : Value) × (k ≡ answered v) × (d ≡ received v))
woken _ _ d (by_answer v) p = inr (v, refl, still_received d v p)
woken _ _ d by_hang_up p = inl refl
woken _ _ d by_time p = absurd (not_waiting d p)

module _ (print : Number → String) (id : String) (limit : ℕ) (w : Live)
    (r : Reach print (opened id limit) w) where
  -- Whatever has happened on a connection, the message that answers a waiting request is what that
  -- request has received next, every other request is as before, and a second copy of the message
  -- is not consumed.
  pub receive-delivers :
      (call : String) (message : Value)
      → IsAnswer print call message
      → get call w.calls ≡ some waiting
      → ((k : String)
          → get k (receive print message w).calls
            ≡ (if call == k then some (received message) else get k w.calls))
        × ((try_take_response print message (receive print message w).session).2 ≡ false)
  unfolding receive try_take_response
  receive-delivers call message (e, k) h =
      let p = (new-Reach-Inv print id limit w r).waits call h in
      rw (e, k, p)
        (
          λ k. get-deliver message call k w.calls h,
          ground (arith, e, k, eq_refl call, get-remove call call w.session.pending),
        )

  -- When the connection is closed, whatever has happened on it, the table is emptied and no
  -- request in flight is left to its timeout: it gives the answer that it has received, or fails as
  -- closed.
  pub close-Wakes :
      (call : String) (c : Channel) (k : Wake)
      → get call (hang_up_all w.calls) ≡ some c
      → Wakes c k
      → (k ≡ sender_dropped)
        ⊎ ((v : Value) × (k ≡ answered v) × (get call w.calls ≡ some (received v)))
  close-Wakes call c k h q =
      let (d, e, p) = get-hang_up_all call c w.calls h in
      elim (woken c k d q p) [ inl y ↦ inl y | inr (v, a, o) ↦ inr (v, a, e ∙ ap some o) ]
