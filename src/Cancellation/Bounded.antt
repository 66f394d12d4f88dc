-- ===== src/Cancellation/Bounded.antt =====
-- The number of tokens that src/server/router.rs keeps.
use apcore_mcp_rust.Prelude.{
  ℕ, ◌-◌, ◌≤◌, String, inl, inr, Bool, true, Option, none, some, [], ◌∷◌, arith, leb, Bool-cases,
  Option-cases, length,
}
use apcore_mcp_rust.Prelude.Map.{Map, get, insert, length-remove-le}
use apcore_mcp_rust.Cancellation.{
  CancelTokens, cancel_tokens_max, make_token, droppable, take, remove_all, drop_first,
  evict_cancel_tokens, cancel_call, cancel_guard, drop_cancel_guard,
}

length-drop_first-le : (max : ℕ) (m : Map ℕ) → length (drop_first max m) ≤ max
length-drop_first-le max [] = omega arith
length-drop_first-le max (entry ∷ m) = ground (arith, length-drop_first-le max m)

length-evict-le :
    (cancelled : ℕ → Bool) (held : Option ℕ) (m : Map ℕ)
    → length (evict_cancel_tokens cancelled held m) ≤ cancel_tokens_max
unfolding evict_cancel_tokens
length-evict-le cancelled held m = elim (Bool-cases (leb (length m) cancel_tokens_max)) [
  | inl y ↦ rw y (ground (arith, y))
  | inr n ↦ rw n (
      length-drop_first-le cancel_tokens_max
        (remove_all (take (length m - cancel_tokens_max) (droppable cancelled held m)) m))
]

-- The calls on the tokens, in any order.
pub data Step (s : CancelTokens) : CancelTokens → Type 0 where
  cancels : (call_id : String) → Step s (cancel_call call_id s).0
  starts : (call_id : String) → Step s (cancel_guard call_id s).0
  ends : (call_id : String) → Step s (drop_cancel_guard call_id s)

pub data Reach (s : CancelTokens) : CancelTokens → Type 0 where
  here : Reach s s
  next : {t u : CancelTokens} → Reach s t → Step t u → Reach s u

Step-le :
    {s t : CancelTokens}
    → length s.tokens ≤ cancel_tokens_max
    → Step s t
    → length t.tokens ≤ cancel_tokens_max
unfolding cancel_call cancel_guard drop_cancel_guard
Step-le {s = s} b (cancels id) = elim (Option-cases (get id s.tokens)) [
  | inr (t, e) ↦ rw (e, cancel_call) b
  | inl e ↦
      rw (e, cancel_call)
        (length-evict-le (make_token s.next true s.cancelled) none (insert id s.next s.tokens))
]
Step-le {s = s} b (starts id) = length-evict-le _ (some s.next) (insert id s.next s.tokens)
Step-le {s = s} b (ends id) = let c = length-remove-le id s.tokens in omega arith

Reach-le :
    {s t : CancelTokens}
    → length s.tokens ≤ cancel_tokens_max
    → Reach s t
    → length t.tokens ≤ cancel_tokens_max
Reach-le b here = b
Reach-le b (next r st) = Step-le (Reach-le b r) st

-- However calls start, end and are cancelled, also ones that never start, a router keeps at most
-- 4096 tokens.
pub Reach-length-le :
    (cancelled : ℕ → Bool) (s : CancelTokens)
    → Reach (record { tokens = []; cancelled = cancelled; next = 0 }) s
    → length s.tokens ≤ cancel_tokens_max
Reach-length-le cancelled s r = Reach-le (omega arith) r
