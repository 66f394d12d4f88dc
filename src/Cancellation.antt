-- ===== src/Cancellation.antt =====
-- src/server/router.rs: the tokens by which a call in flight is cancelled.
pub mod Bounded
pub mod Delivered
mod Examples
use apcore_mcp_rust.Prelude.{
  ℕ, zero, suc, ◌+◌, ◌-◌, String, Bool, true, false, not, ◌&&◌, Option, none, some, List, [], ◌∷◌,
  ltb, leb, eqb, if◌then◌else◌, length,
}
use apcore_mcp_rust.Prelude.Map.{Map, get, insert, remove}

abbrev pub cancel_tokens_max : ℕ
cancel_tokens_max = 4096

-- Tokens are named by numbers, and shared between the map and the calls; `cancelled` is the state
-- of each. The order of the map is that of its iteration.
pub record CancelTokens : Type 0 where
  pub tokens : Map ℕ
  pub cancelled : ℕ → Bool
  pub next : ℕ

abbrev pub cancel_token : ℕ → (ℕ → Bool) → ℕ → Bool
cancel_token token cancelled t = if eqb token t then true else cancelled t

-- A token is made in the state that is given.
abbrev pub make_token : ℕ → Bool → (ℕ → Bool) → ℕ → Bool
make_token token state cancelled t = if eqb token t then state else cancelled t

-- The strong count of an entry is 1 but for the token that the caller still holds: the guard and
-- the call have clones of what the pointer points to, not of the pointer.
abbrev pub is_held : Option ℕ → ℕ → Bool
is_held none t = false
is_held (some token) t = eqb token t

abbrev pub droppable : (ℕ → Bool) → Option ℕ → Map ℕ → List String
droppable cancelled held [] = []
droppable cancelled held (entry ∷ m) =
    if cancelled entry.1 && not (is_held held entry.1)
    then entry.0 ∷ droppable cancelled held m
    else droppable cancelled held m

abbrev pub take : ℕ → List String → List String
take n [] = []
take zero (s ∷ ss) = []
take (suc n) (s ∷ ss) = s ∷ take n ss

abbrev pub remove_all : List String → Map ℕ → Map ℕ
remove_all [] m = m
remove_all (k ∷ ks) m = remove_all ks (remove k m)

-- The loop that drops the first entry while there are too many.
abbrev pub drop_first : ℕ → Map ℕ → Map ℕ
drop_first max [] = []
drop_first max (entry ∷ m) = if ltb max (length (entry ∷ m)) then drop_first max m else entry ∷ m

unfoldable pub evict_cancel_tokens : (ℕ → Bool) → Option ℕ → Map ℕ → Map ℕ
evict_cancel_tokens cancelled held m =
    if leb (length m) cancel_tokens_max
    then m
    else drop_first cancel_tokens_max
        (remove_all (take (length m - cancel_tokens_max) (droppable cancelled held m)) m)

unfoldable pub cancel_call : String → CancelTokens → CancelTokens × Bool
unfolding evict_cancel_tokens
cancel_call call_id s = elim (get call_id s.tokens) [
  | some token ↦ (record s { cancelled = cancel_token token s.cancelled }, true)
  | none ↦
      let cancelled = make_token s.next true s.cancelled in
      (
        record {
          tokens = evict_cancel_tokens cancelled none (insert call_id s.next s.tokens);
          cancelled = cancelled;
          next = s.next + 1;
        },
        false,
      )
]

-- Whether a tombstone waits for the call.
abbrev pub is_cancelled_early : String → CancelTokens → Bool
is_cancelled_early call_id s = elim (get call_id s.tokens) [ none ↦ false | some t ↦ s.cancelled t ]

-- The state, and the call's token.
unfoldable pub cancel_guard : String → CancelTokens → CancelTokens × ℕ
unfolding evict_cancel_tokens
cancel_guard call_id s =
    let cancelled = make_token s.next (is_cancelled_early call_id s) s.cancelled in
    (
      record {
        tokens = evict_cancel_tokens cancelled (some s.next) (insert call_id s.next s.tokens);
        cancelled = cancelled;
        next = s.next + 1;
      },
      s.next,
    )

-- `CancelGuard::drop`
unfoldable pub drop_cancel_guard : String → CancelTokens → CancelTokens
drop_cancel_guard call_id s = record s { tokens = remove call_id s.tokens }
