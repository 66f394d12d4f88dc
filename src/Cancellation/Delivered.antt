-- ===== src/Cancellation/Delivered.antt =====
-- How calls are cancelled in src/server/router.rs.
use apcore_mcp_rust.Prelude.{
  ℕ, ◌<◌, String, ◌≡◌, refl, ap, ◌∙◌, inl, inr, Bool, true, false, Option, none, some, arith, ◌==◌,
  eq_refl, leb, eqb, Bool-cases, Option-cases, length,
}
use apcore_mcp_rust.Prelude.Map.{get, insert, get-insert, get-remove, length-insert-le}
use apcore_mcp_rust.Cancellation.{
  CancelTokens, cancel_tokens_max, cancel_token, make_token, is_cancelled_early,
  evict_cancel_tokens, cancel_call, cancel_guard, drop_cancel_guard,
}

-- There is room for one more token.
abbrev pub HasRoom : CancelTokens → Type 0
HasRoom s = length s.tokens < cancel_tokens_max

evict-room :
    (cancelled : ℕ → Bool) (held : Option ℕ) (id : String) (t : ℕ) (s : CancelTokens)
    → HasRoom s
    → evict_cancel_tokens cancelled held (insert id t s.tokens) ≡ insert id t s.tokens
unfolding evict_cancel_tokens
evict-room cancelled held id t s h =
    let l = length-insert-le id t s.tokens in
    elim (Bool-cases (leb (length (insert id t s.tokens)) cancel_tokens_max)) [
      | inl y ↦ rw y refl
      | inr n ↦ absurd (ground (arith, n, l))
    ]

eqb_self : (n : ℕ) → eqb n n ≡ true
eqb_self n = ground arith

cancel_token_self : (t : ℕ) (c : ℕ → Bool) → cancel_token t c t ≡ true
cancel_token_self t c = rw (eqb_self t) refl

cancel_call_found :
    (s : CancelTokens) (id : String) (t : ℕ)
    → get id s.tokens ≡ some t
    → cancel_call id s ≡ (record s { cancelled = cancel_token t s.cancelled }, true)
unfolding cancel_call
cancel_call_found s id t e = rw (e, cancel_call) refl

-- What happens to the tokens while a call is in flight: other calls start, end and are cancelled,
-- and there is room for a token whenever one is made, so that none is evicted.
pub data Meanwhile (call_id : String) (s : CancelTokens) : CancelTokens → Type 0 where
  here : Meanwhile call_id s s
  starts :
      {t : CancelTokens} (other : String)
      → Meanwhile call_id s t
      → other == call_id ≡ false
      → HasRoom t
      → Meanwhile call_id s (cancel_guard other t).0
  ends :
      {t : CancelTokens} (other : String)
      → Meanwhile call_id s t
      → other == call_id ≡ false
      → Meanwhile call_id s (drop_cancel_guard other t)
  cancels :
      {t : CancelTokens} (other : String)
      → Meanwhile call_id s t
      → other == call_id ≡ false
      → HasRoom t
      → Meanwhile call_id s (cancel_call other t).0

-- A token that is put in where there is room leaves those of other calls.
kept-insert :
    (cancelled : ℕ → Bool) (held : Option ℕ) (other call_id : String) (n : ℕ) (t : CancelTokens)
    → HasRoom t
    → other == call_id ≡ false
    → get call_id (evict_cancel_tokens cancelled held (insert other n t.tokens))
      ≡ get call_id t.tokens
kept-insert cancelled held other call_id n t h off =
    ap (get call_id) (evict-room cancelled held other n t h)
    ∙ get-insert other call_id n t.tokens
    ∙ rw off refl

Meanwhile-get :
    (call_id : String) (s t : CancelTokens)
    → Meanwhile call_id s t
    → get call_id t.tokens ≡ get call_id s.tokens
unfolding cancel_call cancel_guard drop_cancel_guard
Meanwhile-get call_id s _ here = refl
Meanwhile-get call_id s _ (starts {t} other m off h) =
    kept-insert (make_token t.next (is_cancelled_early other t) t.cancelled) (some t.next) other
      call_id t.next t h off
    ∙ Meanwhile-get call_id s t m
Meanwhile-get call_id s _ (ends {t} other m off) =
    get-remove other call_id t.tokens ∙ rw off (Meanwhile-get call_id s t m)
Meanwhile-get call_id s _ (cancels {t} other m off h) = elim (Option-cases (get other t.tokens)) [
  | inr (n, e) ↦ rw (e, cancel_call) (Meanwhile-get call_id s t m)
  | inl e ↦
      rw (e, cancel_call)
        (kept-insert (make_token t.next true t.cancelled) none other call_id t.next t h off
          ∙ Meanwhile-get call_id s t m)
]

-- A call that has started where there was room for its token can be cancelled for as long as other
-- calls start, end and are cancelled with room for their tokens: cancel_call finds its token and
-- returns true, and then this token is cancelled. Nothing is said of a router that is full, or of
-- a second call with the same ID.
pub cancel_guard-cancel_call :
    (call_id : String) (s t : CancelTokens)
    → HasRoom s
    → Meanwhile call_id (cancel_guard call_id s).0 t
    → ((cancel_call call_id t).1 ≡ true)
      × ((cancel_call call_id t).0.cancelled (cancel_guard call_id s).1 ≡ true)
unfolding cancel_guard
cancel_guard-cancel_call id s t h m =
    let e =
      evict-room (make_token s.next (is_cancelled_early id s) s.cancelled) (some s.next) id s.next s
        h in
    let g : get id (insert id s.next s.tokens) ≡ some s.next =
      get-insert id id s.next s.tokens ∙ rw (eq_refl id) refl in
    let there = Meanwhile-get id (cancel_guard id s).0 t m ∙ ap (get id) e ∙ g in
    let q = cancel_call_found t id s.next there in
    (ap (λ p. p.1) q, ap (λ p. p.0.cancelled s.next) q ∙ cancel_token_self s.next t.cancelled)
