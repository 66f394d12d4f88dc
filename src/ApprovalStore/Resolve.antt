-- ===== src/ApprovalStore/Resolve.antt =====
-- resolve and get_result of src/approval_store.rs.
use apcore_mcp_rust.Prelude.{
  ℕ, String, ◌≡◌, refl, ◌↔◌, inl, inr, Bool, true, Option, some, arith, ◌==◌, if◌then◌else◌,
  Option-cases,
}
use apcore_mcp_rust.Prelude.Map.{get, get-insert}
use apcore_mcp_rust.ApprovalStore.{
  ApprovalStatus, pending, ApprovalRecord, Store, is_pending, decided, resolved, snapshot,
  get_result, resolve,
}

eq-pending : (s : ApprovalStatus) → is_pending s ≡ true → s ≡ pending
eq-pending pending h = refl
eq-pending _ h = cc

module _ (now : ℕ) (id : String) (b : Bool) (reason : Option String) (s : Store) where
  -- `resolve` returns true exactly where the ID reads as pending.
  pub resolve-eq-true_iff :
      ((resolve now id b reason s).1 ≡ true)
      ↔ ((r : ApprovalRecord) × (get_result id s ≡ some r) × (r.status ≡ pending))
  unfolding resolve get_result
  resolve-eq-true_iff = elim (Option-cases (get id s.records)) [
    | inl e ↦ (λ h. absurd (ground arith), λ (r, g, p). absurd (ground arith))
    | inr (r, e) ↦ (
      λ h. (snapshot r, ground arith, eq-pending r.status (ground arith)),
      λ (q, g, p). ground arith,
    )
  ]

  -- A call of `resolve` that returns true changes what is read of the given ID alone: its status is
  -- the decision and its reason the one given, and the module stays.
  pub get_result-resolve :
      (r : ApprovalRecord) (j : String)
      → get_result id s ≡ some r
      → r.status ≡ pending
      → get_result j (resolve now id b reason s).0 ≡ (
          if id == j
          then some (record { status = decided b; module_id = r.module_id; reason = reason })
          else get_result j s)
  unfolding resolve get_result
  get_result-resolve r j g p = elim (Option-cases (get id s.records)) [
    | inl e ↦ absurd (ground arith)
    | inr (q, e) ↦ ground (arith, get-insert id j (resolved now b reason q) s.records)
  ]
