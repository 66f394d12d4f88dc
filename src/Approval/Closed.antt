-- ===== src/Approval/Closed.antt =====
-- When the elicitation handler of src/adapters/approval.rs approves.
use apcore_mcp_rust.Prelude.{
  ℕ, String, ◌≡◌, refl, sym, ap, ◌∙◌, subst, ◌≢◌, ◌↔◌, ◌⊎◌, inl, inr, Bool, true, false, not,
  Option, none, some, arith, eq_iff, eqb, Bool-cases, Option-cases, some_unique, OnSome, is_blank,
}
use apcore_mcp_rust.Json.{
  Number, Value, null, bool, number, string, array, object, get_key, and_then,
}
use apcore_mcp_rust.Prelude.Map.{Map}
use apcore_mcp_rust.Approval.{ApprovalRequest, ApprovalResult}
use apcore_mcp_rust.Approval.Elicitation.{
  ElicitAction, accept, decline, cancel, unknown, ElicitResult, Answer, panicked, returned,
  ElicitCallback, approval_schema, rejected, approved, approval_message, approve_truthiness,
  consents, judge, resolve_callback, request_approval,
}

-- The texts of the two decisions differ.
differ : ◌≡◌ {A = String} "rejected" "approved" → ⊥
differ e = cc ((eq_iff "rejected" "approved").1 e)

-- The values of the form's field "approve" that say yes: true, a number other than zero, and a text
-- that is not empty.
pub data SaysYes : Value → Type 0 where
  yes : SaysYes (bool true)
  positive : {n : ℕ} → n ≢ 0 → SaysYes (number (Number.pos_int n))
  negative : {n : ℕ} → SaysYes (number (Number.neg_int n))
  fraction : {text : String} → SaysYes (number (Number.float text false))
  filled : {s : String} → s ≢ "" → SaysYes (string s)

-- The answer is "accept", and if its content has the field "approve" then that says yes.
abbrev pub Agrees : ElicitResult → Type 0
Agrees r = (r.action ≡ accept) × OnSome SaysYes (and_then r.content (get_key "approve"))

filled_iff : (s : String) → not (is_blank s) ≡ true ↔ (s ≢ "")
filled_iff s = ((λ h. ground (arith, h, eq_iff s "")), λ n. ground (arith, n, eq_iff s ""))

nonzero_iff : (n : ℕ) → not (eqb n 0) ≡ true ↔ (n ≢ 0)
nonzero_iff n = ((λ h. ground arith), λ k. ground arith)

SaysYes-approve_truthiness : {v : Value} → SaysYes v → approve_truthiness v ≡ true
unfolding approve_truthiness
SaysYes-approve_truthiness yes = refl
SaysYes-approve_truthiness (positive {n} k) = (nonzero_iff n).1 k
SaysYes-approve_truthiness negative = refl
SaysYes-approve_truthiness fraction = refl
SaysYes-approve_truthiness (filled {s} k) = (filled_iff s).1 k

approve_truthiness-SaysYes : (v : Value) → approve_truthiness v ≡ true → SaysYes v
unfolding approve_truthiness
approve_truthiness-SaysYes (bool true) h = yes
approve_truthiness-SaysYes (bool false) h = cc
approve_truthiness-SaysYes null h = cc
approve_truthiness-SaysYes (number (Number.pos_int n)) h = positive ((nonzero_iff n).0 h)
approve_truthiness-SaysYes (number (Number.neg_int n)) h = negative
approve_truthiness-SaysYes (number (Number.float text true)) h = cc
approve_truthiness-SaysYes (number (Number.float text false)) h = fraction
approve_truthiness-SaysYes (string s) h = filled ((filled_iff s).0 h)
approve_truthiness-SaysYes (array vs) h = cc
approve_truthiness-SaysYes (object fs) h = cc

consents-SaysYes :
    (content : Option Value)
    → consents content ≡ true ↔ OnSome SaysYes (and_then content (get_key "approve"))
unfolding consents
consents-SaysYes content = elim (Option-cases (and_then content (get_key "approve"))) [
  | inl e ↦ rw (e, consents) ((λ h. tt), λ u. refl)
  | inr (v, e) ↦ rw (e, consents) (approve_truthiness-SaysYes v, SaysYes-approve_truthiness)
]

abbrev pub Decided : ApprovalResult → Type 0
Decided result = (result.status ≡ "approved") ⊎ (result.status ≡ "rejected")

same-of-returned : (q r : ElicitResult) → returned (some r) ≡ returned (some q) → q ≡ r
same-of-returned q r e = sym (cc)

absurd_true : (b : Bool) → b ≡ false → b ≡ true → ⊥
absurd_true b n y = ground arith

module _ (default : ApprovalResult) where
  accepted_iff :
      (r : ElicitResult) (a : ElicitAction)
      → r.action ≡ a
      → ((judge default (returned (some r))).status ≡ "approved") ↔ Agrees r
  unfolding judge rejected approved
  accepted_iff r accept e = elim (Bool-cases (consents r.content)) [
    | inl y ↦ (λ h. (e, (consents-SaysYes r.content).0 y), λ h. ground arith)
    | inr n ↦ (
      λ h. absurd (differ (sym (ground arith) ∙ h)),
      λ (_, h). absurd (absurd_true (consents r.content) n ((consents-SaysYes r.content).1 h)),
    )
  ]
  accepted_iff r decline e = (λ h. absurd (differ (sym (ground arith) ∙ h)), λ (h, _). cc)
  accepted_iff r cancel e = (λ h. absurd (differ (sym (ground arith) ∙ h)), λ (h, _). cc)
  accepted_iff r (unknown raw) e = (λ h. absurd (differ (sym (ground arith) ∙ h)), λ (h, _). cc)

  judge-Decided : (a : Answer) → Decided (judge default a)
  unfolding judge rejected approved
  judge-Decided panicked = inr refl
  judge-Decided (returned none) = inr refl
  judge-Decided (returned (some r)) = ground arith

  judge-approved_iff :
      (a : Answer)
      → ((judge default a).status ≡ "approved")
        ↔ ((r : ElicitResult) × (a ≡ returned (some r)) × Agrees r)
  unfolding judge rejected
  judge-approved_iff panicked = (λ e. absurd (differ e), λ (r, e, _). cc)
  judge-approved_iff (returned none) = (λ e. absurd (differ e), λ (r, e, _). cc)
  judge-approved_iff (returned (some r)) = (
    λ h. (r, refl, (accepted_iff r r.action refl).0 h),
    λ (q, e, h). (accepted_iff r r.action refl).1 (subst Agrees (same-of-returned q r e) h),
  )

  module _ (print : Value → String) (registry : Map ElicitCallback) (own : Option ElicitCallback)
      (request : ApprovalRequest) where
    no_context :
        request.context ≡ none
        → request_approval default print registry own request
          ≡ rejected default "No context available for elicitation"
    unfolding request_approval
    no_context e = ground arith

    no_callback :
        (context : Map Value)
        → request.context ≡ some context
        → resolve_callback registry own context ≡ none
        → request_approval default print registry own request
          ≡ rejected default "No elicitation callback available"
    unfolding request_approval
    no_callback context e f = ground arith

    asked :
        (context : Map Value) (elicit : ElicitCallback)
        → request.context ≡ some context
        → resolve_callback registry own context ≡ some elicit
        → request_approval default print registry own request
          ≡ judge default (elicit (approval_message print request) (some approval_schema))
    unfolding request_approval
    asked context elicit e f = ground arith

    refused_iff :
        {P : Type 0} (why : String) (result : ApprovalResult)
        → result ≡ rejected default why
        → (P → ⊥)
        → ((result.status ≡ "approved") ↔ P) × Decided result
    unfolding rejected
    refused_iff why result e n =
        let status = ap (λ (x : ApprovalResult). x.status) e in
        ((λ h. absurd (differ (sym status ∙ h)), λ p. absurd (n p)), inr status)

    -- A request is approved exactly where it has a context, a callback is found, and the client's
    -- answer is "accept" with a content that has no field "approve", or has true, a number other
    -- than zero or a text that is not empty there; otherwise its status is "rejected".
    pub request_approval-approved_iff :
        (((request_approval default print registry own request).status ≡ "approved") ↔ (
          (context : Map Value) × (elicit : ElicitCallback) × (r : ElicitResult) × (request.context
            ≡ some context)
          × (resolve_callback registry own context ≡ some elicit)
          × (elicit (approval_message print request) (some approval_schema) ≡ returned (some r))
          × Agrees r))
        × Decided (request_approval default print registry own request)
    request_approval-approved_iff = elim (Option-cases request.context) [
      | inl e ↦ refused_iff _ _ (no_context e) (λ (c, cb, r, e', _, _, _). cc)
      | inr (context, e) ↦ elim (Option-cases (resolve_callback registry own context)) [
        | inl f ↦
            refused_iff _ _ (no_callback context e f) (λ (c, cb, r, e', f', _, _).
              cc (ap (resolve_callback registry own) (some_unique e e')))
        | inr (elicit, f) ↦
            let (to, from) =
              judge-approved_iff (elicit (approval_message print request) (some approval_schema)) in
            let status = ap (λ (x : ApprovalResult). x.status) (asked context elicit e f) in
            (
              (
                λ h. let (r, a, g) = to (sym status ∙ h) in (context, elicit, r, e, f, a, g),
                λ (c, cb, r, e', f', a, g).
                    let cb_eq : cb ≡ elicit =
                      some_unique f' (ap (resolve_callback registry own) (some_unique e' e) ∙ f) in
                    status
                    ∙ from (
                      r,
                      ap
                            (λ (k : ElicitCallback).
                              k (approval_message print request) (some approval_schema))
                            (sym cb_eq)
                          ∙ a,
                      g,
                    ),
              ),
              subst Decided (sym (asked context elicit e f)) (judge-Decided _),
            )
      ]
    ]
