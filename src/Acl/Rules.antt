-- ===== src/Acl/Rules.antt =====
-- Which entries of mcp.acl.rules are rules, and what they read as, for src/acl_builder.rs.
use apcore_mcp_rust.Prelude.{
  ℕ, String, ◌≡◌, refl, ap, ◌∙◌, subst, ◌⊎◌, inl, inr, true, not, Option, none, some, List, [], ◌∷◌,
  arith, ◌==◌, eq_iff, Bool-cases, Option-cases, is_empty, ◌<>◌, contains,
}
use apcore_mcp_rust.Json.{
  Value, null, bool, string, array, object, Fields, get, keys, as_object, is_null,
}
use apcore_mcp_rust.Prelude.Fallible.{ok, err, ok_unique, Fallible-cases, err-ne-ok, bind-eq-ok}
use apcore_mcp_rust.Acl.{
  ApprovalRequirement, required, not_required, AclRule, Printers, allowed_effects, keep_if,
  extra_keys, non_empty_list, Checked, read_effect, check_approval, check_conditions, read_approval,
  read_rule, rule_of, at_rule,
}
use apcore_mcp_rust.Acl.Shape.{
  IsApproval, missing, by_null, by_required, by_not_required, IsConditions, by_object, IsRule,
  ok_or-some, ensure-true, as_str-some, as_object-some, no_extra, effect-allowed, has_texts,
}

module _ (p : Printers) {L : Type 0} (try_new : List AclRule → String → Checked L) where
  read_effect-allowed :
      (idx : ℕ) (entry : Fields) (s : String)
      → read_effect p try_new idx entry ≡ ok s
      → (get "effect" entry ≡ some (string s)) × ((s ≡ "allow") ⊎ (s ≡ "deny"))
  unfolding read_effect
  read_effect-allowed idx entry s h =
      let (t, o, h') = bind-eq-ok _ _ h in
      let (u, y, d) = bind-eq-ok _ _ h' in
      let e : t ≡ s = ok_unique d in
      (
        as_str-some (get "effect" entry) s (ok_or-some _ _ t o ∙ ap some e),
        effect-allowed s (subst (λ t. contains allowed_effects t ≡ true) e (ensure-true _ _ u y)),
      )

  IsApproval-of :
      (idx : ℕ) (entry : Fields) (raw : Value) (a : Option ApprovalRequirement)
      → get "approval" entry ≡ some raw
      → read_approval p try_new idx entry ≡ ok a
      → IsApproval (get "approval" entry) a
  unfolding read_approval
  IsApproval-of idx entry null a e h =
      let q : none ≡ a = ok_unique (rw (e, read_approval) at h) in
      rw e (subst (IsApproval (some null)) q by_null)
  IsApproval-of idx entry (string s) a e h = elim (Bool-cases (s == "required")) [
    | inl y ↦
        let q : some required ≡ a = ok_unique (rw (e, y, read_approval) at h) in
        rw (e, (eq_iff s "required").0 y)
          (subst (IsApproval (some (string "required"))) q by_required)
    | inr n ↦ elim (Bool-cases (s == "not_required")) [
      | inl y ↦
          let q : some not_required ≡ a = ok_unique (rw (e, n, y, read_approval) at h) in
          rw (e, (eq_iff s "not_required").0 y)
            (subst (IsApproval (some (string "not_required"))) q by_not_required)
      | inr m ↦ absurd (ground (arith, e, n, m))
    ]
  ]
  IsApproval-of idx entry (bool b) a e h = absurd (ground (arith, e))
  IsApproval-of idx entry (Value.number n) a e h = absurd (ground (arith, e))
  IsApproval-of idx entry (array vs) a e h = absurd (ground (arith, e))
  IsApproval-of idx entry (object fs) a e h = absurd (ground (arith, e))

  read_approval-IsApproval :
      (idx : ℕ) (entry : Fields) (a : Option ApprovalRequirement)
      → read_approval p try_new idx entry ≡ ok a
      → IsApproval (get "approval" entry) a
  unfolding read_approval
  read_approval-IsApproval idx entry a h = elim (Option-cases (get "approval" entry)) [
    | inr (raw, e) ↦ IsApproval-of idx entry raw a e h
    | inl e ↦
        let q : none ≡ a = ok_unique (rw (e, read_approval) at h) in
        rw e (subst (IsApproval none) q missing)
  ]

  IsConditions-of :
      (idx : ℕ) (entry : Fields) (c : Value)
      → get "conditions" entry ≡ some c
      → (u : Unit {0}) → check_conditions p try_new idx entry ≡ ok u
      → IsConditions (some c) (keep_if (λ c. not (is_null c)) (some c))
  unfolding check_conditions
  IsConditions-of idx entry null e u h = by_null
  IsConditions-of idx entry (object fs) e u h = by_object fs
  IsConditions-of idx entry (bool b) e u h = absurd (ground (arith, e))
  IsConditions-of idx entry (Value.number n) e u h = absurd (ground (arith, e))
  IsConditions-of idx entry (string s) e u h = absurd (ground (arith, e))
  IsConditions-of idx entry (array vs) e u h = absurd (ground (arith, e))

  check_conditions-IsConditions :
      (idx : ℕ) (entry : Fields) (u : Unit {0})
      → check_conditions p try_new idx entry ≡ ok u
      → IsConditions
          (get "conditions" entry)
          (keep_if (λ c. not (is_null c)) (get "conditions" entry))
  check_conditions-IsConditions idx entry u h = elim (Option-cases (get "conditions" entry)) [
    | inl e ↦ rw e (IsConditions.missing)
    | inr (c, e) ↦ rw e (IsConditions-of idx entry c e u h)
  ]

  read_IsRule :
      (v : Value) (idx : ℕ) (entry : Fields) (effect : String)
      (approval : Option ApprovalRequirement) (cs ts : List Value)
      → as_object v ≡ some entry
      → is_empty (extra_keys entry) ≡ true
      → read_effect p try_new idx entry ≡ ok effect
      → read_approval p try_new idx entry ≡ ok approval
      → non_empty_list "callers" entry ≡ some cs
      → non_empty_list "targets" entry ≡ some ts
      → (w : Unit {0}) → check_conditions p try_new idx entry ≡ ok w
      → IsRule v (rule_of entry effect approval cs ts)
  read_IsRule v idx entry effect approval cs ts o k f q c t w d = record {
    entry = entry;
    is_object = as_object-some v entry o;
    known = no_extra (keys entry) k;
    effect = (read_effect-allowed idx entry effect f).0;
    allowed = (read_effect-allowed idx entry effect f).1;
    approval = read_approval-IsApproval idx entry approval q;
    callers = has_texts "callers" entry cs c;
    targets = has_texts "targets" entry ts t;
    description = refl;
    conditions = check_conditions-IsConditions idx entry w d;
  }

  tried :
      (idx : ℕ) (rule r : AclRule) (x : Checked L)
      → elim x [ err e ↦ err (at_rule p try_new idx (" " <> e)) | ok acl ↦ ok rule ] ≡ ok r
      → ((acl : L) × (x ≡ ok acl)) × (rule ≡ r)
  tried idx rule r (err e) h = absurd (err-ne-ok h)
  tried idx rule r (ok acl) h = ((acl, refl), ok_unique h)

  pub read_rule-IsRule :
      (default_effect : String) (idx : ℕ) (v : Value) (r : AclRule)
      → read_rule p try_new default_effect idx v ≡ ok r
      → IsRule v r × ((acl : L) × (try_new (r ∷ []) default_effect ≡ ok acl))
  unfolding read_rule
  read_rule-IsRule default_effect idx v r h = elim (Option-cases (as_object v)) [
    | inl o ↦ absurd (ground (arith, o))
    | inr (entry, o) ↦ elim (Bool-cases (is_empty (extra_keys entry))) [
      | inr k ↦ absurd (ground (arith, o, k))
      | inl k ↦ elim (Fallible-cases (read_effect p try_new idx entry)) [
        | inl (e, f) ↦ absurd (ground (arith, o, k, f))
        | inr (effect, f) ↦ elim (Fallible-cases (check_approval p try_new idx entry)) [
          | inl (e, a) ↦ absurd (ground (arith, o, k, f, a))
          | inr (u, a) ↦ elim (Option-cases (non_empty_list "callers" entry)) [
            | inl c ↦ absurd (ground (arith, o, k, f, a, c))
            | inr (cs, c) ↦ elim (Option-cases (non_empty_list "targets" entry)) [
              | inl t ↦ absurd (ground (arith, o, k, f, a, c, t))
              | inr (ts, t) ↦ elim (Fallible-cases (check_conditions p try_new idx entry)) [
                | inl (e, d) ↦ absurd (ground (arith, o, k, f, a, c, t, d))
                | inr (w, d) ↦ elim (Fallible-cases (read_approval p try_new idx entry)) [
                  | inl (e, q) ↦ absurd (ground (arith, o, k, f, a, c, t, d, q))
                  | inr (approval, q) ↦
                      let rule = rule_of entry effect approval cs ts in
                      let (accepted, same) =
                        tried idx rule r (try_new (rule ∷ []) default_effect)
                          (rw (o, k, f, a, c, t, d, q, read_rule) at h) in
                      subst
                        (λ r. IsRule v r × ((acl : L) × (try_new (r ∷ []) default_effect ≡ ok acl)))
                        same
                        (read_IsRule v idx entry effect approval cs ts o k f q c t w d, accepted)
                ]
              ]
            ]
          ]
        ]
      ]
    ]
  ]
