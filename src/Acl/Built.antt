-- ===== src/Acl/Built.antt =====
-- Which configurations src/acl_builder.rs takes, and what list they give.
use apcore_mcp_rust.Prelude.{
  ℕ, ◌+◌, String, ◌≡◌, refl, sym, ap, ◌∙◌, subst, ◌⊎◌, inl, inr, true, not, ◌&&◌, Option, none,
  some, List, [], ◌∷◌, arith, Bool-cases, Option-cases, some_unique, unwrap_or, is_empty, contains,
}
use apcore_mcp_rust.Json.{
  Value, null, bool, string, array, object, Items, nil, cons, Fields, get, contains_key, as_str,
  as_array, as_object, and_then, is_null,
}
use apcore_mcp_rust.Prelude.Fallible.{Fallible-cases, ok, ok_unique}
use apcore_mcp_rust.Acl.{
  AclRule, Printers, Checked, read_rule, read_rules, entries, is_list, default_of, build_list,
  build_from, build_acl_from_config, allowed_effects,
}
use apcore_mcp_rust.Acl.Shape.{IsRule, as_object-some, effect-allowed}
use apcore_mcp_rust.Acl.Rules.{read_rule-IsRule}

-- There is no section, it is null, or it sets nothing.
pub data IsUnset : Option Value → Type 0 where

module _ {L : Type 0} (try_new : List AclRule → String → Checked L) where
  -- One rule for each entry, in the order of the entries, which apcore takes on its own.
  pub data AreRules (default_effect : String) : List Value → List AclRule → Type 0 where
    no_rules : AreRules default_effect [] []
    one_more :
        {v : Value} {r : AclRule} {vs : List Value} {rs : List AclRule}
        → IsRule v r
        → (acl : L) × (try_new (r ∷ []) default_effect ≡ ok acl)
        → AreRules default_effect vs rs
        → AreRules default_effect (v ∷ vs) (r ∷ rs)

  -- The configuration is an object; its rules and its default effect make the list.
  pub record IsBuilt (cfg : Option Value) (acl : L) : Type 0 where
    pub obj : Fields
    pub default_effect : String
    pub rules : List AclRule
    pub is_object : cfg ≡ some (object obj)
    pub lists : (get "rules" obj ≡ none) ⊎ ((vs : Items) × (get "rules" obj ≡ some (array vs)))
    pub by_default : default_effect ≡ unwrap_or (and_then (get "default_effect" obj) as_str) "deny"
    pub allowed : (default_effect ≡ "allow") ⊎ (default_effect ≡ "deny")
    pub each : AreRules default_effect (unwrap_or (and_then (get "rules" obj) as_array) []) rules
    pub built : try_new rules default_effect ≡ ok acl

  module _ (p : Printers) where
    read_rules-AreRules :
        (d : String) (idx : ℕ) (vs : List Value) (rs : List AclRule)
        → read_rules p try_new d idx vs ≡ ok rs
        → AreRules d vs rs
    unfolding read_rules
    read_rules-AreRules d idx [] rs h = subst (AreRules d []) (ok_unique h) no_rules
    read_rules-AreRules d idx (v ∷ vs) rs h = elim (Fallible-cases (read_rule p try_new d idx v)) [
      | inl (e, a) ↦ absurd (ground (arith, a))
      | inr (r, a) ↦ elim (Fallible-cases (read_rules p try_new d (idx + 1) vs)) [
        | inl (e, b) ↦ absurd (ground (arith, a, b))
        | inr (rest, b) ↦
            let (rule, accepted) = read_rule-IsRule p try_new d idx v r a in
            subst (AreRules d (v ∷ vs)) (ok_unique (rw (a, b, read_rules) at h))
              (one_more rule accepted (read_rules-AreRules d (idx + 1) vs rest b))
      ]
    ]

    lists_of :
        (o : Option Value)
        → is_list p try_new o ≡ true
        → (o ≡ none) ⊎ ((vs : Items) × (o ≡ some (array vs)))
    lists_of none h = inl refl
    lists_of (some (array vs)) h = inr (vs, refl)
    lists_of (some null) h = cc
    lists_of (some (bool b)) h = cc
    lists_of (some (Value.number n)) h = cc
    lists_of (some (string s)) h = cc
    lists_of (some (object fs)) h = cc

    build_from-IsBuilt :
        (obj : Fields) (acl : L)
        → build_from p try_new obj ≡ ok (some acl)
        → IsBuilt (some (object obj)) acl
    unfolding build_from build_list
    build_from-IsBuilt obj acl h = elim (Bool-cases (is_list p try_new (get "rules" obj))) [
      | inr n ↦ absurd (ground (arith, n))
      | inl l ↦
          elim (Bool-cases
            (is_empty (entries p try_new obj) && not (contains_key "default_effect" obj))) [
              | inl n ↦ absurd (ground (arith, l, n))
              | inr c ↦ elim (Bool-cases (contains allowed_effects (default_of p try_new obj))) [
                | inr n ↦ absurd (ground (arith, l, c, n))
                | inl a ↦
                    elim (Fallible-cases
                      (read_rules p try_new (default_of p try_new obj) 0 (entries p try_new obj))) [
                        | inl (e, b) ↦ absurd (ground (arith, l, c, a, b))
                        | inr (rules, b) ↦
                            elim (Fallible-cases (try_new rules (default_of p try_new obj))) [
                              | inl (e, t) ↦ absurd (ground (arith, l, c, a, b, t))
                              | inr (acl', t) ↦ record {
                                obj = obj;
                                default_effect = default_of p try_new obj;
                                rules = rules;
                                is_object = refl;
                                lists = lists_of (get "rules" obj) l;
                                by_default = refl;
                                allowed = effect-allowed (default_of p try_new obj) a;
                                each =
                                    read_rules-AreRules (default_of p try_new obj) 0
                                      (entries p try_new obj) rules b;
                                built =
                                    t
                                    ∙ ap ok (
                                        some_unique {o = some acl'} refl (
                                          ok_unique
                                            (rw (l, c, a, b, t, build_from, build_list) at h)));
                              }
                            ]
                      ]
              ]
            ]
    ]

    -- An access control list is only built from an object whose "rules" are a list or missing and
    -- whose "default_effect", which is "deny" where it is no text, is "allow" or "deny"; apcore
    -- builds it from this effect and from one rule for each entry, in the order of the entries,
    -- each of which apcore has taken on its own. An entry is an object of known keys alone, and
    -- its rule has the entry's effect, "allow" or "deny", its approval, its conditions, its
    -- description and the texts among its callers and its targets, lists which are not empty.
    pub build_acl_from_config-IsBuilt :
        (cfg : Option Value) (acl : L)
        → build_acl_from_config p try_new cfg ≡ ok (some acl)
        → IsBuilt cfg acl
    unfolding build_acl_from_config
    build_acl_from_config-IsBuilt none acl h = cc
    build_acl_from_config-IsBuilt (some v) acl h = elim (Bool-cases (is_null v)) [
      | inl n ↦ absurd (ground (arith, n))
      | inr n ↦ elim (Option-cases (as_object v)) [
        | inl o ↦ absurd (ground (arith, n, o))
        | inr (obj, o) ↦
            subst (λ v. IsBuilt (some v) acl) (sym (as_object-some v obj o))
              (build_from-IsBuilt obj acl (rw (n, o, build_acl_from_config) at h))
      ]
    ]

    no_entries :
        (o : Option Value)
        → is_list p try_new o ≡ true
        → is_empty (unwrap_or (and_then o as_array) []) ≡ true
        → (o ≡ none) ⊎ (o ≡ some (array nil))
    no_entries none l h = inl refl
    no_entries (some (array nil)) l h = inr refl
    no_entries (some (array (cons v vs))) l h = cc
    no_entries (some null) l h = cc
    no_entries (some (bool b)) l h = cc
    no_entries (some (Value.number n)) l h = cc
    no_entries (some (string s)) l h = cc
    no_entries (some (object fs)) l h = cc
