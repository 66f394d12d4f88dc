-- ===== src/Acl.antt =====
-- src/acl_builder.rs: the access control list that the configuration's section mcp.acl describes.
pub mod Shape
pub mod Rules
pub mod Built
mod Examples
use apcore_mcp_rust.Prelude.{
  ℕ, ◌+◌, String, Bool, true, false, not, ◌&&◌, ◌||◌, Option, none, some, List, [], ◌∷◌, ◌==◌,
  if◌then◌else◌, is_some, unwrap_or, is_empty, ◌<>◌, join, contains,
}
use apcore_mcp_rust.Json.{
  Value, null, bool, number, string, array, object, Fields, get, keys, contains_key, as_str,
  as_array, as_object, and_then, is_null,
}
use Prim.Native.Nat.{Ordering}
use Prim.Native.String.{compare}
use apcore_mcp_rust.Prelude.Fallible.{Fallible, ok, err, ◌>>=◌, ok_or}

-- apcore's `ApprovalRequirement` and `ACLRule`.
pub data ApprovalRequirement : Type 0 where
  required not_required : ApprovalRequirement

pub record AclRule : Type 0 where
  pub callers : List String
  pub targets : List String
  pub effect : String
  pub approval : Option ApprovalRequirement
  pub description : Option String
  pub conditions : Option Value

-- `{}` of a number, `{:?}` of a text and of a list of texts, `{}` of a JSON value.
pub record Printers : Type 0 where
  pub show : ℕ → String
  pub debug : String → String
  pub debug_list : List String → String
  pub print : Value → String

abbrev pub allowed_effects : List String
allowed_effects = "allow" ∷ "deny" ∷ []

abbrev pub allowed_rule_keys : List String
allowed_rule_keys =
    "callers" ∷ "targets" ∷ "effect" ∷ "approval" ∷ "description" ∷ "conditions" ∷ []

abbrev pub allowed_approvals : List String
allowed_approvals = "required" ∷ "not_required" ∷ []

abbrev pub value_type_name : Value → String
value_type_name null = "null"
value_type_name (bool b) = "bool"
value_type_name (number n) = "number"
value_type_name (string s) = "string"
value_type_name (array vs) = "array"
value_type_name (object fs) = "object"

-- `filter` of an option.
abbrev pub keep_if {ℓ} : {A : Type ℓ} → (A → Bool) → Option A → Option A
keep_if p none = none
keep_if p (some a) = if p a then some a else none

abbrev pub filter : (String → Bool) → List String → List String
filter p [] = []
filter p (s ∷ ss) = if p s then s ∷ filter p ss else filter p ss

-- `sort_unstable`
abbrev pub place : String → List String → List String
place s [] = s ∷ []
place s (t ∷ ts) = elim (compare s t) [
  | Ordering.lt ↦ s ∷ t ∷ ts
  | Ordering.eq ↦ s ∷ t ∷ ts
  | Ordering.gt ↦ t ∷ place s ts
]

abbrev pub sort : List String → List String
sort [] = []
sort (s ∷ ss) = place s (sort ss)

-- The texts of a list, without what is no text.
abbrev pub texts : List Value → List String
texts [] = []
texts (v ∷ vs) = elim (as_str v) [ none ↦ texts vs | some s ↦ s ∷ texts vs ]

abbrev pub extra_keys : Fields → List String
extra_keys entry = filter (λ k. not (contains allowed_rule_keys k)) (keys entry)

abbrev pub is_allowed_approval : Value → Bool
is_allowed_approval raw =
    is_null raw || (elim (as_str raw) [ none ↦ false | some s ↦ contains allowed_approvals s ])

abbrev pub non_empty_list : String → Fields → Option (List Value)
non_empty_list k entry = keep_if (λ vs. not (is_empty vs)) (and_then (get k entry) as_array)

abbrev pub Checked : Type 0 → Type 0
Checked A = Fallible String A

-- `Err(message)` where the test fails.
abbrev pub ensure : Bool → String → Checked (Unit {0})
ensure b message = if b then ok tt else err message

abbrev pub rule_of :
    Fields → String → Option ApprovalRequirement → List Value → List Value → AclRule
rule_of entry effect approval callers targets = record {
  callers = texts callers;
  targets = texts targets;
  effect = effect;
  approval = approval;
  description = and_then (get "description" entry) as_str;
  conditions = keep_if (λ c. not (is_null c)) (get "conditions" entry);
}

-- `ACL` and `ACL::try_new` of apcore, with its error as its text.
module _ (p : Printers) {Acl : Type 0} (try_new : List AclRule → String → Checked Acl) where
  abbrev pub at_rule : ℕ → String → String
  at_rule idx text = "mcp.acl.rules[" <> p.show idx <> "]" <> text

  abbrev pub approval_message : ℕ → Value → String
  approval_message idx raw = at_rule idx (
      " 'approval' must be one of "
      <> p.debug_list allowed_approvals
      <> " (or omitted), got "
      <> p.print raw)

  unfoldable pub read_effect : ℕ → Fields → Checked String
  read_effect idx entry = do
    effect ←
        ok_or (and_then (get "effect" entry) as_str)
          (at_rule idx " 'effect' must be 'allow' or 'deny'")
    checked ←
        ensure (contains allowed_effects effect)
          (at_rule idx (" 'effect' must be 'allow' or 'deny', got " <> p.debug effect))
    ok effect

  unfoldable pub check_approval : ℕ → Fields → Checked (Unit {0})
  check_approval idx entry = elim (get "approval" entry) [
    | none ↦ ok tt
    | some raw ↦ ensure (is_allowed_approval raw) (approval_message idx raw)
  ]

  unfoldable pub check_conditions : ℕ → Fields → Checked (Unit {0})
  check_conditions idx entry = elim (get "conditions" entry) [
    | none ↦ ok tt
    | some conds ↦
        ensure (is_null conds || is_some (as_object conds))
          (at_rule idx " 'conditions' must be an object or null")
  ]

  unfoldable pub read_approval : ℕ → Fields → Checked (Option ApprovalRequirement)
  read_approval idx entry = elim (get "approval" entry) [
    | none ↦ ok none
    | some raw ↦ if is_null raw then ok none else elim (as_str raw) [
      | none ↦ err (approval_message idx raw)
      | some s ↦
          if s == "required"
          then ok (some required)
          else if s == "not_required"
          then ok (some not_required)
          else err (approval_message idx raw)
    ]
  ]

  unfoldable pub read_rule : String → ℕ → Value → Checked AclRule
  unfolding read_effect check_approval check_conditions read_approval
  read_rule default_effect idx v = do
    entry ← ok_or (as_object v) (at_rule idx (" must be an object, got " <> value_type_name v))
    checked ←
        ensure (is_empty (extra_keys entry))
          (at_rule idx (" got unexpected keys: " <> join ", " (sort (extra_keys entry))))
    effect ← read_effect idx entry
    checked ← check_approval idx entry
    callers ←
        ok_or (non_empty_list "callers" entry) (at_rule idx " 'callers' must be a non-empty list")
    targets ←
        ok_or (non_empty_list "targets" entry) (at_rule idx " 'targets' must be a non-empty list")
    checked ← check_conditions idx entry
    approval ← read_approval idx entry
    let rule = rule_of entry effect approval callers targets
    elim (try_new (rule ∷ []) default_effect) [
      | err e ↦ err (at_rule idx (" " <> e))
      | ok acl ↦ ok rule
    ]

  -- The loop over the entries, from the index of the first.
  unfoldable pub read_rules : String → ℕ → List Value → Checked (List AclRule)
  unfolding read_rule
  read_rules default_effect idx [] = ok []
  read_rules default_effect idx (v ∷ vs) = do
    rule ← read_rule default_effect idx v
    rules ← read_rules default_effect (idx + 1) vs
    ok (rule ∷ rules)

  abbrev pub is_list : Option Value → Bool
  is_list none = true
  is_list (some v) = is_some (as_array v)

  abbrev pub entries : Fields → List Value
  entries obj = unwrap_or (and_then (get "rules" obj) as_array) []

  abbrev pub type_of : Option Value → String
  type_of none = ""
  type_of (some v) = value_type_name v

  abbrev pub default_of : Fields → String
  default_of obj = unwrap_or (and_then (get "default_effect" obj) as_str) "deny"

  unfoldable pub build_list : Fields → Checked (Option Acl)
  unfolding read_rules
  build_list obj = do
    let default_effect = default_of obj
    checked ←
        ensure (contains allowed_effects default_effect)
          ("mcp.acl.default_effect must be 'allow' or 'deny', got " <> p.debug default_effect)
    rules ← read_rules default_effect 0 (entries obj)
    elim (try_new rules default_effect) [ err e ↦ err ("mcp.acl: " <> e) | ok acl ↦ ok (some acl) ]

  unfoldable pub build_from : Fields → Checked (Option Acl)
  unfolding build_list
  build_from obj = do
    checked ←
        ensure (is_list (get "rules" obj))
          ("mcp.acl.rules must be a list, got " <> type_of (get "rules" obj))
    if is_empty (entries obj) && not (contains_key "default_effect" obj)
        then ok none
        else build_list obj

  unfoldable pub build_acl_from_config : Option Value → Checked (Option Acl)
  unfolding build_from
  build_acl_from_config none = ok none
  build_acl_from_config (some cfg) = if is_null cfg then ok none else do
    obj ← ok_or (as_object cfg) (
        "mcp.acl must be a mapping with 'rules' and optional 'default_effect', got "
        <> value_type_name cfg)
    build_from obj
