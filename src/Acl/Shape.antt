-- ===== src/Acl/Shape.antt =====
-- What an entry of mcp.acl.rules is to be, and the readers of its fields, for src/acl_builder.rs.
use apcore_mcp_rust.Prelude.{
  String, ◌≡◌, refl, sym, ap, subst, ◌⊎◌, inl, inr, Bool, true, false, not, Option, none, some,
  List, [], ◌∷◌, arith, ◌==◌, eq_iff, Bool-cases, some_unique, is_empty, All, contains,
}
use apcore_mcp_rust.Json.{
  Value, null, bool, string, array, object, Items, Fields, get, keys, items, as_str, as_array,
  as_object, and_then,
}
use apcore_mcp_rust.Prelude.Fallible.{ok, ok_or, ok_unique, err-ne-ok}
use apcore_mcp_rust.Acl.{
  ApprovalRequirement, required, not_required, AclRule, allowed_effects, allowed_rule_keys, keep_if,
  filter, texts, non_empty_list, ensure,
}

-- Under the key is a list with an entry, of which `list` has the texts.
abbrev pub HasTexts : String → Fields → List String → Type 0
HasTexts k entry list =
    (vs : Items) × (get k entry ≡ some (array vs))
    × (is_empty (items vs) ≡ false)
    × (list ≡ texts (items vs))

pub data IsApproval : Option Value → Option ApprovalRequirement → Type 0 where
  missing : IsApproval none none
  by_null : IsApproval (some null) none
  by_required : IsApproval (some (string "required")) (some required)
  by_not_required : IsApproval (some (string "not_required")) (some not_required)

pub data IsConditions : Option Value → Option Value → Type 0 where
  missing : IsConditions none none
  by_null : IsConditions (some null) none
  by_object : (fs : Fields) → IsConditions (some (object fs)) (some (object fs))

-- The entry is an object of the known keys, and the rule has its effect, approval, texts and
-- conditions.
pub record IsRule (v : Value) (rule : AclRule) : Type 0 where
  pub entry : Fields
  pub is_object : v ≡ object entry
  pub known : All (λ k. contains allowed_rule_keys k ≡ true) (keys entry)
  pub effect : get "effect" entry ≡ some (string rule.effect)
  pub allowed : (rule.effect ≡ "allow") ⊎ (rule.effect ≡ "deny")
  pub approval : IsApproval (get "approval" entry) rule.approval
  pub callers : HasTexts "callers" entry rule.callers
  pub targets : HasTexts "targets" entry rule.targets
  pub description : rule.description ≡ and_then (get "description" entry) as_str
  pub conditions : IsConditions (get "conditions" entry) rule.conditions

pub ok_or-some : {A : Type 0} (o : Option A) (e : String) (a : A) → ok_or o e ≡ ok a → o ≡ some a
ok_or-some none e a h = absurd (err-ne-ok h)
ok_or-some (some b) e a h = ap some (ok_unique h)

pub ensure-true : (b : Bool) (e : String) (u : Unit {0}) → ensure b e ≡ ok u → b ≡ true
ensure-true true e u h = refl
ensure-true false e u h = absurd (err-ne-ok h)

pub as_str-some : (o : Option Value) (s : String) → and_then o as_str ≡ some s → o ≡ some (string s)
as_str-some none s h = cc
as_str-some (some (string t)) s h = ap (λ t. some (string t)) (some_unique {o = some t} refl h)
as_str-some (some null) s h = cc
as_str-some (some (bool b)) s h = cc
as_str-some (some (Value.number n)) s h = cc
as_str-some (some (array vs)) s h = cc
as_str-some (some (object fs)) s h = cc

pub as_object-some : (v : Value) (m : Fields) → as_object v ≡ some m → v ≡ object m
as_object-some (object fs) m h = ap object (some_unique {o = some fs} refl h)
as_object-some null m h = cc
as_object-some (bool b) m h = cc
as_object-some (Value.number n) m h = cc
as_object-some (array vs) m h = cc
as_object-some (string s) m h = cc

pub no_extra :
    (ks : List String)
    → is_empty (filter (λ k. not (contains allowed_rule_keys k)) ks) ≡ true
    → All (λ k. contains allowed_rule_keys k ≡ true) ks
no_extra [] h = tt
no_extra (k ∷ ks) h = elim (Bool-cases (contains allowed_rule_keys k)) [
  | inl y ↦ (y, no_extra ks (rw y at h))
  | inr n ↦ absurd (cc (rw n at h))
]

pub effect-allowed : (s : String) → contains allowed_effects s ≡ true → (s ≡ "allow") ⊎ (s ≡ "deny")
effect-allowed s h = elim (Bool-cases ("allow" == s)) [
  | inl y ↦ inl (sym ((eq_iff "allow" s).0 y))
  | inr n ↦ elim (Bool-cases ("deny" == s)) [
    | inl y ↦ inr (sym ((eq_iff "deny" s).0 y))
    | inr m ↦ absurd (ground (arith, n, m))
  ]
]

pub keep_if-some :
    {A : Type 0} (p : A → Bool) (o : Option A) (a : A)
    → keep_if p o ≡ some a
    → (o ≡ some a) × (p a ≡ true)
keep_if-some p none a h = cc
keep_if-some p (some b) a h = elim (Bool-cases (p b)) [
  | inl y ↦
      let e : b ≡ a = some_unique {o = some b} refl (rw y at h) in
      (ap some e, subst (λ x. p x ≡ true) e y)
  | inr n ↦ absurd (ground (arith, n))
]

as_array-some :
    (o : Option Value) (vs : List Value)
    → and_then o as_array ≡ some vs
    → (xs : Items) × (o ≡ some (array xs)) × (items xs ≡ vs)
as_array-some none vs h = cc
as_array-some (some (array xs)) vs h = (xs, refl, some_unique {o = some (items xs)} refl h)
as_array-some (some null) vs h = cc
as_array-some (some (bool b)) vs h = cc
as_array-some (some (Value.number n)) vs h = cc
as_array-some (some (string s)) vs h = cc
as_array-some (some (object fs)) vs h = cc

is_empty-not : (vs : List Value) → not (is_empty vs) ≡ true → is_empty vs ≡ false
is_empty-not [] h = cc
is_empty-not (v ∷ vs) h = refl

pub has_texts :
    (k : String) (entry : Fields) (vs : List Value)
    → non_empty_list k entry ≡ some vs
    → HasTexts k entry (texts vs)
has_texts k entry vs h =
    let (e, n) = keep_if-some (λ vs. not (is_empty vs)) (and_then (get k entry) as_array) vs h in
    let (xs, o, i) = as_array-some (get k entry) vs e in
    (xs, o, subst (λ vs. is_empty vs ≡ false) (sym i) (is_empty-not vs n), ap texts (sym i))
