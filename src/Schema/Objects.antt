-- ===== src/Schema/Objects.antt =====
-- Converted schemas of src/adapters/schema.rs as objects with a type.
use apcore_mcp_rust.Prelude.{
  ℕ, zero, suc, String, ◌≡◌, refl, sym, ap, ◌∙◌, ◌≢◌, inl, inr, true, false, not, ◌&&◌, none, some,
  List, ◌∷◌, arith, ◌==◌, eq_iff, Bool-cases, Option-cases, is_some, unwrap_or, contains,
}
use apcore_mcp_rust.Adapters.{schema_conversion, Result}
use apcore_mcp_rust.Prelude.Fallible.{ok, ok_or, ok_unique, err-ne-ok, bind-eq-ok}
use apcore_mcp_rust.Json.{
  Value, string, object, Fields, end, field, get, insert, contains_key, as_str, get_key, get-insert,
}
use apcore_mcp_rust.Schema.{
  resolve_ref, inline_fields, inline_refs, is_single, base_of, is_object, merge, names_object,
  ensure_object_type,
}

resolve_ref-no_defs : (path : String) (r : Value) → resolve_ref path (object end) ≡ ok r → ⊥
unfolding resolve_ref get
resolve_ref-no_defs path r e = ground arith

-- An object that is not a lone reference is inlined to an object.
merge-object :
    (inline : Value → Result Value) (m : Fields) (inlined w : Value)
    → is_single m ≡ false
    → merge inline m inlined ≡ ok w
    → (out : Fields) × (w ≡ object out)
merge-object inline m inlined w s e = elim (Bool-cases (not (is_object inlined) && is_single m)) [
  | inl y ↦ absurd (ground arith)
  | inr off ↦
      let (result, f, done) =
        bind-eq-ok (inline_fields inline "$ref" m (base_of inlined)) _ (rw off at e) in
      (result, sym (ok_unique done))
]

module _ (defs : Value) where
  pub inline_refs-object :
      (room : ℕ) (seen : List String) (m : Fields) (w : Value)
      → (is_single m ≡ true → get "$ref" m ≢ none → defs ≡ object end)
      → inline_refs defs room seen (object m) ≡ ok w
      → (out : Fields) × (w ≡ object out)
  unfolding inline_refs
  inline_refs-object zero seen m w lone e = absurd (err-ne-ok e)
  inline_refs-object (suc room) seen m w lone e = elim (Option-cases (get "$ref" m)) [
    | inl missing ↦
        let (result, f, done) =
          bind-eq-ok (inline_fields (inline_refs defs room seen) "$defs" m end) _
            (rw (missing, inline_refs) at e) in
        (result, sym (ok_unique done))
    | inr (ref_val, found) ↦
        let (path, p, rest) =
          bind-eq-ok (ok_or (as_str ref_val) (schema_conversion "$ref value must be a string")) _
            (rw (found, inline_refs) at e) in
        elim (Bool-cases (contains seen path)) [
          | inl y ↦ absurd (err-ne-ok (rw y at rest))
          | inr off ↦
              let (resolved, r, rest') = bind-eq-ok (resolve_ref path defs) _ (rw off at rest) in
              let (inlined, i, rest'') =
                bind-eq-ok (inline_refs defs room (path ∷ seen) resolved) _ rest' in
              elim (Bool-cases (is_single m)) [
                | inr several ↦ merge-object (inline_refs defs room seen) m inlined w several rest''
                | inl single ↦
                    let blank : defs ≡ object end = lone single (λ n. ground arith) in
                    absurd
                      (resolve_ref-no_defs path resolved (ap (resolve_ref path) (sym blank) ∙ r))
              ]
        ]
  ]

lone_key : (k : String) (v : Value) → get "$ref" (field k v end) ≢ none → k ≡ "$ref"
unfolding get
lone_key k v n = elim (Bool-cases (k == "$ref")) [
  | inl y ↦ (eq_iff k "$ref").0 y
  | inr off ↦ absurd (n (rw off refl))
]

-- A lone key that is the reference leaves no definitions.
pub single-no_defs :
    (m : Fields)
    → is_single m ≡ true
    → get "$ref" m ≢ none
    → unwrap_or (get_key "$defs" (object m)) (object end) ≡ object end
unfolding get_key get
single-no_defs end s n = refl
single-no_defs (field k v end) s n = rw (lone_key k v n) refl
single-no_defs (field k v (field j w fs)) s n = absurd (ground arith)

-- An object schema that has a type, and an object's type if it has properties.
abbrev pub IsTyped : Fields → Type 0
IsTyped fs =
    (contains_key "type" fs ≡ true)
    × (contains_key "properties" fs ≡ true
        → (t : Value) × (get "type" fs ≡ some t) × (names_object t ≡ true))

IsTyped-insert : (m : Fields) → IsTyped (insert "type" (string "object") m)
unfolding contains_key
IsTyped-insert m =
    let typed = get-insert "type" "type" (string "object") m in
    (ground (arith, typed), λ h. (string "object", ground (arith, typed), refl))

pub ensure_object_type-IsTyped :
    (m : Fields) → (out : Fields) × (ensure_object_type (object m) ≡ object out) × IsTyped out
unfolding ensure_object_type contains_key
ensure_object_type-IsTyped m = elim (Option-cases (get "type" m)) [
  | inl e ↦ (insert "type" (string "object") m, rw (e, ensure_object_type) refl, IsTyped-insert m)
  | inr (t, e) ↦ elim (Bool-cases (is_some (get "properties" m) && not (names_object t))) [
    | inl y ↦ (
      insert "type" (string "object") m,
      rw (e, ensure_object_type) (rw y refl),
      IsTyped-insert m,
    )
    | inr off ↦
        (m, rw (e, ensure_object_type) (rw off refl), (ground arith, λ h. (t, e, ground arith)))
  ]
]
