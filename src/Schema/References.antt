-- ===== src/Schema/References.antt =====
-- References in what inline_refs of src/adapters/schema.rs returns.
use apcore_mcp_rust.Prelude.{
  ℕ, zero, suc, String, ◌≡◌, subst, ◌≢◌, inl, inr, false, not, ◌&&◌, none, List, ◌∷◌, arith, ◌==◌,
  eq_iff, Bool-cases, Option-cases, contains,
}
use apcore_mcp_rust.Adapters.{Result}
use apcore_mcp_rust.Prelude.Fallible.{ok, ok_or, ok_unique, err-ne-ok, bind-eq-ok}
use apcore_mcp_rust.Json.{
  Value, null, bool, string, array, object, Items, nil, cons, Fields, end, field, get, insert,
  as_str,
}
use apcore_mcp_rust.Schema.{
  resolve_ref, inline_fields, inline_items, inline_refs, is_single, base_of, is_object, merge,
}

unfoldable mutual
  pub NoRefs : Value → Type 0
  NoRefs (object fs) = NoRefsFields fs
  NoRefs (array vs) = NoRefsItems vs
  NoRefs null = Unit {0}
  NoRefs (bool b) = Unit {0}
  NoRefs (Value.number n) = Unit {0}
  NoRefs (string s) = Unit {0}

  pub NoRefsItems : Items → Type 0
  NoRefsItems nil = Unit {0}
  NoRefsItems (cons v vs) = NoRefs v × NoRefsItems vs

  pub NoRefsFields : Fields → Type 0
  NoRefsFields end = Unit {0}
  NoRefsFields (field k v fs) = (k ≢ "$ref") × NoRefs v × NoRefsFields fs

pub NoRefs-insert :
    (k : String) (v : Value) (fs : Fields)
    → k ≢ "$ref"
    → NoRefs v
    → NoRefsFields fs
    → NoRefsFields (insert k v fs)
unfolding NoRefs insert
NoRefs-insert k v end n h g = (n, h, tt)
NoRefs-insert k v (field j w fs) n h (m, hw, g) = ground (arith, NoRefs-insert k v fs n h g)

-- The keys that the loop visits are no references.
abbrev Visits : String → Fields → Type 0
Visits skipped end = Unit {0}
Visits skipped (field k v fs) = ((k == skipped) ≡ false → k ≢ "$ref") × Visits skipped fs

Visits-ref : (fs : Fields) → Visits "$ref" fs
Visits-ref end = tt
Visits-ref (field k v fs) = (λ n e. ground (arith, eq_iff k "$ref"), Visits-ref fs)

Visits-no_ref : (fs : Fields) → get "$ref" fs ≡ none → Visits "$defs" fs
unfolding get
Visits-no_ref end e = tt
Visits-no_ref (field k v fs) e =
    (λ n h. ground (arith, eq_iff k "$ref"), Visits-no_ref fs (ground arith))

base_of-NoRefs : (v : Value) → NoRefs v → NoRefsFields (base_of v)
unfolding NoRefs
base_of-NoRefs (object m) h = h
base_of-NoRefs _ h = tt

module _ (inline : Value → Result Value) (sound : (v w : Value) → inline v ≡ ok w → NoRefs w) where
  inline_fields-NoRefs :
      (skipped : String) (fs result : Fields) (out : Fields)
      → Visits skipped fs
      → NoRefsFields result
      → inline_fields inline skipped fs result ≡ ok out
      → NoRefsFields out
  unfolding inline_fields
  inline_fields-NoRefs skipped end result out h g e = subst NoRefsFields (ok_unique e) g
  inline_fields-NoRefs skipped (field k v fs) result out (n, h) g e =
      elim (Bool-cases (k == skipped)) [
        | inl y ↦ inline_fields-NoRefs skipped fs result out h g (rw y at e)
        | inr off ↦
            let (w, f, rest) = bind-eq-ok (inline v) _ (rw off at e) in
            inline_fields-NoRefs skipped fs (insert k w result) out h
              (NoRefs-insert k w result (n off) (sound v w f) g) rest
      ]

  inline_items-NoRefs : (vs out : Items) → inline_items inline vs ≡ ok out → NoRefsItems out
  unfolding inline_items NoRefs
  inline_items-NoRefs nil out e = subst NoRefsItems (ok_unique e) tt
  inline_items-NoRefs (cons v vs) out e =
      let (w, f, rest) = bind-eq-ok (inline v) _ e in
      let (ws, g, done) = bind-eq-ok (inline_items inline vs) _ rest in
      subst NoRefsItems (ok_unique done) (sound v w f, inline_items-NoRefs vs ws g)

  merge-NoRefs :
      (m : Fields) (inlined w : Value) → NoRefs inlined → merge inline m inlined ≡ ok w → NoRefs w
  unfolding NoRefs
  merge-NoRefs m inlined w h e = elim (Bool-cases (not (is_object inlined) && is_single m)) [
    | inl y ↦ subst NoRefs (ok_unique (rw y at e)) h
    | inr off ↦
        let (result, f, done) =
          bind-eq-ok (inline_fields inline "$ref" m (base_of inlined)) _ (rw off at e) in
        subst NoRefs (ok_unique done) (
          inline_fields-NoRefs "$ref" m (base_of inlined) result (Visits-ref m)
            (base_of-NoRefs inlined h) f)
  ]

module _ (defs : Value) where
  -- Inlining leaves no reference: no object of the result, at any depth, has a key "$ref".
  pub inline_refs-NoRefs :
      (room : ℕ) (seen : List String) (v w : Value) → inline_refs defs room seen v ≡ ok w → NoRefs w
  unfolding inline_refs NoRefs
  inline_refs-NoRefs zero seen v w e = cc
  inline_refs-NoRefs (suc room) seen null w e = subst NoRefs (ok_unique e) tt
  inline_refs-NoRefs (suc room) seen (bool b) w e = subst NoRefs (ok_unique e) tt
  inline_refs-NoRefs (suc room) seen (Value.number n) w e = subst NoRefs (ok_unique e) tt
  inline_refs-NoRefs (suc room) seen (string s) w e = subst NoRefs (ok_unique e) tt
  inline_refs-NoRefs (suc room) seen (array vs) w e =
      let (ws, f, done) = bind-eq-ok (inline_items (inline_refs defs room seen) vs) _ e in
      subst NoRefs (ok_unique done)
        (inline_items-NoRefs (inline_refs defs room seen) (inline_refs-NoRefs room seen) vs ws f)
  inline_refs-NoRefs (suc room) seen (object m) w e = elim (Option-cases (get "$ref" m)) [
    | inl missing ↦
        let (result, f, done) =
          bind-eq-ok (inline_fields (inline_refs defs room seen) "$defs" m end) _
            (rw (missing, inline_refs) at e) in
        subst NoRefs (ok_unique done) (
          inline_fields-NoRefs (inline_refs defs room seen) (inline_refs-NoRefs room seen) "$defs" m
            end result (Visits-no_ref m missing) tt f)
    | inr (ref_val, found) ↦
        let (path, p, rest) =
          bind-eq-ok (ok_or (as_str ref_val) _) _ (rw (found, inline_refs) at e) in
        elim (Bool-cases (contains seen path)) [
          | inl y ↦ absurd (err-ne-ok (rw y at rest))
          | inr off ↦
              let (resolved, r, rest') = bind-eq-ok (resolve_ref path defs) _ (rw off at rest) in
              let (inlined, i, rest'') =
                bind-eq-ok (inline_refs defs room (path ∷ seen) resolved) _ rest' in
              merge-NoRefs (inline_refs defs room seen) (inline_refs-NoRefs room seen) m inlined w
                (inline_refs-NoRefs room (path ∷ seen) resolved inlined i) rest''
        ]
  ]
