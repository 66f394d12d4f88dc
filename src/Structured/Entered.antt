-- ===== src/Structured/Entered.antt =====
-- What the body of the loop of src/server/schema_references.rs finds in one schema.
use apcore_mcp_rust.Prelude.{
  ℕ, String, ◌≡◌, refl, sym, ap, ◌∙◌, subst, ◌↔◌, inl, inr, true, some, List, [], ◌∷◌, map, arith,
  eqb, if◌then◌else◌, Option-cases, some_unique, OnSome,
}
use apcore_mcp_rust.Json.{Value, get_str}
use apcore_mcp_rust.Structured.Decimal.{and_then-eq-some, when_some}
use apcore_mcp_rust.Structured.References.{
  Draft, draft4, draft6, draft7, draft201909, draft202012, number_of, same_draft, Referencing,
  Pending, all_found, reference_keywords, enter, parts_inside, leave, visit,
}

draft_at : ℕ → Draft
draft_at n =
    if eqb n 4
    then draft4
    else if eqb n 6
    then draft6
    else if eqb n 7
    then draft7
    else if eqb n 8
    then draft201909
    else draft202012

draft_at-number_of : (d : Draft) → draft_at (number_of d) ≡ d
unfolding draft_at
draft_at-number_of draft4 = refl
draft_at-number_of draft6 = refl
draft_at-number_of draft7 = refl
draft_at-number_of draft201909 = refl
draft_at-number_of draft202012 = refl

eqb-eq : (m n : ℕ) → eqb m n ≡ true → m ≡ n
eqb-eq m n h = ground arith

same_draft-eq : (d e : Draft) → same_draft d e ≡ true → d ≡ e
same_draft-eq d e h =
    sym (draft_at-number_of d)
    ∙ ap draft_at (eqb-eq (number_of d) (number_of e) h)
    ∙ draft_at-number_of e

eqb_self : (n : ℕ) → eqb n n ≡ true
eqb_self n = ground arith

same_draft_refl : (d : Draft) → same_draft d d ≡ true
same_draft_refl d = eqb_self (number_of d)

module _ {Resolver : Type 0} (crate : Referencing Resolver) where
  -- The keyword, if it is there with a text, refers to something that is found.
  abbrev pub Found : String → Value → Resolver → Type 0
  Found keyword schema inner = OnSome (λ r. crate.lookup r inner ≡ true) (get_str keyword schema)

  -- The keyword for references that the dialect has besides "$ref".
  abbrev pub OtherFound : Draft → Value → Resolver → Type 0
  OtherFound draft202012 schema inner = Found "$dynamicRef" schema inner
  OtherFound draft201909 schema inner = Found "$recursiveRef" schema inner
  OtherFound _ schema inner = Unit

  -- The schema is of the dialect, its references are found where it stands, and these are the
  -- schemas inside it.
  abbrev pub IsEntered : Pending crate → List (Pending crate) → Draft → Type 0
  IsEntered (schema, resolver, parent) children draft =
      (inner : Resolver) × (crate.detect parent schema ≡ some draft)
      × (crate.in_subresource draft schema resolver ≡ some inner)
      × (Found "$ref" schema inner × OtherFound draft schema inner)
      × (children ≡ map (λ child. (child, inner, draft)) (crate.subresources_of draft schema))

  all_found-cons :
      (k : String) (ks : List String) (schema : Value) (inner : Resolver)
      → all_found crate (k ∷ ks) schema inner ≡ true
        ↔ (Found k schema inner × (all_found crate ks schema inner ≡ true))
  unfolding all_found
  all_found-cons k ks schema inner = elim (Option-cases (get_str k schema)) [
    | inl e ↦ rw (e, all_found) ((λ h. (tt, h)), λ (u, h). h)
    | inr (r, e) ↦ rw (e, all_found) ((λ h. ground arith), λ (f, h). ground arith)
  ]

  all_found_nil : (schema : Value) (inner : Resolver) → all_found crate [] schema inner ≡ true
  unfolding all_found
  all_found_nil schema inner = refl

  one_keyword :
      (k : String) (schema : Value) (inner : Resolver)
      → all_found crate (k ∷ []) schema inner ≡ true ↔ Found k schema inner
  one_keyword k schema inner =
      let (to, from) = all_found-cons k [] schema inner in
      ((λ h. (to h).0), λ f. from (f, all_found_nil schema inner))

  only_ref :
      (schema : Value) (inner : Resolver)
      → all_found crate ("$ref" ∷ []) schema inner ≡ true ↔ (Found "$ref" schema inner × Unit {0})
  only_ref schema inner =
      let (to, from) = one_keyword "$ref" schema inner in ((λ h. (to h, tt)), λ (f, u). from f)

  two_keywords :
      (k l : String) (schema : Value) (inner : Resolver)
      → all_found crate (k ∷ l ∷ []) schema inner ≡ true
        ↔ (Found k schema inner × Found l schema inner)
  two_keywords k l schema inner =
      let (to, from) = all_found-cons k (l ∷ []) schema inner in
      let (to', from') = one_keyword l schema inner in
      ((λ h. ((to h).0, to' (to h).1)), λ (f, g). from (f, from' g))

  reference_keywords-Found :
      (draft : Draft) (schema : Value) (inner : Resolver)
      → all_found crate (reference_keywords draft) schema inner ≡ true
        ↔ (Found "$ref" schema inner × OtherFound draft schema inner)
  reference_keywords-Found draft202012 schema inner = two_keywords "$ref" "$dynamicRef" schema inner
  reference_keywords-Found draft201909 schema inner =
      two_keywords "$ref" "$recursiveRef" schema inner
  reference_keywords-Found draft4 schema inner = only_ref schema inner
  reference_keywords-Found draft6 schema inner = only_ref schema inner
  reference_keywords-Found draft7 schema inner = only_ref schema inner

  pub visit-IsEntered :
      (p : Pending crate) (children : List (Pending crate))
      → visit crate p ≡ some children
      → IsEntered p children p.2
  unfolding visit
  visit-IsEntered (schema, resolver, parent) children h =
      let (draft, e, h1) = and_then-eq-some (crate.detect parent schema) _ children h in
      let (inner, e', h2) =
        and_then-eq-some (enter crate schema resolver parent draft) (leave crate schema draft)
          children h1 in
      let (same, i) =
        when_some (same_draft draft parent) (crate.in_subresource draft schema resolver) inner e' in
      let (b, h3) =
        when_some (all_found crate (reference_keywords draft) schema inner)
          (some (parts_inside crate schema draft inner)) children h2 in
      subst (IsEntered (schema, resolver, parent) children) (same_draft-eq draft parent same) (
        inner,
        e,
        i,
        (reference_keywords-Found draft schema inner).0 b,
        sym (some_unique {o = some (parts_inside crate schema draft inner)} refl h3),
      )

  pub IsEntered-visit :
      (p : Pending crate) (children : List (Pending crate))
      → IsEntered p children p.2
      → visit crate p ≡ some children
  unfolding visit
  IsEntered-visit (schema, resolver, parent) children (inner, e, i, f, c) =
      rw
        (e, visit, same_draft_refl parent, i, (reference_keywords-Found parent schema inner).1 f, c)
        refl
