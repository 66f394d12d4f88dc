-- ===== src/Structured/Resolved.antt =====
-- The walk of src/server/schema_references.rs ends, and accepts exactly the schemas of which every
-- part resolves its references.
use apcore_mcp_rust.Prelude.{
  ℕ, zero, suc, ◌+◌, ◌≤◌, ◌<◌, ◌≡◌, refl, sym, ap, ◌∙◌, subst, ◌↔◌, ◌⊎◌, inl, inr, true, false,
  none, some, List, [], ◌∷◌, map, arith, Bool-cases, Option-cases, some_unique, unwrap_or,
}
use mathlib.Core.Option.{none-ne-some}
use apcore_mcp_rust.Json.{Value, null, bool, number, string, array, object}
use apcore_mcp_rust.Structured.Decimal.{and_then-eq-some, when_some}
use apcore_mcp_rust.Structured.Entered.{IsEntered, visit-IsEntered, IsEntered-visit}
use apcore_mcp_rust.Structured.References.{
  Draft, Referencing, is_supported, size, total, Pending, all_found, reference_keywords, enter,
  parts_inside, leave, visit, push, walk_refs, resolve_all_refs,
}

module _ {Resolver : Type 0} (crate : Referencing Resolver) where
  -- A schema of its parent's dialect of which every reference is found, and so is every reference
  -- of a schema inside it, at any depth.
  mutual
    pub data IsResolved : Pending crate → Type 0 where
      resolved :
          {p : Pending crate} (children : List (Pending crate))
          → IsEntered crate p children p.2
          → AreResolved children
          → IsResolved p

    pub data AreResolved : List (Pending crate) → Type 0 where
      none_left : AreResolved []
      one_more :
          {p : Pending crate} {ps : List (Pending crate)}
          → IsResolved p
          → AreResolved ps
          → AreResolved (p ∷ ps)

  abbrev pub weight : List (Pending crate) → ℕ
  weight [] = 0
  weight (p ∷ ps) = size p.0 + weight ps

  weight-push :
      (children pending : List (Pending crate))
      → weight (push crate children pending) ≡ weight children + weight pending
  unfolding push
  weight-push [] pending = omega arith
  weight-push (c ∷ children) pending = omega (arith, weight-push children (c ∷ pending))

  push-AreResolved :
      (children pending : List (Pending crate))
      → AreResolved children
      → AreResolved pending
      → AreResolved (push crate children pending)
  unfolding push
  push-AreResolved _ pending none_left k = k
  push-AreResolved _ pending (one_more {p} {ps} h hs) k =
      push-AreResolved ps (p ∷ pending) hs (one_more h k)

  split-AreResolved :
      (p : Pending crate) (ps : List (Pending crate))
      → AreResolved (p ∷ ps)
      → IsResolved p × AreResolved ps
  split-AreResolved p ps (one_more h hs) = (h, hs)

  AreResolved-push :
      (children pending : List (Pending crate))
      → AreResolved (push crate children pending)
      → AreResolved children × AreResolved pending
  unfolding push
  AreResolved-push [] pending h = (none_left, h)
  AreResolved-push (c ∷ children) pending h =
      let (hs, h') = AreResolved-push children (c ∷ pending) h in
      let (k, ks) = split-AreResolved c pending h' in (one_more k hs, ks)

  children_of :
      (p : Pending crate) (children : List (Pending crate))
      → IsResolved p
      → visit crate p ≡ some children
      → AreResolved children
  children_of p children (resolved cs e h) e' =
      subst AreResolved (some_unique (IsEntered-visit crate p cs e) e') h

  unresolved : (p : Pending crate) → visit crate p ≡ none → IsResolved p → ⊥
  unresolved p e (resolved cs e' h) = none-ne-some cs (sym e ∙ IsEntered-visit crate p cs e')

  weight-map :
      (inner : Resolver) (draft : Draft) (vs : List Value)
      → weight (map (λ child. (child, inner, draft)) vs) ≡ total vs
  weight-map inner draft [] = refl
  weight-map inner draft (v ∷ vs) = ap (λ n. size v + n) (weight-map inner draft vs)

  size_positive : (v : Value) → 1 ≤ size v
  size_positive null = omega arith
  size_positive (bool b) = omega arith
  size_positive (number n) = omega arith
  size_positive (string s) = omega arith
  size_positive (array vs) = omega arith
  size_positive (object fs) = omega arith

  -- The parts of a schema do not overlap and lie inside it.
  module _
      (fits : (draft : Draft) (v : Value) → total (crate.subresources_of draft v) < size v) where
    visit-weight :
        (p : Pending crate) (children : List (Pending crate))
        → visit crate p ≡ some children
        → weight children < size p.0
    unfolding visit
    visit-weight (schema, resolver, parent) children h =
        let (draft, e, h1) = and_then-eq-some (crate.detect parent schema) _ children h in
        let (inner, e', h2) =
          and_then-eq-some (enter crate schema resolver parent draft) (leave crate schema draft)
            children h1 in
        let (b, h3) =
          when_some (all_found crate (reference_keywords draft) schema inner)
            (some (parts_inside crate schema draft inner)) children h2 in
        let same =
          ap weight (some_unique {o = some (parts_inside crate schema draft inner)} refl h3) in
        omega (
          arith,
          fits draft schema,
          weight-map inner draft (crate.subresources_of draft schema),
          same,
        )

    -- With as much fuel as there are values in what is pending, the loop does not run out of it, and
    -- it accepts exactly if everything pending is resolved.
    walk_refs-AreResolved :
        (fuel : ℕ) (pending : List (Pending crate))
        → weight pending ≤ fuel
        → ((walk_refs crate fuel pending ≡ some true) × AreResolved pending)
          ⊎ ((walk_refs crate fuel pending ≡ some false) × (AreResolved pending → ⊥))
    unfolding walk_refs
    walk_refs-AreResolved fuel [] h = inl (refl, none_left)
    walk_refs-AreResolved zero (p ∷ ps) h = absurd (omega (arith, h, size_positive p.0))
    walk_refs-AreResolved (suc fuel) (p ∷ ps) h = elim (Option-cases (visit crate p)) [
      | inl e ↦ rw (e, walk_refs) (inr (refl, λ r. unresolved p e (split-AreResolved p ps r).0))
      | inr (children, e) ↦
          elim (walk_refs-AreResolved fuel (push crate children ps)
            (omega (arith, h, weight-push children ps, visit-weight p children e))) [
              | inl (w, r) ↦
                  let (cs, rest) = AreResolved-push children ps r in
                  rw (e, walk_refs)
                    (inl (
                      w,
                      one_more (resolved children (visit-IsEntered crate p children e) cs) rest,
                    ))
              | inr (w, r) ↦
                  rw (e, walk_refs)
                    (inr (
                      w,
                      λ k.
                          let (one, rest) = split-AreResolved p ps k in
                          r (push-AreResolved children ps (children_of p children one e) rest),
                    ))
            ]
    ]

    -- A schema of a supported dialect that the crate admits as the root of a registry, and of which
    -- no part is refused.
    abbrev pub IsLocal : Value → Type 0
    IsLocal schema =
        (draft : Draft) × (resolver : Resolver) × (crate.draft_of schema ≡ some draft)
        × (is_supported draft ≡ true)
        × (crate.try_new schema draft ≡ some resolver)
        × IsResolved (schema, resolver, draft)

    walk_refs_root :
        (schema : Value) (resolver : Resolver) (draft : Draft)
        → unwrap_or (walk_refs crate (size schema) ((schema, resolver, draft) ∷ [])) false ≡ true
          ↔ IsResolved (schema, resolver, draft)
    walk_refs_root schema resolver draft =
        elim (walk_refs-AreResolved (size schema) ((schema, resolver, draft) ∷ []) (omega arith)) [
          | inl (w, one_more h none_left) ↦ rw w ((λ e. h), (λ k. refl))
          | inr (w, r) ↦ rw w ((λ e. cc), λ h. absurd (r (one_more h none_left)))
        ]

    -- Where the parts that the crate names of a schema lie inside it and do not overlap: the loop
    -- over the parts ends, and a schema is accepted exactly if its dialect is supported, the crate
    -- admits it as the root of a registry, and it and each schema inside it, at any depth, is of
    -- that dialect and has only references that are found in that registry.
    pub resolve_all_refs-IsLocal :
        (schema : Value) → resolve_all_refs crate schema ≡ true ↔ IsLocal schema
    unfolding resolve_all_refs
    resolve_all_refs-IsLocal schema = (accepted, admitted)
      where
        accepted : resolve_all_refs crate schema ≡ true → IsLocal schema
        accepted h = elim (Option-cases (crate.draft_of schema)) [
          | inl e ↦ cc (rw (e, resolve_all_refs) at h)
          | inr (draft, e) ↦ elim (Bool-cases (is_supported draft)) [
            | inr off ↦ cc (rw (e, off, resolve_all_refs) at h)
            | inl y ↦ elim (Option-cases (crate.try_new schema draft)) [
              | inl t ↦ cc (rw (e, y, t, resolve_all_refs) at h)
              | inr (resolver, t) ↦ (
                draft,
                resolver,
                e,
                y,
                t,
                (walk_refs_root schema resolver draft).0 (rw (e, y, t, resolve_all_refs) at h),
              )
            ]
          ]
        ]

        admitted : IsLocal schema → resolve_all_refs crate schema ≡ true
        admitted (draft, resolver, e, y, t, r) =
            rw (e, y, t, resolve_all_refs) ((walk_refs_root schema resolver draft).1 r)
