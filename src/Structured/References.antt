-- ===== src/Structured/References.antt =====
-- src/server/schema_references.rs: whether every reference of an output schema is resolved, over
-- the calls of the crate referencing, whose retriever fetches nothing.
use apcore_mcp_rust.Prelude.{
  ℕ, zero, suc, ◌+◌, String, Bool, true, false, ◌&&◌, Option, none, some, List, [], ◌∷◌, map, eqb,
  if◌then◌else◌, unwrap_or,
}
use apcore_mcp_rust.Json.{
  Value, array, object, Items, nil, cons, Fields, end, field, get_str, and_then,
}

pub data Draft : Type 0 where
  draft4 draft6 draft7 draft201909 draft202012 : Draft

abbrev pub number_of : Draft → ℕ
number_of draft4 = 4
number_of draft6 = 6
number_of draft7 = 7
number_of draft201909 = 8
number_of draft202012 = 9

abbrev pub same_draft : Draft → Draft → Bool
same_draft d e = eqb (number_of d) (number_of e)

-- The crate: the dialect of a document, the resolver at the root of a registry that holds it, the
-- dialect of a part, the resolver there, whether a reference is found, and the parts that are
-- schemas themselves.
pub record Referencing (Resolver : Type 0) : Type 0 where
  pub draft_of : Value → Option Draft
  pub try_new : Value → Draft → Option Resolver
  pub detect : Draft → Value → Option Draft
  pub in_subresource : Draft → Value → Resolver → Option Resolver
  pub lookup : String → Resolver → Bool
  pub subresources_of : Draft → Value → List Value

abbrev pub is_supported : Draft → Bool
is_supported draft4 = false
is_supported draft6 = false
is_supported _ = true

abbrev pub reference_keywords : Draft → List String
reference_keywords draft202012 = "$ref" ∷ "$dynamicRef" ∷ []
reference_keywords draft201909 = "$ref" ∷ "$recursiveRef" ∷ []
reference_keywords _ = "$ref" ∷ []

-- The values in a value, itself among them.
abbrev mutual
  pub size : Value → ℕ
  size (array vs) = size_items vs + 1
  size (object fs) = size_fields fs + 1
  size _ = 1

  pub size_items : Items → ℕ
  size_items nil = 0
  size_items (cons v vs) = size v + size_items vs

  pub size_fields : Fields → ℕ
  size_fields end = 0
  size_fields (field k v fs) = size v + size_fields fs

abbrev pub total : List Value → ℕ
total [] = 0
total (v ∷ vs) = size v + total vs

module _ {Resolver : Type 0} (crate : Referencing Resolver) where
  -- A schema, the resolver where it stands, and the dialect of its parent.
  abbrev pub Pending : Type 0
  Pending = Value × Resolver × Draft

  unfoldable pub all_found : List String → Value → Resolver → Bool
  unfolding get_str
  all_found [] schema resolver = true
  all_found (keyword ∷ keywords) schema resolver =
      let rest = all_found keywords schema resolver in
      elim (get_str keyword schema) [
        | none ↦ rest
        | some reference ↦ crate.lookup reference resolver && rest
      ]

  -- A validator has one dialect, which each part of a schema must be of.
  abbrev pub enter : Value → Resolver → Draft → Draft → Option Resolver
  enter schema resolver parent_draft draft =
      if same_draft draft parent_draft then crate.in_subresource draft schema resolver else none

  abbrev pub parts_inside : Value → Draft → Resolver → List Pending
  parts_inside schema draft inner =
      map (λ child. (child, inner, draft)) (crate.subresources_of draft schema)

  abbrev pub leave : Value → Draft → Resolver → Option (List Pending)
  leave schema draft inner =
      if all_found (reference_keywords draft) schema inner
      then some (parts_inside schema draft inner)
      else none

  -- One round of the loop: the schemas inside, with their resolver and dialect; none where the
  -- schema is refused.
  unfoldable pub visit : Pending → Option (List Pending)
  unfolding all_found
  visit (schema, resolver, parent_draft) =
      and_then (crate.detect parent_draft schema)
        λ draft. and_then (enter schema resolver parent_draft draft) (leave schema draft)

  -- Onto the stack, one after the other.
  unfoldable pub push : List Pending → List Pending → List Pending
  push [] pending = pending
  push (child ∷ children) pending = push children (child ∷ pending)

  -- The loop over the stack; none where the fuel runs out.
  unfoldable pub walk_refs : ℕ → List Pending → Option Bool
  unfolding visit push
  walk_refs fuel [] = some true
  walk_refs zero (p ∷ pending) = none
  walk_refs (suc fuel) (p ∷ pending) = elim (visit p) [
    | none ↦ some false
    | some children ↦ walk_refs fuel (push children pending)
  ]

  unfoldable pub resolve_all_refs : Value → Bool
  unfolding walk_refs
  resolve_all_refs schema = elim (crate.draft_of schema) [
    | none ↦ false
    | some draft ↦
        if is_supported draft
        then elim (crate.try_new schema draft) [
          | none ↦ false
          | some resolver ↦
              unwrap_or (walk_refs (size schema) ((schema, resolver, draft) ∷ [])) false
        ]
        else false
  ]
