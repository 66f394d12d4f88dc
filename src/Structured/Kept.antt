-- ===== src/Structured/Kept.antt =====
-- What the structured content of src/server/types.rs is.
use apcore_mcp_rust.Prelude.{
  String, ◌≡◌, refl, sym, ◌∙◌, subst, ◌⊎◌, inl, inr, Bool, true, false, ◌&&◌, Option, none, some,
  List, [], ◌∷◌, arith, ◌==◌, if◌then◌else◌, Bool-cases, some_unique, all, All, OnSome,
}
use mathlib.Core.Option.{none-ne-some}
use apcore_mcp_rust.Json.{Value}
use apcore_mcp_rust.Wire.{TextContent, CallToolResult}
use apcore_mcp_rust.Structured.References.{Referencing, resolve_all_refs}
use apcore_mcp_rust.Structured.Precision.{preserves_number, preserves_numeric_values}
use apcore_mcp_rust.Structured.Scan.{numbers, outside, preserves_numeric_values-numbers}
use apcore_mcp_rust.Structured.Decimal.{and_then-eq-some, when_some}
use apcore_mcp_rust.Structured.Meaning.{IsSameNumber, preserves_number-IsSameNumber}
use apcore_mcp_rust.Structured.Content.{
  is_object, keep_if, value_of, object_of, matches_output_schema, refused, checked,
  with_structured_content,
}

module _ (from_str : String → Option Value) (reprint : String → Option String) where
  abbrev pub IsKeptNumber : String → Type 0
  IsKeptNumber n = (printed : String) × (reprint n ≡ some printed) × IsSameNumber n printed

  -- The object that a text is read as, with all of its numbers kept.
  abbrev pub IsRead : List TextContent → Value → Type 0
  IsRead content v =
      (item : TextContent) × (rest : List TextContent) × (content ≡ item ∷ rest)
      × (from_str item.text ≡ some v)
      × (is_object v ≡ true)
      × All IsKeptNumber (numbers outside item.text)

  all-IsKept : (ns : List String) → all (preserves_number reprint) ns ≡ true → All IsKeptNumber ns
  all-IsKept [] h = tt
  all-IsKept (n ∷ ns) h = elim (Bool-cases (preserves_number reprint n)) [
    | inl y ↦ (preserves_number-IsSameNumber reprint n y, all-IsKept ns (rw y at h))
    | inr off ↦ cc (rw off at h)
  ]

  keep_if-eq-some :
      (p : Value → Bool) (o : Option Value) (v : Value)
      → keep_if p o ≡ some v
      → (o ≡ some v) × (p v ≡ true)
  keep_if-eq-some p none v h = absurd (none-ne-some v h)
  keep_if-eq-some p (some w) v h =
      let (y, e) = when_some (p w) (some w) v h in
      (e, subst (λ x. p x ≡ true) (some_unique {o = some w} refl e) y)

  object_of-IsRead :
      (content : List TextContent) (v : Value)
      → object_of from_str reprint content ≡ some v
      → IsRead content v
  unfolding object_of value_of
  object_of-IsRead [] v h = absurd (none-ne-some v h)
  object_of-IsRead (item ∷ rest) v h =
      let (e, o) = keep_if-eq-some is_object (value_of from_str reprint item) v h in
      let (t, e') = when_some (item.content_type == "text") _ v e in
      let (w, p, q) = and_then-eq-some (from_str item.text) _ v e' in
      let (k, s) = when_some (preserves_numeric_values reprint item.text) (some w) v q in
      (
        item,
        rest,
        refl,
        p ∙ s,
        o,
        all-IsKept (numbers outside item.text)
            (sym (preserves_numeric_values-numbers reprint item.text) ∙ k),
      )

  module _ {Resolver : Type 0} (crate : Referencing Resolver)
      (is_valid : Value → Value → Bool) where
    -- A value that the schema accepts, with all of the schema's references resolved.
    abbrev pub IsAccepted : Value → Value → Type 0
    IsAccepted v schema = (resolve_all_refs crate schema ≡ true) × (is_valid schema v ≡ true)

    -- What becomes of a result: it is left without structured content, or it gets the object that
    -- its first text is read as, or it is refused.
    abbrev pub IsStructured : Option Value → CallToolResult → CallToolResult → Type 0
    IsStructured schema r out =
        let read = object_of from_str reprint r.content in
        (((r.is_error ≡ true) ⊎ ((schema ≡ none) × (read ≡ none)))
          × (out ≡ record r { structured_content = none }))
        ⊎ (((v : Value) × (out ≡ record r { structured_content = some v })
              × (r.is_error ≡ false)
              × (read ≡ some v)
              × IsRead r.content v
              × OnSome (IsAccepted v) schema)
            ⊎ ((r.is_error ≡ false)
                × (s : Value) × (schema ≡ some s)
                × OnSome (λ v. matches_output_schema crate is_valid v s ≡ false) read
                × (out ≡ refused r)))

    both_true : (a b : Bool) → a && b ≡ true → (a ≡ true) × (b ≡ true)
    both_true a b h = ground arith

    checked-IsStructured :
        (r : CallToolResult) (o schema : Option Value)
        → r.is_error ≡ false
        → object_of from_str reprint r.content ≡ o
        → IsStructured schema r (checked crate is_valid r o schema)
    unfolding checked matches_output_schema
    checked-IsStructured r none none n h = inl (inr (refl, h), refl)
    checked-IsStructured r (some v) none n h =
        inr (inl (v, refl, n, h, object_of-IsRead r.content v h, tt))
    checked-IsStructured r none (some s) n h =
        inr (inr (n, s, refl, subst (OnSome _) (sym h) tt, refl))
    checked-IsStructured r (some v) (some s) n h =
        elim (Bool-cases (resolve_all_refs crate s && is_valid s v)) [
          | inl y ↦ rw y (
              inr (
                inl (
                  v,
                  refl,
                  n,
                  h,
                  object_of-IsRead r.content v h,
                  both_true (resolve_all_refs crate s) (is_valid s v) y,
                )))
          | inr off ↦ rw off (inr (inr (n, s, refl, subst (OnSome _) (sym h) off, refl)))
        ]

    -- An error keeps its text and gets no structured content. Any other result gets the object
    -- that its first text is read as, each number in it kept as the same decimal, if the advertised
    -- schema accepts that object or there is no schema. With a schema and no such object the result
    -- is refused, with a fixed text in the place of what it held; without either it is left as it
    -- is.
    pub with_structured_content-IsStructured :
        (schema : Option Value) (r : CallToolResult)
        → IsStructured schema r (with_structured_content from_str reprint crate is_valid schema r)
    unfolding with_structured_content
    with_structured_content-IsStructured schema r =
        either (r.is_error) (λ y. inl (inl y, refl))
          (λ n. checked-IsStructured r (object_of from_str reprint r.content) schema n refl)
      where
        either :
            (b : Bool)
            → (b ≡ true → IsStructured schema r (record r { structured_content = none }))
            → (b ≡ false
                → IsStructured schema r
                    (checked crate is_valid r (object_of from_str reprint r.content) schema))
            → IsStructured schema r (
                if b
                then record r { structured_content = none }
                else checked crate is_valid r (object_of from_str reprint r.content) schema)
        either true h k = h refl
        either false h k = k refl
