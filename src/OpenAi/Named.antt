-- ===== src/OpenAi/Named.antt =====
-- Which modules the tools of src/converters/openai.rs stand for.
use apcore_mcp_rust.Prelude.{
  String, ◌≡◌, refl, sym, ap, ◌∙◌, inl, inr, Bool, false, Option, none, some, List, [], ◌∷◌, map,
  ◌==◌, eq_iff, Bool-cases, Option-cases, some_unique, is_some,
}
use apcore_mcp_rust.Prelude.Map.{Map}
use apcore_mcp_rust.Prelude.Map
use apcore_mcp_rust.Prelude.Fallible.{ok, err, ◌>>=◌}
use apcore_mcp_rust.Json.{Value, keys, as_object}
use mathlib.Core.Option.{none-ne-some}
use apcore_mcp_rust.Acl.{sort, filter}
use apcore_mcp_rust.Adapters.{AdapterError}
use apcore_mcp_rust.ModuleId.Pattern.{Regex, IsEngine}
use apcore_mcp_rust.ModuleId.{normalize, denormalize}
use apcore_mcp_rust.ModuleId.RoundTrip.{normalize_injective, denormalize-eq}
use apcore_mcp_rust.OpenAi.{ConvertOptions}
use apcore_mcp_rust.OpenAi.Tools.{
  ConverterError, adapter, strict_mode, Result, Api, tool_name_of, colliding, collision,
  rename_hint, convert_modules, select_entry, convert_registry_json_with_options,
}
use apcore_mcp_rust.OpenAi.Converted.{convert_descriptor-eq-err, convert_descriptor-name}

module _ {Example : Type 0} (api : Api Example) (is_match : Regex → String → Bool) where
  -- The tools stand for the IDs, in order; the only errors are those of the adapters.
  abbrev pub IsConverted : List String → Result (List Value) → Type 0
  IsConverted ids (ok tools) = map (λ tool. denormalize (tool_name_of tool)) tools ≡ ids
  IsConverted ids (err (adapter e)) = Unit
  IsConverted ids (err (strict_mode message)) = ⊥

  IsConverted-adapter :
      (ids : List String) (e : ConverterError)
      → ((a : AdapterError) × (e ≡ adapter a))
      → IsConverted ids (err e)
  IsConverted-adapter ids (adapter a) h = tt
  IsConverted-adapter ids (strict_mode s) (a, h) = cc

  IsConverted-cons :
      (id : String) (tool : Value) (ids : List String) (r : Result (List Value))
      → denormalize (tool_name_of tool) ≡ id
      → IsConverted ids r
      → IsConverted (id ∷ ids) (do tools ← r; ok (tool ∷ tools))
  IsConverted-cons id tool ids (ok tools) d h = rw (d, h) refl
  IsConverted-cons id tool ids (err (adapter e)) d h = tt
  IsConverted-cons id tool ids (err (strict_mode s)) d h = h

  abbrev AreNamed : Map String → Type 0
  AreNamed seen = (n id : String) → Map.get n seen ≡ some id → normalize is_match id ≡ ok n

  colliding-eq-some :
      (seen : Map String) (n id existing : String)
      → colliding seen n id ≡ some existing
      → (Map.get n seen ≡ some existing) × ((existing == id) ≡ false)
  unfolding colliding
  colliding-eq-some seen n id existing h = elim (Option-cases (Map.get n seen)) [
    | inl e ↦ absurd (none-ne-some existing (sym (rw (e, colliding) refl) ∙ h))
    | inr (j, e) ↦ elim (Bool-cases (j == id)) [
      | inl y ↦ absurd (none-ne-some existing (sym (rw (e, colliding, y) refl) ∙ h))
      | inr off ↦ (
        e ∙ sym (rw (e, colliding, off) refl) ∙ h,
        sym (
              ap (λ k. k == id)
                (some_unique {o = some j} refl (sym (rw (e, colliding, off) refl) ∙ h)))
            ∙ off,
      )
    ]
  ]

  AreNamed-insert :
      (seen : Map String) (n id : String)
      → AreNamed seen
      → normalize is_match id ≡ ok n
      → AreNamed (Map.insert n id seen)
  AreNamed-insert seen n id named p m j h = elim (Bool-cases (n == m)) [
    | inl y ↦ let e = (eq_iff n m).0 y in cc (e, p, h, Map.get-insert n m id seen, y)
    | inr off ↦ named m j (sym (Map.get-insert n m id seen ∙ rw off refl) ∙ h)
  ]

  IsConverted-bind :
      (ids : List String) (x : Result Value) (next : Value → Result (List Value))
      → ((e : ConverterError) → x ≡ err e → (a : AdapterError) × (e ≡ adapter a))
      → ((tool : Value) → x ≡ ok tool → IsConverted ids (next tool))
      → IsConverted ids (x >>= next)
  IsConverted-bind ids (err e) next f g = IsConverted-adapter ids e (f e refl)
  IsConverted-bind ids (ok tool) next f g = g tool refl

  IsConverted-colliding :
      (ids : List String) (o : Option String) (r : Result (List Value))
      → (bad : String → ConverterError) → ((existing : String) → o ≡ some existing → ⊥)
      → IsConverted ids r
      → IsConverted ids
          (elim o as (λ _. Result (List Value)) [ none ↦ r | some existing ↦ err (bad existing) ])
  IsConverted-colliding ids none r bad f h = h
  IsConverted-colliding ids (some existing) r bad f h = absurd (f existing refl)

  module _ (engine : IsEngine is_match) where
    never_collides :
        (seen : Map String) (n id existing : String)
        → AreNamed seen
        → normalize is_match id ≡ ok n
        → colliding seen n id ≡ some existing
        → ⊥
    never_collides seen n id existing named p h =
        let (e, off) = colliding-eq-some seen n id existing h in
        let same : existing ≡ id =
          normalize_injective is_match engine existing id n (named n existing e) p in
        cc (off, (eq_iff existing id).1 same)

    module _ (options : ConvertOptions) (select : String → Option (Value × String))
        (hint : String) where
      convert_modules-IsConverted :
          (seen : Map String) (ids : List String)
          → AreNamed seen
          → IsConverted
              (filter (λ id. is_some (select id)) ids)
              (convert_modules api is_match options select hint seen ids)
      unfolding convert_modules
      convert_modules-IsConverted seen [] named = refl
      convert_modules-IsConverted seen (id ∷ ids) named = elim (Option-cases (select id)) [
        | inl e ↦ rw (e, convert_modules) (convert_modules-IsConverted seen ids named)
        | inr ((descriptor, description), e) ↦
            let inner = record options { rich_description = false } in
            rw (e, convert_modules)
              (IsConverted-bind (id ∷ filter (λ j. is_some (select j)) ids) _ _
                (convert_descriptor-eq-err api is_match id descriptor description inner)
                (λ tool h.
                  let n = tool_name_of tool in
                  let p =
                    convert_descriptor-name api is_match id descriptor description inner tool h in
                  IsConverted-colliding (id ∷ filter (λ j. is_some (select j)) ids)
                    (colliding seen n id) _ (λ existing. collision hint existing id n)
                    (λ existing. never_collides seen n id existing named p)
                    (IsConverted-cons id tool (filter (λ j. is_some (select j)) ids) _
                      (denormalize-eq is_match engine id n p)
                      (convert_modules-IsConverted (Map.insert n id seen) ids
                        (AreNamed-insert seen n id named p)))))
      ]

    -- The modules of a registry that pass the filters, in the order of their IDs.
    abbrev pub selected :
        Value → ConvertOptions → Option (List String) → Option String → List String
    selected registry options tags prefix = elim (as_object registry) [
      | none ↦ []
      | some modules ↦
          filter (λ id. is_some (select_entry api modules options tags prefix id))
            (sort (keys modules))
    ]

    -- For every registry in JSON, options and filters: the names of the tools, denormalized, are
    -- the IDs of the modules that pass the filters, in their order; otherwise the conversion fails
    -- with an error of an adapter, and never with the collision of two names.
    pub convert_registry_json-IsConverted :
        (registry : Value) (options : ConvertOptions) (tags : Option (List String))
        → (prefix : Option String)
        → IsConverted
            (selected registry options tags prefix)
            (convert_registry_json_with_options api is_match registry options tags prefix)
    unfolding convert_registry_json_with_options Map.get
    convert_registry_json-IsConverted registry options tags prefix =
        elim (Option-cases (as_object registry)) [
          | inl e ↦ rw (e, convert_registry_json_with_options, selected) refl
          | inr (modules, e) ↦
              rw (e, convert_registry_json_with_options, selected)
                (convert_modules-IsConverted options (select_entry api modules options tags prefix)
                  rename_hint [] (sort (keys modules)) (λ n id h. absurd (none-ne-some id h)))
        ]
