-- ===== src/Factory/Built.antt =====
-- What the tools of src/server/factory.rs are and where they come from.
use apcore_mcp_rust.Prelude.{
  String, ◌≡◌, refl, sym, ap, subst, ◌↔◌, ◌⊎◌, inl, inr, Bool, true, false, not, Option, none, some,
  List, [], ◌∷◌, arith, eq_iff, eq_refl, Bool-cases, Option-cases, unwrap_or, contains,
}
use apcore_mcp_rust.Prelude.Fallible.{ok, err, ◌>>=◌, ok_unique, bind-eq-ok, Fallible-cases}
use apcore_mcp_rust.Json.{Value, string, get_key, as_object}
use apcore_mcp_rust.Rpc.{index}
use apcore_mcp_rust.Schema.{is_object_text}
use apcore_mcp_rust.Factory.Rooted.{IsRooted, guarded-eq-ok, input_schema_of-IsRooted}
use apcore_mcp_rust.Wire.{Tool}
use apcore_mcp_rust.Tasks.{is_reserved_id}
use apcore_mcp_rust.Factory.{
  ModuleDescriptor, FactoryError, reserved_prefix, other_error, resource_not_found,
  unsupported_scheme, Result, base_schema, allows_object, input_schema_of,
  is_readonly_system_resource_module_id, display_text,
}
use apcore_mcp_rust.Factory.Tools.{
  is_async_module_descriptor, output_schema_of, build_tool_with_registry, mcp_display_of,
  description_of, displayed_tool, keep, build_tools,
}

-- The output schema is shown if its type is "object" and the module is not asynchronous.
abbrev pub IsShown : ModuleDescriptor → Option Value → Type 0
IsShown d none =
    (is_async_module_descriptor d ≡ true) ⊎ (index "type" d.output_schema ≡ string "object" → ⊥)
IsShown d (some shown) =
    (shown ≡ d.output_schema)
    × (index "type" d.output_schema ≡ string "object")
    × (is_async_module_descriptor d ≡ false)

-- A tool of a module.
abbrev pub IsTool : ModuleDescriptor → Option String → Tool → Type 0
IsTool d name_override tool =
    (is_reserved_id d.module_id ≡ false)
    × (tool.name ≡ unwrap_or name_override d.module_id)
    × IsRooted d.input_schema tool.input_schema
    × IsShown d tool.output_schema

is_object_text-eq : (v : Value) → is_object_text v ≡ true → v ≡ string "object"
is_object_text-eq (string s) h = ap string ((eq_iff s "object").0 h)
is_object_text-eq _ h = cc

not_both_ways : (b : Bool) → b ≡ false → b ≡ true → ⊥
not_both_ways b n y = ground arith

object_text_iff : (v : Value) → is_object_text v ≡ true ↔ (v ≡ string "object")
object_text_iff v =
    ((λ h. is_object_text-eq v h), λ e. subst (λ u. is_object_text u ≡ true) (sym e) refl)

output_schema_of-IsShown : (d : ModuleDescriptor) → IsShown d (output_schema_of d)
unfolding output_schema_of
output_schema_of-IsShown d =
    let (to, from) = object_text_iff (index "type" d.output_schema) in
    elim (Bool-cases (is_object_text (index "type" d.output_schema))) [
      | inr n ↦ rw (n, output_schema_of) (inr (λ e. not_both_ways _ n (from e)))
      | inl y ↦ elim (Bool-cases (is_async_module_descriptor d)) [
        | inl a ↦ rw (y, a, output_schema_of) (inl a)
        | inr b ↦ rw (y, b, output_schema_of) (refl, to y, b)
      ]
    ]

-- A tool that is built belongs to a module whose ID is not reserved and is named by the override
-- or by that ID. An empty input schema becomes an object without properties; any other is an object
-- whose type, if it has one, is "object" or a list of types of JSON Schema, none of them twice,
-- with "object" among them, and the tool's has "object" for its type and every other key as it
-- was. The output schema is shown exactly if its type is "object" and the module is not
-- asynchronous.
pub build_tool_with_registry-IsTool :
    (d : ModuleDescriptor) (description : String) (name_override : Option String) (tool : Tool)
    → build_tool_with_registry d description name_override ≡ ok tool
    → IsTool d name_override tool
unfolding build_tool_with_registry
build_tool_with_registry-IsTool d description name_override tool h =
    let (off, h') = guarded-eq-ok (is_reserved_id d.module_id) _ _ tool h in
    let (w, s, e) = bind-eq-ok (input_schema_of d.input_schema) _ h' in
    subst (IsTool d name_override) (ok_unique e)
      (off, refl, input_schema_of-IsRooted d.input_schema w s, output_schema_of-IsShown d)

input_schema_of-other : (v : Value) (id : String) → input_schema_of v ≡ err (reserved_prefix id) → ⊥
unfolding input_schema_of
input_schema_of-other v id h =
    elim (Bool-cases (not (allows_object (get_key "type" (base_schema v))))) [
      | inl y ↦ cc (h, y)
      | inr off ↦ elim (Option-cases (as_object (base_schema v))) [
        | inl e ↦ cc (h, off, e)
        | inr (m, e) ↦ cc (h, off, e)
      ]
    ]

err_unique : {A : Type 0} {e f : FactoryError} → ◌≡◌ {A = Result A} (err e) (err f) → e ≡ f
err_unique h = cc

build_tool_with_registry-reserved :
    (d : ModuleDescriptor) (description : String) (name_override : Option String) (id : String)
    → build_tool_with_registry d description name_override ≡ err (reserved_prefix id)
    → is_reserved_id d.module_id ≡ true
unfolding build_tool_with_registry
build_tool_with_registry-reserved d description name_override id h =
    elim (Bool-cases (is_reserved_id d.module_id)) [
      | inl y ↦ y
      | inr off ↦ elim (Fallible-cases (input_schema_of d.input_schema)) [
        | inl (e, p) ↦ absurd (input_schema_of-other d.input_schema id cc)
        | inr (w, p) ↦ cc (h, off, p)
      ]
    ]

module _ (render_module_markdown : ModuleDescriptor → Option String) (rich_description : Bool)
    (get_definition : String → Option ModuleDescriptor) where
  -- What a listed module that does not stop the server gives: no tool, if it is a read-only system
  -- resource, has no definition, or its tool fails to build for another reason than a reserved ID;
  -- else its tool.
  pub data Gives (id : String) : Option Tool → Type 0 where
    resource : is_readonly_system_resource_module_id id ≡ true → Gives id none
    undefined :
        is_readonly_system_resource_module_id id ≡ false
        → is_reserved_id id ≡ false
        → get_definition id ≡ none
        → Gives id none
    unbuilt :
        {d : ModuleDescriptor} {e : FactoryError}
        → is_readonly_system_resource_module_id id ≡ false
        → is_reserved_id id ≡ false
        → get_definition id ≡ some d
        → displayed_tool render_module_markdown rich_description d ≡ err e
        → is_reserved_id d.module_id ≡ false
        → Gives id none
    built :
        {d : ModuleDescriptor} {tool : Tool}
        → is_readonly_system_resource_module_id id ≡ false
        → is_reserved_id id ≡ false
        → get_definition id ≡ some d
        → displayed_tool render_module_markdown rich_description d ≡ ok tool
        → IsTool d (display_text "alias" (mcp_display_of d)) tool
        → Gives id (some tool)

  -- The tools of the listed modules, in their order.
  pub data AllGive : List String → List Tool → Type 0 where
    nothing : AllGive [] []
    skips :
        {id : String} {ids : List String} {tools : List Tool}
        → Gives id none
        → AllGive ids tools
        → AllGive (id ∷ ids) tools
    adds :
        {id : String} {ids : List String} {tool : Tool} {tools : List Tool}
        → Gives id (some tool)
        → AllGive ids tools
        → AllGive (id ∷ ids) (tool ∷ tools)

  -- A listed module that stops the server: its ID or its descriptor's is reserved.
  abbrev pub IsRefused : List String → String → Type 0
  IsRefused ids id =
      (contains ids id ≡ true)
      × ((is_reserved_id id ≡ true)
          ⊎ ((d : ModuleDescriptor) × (get_definition id ≡ some d)
              × (is_reserved_id d.module_id ≡ true)))

  abbrev pub AreBuilt : List String → Result (List Tool) → Type 0
  AreBuilt ids (ok tools) = AllGive ids tools
  AreBuilt ids (err e) = (id : String) × (e ≡ reserved_prefix id) × IsRefused ids id

  unreserved :
      (d : ModuleDescriptor) (e : FactoryError)
      → displayed_tool render_module_markdown rich_description d ≡ err e
      → ((i : String) → e ≡ reserved_prefix i → ⊥)
      → is_reserved_id d.module_id ≡ false
  unfolding displayed_tool build_tool_with_registry
  unreserved d e b k = elim (Bool-cases (is_reserved_id d.module_id)) [
    | inr n ↦ n
    | inl y ↦
        absurd
          (k d.module_id (err_unique (sym (rw (y, displayed_tool, build_tool_with_registry) at b))))
  ]

  contains-cons :
      (x : String) (ids : List String) (id : String)
      → contains ids id ≡ true
      → contains (x ∷ ids) id ≡ true
  contains-cons x ids id h = ground arith

  contains-head : (x : String) (ids : List String) → contains (x ∷ ids) x ≡ true
  contains-head x ids = rw (eq_refl x) refl

  AreBuilt-skip :
      (x : String) (ids : List String) (r : Result (List Tool))
      → Gives x none
      → AreBuilt ids r
      → AreBuilt (x ∷ ids) r
  AreBuilt-skip x ids (ok tools) g h = skips g h
  AreBuilt-skip x ids (err e) g (id, p, (c, h)) = (id, p, (contains-cons x ids id c, h))

  AreBuilt-add :
      (x : String) (ids : List String) (tool : Tool) (r : Result (List Tool))
      → Gives x (some tool)
      → AreBuilt ids r
      → AreBuilt (x ∷ ids) (do rest ← r; ok (tool ∷ rest))
  AreBuilt-add x ids tool (ok tools) g h = adds g h
  AreBuilt-add x ids tool (err e) g (id, p, (c, h)) = (id, p, (contains-cons x ids id c, h))

  AreBuilt-keep :
      (x : String) (ids : List String) (d : ModuleDescriptor) (r : Result (List Tool))
      → (built : Result Tool) → is_readonly_system_resource_module_id x ≡ false
      → is_reserved_id x ≡ false
      → get_definition x ≡ some d
      → displayed_tool render_module_markdown rich_description d ≡ built
      → AreBuilt ids r
      → AreBuilt (x ∷ ids) (keep x built r)
  unfolding displayed_tool
  AreBuilt-keep x ids d r (ok tool) n a e b h =
      AreBuilt-add x ids tool r
        (built n a e b (
          build_tool_with_registry-IsTool d
            (description_of render_module_markdown rich_description d)
            (display_text "alias" (mcp_display_of d)) tool b))
        h
  AreBuilt-keep x ids d r (err (reserved_prefix i)) n a e b h = (
    x,
    refl,
    (
      contains-head x ids,
      inr (
        d,
        e,
        build_tool_with_registry-reserved d
            (description_of render_module_markdown rich_description d)
            (display_text "alias" (mcp_display_of d)) i b,
      ),
    ),
  )
  AreBuilt-keep x ids d r (err (other_error s)) n a e b h =
      AreBuilt-skip x ids r (unbuilt n a e b (unreserved d _ b (λ i. λ p. cc))) h
  AreBuilt-keep x ids d r (err (resource_not_found s)) n a e b h =
      AreBuilt-skip x ids r (unbuilt n a e b (unreserved d _ b (λ i. λ p. cc))) h
  AreBuilt-keep x ids d r (err (unsupported_scheme s)) n a e b h =
      AreBuilt-skip x ids r (unbuilt n a e b (unreserved d _ b (λ i. λ p. cc))) h

  -- build_tools either gives, in the order of the listed modules, the tool of each of them that is
  -- no read-only system resource, has a definition and can be built, as build_tool makes it of the
  -- definition and its display, and of no other; or it fails with the ID of a listed module that is
  -- reserved itself or whose definition has a reserved ID. A module whose tool cannot be built
  -- otherwise does not stop the others.
  pub build_tools-AreBuilt :
      (ids : List String)
      → AreBuilt ids (build_tools render_module_markdown rich_description get_definition ids)
  unfolding build_tools
  build_tools-AreBuilt [] = nothing
  build_tools-AreBuilt (x ∷ ids) = elim (Bool-cases (is_readonly_system_resource_module_id x)) [
    | inl y ↦ rw (y, build_tools) (AreBuilt-skip x ids _ (resource y) (build_tools-AreBuilt ids))
    | inr n ↦ elim (Bool-cases (is_reserved_id x)) [
      | inl y ↦ rw (n, y, build_tools) (x, refl, (contains-head x ids, inl y))
      | inr a ↦ elim (Option-cases (get_definition x)) [
        | inl e ↦
            rw (n, a, e, build_tools)
              (AreBuilt-skip x ids _ (undefined n a e) (build_tools-AreBuilt ids))
        | inr (d, e) ↦
            rw (n, a, e, build_tools)
              (AreBuilt-keep x ids d _ _ n a e refl (build_tools-AreBuilt ids))
      ]
    ]
  ]
