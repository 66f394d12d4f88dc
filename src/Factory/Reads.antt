-- ===== src/Factory/Reads.antt =====
-- What a read of a resource of src/server/factory.rs reaches.
use apcore_mcp_rust.Prelude.{
  String, ◌≡◌, refl, ◌⊎◌, inl, inr, Bool, true, false, not, ◌||◌, Option, some, List, [], ◌∷◌,
  arith, starts_with, if◌then◌else◌, Option-cases, unwrap_or, All, ◌<>◌, contains, is_blank,
  strip_prefix, split,
}
use apcore_mcp_rust.Prelude.Map.{Map}
use apcore_mcp_rust.Prelude.Map
use apcore_mcp_rust.Prelude.Fallible.{ok, err}
use apcore_mcp_rust.Json.{Value, and_then}
use apcore_mcp_rust.Wire.{ReadResourceContents}
use apcore_mcp_rust.Router.{Reply}
use apcore_mcp_rust.Factory.{
  FactoryError, resource_not_found, unsupported_scheme, Result, system_resource_modules,
  system_resource_template_modules, is_readonly_system_resource_module_id,
}
use apcore_mcp_rust.Factory.Resources.{
  path_and_query, find_period, call_router_as_resource, read_templated, read_system_resource,
  read_resource,
}

module _ {W : Type 0} (handle_call : String → Value → W → W × Reply) (available : List String)
    (docs : Map String) (uri : String) (w : W) where
  -- A call of a read-only system module that the registry has, with its state; contents are shown
  -- only where the call is no error.
  abbrev pub IsCall : W × Result (List ReadResourceContents) → Type 0
  IsCall r =
      (id : String) × (args : Value) × (is_readonly_system_resource_module_id id ≡ true)
      × (contains available id ≡ true)
      × (r.0 ≡ (handle_call id args w).0)
      × ((contents : List ReadResourceContents)
          → r.1 ≡ ok contents
          → (handle_call id args w).1.1 ≡ false)

  -- A call, an error without one, or the documentation of a module.
  abbrev pub IsRead : W × Result (List ReadResourceContents) → Type 0
  IsRead r =
      IsCall r
      ⊎ (((e : FactoryError) × (r ≡ (w, err e)))
          ⊎ ((module_id doc : String) × (Map.get module_id docs ≡ some doc)
              × (r ≡ (w, ok (record { content = doc; mime_type = "text/plain" } ∷ [])))))

  refused : (e : FactoryError) → IsRead (w, err e)
  refused e = inr (inl (e, refl))

  shown_unless :
      (b : Bool) (e : FactoryError) (cs contents : List ReadResourceContents)
      → ◌≡◌ {A = Result (List ReadResourceContents)} (if b then err e else ok cs) (ok contents)
      → b ≡ false
  shown_unless true e cs contents h = cc
  shown_unless false e cs contents h = refl

  call_router-IsRead :
      (id : String) (args : Value)
      → is_readonly_system_resource_module_id id ≡ true
      → contains available id ≡ true
      → IsRead (call_router_as_resource handle_call available id args uri w)
  unfolding call_router_as_resource
  call_router-IsRead id args s a =
      inl (id, args, s, a, refl, shown_unless (handle_call id args w).1.1 _ _)

  guarded :
      (b : Bool) (e : FactoryError) (r : W × Result (List ReadResourceContents))
      → (b ≡ false → IsRead r)
      → IsRead (if b then (w, err e) else r)
  guarded true e r h = refused e
  guarded false e r h = h refl

  read_templated-IsRead :
      (ids : List String) (path : String) (period : Option String)
      → All (λ id. is_readonly_system_resource_module_id id ≡ true) ids
      → IsRead (read_templated handle_call available ids path period uri w)
  unfolding read_templated
  read_templated-IsRead [] path period h = refused (resource_not_found uri)
  read_templated-IsRead (id ∷ ids) path period (s, h) =
      elim (Option-cases (strip_prefix (id <> "/") path)) [
        | inl e ↦ rw (e, read_templated) (read_templated-IsRead ids path period h)
        | inr (target, e) ↦
            rw (e, read_templated)
              (guarded (is_blank target || not (contains available id)) (resource_not_found uri) _
                (λ g. call_router-IsRead id _ s (ground arith)))
      ]

  static_is_readonly :
      (path : String)
      → contains system_resource_modules path ≡ true
      → is_readonly_system_resource_module_id path ≡ true
  unfolding is_readonly_system_resource_module_id
  static_is_readonly path h = ground arith

  either-IsRead :
      (b : Bool) (r s : W × Result (List ReadResourceContents))
      → (b ≡ true → IsRead r)
      → IsRead s
      → IsRead (if b then r else s)
  either-IsRead true r s h k = h refl
  either-IsRead false r s h k = k

  read_system_resource-IsRead : IsRead (read_system_resource handle_call available uri w)
  unfolding read_system_resource is_readonly_system_resource_module_id
  read_system_resource-IsRead =
      let (path, query) = path_and_query (unwrap_or (strip_prefix "apcore://" uri) uri) in
      let period = and_then query (λ q. find_period (split "&" q)) in
      either-IsRead (contains system_resource_modules path) _ _
        (λ s.
          guarded (not (contains available path)) (resource_not_found uri) _
            (λ a. call_router-IsRead path _ (static_is_readonly path s) (ground arith)))
        (read_templated-IsRead system_resource_template_modules path period
          (refl, (refl, (refl, tt))))

  -- For every URI, reading a resource either calls one of the six read-only system modules that
  -- the registry has, through the router and once, and shows its contents only where that call is
  -- no error; or it calls nothing and leaves the state as it is, and either fails or shows the
  -- documentation that a module has.
  pub read_resource-IsRead : IsRead (read_resource handle_call available docs uri w)
  unfolding read_resource
  read_resource-IsRead = elim (Option-cases (strip_prefix "docs://" uri)) [
    | inr (module_id, e) ↦ elim (Option-cases (Map.get module_id docs)) [
      | inr (doc, k) ↦ rw (e, read_resource, k) (inr (inr (module_id, doc, k, refl)))
      | inl k ↦ rw (e, read_resource, k) (refused (resource_not_found uri))
    ]
    | inl e ↦
        rw (e, read_resource)
          (either-IsRead (starts_with uri "apcore://") _ _ (λ y. read_system_resource-IsRead)
            (refused (unsupported_scheme uri)))
  ]
