-- ===== src/Factory/Served.antt =====
-- What is listed by src/server/factory.rs is served by its reads.
use apcore_mcp_rust.Prelude.{
  ℕ, String, code, ◌≡◌, refl, ap, ◌⊎◌, inl, inr, true, some, List, [], ◌∷◌, arith, ◌==◌, eq_refl,
  eqb, Bool-cases, All, All-append, All-map, ◌<>◌, contains, strip_prefix, split_once,
}
use text.Mathlib.TextLemmas.{cons-append, nil-append}
use apcore_mcp_rust.Prelude.Map.{Map}
use apcore_mcp_rust.Prelude.Map
use apcore_mcp_rust.Prelude.Fallible.{ok}
use apcore_mcp_rust.Json.{Value, object, end}
use apcore_mcp_rust.Wire.{Resource}
use apcore_mcp_rust.Router.{Reply}
use apcore_mcp_rust.Factory.Resources.{
  read_resource, read_system_resource, call_router_as_resource, with_period,
}
use apcore_mcp_rust.Factory.Listed.{static_resources, doc_resources, listed_of, list_resources}

same_char : (n : ℕ) → eqb n n ≡ true
same_char n = ground arith

strip_prefix-append : (p s : String) → strip_prefix p (p <> s) ≡ some s
unfolding strip_prefix
strip_prefix-append String.[] s = ap some (nil-append s)
strip_prefix-append (String.◌∷◌ c p) s =
    rw (cons-append c p s, same_char (code c), strip_prefix) (strip_prefix-append p s)

found_here {ℓ} :
    {V : Type ℓ} (id : String) (v : V) (m : Map V) → (u : V) × (Map.get id ((id, v) ∷ m) ≡ some u)
unfolding Map.get
found_here id v m = (v, rw (eq_refl id) refl)

found_in_tail {ℓ} :
    {V : Type ℓ} (id key : String) (v w : V) (m : Map V)
    → Map.get key m ≡ some w
    → (u : V) × (Map.get key ((id, v) ∷ m) ≡ some u)
unfolding Map.get
found_in_tail id key v w m h = elim (Bool-cases (id == key)) [
  | inl y ↦ rw y (v, refl)
  | inr n ↦ rw n (w, h)
]

module _ {W : Type 0} (handle_call : String → Value → W → W × Reply) (modules : List String)
    (docs : Map String) (w : W) where
  -- The documentation of a module, or the reply of the router to a call of the module.
  abbrev pub IsServed : Resource → Type 0
  IsServed r =
      ((id doc : String) × (Map.get id docs ≡ some doc)
        × (read_resource handle_call modules docs r.uri w
            ≡ (w, ok (record { content = doc; mime_type = r.mime_type } ∷ []))))
      ⊎ ((id : String) × (contains modules id ≡ true)
          × (read_resource handle_call modules docs r.uri w
              ≡ call_router_as_resource handle_call modules id (object end) r.uri w))

  doc-IsServed :
      (id doc : String)
      → Map.get id docs ≡ some doc
      → read_resource handle_call modules docs ("docs://" <> id) w
        ≡ (w, ok (record { content = doc; mime_type = "text/plain" } ∷ []))
  unfolding read_resource
  doc-IsServed id doc h = rw (strip_prefix-append "docs://" id, read_resource, h) refl

  doc_resources-IsServed :
      (ds : Map String)
      → All (λ e. (doc : String) × (Map.get e.0 docs ≡ some doc)) ds
      → All IsServed (doc_resources ds)
  unfolding doc_resources
  doc_resources-IsServed [] h = tt
  doc_resources-IsServed ((id, d) ∷ ds) ((doc, h), hs) =
      (inl (id, doc, h, doc-IsServed id doc h), doc_resources-IsServed ds hs)

  listed_of-IsServed :
      (rs : List (String × Resource))
      → All (λ e. contains modules e.0 ≡ true → IsServed e.1) rs
      → All IsServed (listed_of modules rs)
  unfolding listed_of
  listed_of-IsServed [] h = tt
  listed_of-IsServed ((id, r) ∷ rs) (h, hs) = elim (Bool-cases (contains modules id)) [
    | inl y ↦ rw y (h y, listed_of-IsServed rs hs)
    | inr n ↦ rw n (listed_of-IsServed rs hs)
  ]

  static_resources-IsServed : All IsServed (listed_of modules static_resources)
  unfolding read_resource read_system_resource strip_prefix split_once with_period
  static_resources-IsServed = listed_of-IsServed static_resources (
    (λ y. inr ("system.health.summary", y, rw y refl)),
    (
      (λ y. inr ("system.usage.summary", y, rw y refl)),
      ((λ y. inr ("system.manifest.full", y, rw y refl)), tt),
    ),
  )

entries_found : (m : Map String) → All (λ e. (doc : String) × (Map.get e.0 m ≡ some doc)) m
entries_found [] = tt
entries_found ((id, d) ∷ m) = (
  found_here id d m,
  All-map _ _ (λ e (doc, h). found_in_tail id e.0 d doc m h) m (entries_found m),
)

-- Every resource that is listed can be read: one of the documentation with its text, and one of the
-- system by a call of its module, which the registry has.
pub list_resources-IsServed :
    {W : Type 0} (handle_call : String → Value → W → W × Reply) (modules : List String)
    (docs : Map String) (w : W)
    → All (IsServed handle_call modules docs w) (list_resources docs modules)
unfolding list_resources
list_resources-IsServed handle_call modules docs w =
    All-append (IsServed handle_call modules docs w) (doc_resources docs)
      (listed_of modules static_resources)
      (doc_resources-IsServed handle_call modules docs w docs (entries_found docs))
      (static_resources-IsServed handle_call modules docs w)
