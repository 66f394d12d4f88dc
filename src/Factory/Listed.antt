-- ===== src/Factory/Listed.antt =====
-- src/server/factory.rs: the handlers that list resources and templates, and what they list them
-- from; a resource that is listed can be read.
use apcore_mcp_rust.Prelude.{
  String, Bool, Option, none, some, List, [], ◌∷◌, ◌++◌, if◌then◌else◌, ◌<>◌, contains, is_blank,
}
use apcore_mcp_rust.Prelude.Map.{Map}
use apcore_mcp_rust.Prelude.Map
use apcore_mcp_rust.Wire.{Resource, ResourceTemplate}
use apcore_mcp_rust.Factory.{system_resource_modules, system_resource_template_modules}

abbrev pub json_resource : String → String → Resource
json_resource id name = record {
  uri = "apcore://" <> id;
  name = name;
  mime_type = "application/json";
}

abbrev pub json_template : String → String → ResourceTemplate
json_template rest name = record {
  uri_template = "apcore://" <> rest;
  name = name;
  mime_type = "application/json";
}

-- Each with its module.
abbrev pub static_resources : List (String × Resource)
static_resources =
    ("system.health.summary", json_resource "system.health.summary" "system.health.summary")
    ∷ (
      "system.usage.summary",
      json_resource "system.usage.summary" "system.usage.summary (optional ?period= query)",
    )
    ∷ ("system.manifest.full", json_resource "system.manifest.full" "system.manifest.full")
    ∷ []

abbrev pub static_templates : List (String × ResourceTemplate)
static_templates =
    (
      "system.health.module",
      json_template "system.health.module/{module_id}" "system.health.module",
    )
    ∷ (
      "system.usage.module",
      json_template "system.usage.module/{module_id}{?period}"
          "system.usage.module (optional ?period= query)",
    )
    ∷ (
      "system.manifest.module",
      json_template "system.manifest.module/{module_id}" "system.manifest.module",
    )
    ∷ []

-- The modules of the registry with their documentation, those with a text of it.
unfoldable pub docs_of : List String → (String → Option String) → Map String
unfolding Map.insert
docs_of [] documentation = []
docs_of (module_id ∷ ids) documentation =
    let rest = docs_of ids documentation in
    elim (documentation module_id) [
      | none ↦ rest
      | some doc ↦ if is_blank doc then rest else (module_id, doc) ∷ rest
    ]

unfoldable pub available_of : (String → Bool) → List String → List String
available_of has [] = []
available_of has (id ∷ ids) = let rest = available_of has ids in if has id then id ∷ rest else rest

-- Of the six read-only modules of the system, those that the registry has.
abbrev pub available : (String → Bool) → List String
available has = available_of has (system_resource_modules ++ system_resource_template_modules)

unfoldable pub doc_resources : Map String → List Resource
doc_resources [] = []
doc_resources ((module_id, doc) ∷ docs) =
    record {
      uri = "docs://" <> module_id;
      name = module_id <> " documentation";
      mime_type = "text/plain";
    }
    ∷ doc_resources docs

unfoldable pub listed_of {ℓ} : {A : Type ℓ} → List String → List (String × A) → List A
listed_of modules [] = []
listed_of modules ((id, a) ∷ rest) =
    let others = listed_of modules rest in if contains modules id then a ∷ others else others

unfoldable pub list_resources : Map String → List String → List Resource
unfolding doc_resources listed_of
list_resources docs modules = doc_resources docs ++ listed_of modules static_resources

unfoldable pub list_resource_templates : List String → List ResourceTemplate
unfolding listed_of
list_resource_templates modules = listed_of modules static_templates
