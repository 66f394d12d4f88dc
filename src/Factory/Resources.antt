-- ===== src/Factory/Resources.antt =====
-- src/server/factory.rs: the reads of resources, over the router's handle_call.
use apcore_mcp_rust.Prelude.{
  String, not, ◌||◌, Option, none, some, List, [], ◌∷◌, ◌==◌, starts_with, if◌then◌else◌, unwrap_or,
  ◌<>◌, join, contains, is_blank, strip_prefix, split_once, split,
}
use apcore_mcp_rust.Prelude.Map.{Map}
use apcore_mcp_rust.Prelude.Map
use apcore_mcp_rust.Prelude.Fallible.{ok, err}
use apcore_mcp_rust.Json.{Value, string, object, Fields, end, insert, as_str, and_then}
use apcore_mcp_rust.Wire.{ReadResourceContents}
use apcore_mcp_rust.Router.{ContentItem, Reply}
use apcore_mcp_rust.Factory.{
  resource_not_found, unsupported_scheme, other_error, Result, system_resource_modules,
  system_resource_template_modules,
}

unfoldable pub find_period : List String → Option String
unfolding split_once
find_period [] = none
find_period (kv ∷ rest) =
    let found = find_period rest in
    elim (split_once "=" kv) [
      | none ↦ found
      | some (k, v) ↦ if k == "period" then some v else found
    ]

abbrev pub path_and_query : String → String × Option String
unfolding split_once
path_and_query rest = elim (split_once "?" rest) [ none ↦ (rest, none) | some (p, q) ↦ (p, some q) ]

-- The arguments with the period, for the module that takes one.
unfoldable pub with_period : String → String → Option String → Fields → Fields
unfolding insert
with_period usage module_id period args =
    if module_id == usage
    then elim period [ none ↦ args | some p ↦ insert "period" (string p) args ]
    else args

unfoldable pub text_parts : List ContentItem → List String
text_parts [] = []
text_parts (item ∷ items) =
    let rest = text_parts items in
    if item.content_type == "text"
    then elim (as_str item.data_of) [ none ↦ rest | some s ↦ s ∷ rest ]
    else rest

-- `handle_call` of the router, over the state that it changes, and the modules that the registry
-- has of the six.
module _ {W : Type 0} (handle_call : String → Value → W → W × Reply) (available : List String) where
  unfoldable pub call_router_as_resource :
      String → Value → String → W → W × Result (List ReadResourceContents)
  unfolding join text_parts
  call_router_as_resource module_id arguments uri w =
      let called = handle_call module_id arguments w in
      let text = join "" (text_parts called.1.0) in
      (
        called.0,
        (if called.1.1
            then err (other_error (uri <> ": " <> text))
            else ok (record { content = text; mime_type = "application/json" } ∷ [])),
      )

  unfoldable pub read_templated :
      List String → String → Option String → String → W → W × Result (List ReadResourceContents)
  unfolding strip_prefix call_router_as_resource with_period insert
  read_templated [] path period uri w = (w, err (resource_not_found uri))
  read_templated (template_module_id ∷ ids) path period uri w =
      elim (strip_prefix (template_module_id <> "/") path) [
        | none ↦ read_templated ids path period uri w
        | some target ↦
            if is_blank target || not (contains available template_module_id)
            then (w, err (resource_not_found uri))
            else call_router_as_resource template_module_id
                (object (
                  with_period "system.usage.module" template_module_id period
                    (insert "module_id" (string target) end)))
                uri w
      ]

  unfoldable pub read_system_resource : String → W → W × Result (List ReadResourceContents)
  unfolding strip_prefix find_period split read_templated call_router_as_resource with_period
  read_system_resource uri w =
      let (path, query) = path_and_query (unwrap_or (strip_prefix "apcore://" uri) uri) in
      let period = and_then query (λ q. find_period (split "&" q)) in
      if contains system_resource_modules path
      then if not (contains available path)
        then (w, err (resource_not_found uri))
        else call_router_as_resource path
            (object (with_period "system.usage.summary" path period end)) uri w
      else read_templated system_resource_template_modules path period uri w

  -- `read_resource_handler`, with the documentation by module.
  unfoldable pub read_resource : Map String → String → W → W × Result (List ReadResourceContents)
  unfolding strip_prefix Map.get read_system_resource
  read_resource docs uri w = elim (strip_prefix "docs://" uri) [
    | some module_id ↦ elim (Map.get module_id docs) [
      | some doc ↦ (w, ok (record { content = doc; mime_type = "text/plain" } ∷ []))
      | none ↦ (w, err (resource_not_found uri))
    ]
    | none ↦
        if starts_with uri "apcore://"
        then read_system_resource uri w
        else (w, err (unsupported_scheme uri))
  ]
