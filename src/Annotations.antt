-- ===== src/Annotations.antt =====
-- src/adapters/annotations.rs: the hints of MCP and the suffix of a description.
use apcore_mcp_rust.Prelude.{
  ℕ, String, Bool, true, false, not, ◌&&◌, Option, none, some, List, [], ◌∷◌, ◌++◌, map, ◌==◌,
  starts_with, eqb, if◌then◌else◌, is_empty, ◌<>◌, join,
}
use Prim.Native.Nat.{Ordering}
use Prim.Native.String.{len, slice, compare}
use apcore_mcp_rust.Prelude.Map.{Map}
use apcore_mcp_rust.Json.{Value, as_str}

-- apcore's `ModuleAnnotations`.
pub record ModuleAnnotations : Type 0 where
  pub readonly : Bool
  pub destructive : Bool
  pub idempotent : Bool
  pub requires_approval : Bool
  pub open_world : Bool
  pub streaming : Bool
  pub cacheable : Bool
  pub cache_ttl : ℕ
  pub cache_key_fields : Option (List String)
  pub paginated : Bool
  pub pagination_style : String
  pub extra : Map Value

pub record McpAnnotations : Type 0 where
  pub read_only_hint : Bool
  pub destructive_hint : Bool
  pub idempotent_hint : Bool
  pub open_world_hint : Bool
  pub title : Option String

unfoldable pub to_mcp_annotations : Option ModuleAnnotations → McpAnnotations
to_mcp_annotations none = record {
  read_only_hint = false;
  destructive_hint = false;
  idempotent_hint = false;
  open_world_hint = true;
  title = none;
}
to_mcp_annotations (some a) = record {
  read_only_hint = a.readonly;
  destructive_hint = a.destructive;
  idempotent_hint = a.idempotent;
  open_world_hint = a.open_world;
  title = none;
}

unfoldable pub has_requires_approval : Option ModuleAnnotations → Bool
has_requires_approval none = false
has_requires_approval (some a) = a.requires_approval

abbrev destructive_warning : String
destructive_warning =
    "WARNING: DESTRUCTIVE - This operation may irreversibly modify or delete data. Confirm with user before calling."

abbrev approval_warning : String
approval_warning = "REQUIRES APPROVAL: Human confirmation is required before execution."

-- One push under a test.
abbrev pub when : Bool → String → List String
when b s = if b then s ∷ [] else []

unfoldable pub warnings : ModuleAnnotations → List String
warnings a = when a.destructive destructive_warning ++ when a.requires_approval approval_warning

abbrev same : Bool → Bool → Bool
same true b = b
same false b = not b

abbrev text_of : Bool → String
text_of true = "true"
text_of false = "false"

abbrev flag : String → Bool → Bool → List String
flag name b default = when (not (same b default)) (name <> "=" <> text_of b)

abbrev same_list : List String → List String → Bool
same_list [] [] = true
same_list (s ∷ ss) (t ∷ ts) = s == t && same_list ss ts
same_list _ _ = false

abbrev same_fields : Option (List String) → Option (List String) → Bool
same_fields none none = true
same_fields (some ss) (some ts) = same_list ss ts
same_fields _ _ = false

abbrev cache_keys : Option (List String) → Option (List String) → List String
unfolding join
cache_keys (some fields) default =
    when (not (same_fields (some fields) default)) ("cache_key_fields=[" <> join "," fields <> "]")
cache_keys none default = []

-- The extension keys with a text, sorted by key.
abbrev place_by_key : String × String → List (String × String) → List (String × String)
place_by_key e [] = e ∷ []
place_by_key e (f ∷ rest) = elim (compare e.0 f.0) [
  | Ordering.lt ↦ e ∷ f ∷ rest
  | Ordering.eq ↦ e ∷ f ∷ rest
  | Ordering.gt ↦ f ∷ place_by_key e rest
]

unfoldable pub mcp_extras : Map Value → List (String × String)
mcp_extras [] = []
mcp_extras ((k, v) ∷ rest) =
    let others = mcp_extras rest in
    if starts_with k "mcp_"
    then elim (as_str v) [ none ↦ others | some s ↦ place_by_key (k, s) others ]
    else others

abbrev extra_section : String × String → String
extra_section e = slice e.0 4 (len e.0) <> ": " <> e.1

-- `show` is `{}` of a number, `defaults` is `ModuleAnnotations::default()`.
module _ (show : ℕ → String) (defaults : ModuleAnnotations) where
  unfoldable pub parts : ModuleAnnotations → List String
  unfolding join
  parts a =
      flag "readonly" a.readonly defaults.readonly
      ++ flag "destructive" a.destructive defaults.destructive
      ++ flag "idempotent" a.idempotent defaults.idempotent
      ++ flag "requires_approval" a.requires_approval defaults.requires_approval
      ++ flag "open_world" a.open_world defaults.open_world
      ++ flag "streaming" a.streaming defaults.streaming
      ++ flag "cacheable" a.cacheable defaults.cacheable
      ++ when (not (eqb a.cache_ttl defaults.cache_ttl)) ("cache_ttl=" <> show a.cache_ttl)
      ++ cache_keys a.cache_key_fields defaults.cache_key_fields
      ++ flag "paginated" a.paginated defaults.paginated
      ++ when (not (a.pagination_style == defaults.pagination_style))
          ("pagination_style=" <> a.pagination_style)

  unfoldable pub sections : ModuleAnnotations → List String
  unfolding join warnings parts mcp_extras
  sections a =
      when (not (is_empty (warnings a))) (join "\n" (warnings a))
      ++ when (not (is_empty (parts a))) ("[Annotations: " <> join ", " (parts a) <> "]")
      ++ map extra_section (mcp_extras a.extra)

  unfoldable pub to_description_suffix : Option ModuleAnnotations → String
  unfolding join sections warnings parts mcp_extras
  to_description_suffix none = ""
  to_description_suffix (some a) =
      if is_empty (warnings a) && is_empty (parts a) && is_empty (mcp_extras a.extra)
      then ""
      else "\n\n" <> join "\n\n" (sections a)
