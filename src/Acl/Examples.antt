-- ===== src/Acl/Examples.antt =====
-- A section mcp.acl with one rule, for src/acl_builder.rs.
use apcore_mcp_rust.Prelude.{String, ◌≡◌, refl, none, some, List, [], ◌∷◌, join}
use apcore_mcp_rust.Json
use apcore_mcp_rust.Json.{Value, string, array, json, to_items, number, Number}
use apcore_mcp_rust.Prelude.Fallible.{ok}
use apcore_mcp_rust.Acl.{
  AclRule, Printers, Checked, build_acl_from_config, build_from, build_list, read_rules, read_rule,
  read_effect, check_approval, check_conditions, read_approval,
}
use apcore_mcp_rust.Acl.Built.{IsBuilt, build_acl_from_config-IsBuilt}

abbrev printers : Printers
printers = record {
  show = λ n. "0";
  debug = λ s. s;
  debug_list = λ ss. join ", " ss;
  print = λ v. "value";
}

abbrev takes : List AclRule → String → Checked (List AclRule)
takes rules default_effect = ok rules

abbrev config : Value
config = json (
    ("default_effect", string "allow")
    ∷ (
      "rules",
      array (
          to_items (
            json (
              ("callers", array (to_items (string "*" ∷ number (Number.pos_int 5) ∷ [])))
              ∷ ("targets", array (to_items (string "system.*" ∷ [])))
              ∷ ("effect", string "deny")
              ∷ [])
            ∷ [])),
    )
    ∷ [])

-- The caller that is no text is not among the rule's.
abbrev rule : AclRule
rule = record {
  callers = "*" ∷ [];
  targets = "system.*" ∷ [];
  effect = "deny";
  approval = none;
  description = none;
  conditions = none;
}

builds : build_acl_from_config printers takes (some config) ≡ ok (some (rule ∷ []))
unfolding build_acl_from_config build_from build_list read_rules read_rule read_effect
    check_approval check_conditions read_approval Json.get Json.insert Json.fields_of
    Json.contains_key join
builds = refl

build_acl_from_config-IsBuilt_example : IsBuilt takes (some config) (rule ∷ [])
build_acl_from_config-IsBuilt_example =
    build_acl_from_config-IsBuilt takes printers (some config) (rule ∷ []) builds
