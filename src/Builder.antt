-- ===== src/Builder.antt =====
-- src/apcore_mcp.rs: the configuration, the builder and what it checks; and the sections that
-- src/config.rs reads of the configuration's namespace mcp.
pub mod Build
pub mod Valid
pub mod Guarded
mod Examples
use apcore_mcp_rust.Prelude.{
  ℕ, ◌-◌, String, code, Bool, true, false, not, ◌&&◌, Option, none, some, List, [], ◌∷◌, ltb, leb,
  eqb, if◌then◌else◌, any, is_empty, is_blank, count,
}
use apcore_mcp_rust.Prelude.Fallible.{Fallible, ok, err}
use apcore_mcp_rust.Json.{Value, Fields, get, is_null, as_array}
use apcore_mcp_rust.Acl.{keep_if}
use apcore_mcp_rust.Router.{OutputFormat, json_format}
use apcore_mcp_rust.OpenAi.Tools.{ConverterError}

-- The registry and the executor are apcore's; of the executor's `Arc` it matters whether another
-- one shares it.
pub data BackendSource (R E : Type 0) : Type 0 where
  extensions_dir : String → BackendSource R E
  registry : R → BackendSource R E
  executor : (is_shared : Bool) → E → BackendSource R E

pub data ApCoreMcpError : Type 0 where
  empty_name empty_tag empty_prefix invalid_explorer_prefix : ApCoreMcpError
  name_too_long : ℕ → ApCoreMcpError
  invalid_log_level backend_resolution config_error unknown_transport server_error :
      String → ApCoreMcpError
  converter_error : ConverterError → ApCoreMcpError

abbrev pub Result {ℓ} : Type ℓ → Type ℓ
Result A = Fallible ApCoreMcpError A

pub record ApCoreMcpConfig : Type 0 where
  pub name : String
  pub version : Option String
  pub transport : String
  pub host : String
  pub port : ℕ
  pub tags : Option (List String)
  pub prefix : Option String
  pub log_level : Option String
  pub validate_inputs : Bool
  pub redact_output : Bool
  pub require_auth : Bool
  pub exempt_paths : Option (List String)
  pub explorer : Bool
  pub explorer_prefix : String
  pub explorer_title : String
  pub explorer_project_name : Option String
  pub explorer_project_url : Option String
  pub allow_execute : Bool
  pub output_format : OutputFormat
  pub strategy : Option String
  pub trace : Bool
  pub observability : Bool

abbrev pub default_config : ApCoreMcpConfig
default_config = record {
  name = "apcore-mcp";
  version = none;
  transport = "stdio";
  host = "127.0.0.1";
  port = 8000;
  tags = none;
  prefix = none;
  log_level = none;
  validate_inputs = false;
  redact_output = true;
  require_auth = true;
  exempt_paths = none;
  explorer = false;
  explorer_prefix = "/explorer";
  explorer_title = "APCore MCP Explorer";
  explorer_project_name = some "apcore-mcp";
  explorer_project_url = some "https://github.com/aiperceivable/apcore-mcp-rust";
  allow_execute = false;
  output_format = json_format;
  strategy = none;
  trace = false;
  observability = false;
}

abbrev pub valid_log_levels : List String
valid_log_levels = "CRITICAL" ∷ "DEBUG" ∷ "ERROR" ∷ "INFO" ∷ "WARNING" ∷ []

-- The code of the upper case of a character, where that is a letter of ASCII: of a small letter, of
-- the dotless i and of the long s. The ligatures give two letters, next to each other in no level.
abbrev pub upper : ℕ → ℕ
upper c =
    if leb 97 c && leb c 122 then c - 32 else if eqb c 305 then 73 else if eqb c 383 then 83 else c

-- `to_uppercase` of the first is the second.
unfoldable pub is_upper : String → String → Bool
is_upper String.[] t = is_blank t
is_upper (String.◌∷◌ c s) String.[] = false
is_upper (String.◌∷◌ c s) (String.◌∷◌ d t) = eqb (upper (code c)) (code d) && is_upper s t

unfoldable pub is_log_level : String → Bool
unfolding is_upper
is_log_level level = any (is_upper level) valid_log_levels

abbrev pub exists {ℓ} : {A : Type ℓ} → (A → Bool) → Option A → Bool
exists p none = false
exists p (some a) = p a

unfoldable pub check_log_level : Option String → Result (Unit {0})
unfolding is_log_level
check_log_level none = ok tt
check_log_level (some level) = if is_log_level level then ok tt else err (invalid_log_level level)

-- The checks of `build`, in their order.
unfoldable pub validate : ApCoreMcpConfig → Result (Unit {0})
unfolding check_log_level
validate c =
    if is_blank c.name
    then err empty_name
    else if ltb 255 (count c.name)
    then err (name_too_long (count c.name))
    else if exists (any is_blank) c.tags
    then err empty_tag
    else if exists is_blank c.prefix
    then err empty_prefix
    else check_log_level c.log_level

-- A section of the namespace mcp of the configuration, which is empty where none is found.
abbrev pub section : String → Fields → Option Value
section key mcp = keep_if (λ v. not (is_null v)) (get key mcp)

abbrev pub get_pipeline_config : Fields → Option Value
get_pipeline_config mcp = section "pipeline" mcp

abbrev pub get_middleware_config : Fields → Option Value
get_middleware_config mcp =
    keep_if (λ v. not (is_null v) && exists (λ vs. not (is_empty vs)) (as_array v))
      (get "middleware" mcp)

abbrev pub get_acl_config : Fields → Option Value
get_acl_config mcp = section "acl" mcp
