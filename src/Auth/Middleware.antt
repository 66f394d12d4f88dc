-- ===== src/Auth/Middleware.antt =====
-- src/auth/middleware.rs: the layer that authenticates a request before it is served.
use apcore_mcp_rust.Prelude.{
  ℕ, String, Bool, true, not, ◌&&◌, ◌||◌, Option, none, some, List, [], ◌∷◌, ◌==◌, starts_with,
  if◌then◌else◌, is_some, any, contains,
}
use apcore_mcp_rust.Json.{Value, string, json}
use apcore_mcp_rust.Prelude.Map.{Map, insert}
use apcore_mcp_rust.Prelude.Fallible.{Fallible, ok, err}
use apcore_mcp_rust.Auth.{Identity, Run, Authenticator}

-- A header's value is its text where it is one (`HeaderValue::to_str`).
pub record Request : Type 0 where
  pub method : String
  pub path : String
  pub headers : List (String × Option String)

pub record Response : Type 0 where
  pub status : ℕ
  pub headers : List (String × String)
  pub body : Value

abbrev pub collect : Map String → List (String × Option String) → Map String
collect m [] = m
collect m (header ∷ headers) = elim header.1 [
  | none ↦ collect m headers
  | some v ↦ collect (insert header.0 v m) headers
]

unfoldable pub extract_headers : Request → Map String
extract_headers req = collect [] req.headers

abbrev pub build_401_response : Response
build_401_response = record {
  status = 401;
  headers = ("content-type", "application/json") ∷ ("www-authenticate", "Bearer") ∷ [];
  body = json (
      ("error", string "Unauthorized") ∷ ("detail", string "Missing or invalid Bearer token") ∷ []);
}

pub record AuthLayer : Type 0 where
  pub authenticator : Authenticator
  pub exempt_paths : List String
  pub exempt_prefixes : List String
  pub exempt_get_prefixes : List String
  pub require_auth : Bool

abbrev pub new_layer : Authenticator → AuthLayer
new_layer authenticator = record {
  authenticator = authenticator;
  exempt_paths = "/health" ∷ "/metrics" ∷ [];
  exempt_prefixes = [];
  exempt_get_prefixes = [];
  require_auth = true;
}

-- The builder's methods `exempt_paths`, `exempt_prefixes`, `exempt_get_prefixes` and `require_auth`.
abbrev pub with_exempt_paths : List String → AuthLayer → AuthLayer
with_exempt_paths paths layer = record layer { exempt_paths = paths }

abbrev pub with_exempt_prefixes : List String → AuthLayer → AuthLayer
with_exempt_prefixes prefixes layer = record layer { exempt_prefixes = prefixes }

abbrev pub with_exempt_get_prefixes : List String → AuthLayer → AuthLayer
with_exempt_get_prefixes prefixes layer = record layer { exempt_get_prefixes = prefixes }

abbrev pub with_require_auth : Bool → AuthLayer → AuthLayer
with_require_auth require layer = record layer { require_auth = require }

unfoldable pub is_path_exempt : String → List String → List String → Bool
is_path_exempt path exempt_paths exempt_prefixes =
    if contains exempt_paths path
    then true
    else any (λ prefix. starts_with path prefix) exempt_prefixes

abbrev pub is_get_exempt : Request → List String → Bool
is_get_exempt req exempt_get_prefixes =
    req.method == "GET" && any (λ prefix. starts_with req.path prefix) exempt_get_prefixes

abbrev pub is_open : AuthLayer → Request → Bool
is_open layer req =
    is_path_exempt req.path layer.exempt_paths layer.exempt_prefixes
    || is_get_exempt req layer.exempt_get_prefixes

-- The service within, which reads the identity of its scope, is a parameter.
module _ {E : Type 0} (inner : Option Identity → Request → Fallible E Response) where
  abbrev pub serve : AuthLayer → Request → Option Identity → Fallible E Response
  serve layer req identity =
      if is_open layer req
      then inner identity req
      else if not (is_some identity) && layer.require_auth
      then ok build_401_response
      else inner identity req

  unfoldable pub call : AuthLayer → Request → Run (Fallible E Response)
  unfolding extract_headers is_path_exempt
  call layer req = elim (layer.authenticator (extract_headers req)) [
    | err e ↦ err e
    | ok identity ↦ ok (serve layer req identity)
  ]
