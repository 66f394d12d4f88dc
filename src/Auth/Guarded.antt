-- ===== src/Auth/Guarded.antt =====
-- Which requests reach the service behind src/auth/middleware.rs, and as whom.
use apcore_mcp_rust.Prelude.{
  String, ◌≡◌, refl, sym, ap, ◌∙◌, ◌⊎◌, inl, inr, Bool, true, false, Option, none, some, List,
  arith, ◌==◌, starts_with, eq_iff, Bool-cases, Option-cases, any, contains,
}
use apcore_mcp_rust.Json.{Value}
use apcore_mcp_rust.Prelude.Map.{Map}
use apcore_mcp_rust.Prelude.Fallible.{Fallible, Fallible-cases, ok, ok_unique}
use apcore_mcp_rust.Auth.{Identity}
use apcore_mcp_rust.Auth.Jwt.{JwtAuthenticator, Validation, authenticate, payload_to_identity}
use apcore_mcp_rust.Auth.Verified.{IsVerified, authenticate-claims}
use apcore_mcp_rust.Auth.Middleware.{
  Request, Response, AuthLayer, extract_headers, build_401_response, is_path_exempt, is_open, serve,
  call,
}

-- The layer lets the request pass unauthenticated: its path is one of those that are named, or
-- begins with a prefix that is, or the request is a GET whose path begins with a prefix for GET.
abbrev pub IsExempt : AuthLayer → Request → Type 0
IsExempt layer req =
    (contains layer.exempt_paths req.path ≡ true)
    ⊎ ((any (λ prefix. starts_with req.path prefix) layer.exempt_prefixes ≡ true)
        ⊎ ((req.method ≡ "GET")
            × (any (λ prefix. starts_with req.path prefix) layer.exempt_get_prefixes ≡ true)))

is_open-IsExempt :
    (layer : AuthLayer) (req : Request) → is_open layer req ≡ true → IsExempt layer req
unfolding is_path_exempt
is_open-IsExempt layer req h = elim (Bool-cases (contains layer.exempt_paths req.path)) [
  | inl y ↦ inl y
  | inr n ↦ elim (Bool-cases (any (λ prefix. starts_with req.path prefix) layer.exempt_prefixes)) [
    | inl y ↦ inr (inl y)
    | inr m ↦ elim (Bool-cases (req.method == "GET")) [
      | inr g ↦ absurd (ground (arith, n, m, g))
      | inl g ↦ inr (inr ((eq_iff req.method "GET").0 g, ground (arith, n, m, g)))
    ]
  ]
]

module _ (print : Value → String) {Key : Type 0}
    (decode : String → Key → Validation → Fallible String (Map Value))
    (a : JwtAuthenticator Key) where
  abbrev pub jwt_layer : List String → List String → List String → Bool → AuthLayer
  jwt_layer paths prefixes get_prefixes require_auth = record {
    authenticator = authenticate print decode a;
    exempt_paths = paths;
    exempt_prefixes = prefixes;
    exempt_get_prefixes = get_prefixes;
    require_auth = require_auth;
  }

module _ (print : Value → String) {Key : Type 0}
    (decode : String → Key → Validation → Fallible String (Map Value)) (a : JwtAuthenticator Key)
    {E : Type 0} (inner : Option Identity → Request → Fallible E Response) where
  serve-known :
      (layer : AuthLayer) (req : Request) (who : Identity)
      → serve inner layer req (some who) ≡ inner (some who) req
  serve-known layer req who = elim (Bool-cases (is_open layer req)) [
    | inl y ↦ rw y refl
    | inr n ↦ rw n refl
  ]

  -- With the JWT authenticator, where it does not panic, a request is either refused with status
  -- 401, which happens only if authentication is required and the request is not exempt, or is
  -- served as no one, which then happens only if it is not required or the request is exempt, or as
  -- the identity of claims that the library has verified in a token of the request.
  pub call-guarded :
      (paths prefixes get_prefixes : List String) (require_auth : Bool) (req : Request)
      (answer : Fallible E Response)
      → call inner (jwt_layer print decode a paths prefixes get_prefixes require_auth) req
        ≡ ok answer
      → ((answer ≡ ok build_401_response)
          × (require_auth ≡ true)
          × (is_open (jwt_layer print decode a paths prefixes get_prefixes require_auth) req
              ≡ false))
        ⊎ (((answer ≡ inner none req)
              × ((require_auth ≡ false)
                  ⊎ IsExempt
                      (jwt_layer print decode a paths prefixes get_prefixes require_auth)
                      req))
            ⊎ ((who : Identity) × (claims : Map Value) × (answer ≡ inner (some who) req)
                × IsVerified print decode a (extract_headers req) claims
                × (payload_to_identity print a.claim_mapping claims ≡ some who)))
  unfolding call
  call-guarded paths prefixes get_prefixes require_auth req answer h =
      let layer = jwt_layer print decode a paths prefixes get_prefixes require_auth in
      elim (Fallible-cases (authenticate print decode a (extract_headers req))) [
        | inl (e, x) ↦ absurd (ground (arith, x))
        | inr (identity, x) ↦
            let served : serve inner layer req identity ≡ answer = ok_unique (rw (x, call) at h) in
            elim (Option-cases identity) [
              | inr (who, i) ↦
                  let (claims, v, q, named) =
                    authenticate-claims print decode a (extract_headers req) who (x ∙ ap ok i) in
                  inr (
                    inr (
                      who,
                      claims,
                      sym served ∙ ap (serve inner layer req) i ∙ serve-known layer req who,
                      v,
                      q,
                    ))
              | inl i ↦
                  let s : serve inner layer req none ≡ answer =
                    ap (serve inner layer req) (sym i) ∙ served in
                  elim (Bool-cases (is_open layer req)) [
                    | inl y ↦ inr (inl (sym (rw y at s), inr (is_open-IsExempt layer req y)))
                    | inr n ↦ elim (Bool-cases require_auth) [
                      | inl r ↦ inl (sym (rw (n, r) at s), r, n)
                      | inr r ↦ inr (inl (sym (rw (n, r) at s), inl r))
                    ]
                  ]
            ]
      ]
