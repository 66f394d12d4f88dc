-- ===== src/Auth/Jwt.antt =====
-- src/auth/jwt.rs: the authenticator that verifies a JSON Web Token.
use apcore_mcp_rust.Prelude.{
  ℕ, String, Bool, true, false, not, Option, none, some, List, [], ◌∷◌, map, ltb, if◌then◌else◌,
  is_some, unwrap_or, is_empty, contains, is_blank,
}
use apcore_mcp_rust.Json.{Value, null, string, as_str, as_array, and_then}
use apcore_mcp_rust.Prelude.Map.{Map, get, insert, contains_key}
use apcore_mcp_rust.Prelude.Fallible.{Fallible, ok, err}
use apcore_mcp_rust.ApprovalStore.{map_option}
use apcore_mcp_rust.Auth.{Identity, index_out_of_bounds, not_a_char_boundary, Run, Authenticator}
use apcore_mcp_rust.Auth.Texts.{len, split_at, eq_ignore_ascii_case, trim}

pub record ClaimMapping : Type 0 where
  pub id_claim : String
  pub type_claim : String
  pub roles_claim : String
  pub attrs_claims : Option (List String)

abbrev pub default_mapping : ClaimMapping
default_mapping = record {
  id_claim = "sub";
  type_claim = "type";
  roles_claim = "roles";
  attrs_claims = none;
}

-- The algorithms of jsonwebtoken.
pub data Algorithm : Type 0 where
  hs256 hs384 hs512 rs256 rs384 rs512 ps256 ps384 ps512 es256 es384 ed_dsa : Algorithm

-- jsonwebtoken's `DecodingKey`.
pub record KeyApi (Key : Type 0) : Type 0 where
  pub from_secret : String → Key
  pub from_rsa_pem : String → Fallible String Key
  pub from_ec_pem : String → Fallible String Key
  pub from_ed_pem : String → Fallible String Key

-- What the code sets of jsonwebtoken's `Validation`.
pub record Validation : Type 0 where
  pub algorithms : List Algorithm
  pub leeway : ℕ
  pub validate_aud : Bool
  pub aud : Option (List String)
  pub iss : Option (List String)
  pub required_spec_claims : List String

pub record JwtAuthenticator (Key : Type 0) : Type 0 where
  pub key : Option Key
  pub algorithms : List Algorithm
  pub audience : Option String
  pub issuer : Option String
  pub claim_mapping : ClaimMapping
  pub require_claims : List String
  pub require_auth : Bool

abbrev pub to_option {ℓ} : {A : Type ℓ} → Fallible String A → Option A
to_option (err e) = none
to_option (ok a) = some a

abbrev pub primary : List Algorithm → Algorithm
primary [] = hs256
primary (a ∷ rest) = a

abbrev pub key_for : {Key : Type 0} → KeyApi Key → String → Algorithm → Fallible String Key
key_for api key hs256 = ok (api.from_secret key)
key_for api key hs384 = ok (api.from_secret key)
key_for api key hs512 = ok (api.from_secret key)
key_for api key es256 = api.from_ec_pem key
key_for api key es384 = api.from_ec_pem key
key_for api key ed_dsa = api.from_ed_pem key
key_for api key _ = api.from_rsa_pem key

abbrev pub build_decoding_key : {Key : Type 0} → KeyApi Key → String → List Algorithm → Option Key
build_decoding_key api key algorithms = to_option (key_for api key (primary algorithms))

unfoldable pub new :
    {Key : Type 0}
    → KeyApi Key
    → String
    → Option (List Algorithm)
    → (audience issuer : Option String) → Option ClaimMapping
    → Option (List String)
    → Option Bool
    → JwtAuthenticator Key
new api key algorithms audience issuer claim_mapping require_claims require_auth = record {
  key = build_decoding_key api key (unwrap_or algorithms (hs256 ∷ []));
  algorithms = unwrap_or algorithms (hs256 ∷ []);
  audience = audience;
  issuer = issuer;
  claim_mapping = unwrap_or claim_mapping default_mapping;
  require_claims = unwrap_or require_claims ("sub" ∷ []);
  require_auth = unwrap_or require_auth true;
}

abbrev pub spec_claims : List String
spec_claims = "exp" ∷ "nbf" ∷ "iat" ∷ "aud" ∷ "iss" ∷ "sub" ∷ []

-- The loop over the required claims.
unfoldable pub has_custom_claims : List String → Map Value → Bool
unfolding contains_key
has_custom_claims [] claims = true
has_custom_claims (required ∷ rest) claims =
    if contains spec_claims required
    then has_custom_claims rest claims
    else if not (contains_key required claims)
    then false
    else has_custom_claims rest claims

-- `Value::to_string` of what is no text is a parameter.
module _ (print : Value → String) where
  abbrev pub role_of : Value → String
  role_of (string s) = s
  role_of v = print v

  abbrev pub copied : Map Value → List String → Map Value → Map Value
  copied payload [] attrs = attrs
  copied payload (claim ∷ claims) attrs = elim (get claim payload) [
    | none ↦ copied payload claims attrs
    | some value ↦ copied payload claims (insert claim value attrs)
  ]

  abbrev pub type_of : Option String → String
  type_of none = "user"
  type_of (some s) = if not (is_blank s) then s else "user"

  abbrev pub id_of : Value → Option String
  id_of (string s) = some s
  id_of null = none
  id_of v = some (print v)

  abbrev pub the_identity : ClaimMapping → Map Value → String → Identity
  the_identity mapping payload id = record {
    id = id;
    identity_type = type_of (and_then (get mapping.type_claim payload) as_str);
    roles =
        unwrap_or
          (map_option (λ arr. map role_of arr)
            (and_then (get mapping.roles_claim payload) as_array))
          [];
    attrs = unwrap_or (map_option (λ claims. copied payload claims []) mapping.attrs_claims) [];
  }

  unfoldable pub payload_to_identity : ClaimMapping → Map Value → Option Identity
  payload_to_identity mapping payload =
      map_option (the_identity mapping payload) (and_then (get mapping.id_claim payload) id_of)

  -- `jsonwebtoken::decode` is a parameter.
  module _ {Key : Type 0} (decode : String → Key → Validation → Fallible String (Map Value)) where
    abbrev pub validation : JwtAuthenticator Key → Validation
    validation a = record {
      algorithms = a.algorithms;
      leeway = 30;
      validate_aud = is_some a.audience;
      aud = map_option (λ aud. aud ∷ []) a.audience;
      iss = map_option (λ iss. iss ∷ []) a.issuer;
      required_spec_claims = a.require_claims;
    }

    abbrev pub enforced : List String → Fallible String (Map Value) → Option (Map Value)
    enforced required (err e) = none
    enforced required (ok claims) = if has_custom_claims required claims then some claims else none

    unfoldable pub decode_token : JwtAuthenticator Key → String → Run (Option (Map Value))
    unfolding has_custom_claims
    decode_token a token = elim a.key [
      | none ↦ ok none
      | some key ↦
          if is_empty a.algorithms
          then err index_out_of_bounds
          else ok (enforced a.require_claims (decode token key (validation a)))
    ]

    abbrev pub authorization : Map String → Option String
    authorization [] = none
    authorization (header ∷ headers) =
        if eq_ignore_ascii_case header.0 "authorization"
        then some header.1
        else authorization headers

    -- The token after "Bearer "; none where there is none.
    unfoldable pub bearer_token : String → Run (Option String)
    unfolding len split_at eq_ignore_ascii_case trim
    bearer_token auth_header =
        if ltb (len auth_header) 7 then ok none else elim (split_at 7 auth_header) [
          | none ↦ err not_a_char_boundary
          | some parts ↦
              if not (eq_ignore_ascii_case parts.0 "bearer ")
              then ok none
              else if is_blank (trim parts.1)
              then ok none
              else ok (some (trim parts.1))
        ]

    abbrev pub identified : ClaimMapping → Option (Map Value) → Option Identity
    identified mapping payload = and_then payload (payload_to_identity mapping)

    abbrev pub with_token : JwtAuthenticator Key → Option String → Run (Option Identity)
    with_token a none = ok none
    with_token a (some token) = elim (decode_token a token) [
      | err e ↦ err e
      | ok payload ↦ ok (identified a.claim_mapping payload)
    ]

    unfoldable pub authenticate : JwtAuthenticator Key → Authenticator
    unfolding bearer_token decode_token payload_to_identity
    authenticate a headers = elim (authorization headers) [
      | none ↦ ok none
      | some auth_header ↦ elim (bearer_token auth_header) [
        | err e ↦ err e
        | ok token ↦ with_token a token
      ]
    ]
