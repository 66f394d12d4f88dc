-- ===== src/Auth/Examples.antt =====
-- A token of one user, for src/auth.
use apcore_mcp_rust.Prelude.{
  String, ◌≡◌, refl, subst, ◌↔◌, ◌⊎◌, inl, inr, Bool, true, false, not, ◌&&◌, ◌||◌, Option, none,
  some, List, [], ◌∷◌, arith, ◌==◌, eq_iff, if◌then◌else◌, Bool-cases, Option-cases, is_some, all,
  contains,
}
use apcore_mcp_rust.Json.{Value, string, and_then}
use apcore_mcp_rust.Prelude.Map.{Map, get, insert, contains_key}
use apcore_mcp_rust.Prelude.Fallible.{Fallible, ok, err, err-ne-ok, ok_unique}
use apcore_mcp_rust.Auth.{Identity, index_out_of_bounds}
use apcore_mcp_rust.Auth.Texts.{len, split_at, eq_ignore_ascii_case, trim, trim_start, trim_end}
use apcore_mcp_rust.Auth.Jwt.{
  KeyApi, Algorithm, JwtAuthenticator, Validation, new, has_custom_claims, payload_to_identity,
  id_of, decode_token, bearer_token, authenticate,
}
use apcore_mcp_rust.Auth.Middleware.{
  Request, Response, extract_headers, build_401_response, is_path_exempt, is_open, call,
}
use apcore_mcp_rust.Auth.Verified.{
  IsVerified, HasRequired, enforced_claims, authenticate-IsVerified,
}
use apcore_mcp_rust.Auth.Guarded.{IsExempt, jwt_layer, call-guarded}
use apcore_mcp_rust.Auth.Panics.{new-panics_iff}

-- Keys are texts, and the token "t1" is alice's under the secret.
abbrev keys : KeyApi String
keys = record {
  from_secret = λ secret. secret;
  from_rsa_pem = λ pem. err "no PEM";
  from_ec_pem = λ pem. err "no PEM";
  from_ed_pem = λ pem. err "no PEM";
}

abbrev claims : Map Value
claims = ("sub", string "alice") ∷ ("type", string "human") ∷ []

-- The claim is in the token if it is required.
abbrev is_there : List String → String → Bool
is_there required name = not (contains required name) || is_some (get name claims)

abbrev decodes : String → String → Validation → Fallible String (Map Value)
decodes token key settings =
    if token == "t1"
      && key == "secret"
      && all (is_there settings.required_spec_claims) enforced_claims
    then ok claims
    else err "invalid token"

abbrev prints : Value → String
prints v = "value"

abbrev authenticator : JwtAuthenticator String
authenticator = new keys "secret" none none none none none none

abbrev alice : Identity
alice = record { id = "alice"; identity_type = "human"; roles = []; attrs = [] }

abbrev request : Request
request = record {
  method = "POST";
  path = "/mcp";
  headers = ("authorization", some "Bearer t1") ∷ [];
}

abbrev serves : Option Identity → Request → Fallible String Response
serves identity req = ok (record { status = 200; headers = []; body = string "served" })

names : Unit {0}
unfolding new has_custom_claims payload_to_identity decode_token bearer_token authenticate
    extract_headers is_path_exempt call len split_at eq_ignore_ascii_case trim trim_start trim_end
    get insert contains_key
names = tt

authenticates :
    authenticate prints decodes authenticator (extract_headers request) ≡ ok (some alice)
unfolding names
authenticates = refl

answers :
    call serves (jwt_layer prints decodes authenticator ("/health" ∷ []) [] [] true) request
    ≡ ok (serves (some alice) request)
unfolding names
answers = refl

first_true : (a b : Bool) → a && b ≡ true → a ≡ true
first_true a b h = ground arith

rest_true : (a b : Bool) → a && b ≡ true → b ≡ true
rest_true a b h = ground arith

decoded-eq-ok :
    (b : Bool) (x : Map Value) (e : String) (c : Map Value)
    → (if b then ok x else err e) ≡ ok c
    → (b ≡ true) × (x ≡ c)
decoded-eq-ok true x e c h = (refl, ok_unique h)
decoded-eq-ok false x e c h = absurd (err-ne-ok h)

required_there :
    (name : String) (b : Bool)
    → b ≡ true
    → not b || is_some (get name claims) ≡ true
    → (value : Value) × (get name claims ≡ some value)
required_there name b y h = elim (Option-cases (get name claims)) [
  | inl e ↦ cc (rw (y, e) at h)
  | inr (value, e) ↦ (value, e)
]

all-holds :
    (p : String → Bool) (xs : List String) (x : String)
    → all p xs ≡ true
    → contains xs x ≡ true
    → p x ≡ true
all-holds p [] x h k = cc
all-holds p (y ∷ ys) x h k = elim (Bool-cases (y == x)) [
  | inl e ↦ subst (λ z. p z ≡ true) ((eq_iff y x).0 e) (first_true (p y) (all p ys) h)
  | inr n ↦ all-holds p ys x (rest_true (p y) (all p ys) h) (rw n at k)
]

-- A token that is decoded has the claims that are required and enforced.
decodes-enforces :
    (token key : String) (v : Validation) (c : Map Value) (name : String)
    → decodes token key v ≡ ok c
    → contains enforced_claims name ≡ true
    → contains v.required_spec_claims name ≡ true
    → (value : Value) × (get name c ≡ some value)
decodes-enforces token key v c name h k r =
    let all_there = all (is_there v.required_spec_claims) enforced_claims in
    let known = token == "t1" && key == "secret" in
    let (b, e) = decoded-eq-ok (known && all_there) claims "invalid token" c h in
    let there = rest_true known all_there b in
    subst (λ m. (value : Value) × (get name m ≡ some value)) e
      (required_there name (contains v.required_spec_claims name) r
        (all-holds (is_there v.required_spec_claims) enforced_claims name there k))

authenticate-IsVerified_example :
    (c : Map Value) × IsVerified prints decodes authenticator (extract_headers request) c
    × HasRequired c authenticator.require_claims
    × (payload_to_identity prints authenticator.claim_mapping c ≡ some alice)
    × (and_then (get authenticator.claim_mapping.id_claim c) (id_of prints) ≡ some alice.id)
authenticate-IsVerified_example =
    authenticate-IsVerified prints decodes authenticator decodes-enforces (extract_headers request)
      alice authenticates

call-guarded_example :
    ((serves (some alice) request ≡ ok build_401_response)
      × (true ≡ true)
      × (is_open (jwt_layer prints decodes authenticator ("/health" ∷ []) [] [] true) request
          ≡ false))
    ⊎ (((serves (some alice) request ≡ serves none request)
          × ((true ≡ false)
              ⊎ IsExempt
                  (jwt_layer prints decodes authenticator ("/health" ∷ []) [] [] true)
                  request))
        ⊎ ((who : Identity) × (c : Map Value) × (serves (some alice) request
              ≡ serves (some who) request)
            × IsVerified prints decodes authenticator (extract_headers request) c
            × (payload_to_identity prints authenticator.claim_mapping c ≡ some who)))
call-guarded_example =
    call-guarded prints decodes authenticator serves ("/health" ∷ []) [] [] true request
      (serves (some alice) request) answers

new-panics_iff_example :
    (decode_token prints decodes (new keys "secret" (some []) none none none none none) "t1"
      ≡ err index_out_of_bounds)
    ↔ (◌≡◌ {A = Option (List Algorithm)} (some []) (some []))
new-panics_iff_example =
    new-panics_iff prints decodes keys "secret" (some []) none none none none none "t1"
