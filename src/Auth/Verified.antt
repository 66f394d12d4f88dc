-- ===== src/Auth/Verified.antt =====
-- What stands behind an identity that src/auth/jwt.rs returns.
use apcore_mcp_rust.Prelude.{
  String, ◌≡◌, refl, sym, ap, ◌∙◌, subst, ◌⊎◌, inl, inr, Bool, true, false, ◌||◌, some, List, [],
  ◌∷◌, arith, ◌==◌, eq_iff, eq_refl, ltb, Bool-cases, Option-cases, some_unique, is_empty, All,
  All-map, contains, is_blank,
}
use apcore_mcp_rust.Json.{Value, and_then}
use apcore_mcp_rust.Prelude.Map.{Map, get, contains_key}
use apcore_mcp_rust.Prelude.Fallible.{Fallible, Fallible-cases, ok, ok_unique}
use apcore_mcp_rust.Auth.{Identity}
use apcore_mcp_rust.Auth.Texts.{len, split_at, eq_ignore_ascii_case, trim}
use apcore_mcp_rust.Auth.Jwt.{
  JwtAuthenticator, Validation, ClaimMapping, spec_claims, has_custom_claims, payload_to_identity,
  the_identity, id_of, validation, decode_token, authorization, bearer_token, with_token,
  authenticate,
}

-- Some header of the request is an authorization, by any case of its name, with this value.
abbrev pub IsSent : String → Map String → Type 0
IsSent value [] = ⊥
IsSent value (header ∷ headers) =
    ((eq_ignore_ascii_case header.0 "authorization" ≡ true) × (header.1 ≡ value))
    ⊎ IsSent value headers

-- The value is "Bearer ", by any case, and then the token, which is not blank, among blanks.
abbrev pub IsBearer : String → String → Type 0
IsBearer token value =
    (scheme : String) × (rest : String) × (split_at 7 value ≡ some (scheme, rest))
    × (eq_ignore_ascii_case scheme "bearer " ≡ true)
    × (is_blank (trim rest) ≡ false)
    × (token ≡ trim rest)

-- Of the required claims, those that jsonwebtoken does not know of are there.
abbrev pub HasClaims : Map Value → List String → Type 0
HasClaims claims = All (λ required.
    (contains spec_claims required ≡ true) ⊎ ((v : Value) × (get required claims ≡ some v)))

-- The claims whose presence jsonwebtoken enforces where they are required; it ignores all others,
-- "iat" among them.
abbrev pub enforced_claims : List String
enforced_claims = "exp" ∷ "nbf" ∷ "aud" ∷ "iss" ∷ "sub" ∷ []

-- Every required claim but "iat" is there.
abbrev pub HasRequired : Map Value → List String → Type 0
HasRequired claims =
    All (λ required. (required ≡ "iat") ⊎ ((v : Value) × (get required claims ≡ some v)))

without_third :
    (a b c d e f : Bool)
    → c ≡ false
    → a || (b || (c || (d || (e || (f || false))))) ≡ true
    → a || (b || (d || (e || (f || false)))) ≡ true
without_third a b c d e f n h = ground arith

spec_claim-cases :
    (c : String) → contains spec_claims c ≡ true → (c ≡ "iat") ⊎ (contains enforced_claims c ≡ true)
spec_claim-cases c h = elim (Bool-cases ("iat" == c)) [
  | inl y ↦ inl (sym ((eq_iff "iat" c).0 y))
  | inr n ↦ inr (
      without_third ("exp" == c) ("nbf" == c) ("iat" == c) ("aud" == c) ("iss" == c) ("sub" == c) n
        h)
]

contains_later :
    (x : String) (xs : List String) (n : String) → contains xs n ≡ true → contains (x ∷ xs) n ≡ true
contains_later x xs n h = ground arith

All-contained : (xs : List String) → All (λ n. contains xs n ≡ true) xs
All-contained [] = tt
All-contained (x ∷ xs) = (
  rw (eq_refl x) refl,
  All-map (λ n. contains xs n ≡ true) (λ n. contains (x ∷ xs) n ≡ true) (contains_later x xs) xs
      (All-contained xs),
)

module _ (print : Value → String) {Key : Type 0}
    (decode : String → Key → Validation → Fallible String (Map Value))
    (a : JwtAuthenticator Key) where
  -- The claims that the library has verified, with the configured key, in a token of the request.
  pub record IsVerified (headers : Map String) (claims : Map Value) : Type 0 where
    pub value : String
    pub token : String
    pub sent : IsSent value headers
    pub bearer : IsBearer token value
    pub key : Key
    pub configured : a.key ≡ some key
    pub verified : decode token key (validation print decode a) ≡ ok claims
    pub required : HasClaims claims a.require_claims

  authorization-IsSent :
      (headers : Map String) (value : String)
      → authorization print decode headers ≡ some value
      → IsSent value headers
  authorization-IsSent [] value h = cc
  authorization-IsSent (header ∷ headers) value h =
      elim (Bool-cases (eq_ignore_ascii_case header.0 "authorization")) [
        | inl y ↦ inl (y, some_unique {o = some header.1} refl (rw y at h))
        | inr n ↦ inr (authorization-IsSent headers value (rw n at h))
      ]

  bearer_token-IsBearer :
      (value token : String)
      → bearer_token print decode value ≡ ok (some token)
      → IsBearer token value
  unfolding bearer_token
  bearer_token-IsBearer value token h = elim (Bool-cases (ltb (len value) 7)) [
    | inl y ↦ absurd (ground (arith, y))
    | inr l ↦ elim (Option-cases (split_at 7 value)) [
      | inl n ↦ absurd (ground (arith, l, n))
      | inr ((scheme, rest), p) ↦ elim (Bool-cases (eq_ignore_ascii_case scheme "bearer ")) [
        | inr n ↦ absurd (ground (arith, l, p, n))
        | inl y ↦ elim (Bool-cases (is_blank (trim rest))) [
          | inl b ↦ absurd (ground (arith, l, p, y, b))
          | inr b ↦ (
            scheme,
            rest,
            p,
            y,
            b,
            sym (
                some_unique {o = some (trim rest)} refl
                  (ok_unique (rw (l, p, y, b, bearer_token) at h))),
          )
        ]
      ]
    ]
  ]

  has_custom_claims-HasClaims :
      (required : List String) (claims : Map Value)
      → has_custom_claims required claims ≡ true
      → HasClaims claims required
  unfolding has_custom_claims contains_key
  has_custom_claims-HasClaims [] claims h = tt
  has_custom_claims-HasClaims (r ∷ rest) claims h = elim (Bool-cases (contains spec_claims r)) [
    | inl y ↦ (inl y, has_custom_claims-HasClaims rest claims (rw (y, has_custom_claims) at h))
    | inr n ↦ elim (Option-cases (get r claims)) [
      | inl m ↦ absurd (ground (arith, n, m))
      | inr (v, e) ↦ (
        inr (v, e),
        has_custom_claims-HasClaims rest claims (rw (n, e, has_custom_claims, contains_key) at h),
      )
    ]
  ]

  decode_token-IsVerified :
      (headers : Map String) (value token : String) (claims : Map Value)
      → IsSent value headers
      → IsBearer token value
      → decode_token print decode a token ≡ ok (some claims)
      → IsVerified headers claims
  unfolding decode_token
  decode_token-IsVerified headers value token claims s b h = elim (Option-cases a.key) [
    | inl n ↦ absurd (ground (arith, n))
    | inr (key, k) ↦ elim (Bool-cases (is_empty a.algorithms)) [
      | inl y ↦ absurd (ground (arith, k, y))
      | inr n ↦ elim (Fallible-cases (decode token key (validation print decode a))) [
        | inl (e, d) ↦ absurd (ground (arith, k, n, d))
        | inr (claims', d) ↦ elim (Bool-cases (has_custom_claims a.require_claims claims')) [
          | inr m ↦ absurd (ground (arith, k, n, d, m))
          | inl y ↦
              let e : claims' ≡ claims =
                some_unique {o = some claims'} refl
                  (ok_unique (rw (k, n, d, y, decode_token) at h)) in
              subst (IsVerified headers) e (record {
                value = value;
                token = token;
                sent = s;
                bearer = b;
                key = key;
                configured = k;
                verified = d;
                required = has_custom_claims-HasClaims a.require_claims claims' y;
              })
        ]
      ]
    ]
  ]

  payload_to_identity-id :
      (mapping : ClaimMapping) (claims : Map Value) (identity : Identity)
      → payload_to_identity print mapping claims ≡ some identity
      → and_then (get mapping.id_claim claims) (id_of print) ≡ some identity.id
  unfolding payload_to_identity
  payload_to_identity-id mapping claims identity h =
      elim (Option-cases (and_then (get mapping.id_claim claims) (id_of print))) [
        | inl n ↦ absurd (ground (arith, n))
        | inr (id, e) ↦
            e
            ∙ ap (λ i. some i.id)
                (some_unique {o = some (the_identity print mapping claims id)} refl
                  (rw (e, payload_to_identity) at h))
      ]

  pub authenticate-claims :
      (headers : Map String) (identity : Identity)
      → authenticate print decode a headers ≡ ok (some identity)
      → (claims : Map Value) × IsVerified headers claims
        × (payload_to_identity print a.claim_mapping claims ≡ some identity)
        × (and_then (get a.claim_mapping.id_claim claims) (id_of print) ≡ some identity.id)
  unfolding authenticate
  authenticate-claims headers identity h =
      elim (Option-cases (authorization print decode headers)) [
        | inl n ↦ absurd (ground (arith, n))
        | inr (value, s) ↦ elim (Fallible-cases (bearer_token print decode value)) [
          | inl (e, b) ↦ absurd (ground (arith, s, b))
          | inr (o, b) ↦ elim (Option-cases o) [
            | inl n ↦ absurd (ground (arith, s, b, n))
            | inr (token, t) ↦ elim (Fallible-cases (decode_token print decode a token)) [
              | inl (e, d) ↦ absurd (ground (arith, s, b, t, d))
              | inr (p, d) ↦ elim (Option-cases p) [
                | inl n ↦ absurd (ground (arith, s, b, t, d, n))
                | inr (claims, c) ↦
                    let q : payload_to_identity print a.claim_mapping claims ≡ some identity =
                      ok_unique (rw (s, b ∙ ap ok t, d ∙ ap ok c, authenticate, with_token) at h) in
                    (
                      claims,
                      decode_token-IsVerified headers value token claims
                          (authorization-IsSent headers value s)
                          (bearer_token-IsBearer value token (b ∙ ap ok t)) (d ∙ ap ok c),
                      q,
                      payload_to_identity-id a.claim_mapping claims identity q,
                    )
              ]
            ]
          ]
        ]
      ]

  -- jsonwebtoken decodes a token only where it has each required claim of those that it enforces.
  module _
      (decode-enforces : (token : String) (key : Key) (v : Validation) (claims : Map Value)
          (name : String)
        → decode token key v ≡ ok claims
        → contains enforced_claims name ≡ true
        → contains v.required_spec_claims name ≡ true
        → (value : Value) × (get name claims ≡ some value)) where
    All-HasRequired :
        (token : String) (key : Key) (claims : Map Value) (names : List String)
        → decode token key (validation print decode a) ≡ ok claims
        → HasClaims claims names
        → All (λ name. contains a.require_claims name ≡ true) names
        → HasRequired claims names
    All-HasRequired token key claims [] d h k = tt
    All-HasRequired token key claims (name ∷ names) d (inr there, hs) (k, ks) =
        (inr there, All-HasRequired token key claims names d hs ks)
    All-HasRequired token key claims (name ∷ names) d (inl known, hs) (k, ks) =
        let rest = All-HasRequired token key claims names d hs ks in
        elim (spec_claim-cases name known) [
          | inl iat ↦ (inl iat, rest)
          | inr enforced ↦ (
            inr (decode-enforces token key (validation print decode a) claims name d enforced k),
            rest,
          )
        ]

    -- Where jsonwebtoken lets no token pass that lacks a required claim of "exp", "nbf", "aud",
    -- "iss" and "sub": the authenticator gives an identity only where an authorization header of
    -- the request holds a bearer token that the library, with the configured key and settings,
    -- decodes to claims which have every required claim but "iat"; the identity is read from these
    -- claims, and its ID from a claim that is not null.
    pub authenticate-IsVerified :
        (headers : Map String) (identity : Identity)
        → authenticate print decode a headers ≡ ok (some identity)
        → (claims : Map Value) × IsVerified headers claims
          × HasRequired claims a.require_claims
          × (payload_to_identity print a.claim_mapping claims ≡ some identity)
          × (and_then (get a.claim_mapping.id_claim claims) (id_of print) ≡ some identity.id)
    authenticate-IsVerified headers identity h =
        let (claims, v, q, named) = authenticate-claims headers identity h in
        (
          claims,
          v,
          All-HasRequired v.token v.key claims a.require_claims v.verified v.required
              (All-contained a.require_claims),
          q,
          named,
        )
