-- ===== src/Auth/Panics.antt =====
-- When the authenticator of src/auth/jwt.rs panics on a token.
use apcore_mcp_rust.Prelude.{
  String, ◌≡◌, refl, ◌↔◌, inl, inr, Bool, true, Option, none, some, List, [], ◌∷◌, arith,
  Bool-cases, Option-cases, unwrap_or, is_empty,
}
use apcore_mcp_rust.Json.{Value}
use apcore_mcp_rust.Prelude.Map.{Map}
use apcore_mcp_rust.Prelude.Fallible.{Fallible, err}
use apcore_mcp_rust.Auth.{Panic, index_out_of_bounds}
use apcore_mcp_rust.Auth.Jwt.{
  KeyApi, Algorithm, JwtAuthenticator, Validation, ClaimMapping, new, decode_token,
}

module _ (print : Value → String) {Key : Type 0}
    (decode : String → Key → Validation → Fallible String (Map Value)) where
  decode_token-panics :
      (a : JwtAuthenticator Key) (token : String) (p : Panic)
      → decode_token print decode a token ≡ err p
      → is_empty a.algorithms ≡ true
  unfolding decode_token
  decode_token-panics a token p h = elim (Option-cases a.key) [
    | inl n ↦ absurd (ground (arith, n))
    | inr (key, k) ↦ elim (Bool-cases (is_empty a.algorithms)) [
      | inl y ↦ y
      | inr n ↦ absurd (ground (arith, k, n))
    ]
  ]

  empty_list :
      (algorithms : Option (List Algorithm))
      → is_empty (unwrap_or algorithms (Algorithm.hs256 ∷ [])) ≡ true
      → algorithms ≡ some []
  empty_list none h = cc
  empty_list (some []) h = refl
  empty_list (some (x ∷ xs)) h = cc

  -- An authenticator panics on a token, whatever the token is, exactly if it was made with an empty
  -- list of algorithms.
  pub new-panics_iff :
      (api : KeyApi Key) (key : String) (algorithms : Option (List Algorithm))
      (audience issuer : Option String) (mapping : Option ClaimMapping)
      (require_claims : Option (List String)) (require_auth : Option Bool) (token : String)
      → (decode_token print decode
            (new api key algorithms audience issuer mapping require_claims require_auth)
            token
          ≡ err index_out_of_bounds)
        ↔ (algorithms ≡ some [])
  unfolding decode_token new
  new-panics_iff api key algorithms audience issuer mapping require_claims require_auth token = (
    λ h. empty_list algorithms (
        decode_token-panics
          (new api key algorithms audience issuer mapping require_claims require_auth) token
          index_out_of_bounds h),
    λ e. rw e refl,
  )
