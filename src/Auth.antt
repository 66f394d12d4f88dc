-- ===== src/Auth.antt =====
-- src/auth: who a request comes from.
pub mod Texts
pub mod Jwt
pub mod Middleware
pub mod Verified
pub mod Guarded
pub mod Panics
mod Examples
use apcore_mcp_rust.Prelude.{String, Option, List}
use apcore_mcp_rust.Json.{Value}
use apcore_mcp_rust.Prelude.Map.{Map}
use apcore_mcp_rust.Prelude.Fallible.{Fallible}

-- apcore's `Identity`.
pub record Identity : Type 0 where
  pub id : String
  pub identity_type : String
  pub roles : List String
  pub attrs : Map Value

-- Where Rust panics.
pub data Panic : Type 0 where
  index_out_of_bounds not_a_char_boundary : Panic

abbrev pub Run {ℓ} : Type ℓ → Type ℓ
Run A = Fallible Panic A

-- The trait `Authenticator`, over the headers.
abbrev pub Authenticator : Type 0
Authenticator = Map String → Run (Option Identity)
