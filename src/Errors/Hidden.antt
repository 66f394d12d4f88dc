-- ===== src/Errors/Hidden.antt =====
-- The errors that src/adapters/errors.rs hides from the client.
use apcore_mcp_rust.Prelude.{String, ◌≡◌, refl, sym, ap, ◌∙◌, Bool, true, false, none}
use apcore_mcp_rust.Errors.{
  ErrorCode, call_depth_exceeded, circular_call, call_frequency_exceeded, acl_denied, ModuleError,
  respond, to_mcp_error,
}

-- The codes of internal faults and of a denied access.
abbrev pub is_hidden : ErrorCode → Bool
is_hidden call_depth_exceeded = true
is_hidden circular_call = true
is_hidden call_frequency_exceeded = true
is_hidden acl_denied = true
is_hidden _ = false

module _ (text : ErrorCode → String) where
  respond-hidden :
      (c : ErrorCode) (a b : ModuleError)
      → is_hidden c ≡ true
      → a.code ≡ c
      → b.code ≡ c
      → (respond text c a ≡ respond text c b) × ((respond text c a).details ≡ none)
  unfolding respond
  respond-hidden call_depth_exceeded a b h e f = (rw (e, f) refl, refl)
  respond-hidden circular_call a b h e f = (rw (e, f) refl, refl)
  respond-hidden call_frequency_exceeded a b h e f = (rw (e, f) refl, refl)
  respond-hidden acl_denied a b h e f = (rw (e, f) refl, refl)
  respond-hidden _ a b h e f = cc

  -- Two errors with one hidden code look the same to the client, whatever their messages, details
  -- and advice say: the response is a function of the code, and it carries no details.
  pub to_mcp_error-hidden :
      (a b : ModuleError)
      → is_hidden a.code ≡ true
      → a.code ≡ b.code
      → (to_mcp_error text a ≡ to_mcp_error text b) × ((to_mcp_error text a).details ≡ none)
  unfolding to_mcp_error
  to_mcp_error-hidden a b h e =
      let (same, blank) = respond-hidden a.code a b h refl (sym e) in
      (same ∙ ap (λ c. respond text c b) e, blank)
