-- ===== src/Middleware.antt =====
-- src/middleware_builder.rs: the middleware that the configuration's list mcp.middleware names.
pub mod Built
mod Examples
use apcore_mcp_rust.Prelude.{
  ℕ, ◌+◌, String, Bool, true, not, Option, none, some, List, [], ◌∷◌, ◌==◌, if◌then◌else◌,
  unwrap_or, is_empty, ◌<>◌, join, contains,
}
use apcore_mcp_rust.Json.{
  Value, array, object, Fields, get, insert, remove, contains_key, has_no_fields, keys, items,
  as_str, as_bool, as_u64, as_object, and_then,
}
use apcore_mcp_rust.Prelude.Fallible.{Fallible, ok, err, ◌>>=◌, ok_or}
use apcore_mcp_rust.Acl.{Checked, filter}

-- What apcore's constructors are called with; the retry configuration is a type of apcore.
pub data Middleware (C : Type 0) : Type 0 where
  retry : C → Middleware C
  logging : (log_inputs log_outputs log_errors : Bool) → Middleware C
  error_history : (max_per : ℕ) (max_total : Option ℕ) → Middleware C

-- apcore's `RetryConfig`: its default, the default's `max_retries`, and the reader of a value, with
-- its error as its text; and `{}` of a number.
pub record RetryApi (C : Type 0) : Type 0 where
  pub default : C
  pub default_max_retries : Value
  pub from_value : Value → Fallible String C
  pub show : ℕ → String

abbrev pub logging_keys : List String
logging_keys = "type" ∷ "log_inputs" ∷ "log_outputs" ∷ "log_errors" ∷ []

abbrev pub error_history_keys : List String
error_history_keys = "type" ∷ "max_entries_per_module" ∷ "max_total_entries" ∷ []

abbrev pub other_keys : List String → Fields → List String
other_keys known obj = filter (λ k. not (contains known k)) (keys obj)

-- A flag, true where it is missing or no Boolean.
abbrev pub flag : String → Fields → Bool
flag k obj = unwrap_or (and_then (get k obj) as_bool) true

abbrev pub limit : String → Fields → Option ℕ
limit k obj = and_then (get k obj) as_u64

module _ {C : Type 0} (api : RetryApi C) where
  abbrev pub at_entry : ℕ → String → String
  at_entry idx text = "mcp.middleware[" <> api.show idx <> "]" <> text

  abbrev pub with_max_retries : Fields → Fields
  with_max_retries kwargs =
      if not (contains_key "max_retries" kwargs)
      then insert "max_retries" api.default_max_retries kwargs
      else kwargs

  unfoldable pub build_retry : ℕ → Fields → Checked (Middleware C)
  build_retry idx obj =
      let kwargs = remove "type" obj in
      if has_no_fields kwargs
      then ok (retry api.default)
      else elim (api.from_value (object (with_max_retries kwargs))) [
        | err e ↦ err (at_entry idx (" (retry) invalid config: " <> e))
        | ok config ↦ ok (retry config)
      ]

  unfoldable pub build_logging : ℕ → Fields → Checked (Middleware C)
  build_logging idx obj =
      if not (is_empty (other_keys logging_keys obj))
      then err (
          at_entry idx
            (" (logging) got unexpected keys: " <> join ", " (other_keys logging_keys obj)))
      else ok (logging (flag "log_inputs" obj) (flag "log_outputs" obj) (flag "log_errors" obj))

  unfoldable pub build_error_history : ℕ → Fields → Checked (Middleware C)
  build_error_history idx obj =
      if not (is_empty (other_keys error_history_keys obj))
      then err (
          at_entry idx (
            " (error_history) got unexpected keys: "
            <> join ", " (other_keys error_history_keys obj)))
      else ok (
          error_history (unwrap_or (limit "max_entries_per_module" obj) 50)
            (limit "max_total_entries" obj))

  unfoldable pub build_entry : ℕ → Value → Checked (Middleware C)
  unfolding build_retry build_logging build_error_history
  build_entry idx v = do
    obj ← ok_or (as_object v) (at_entry idx " must be an object with a 'type' key")
    mw_type ← ok_or (and_then (get "type" obj) as_str) (at_entry idx " missing required 'type' key")
    if mw_type == "retry"
        then build_retry idx obj
        else if mw_type == "logging"
        then build_logging idx obj
        else if mw_type == "error_history"
        then build_error_history idx obj
        else err (
            at_entry idx (
              " unknown type '" <> mw_type
              <> "'. Known built-in types: retry, logging, error_history"))

  unfoldable pub build_entries : ℕ → List Value → Checked (List (Middleware C))
  unfolding build_entry
  build_entries idx [] = ok []
  build_entries idx (v ∷ vs) = do
    mw ← build_entry idx v
    rest ← build_entries (idx + 1) vs
    ok (mw ∷ rest)

  unfoldable pub build_middleware_from_config : Option Value → Checked (List (Middleware C))
  unfolding build_entries
  build_middleware_from_config none = ok []
  build_middleware_from_config (some (array vs)) = build_entries 0 (items vs)
  build_middleware_from_config (some _) = ok []
