-- ===== src/Router/Calls/Streamed.antt =====
-- The loop of src/server/router.rs over a stream, against folds; and what validation keeps out.
use apcore_mcp_rust.Prelude.{
  ℕ, ◌+◌, String, ◌≡◌, refl, ap, ◌∙◌, inl, inr, Bool, true, false, not, Option, none, some, List,
  [], ◌∷◌, arith, Bool-cases, Option-cases, elim_some, ◌<>◌,
}
use apcore_mcp_rust.Json.{Value}
use apcore_mcp_rust.Prelude.Fallible.{Fallible, ok, err}
use apcore_mcp_rust.Router.{
  ExecutorError, ValidationResult, Attempt, panicked, finished, Executor, ExecutionRouter,
  text_item, Reply, error_reply,
}
use apcore_mcp_rust.Router.Merge.{deep_merge, deep_merge_max_depth}
use apcore_mcp_rust.Router.Calls.{
  ProgressToken, refusal, checked_by, run_validated, shown, build_error_text, trace_id_of,
  format_validation_errors,
}
use apcore_mcp_rust.Router.Calls.Redacted.{Attempt-cases}

-- The chunks before the first error, and that error.
abbrev pub chunks_before : List (Fallible ExecutorError Value) → List Value
chunks_before [] = []
chunks_before (err e ∷ rest) = []
chunks_before (ok chunk ∷ rest) = chunk ∷ chunks_before rest

abbrev pub first_error : List (Fallible ExecutorError Value) → Option ExecutorError
first_error [] = none
first_error (err e ∷ rest) = some e
first_error (ok chunk ∷ rest) = first_error rest

abbrev pub merge_all : Value → List Value → Value
merge_all merged [] = merged
merge_all merged (chunk ∷ chunks) = merge_all (deep_merge deep_merge_max_depth merged chunk) chunks

abbrev pub map_from {ℓ κ} : {A : Type ℓ} {B : Type κ} → (ℕ → A → B) → ℕ → List A → List B
map_from f n [] = []
map_from f n (x ∷ xs) = f n x ∷ map_from f (n + 1) xs

module _ (print : Value → String) {World Context : Type 0}
    (redact_sensitive : Value → Value → Value) (r : ExecutionRouter World Context)
    (tool_name : String) where
  abbrev pub stream_reply : Option Value → List (Fallible ExecutorError Value) → Value → Reply
  stream_reply context items merged = elim (first_error items) [
    | none ↦ (
      text_item (shown print redact_sensitive r tool_name merged) ∷ [],
      false,
      trace_id_of context,
    )
    | some e ↦ error_reply (build_error_text print e)
  ]

  -- Validation refuses the arguments: it panicked, or says that they are invalid.
  abbrev pub refuses : Attempt (Option ValidationResult) → Bool
  refuses panicked = true
  refuses (finished none) = false
  refuses (finished (some v)) = not v.valid

  checked_by-refused :
      (executor : Executor World Context) (arguments : Value) (context : Option Value) (w : World)
      → refuses (executor.validate tool_name arguments context w).1 ≡ true
      → (text : String) × (checked_by executor tool_name arguments context w
          ≡ ((executor.validate tool_name arguments context w).0, some text))
  unfolding checked_by
  checked_by-refused executor arguments context w h =
      elim (Attempt-cases (executor.validate tool_name arguments context w).1) [
        | inl p ↦ ("Validation failed: validator panicked", rw (p, checked_by) refl)
        | inr (checked, p) ↦ elim (Option-cases checked) [
          | inl q ↦ absurd (ground (arith, h, p, q))
          | inr (v, q) ↦ elim (Bool-cases v.valid) [
            | inl y ↦ absurd (ground (arith, h, p, q, y))
            | inr y ↦ (
              "Validation failed: " <> format_validation_errors v.errors,
              rw (p, q, y, checked_by) refl,
            )
          ]
        ]
      ]

  refusal-checked_by :
      (executor : Executor World Context) (arguments : Value) (context : Option Value) (w : World)
      → r.validate_inputs ≡ true
      → r.executor ≡ some executor
      → refusal print redact_sensitive r tool_name arguments context w
        ≡ checked_by executor tool_name arguments context w
  unfolding refusal
  refusal-checked_by executor arguments context w on p =
      rw (on, refusal)
        (elim_some r.executor (w, none) (λ e. checked_by e tool_name arguments context w) executor
          p)

  -- Arguments that validation refuses reach no executor: after the validation nothing more is
  -- called and nothing is sent, and the reply is an error.
  pub run_validated-refused :
      (executor : Executor World Context) (arguments : Value) (context : Option Value)
      (version_hint : Option String) (streamed : Option ProgressToken) (apcore_ctx : Option Context)
      (w : World)
      → r.validate_inputs ≡ true
      → r.executor ≡ some executor
      → refuses (executor.validate tool_name arguments context w).1 ≡ true
      → (text : String) × (run_validated print redact_sensitive r tool_name arguments context
            version_hint streamed apcore_ctx w
          ≡ ((executor.validate tool_name arguments context w).0, [], error_reply text))
  unfolding run_validated
  run_validated-refused executor arguments context version_hint streamed apcore_ctx w on p h =
      let (text, e) = checked_by-refused executor arguments context w h in
      let q : refusal print redact_sensitive r tool_name arguments context w
          ≡ ((executor.validate tool_name arguments context w).0, some text) =
        refusal-checked_by executor arguments context w on p ∙ e in
      (text, rw (q, run_validated) (ap (λ c. (c.0, [], error_reply text)) q))
