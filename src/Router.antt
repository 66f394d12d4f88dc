-- ===== src/Router.antt =====
-- src/server/router.rs: a tool call on its way to the executor, and what is made of its outcome.
pub mod Merge
pub mod Paths
pub mod Extra
pub mod Calls
pub mod Dispatch
mod Examples
use apcore_mcp_rust.Prelude.{
  String, code, Bool, true, false, not, ◌&&◌, ◌||◌, Option, none, some, List, [], ◌∷◌,
  if◌then◌else◌, is_empty,
}
use apcore_mcp_rust.Json.{Value, string, array, object, Fields, items}
use apcore_mcp_rust.Prelude.Map.{Map, get}
use apcore_mcp_rust.Prelude.Fallible.{Fallible, ok, err}

pub data ExecutorError : Type 0 where
  execution : (code : String) (message : String) (details : Option Value) → ExecutorError
  validation : String → ExecutorError
  other : String → ExecutorError

mutual
  pub data ValidationError : Type 0 where
    invalid :
        (field : Option String) (message : String) (errors : ValidationErrors) → ValidationError

  pub data ValidationErrors : Type 0 where
    no_errors : ValidationErrors
    more : ValidationError → ValidationErrors → ValidationErrors

pub record ValidationResult : Type 0 where
  pub valid : Bool
  pub errors : ValidationErrors
  pub requires_approval : Bool

-- What a call under `catch_unwind` gives.
pub data Attempt {ℓ} (A : Type ℓ) : Type ℓ where
  panicked : Attempt A
  finished : A → Attempt A

-- A call of the executor changes what is outside the router, the world; `Context` is apcore's.
pub record Executor (World Context : Type 0) : Type 0 where
  pub call_async :
      String
      → Value
      → Option Value
      → Option String
      → World
      → World × Attempt (Fallible ExecutorError Value)
  pub stream :
      String
      → Value
      → Option Value
      → Option String
      → World
      → World × Option (List (Fallible ExecutorError Value))
  pub validate : String → Value → Option Value → World → World × Attempt (Option ValidationResult)
  pub call_with_trace :
      String
      → Value
      → Option Value
      → Option String
      → World
      → World × Option (Fallible ExecutorError (Value × Value))
  pub call_typed :
      String
      → Value
      → Context
      → Option String
      → Bool
      → World
      → World × Attempt (Option (Fallible ExecutorError (Value × Option Value)))
  pub version_hint_default : String → Option String

pub data OutputFormat : Type 0 where
  json_format csv jsonl : OutputFormat

abbrev pub is_json : OutputFormat → Bool
is_json json_format = true
is_json csv = false
is_json jsonl = false

-- Display
unfoldable pub print_format : OutputFormat → String
print_format json_format = "json"
print_format csv = "csv"
print_format jsonl = "jsonl"

abbrev pub OutputFormatter : Type 0
OutputFormatter = Value → Fallible String String

-- The executor, what decides the form of a reply, and the tools' output schemas.
pub record ExecutionRouter (World Context : Type 0) : Type 0 where
  pub executor : Option (Executor World Context)
  pub validate_inputs : Bool
  pub redact_output : Bool
  pub trace : Bool
  pub output_formatter : Option OutputFormatter
  pub output_format : OutputFormat
  pub output_schemas : Map Value

pub record ContentItem : Type 0 where
  pub content_type : String
  pub data_of : Value

abbrev pub text_item : String → ContentItem
text_item text = record { content_type = "text"; data_of = string text }

abbrev pub trace_item : Value → ContentItem
trace_item trace = record { content_type = "trace"; data_of = trace }

-- The content, whether it is an error, and the trace's ID.
abbrev pub Reply : Type 0
Reply = List ContentItem × Bool × Option String

abbrev pub error_reply : String → Reply
error_reply text = (text_item text ∷ [], true, none)

-- `serde_json` prints a value, apcore redacts it by a schema, and apcore-toolkit formats rows:
-- parameters.
module _ (print : Value → String) where
  module _ (format_csv : List Fields → String) (format_jsonl : List Fields → String) where
    abbrev objects_in : List Value → List Fields
    objects_in [] = []
    objects_in (object fs ∷ vs) = fs ∷ objects_in vs
    objects_in (v ∷ vs) = objects_in vs

    abbrev rows_of : Value → List Fields
    rows_of (array vs) = objects_in (items vs)
    rows_of (object fs) = fs ∷ []
    rows_of _ = []

    abbrev formatted : OutputFormat → Value → List Fields → String
    formatted csv value rows = format_csv rows
    formatted jsonl value rows = format_jsonl rows
    formatted json_format value rows = print value

    unfoldable pub resolve_builtin_formatter : OutputFormat → OutputFormatter
    resolve_builtin_formatter format value =
        let rows = rows_of value in
        if is_empty rows then ok (print value) else ok (formatted format value rows)

    unfoldable pub with_output_format :
        {World Context : Type 0}
        → OutputFormat
        → ExecutionRouter World Context
        → ExecutionRouter World Context
    unfolding resolve_builtin_formatter
    with_output_format format r = record r {
      output_format = format;
      output_formatter =
          if is_json format then r.output_formatter else some (resolve_builtin_formatter format);
    }

  abbrev is_array : Value → Bool
  is_array (array vs) = true
  is_array _ = false

  abbrev is_map : Value → Bool
  is_map (object fs) = true
  is_map _ = false

  module _ {World Context : Type 0} (redact_sensitive : Value → Value → Value)
      (r : ExecutionRouter World Context) where
    unfoldable pub redacted : String → Value → Value
    redacted tool_name result =
        if not r.redact_output then result else elim (get tool_name r.output_schemas) [
          | none ↦ result
          | some schema ↦ redact_sensitive result schema
        ]

    unfoldable pub format_result : Value → String
    format_result result = elim r.output_formatter [
      | none ↦ print result
      | some formatter ↦
          if is_map result || (is_array result && not (is_json r.output_format))
          then elim (formatter result) [ ok text ↦ text | err e ↦ print result ]
          else print result
    ]
