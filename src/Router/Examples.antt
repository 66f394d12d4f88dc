-- ===== src/Router/Examples.antt =====
-- The router of src/server/router.rs at concrete calls.
use apcore_mcp_rust.Prelude.{
  ℕ, ◌+◌, String, ◌≡◌, refl, true, false, Option, none, some, List, [], ◌∷◌, arith,
}
use apcore_mcp_rust.Json.{Value, null, string, json, fields_of, get}
use apcore_mcp_rust.Prelude.Map
use apcore_mcp_rust.Prelude.Map.{Map}
use apcore_mcp_rust.Prelude.Fallible.{Fallible, ok, err}
use apcore_mcp_rust.Session.{Session, new}
use apcore_mcp_rust.Approval
use apcore_mcp_rust.Approval.{ApprovalResult}
use apcore_mcp_rust.Tasks.{TaskError}
use apcore_mcp_rust.Tasks.Bridge.{ManagerApi, ApcoreApi, Bridge}
use apcore_mcp_rust.Router.{
  ExecutorError, other, panicked, finished, Executor, ExecutionRouter, json_format, error_reply,
}
use apcore_mcp_rust.Router.Merge.{deep_merge, deep_merge_max_depth}
use apcore_mcp_rust.Router.Paths.{IsMap, AreMaps, see, overlaid, is_overridden, see-deep_merge}
use apcore_mcp_rust.Router.Calls.{text_token, run_validated}
use apcore_mcp_rust.Router.Calls.Sent.{AreRedactedAfter, run_validated-AreRedacted}
use apcore_mcp_rust.Router.Calls.Streamed.{run_validated-refused}
use apcore_mcp_rust.Router.Dispatch.{Served, CallContext}

abbrev part : String → String → Value
part k s = json (("r", json ((k, string s) ∷ [])) ∷ [])

part-IsMap : IsMap (part "b" "2")
unfolding IsMap AreMaps fields_of get
part-IsMap = ((refl, (refl, tt, tt), tt))

see-deep_merge_example :
    see ("r" ∷ "a" ∷ []) (deep_merge deep_merge_max_depth (part "a" "1") (part "b" "2"))
    ≡ overlaid
        (see ("r" ∷ "a" ∷ []) (part "b" "2"))
        (is_overridden ("r" ∷ "a" ∷ []) (part "b" "2"))
        (see ("r" ∷ "a" ∷ []) (part "a" "1"))
see-deep_merge_example =
    see-deep_merge ("r" ∷ "a" ∷ []) deep_merge_max_depth (part "a" "1") (part "b" "2") part-IsMap
      (omega arith)

abbrev printed : Value → String
printed v = "?"

abbrev blank_out : Value → Value → Value
blank_out result schema = null

-- An executor that counts what it is asked to do.
abbrev chunks : List (Fallible ExecutorError Value)
chunks = ok (part "a" "1") ∷ ok (part "b" "2") ∷ err (other "lost") ∷ []

abbrev counting : Executor ℕ (Unit {0})
counting = record {
  call_async = λ tool arguments context hint n. (n + 1, finished (ok (part "a" "1")));
  stream = λ tool arguments context hint n. (n + 1, some chunks);
  validate = λ tool arguments context n. (n, panicked);
  call_with_trace = λ tool arguments context hint n. (n, none);
  call_typed = λ tool arguments context hint traced n. (n, finished none);
  version_hint_default = λ tool. none;
}

abbrev router : ExecutionRouter ℕ (Unit {0})
router = record {
  executor = some counting;
  validate_inputs = true;
  redact_output = true;
  trace = false;
  output_formatter = none;
  output_format = json_format;
  output_schemas = ("t", null) ∷ [];
}

has_schema : Map.get "t" router.output_schemas ≡ some null
unfolding Map.get
has_schema = refl

run_validated-AreRedacted_example :
    AreRedactedAfter printed blank_out router "t" null (
      run_validated printed blank_out router "t" null none none (some (text_token "p")) (some tt) 0)
run_validated-AreRedacted_example =
    run_validated-AreRedacted printed blank_out router "t" null refl has_schema null none none
      (some (text_token "p")) (some tt) 0

run_validated-refused_example :
    (text : String) × (run_validated printed blank_out router "t" null none none none none 0
      ≡ (0, [], error_reply text))
run_validated-refused_example =
    run_validated-refused printed blank_out router "t" counting null none none none none 0 refl refl
      refl

abbrev sessions : Map Session
sessions = ("s1", new "s1") ∷ []

abbrev manager : ManagerApi ℕ
manager = record {
  submit = λ module_id inputs identity n. (n + 1, ok "t1");
  cancel = λ task_id n. (n, ok false);
  get_status = λ task_id n. ok none;
  list_tasks = λ filter n. ok [];
  validate = λ module_id inputs identity n. (n, ok null);
}

abbrev background : ApcoreApi
background = record {
  get_definition = λ module_id. none;
  redact_sensitive = λ result schema. none;
  to_value = λ info. null;
}

abbrev idle : Bridge ℕ String
idle = record {
  manager = 0;
  output_schemas = [];
  progress_tokens = [];
  progress_senders = [];
  session_tasks = [];
}

abbrev served : Served String ℕ
served = record { bridge = some idle; world = 0 }

abbrev context : CallContext (Unit {0})
context = record { value = json []; apcore_ctx = tt; trace_id = "t"; identity = none }

abbrev text_of : TaskError → String
text_of e = "error"

abbrev no_hint : String → Option String
no_hint tool = none

abbrev unpolled : Option (String → Approval.Outcome ApprovalResult)
unpolled = none
