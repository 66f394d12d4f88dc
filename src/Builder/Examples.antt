-- ===== src/Builder/Examples.antt =====
-- A build over an executor with a list of its own, and one that fails.
use apcore_mcp_rust.Prelude.{
  ℕ, String, ◌≡◌, refl, sym, ap, inl, inr, Bool, true, false, Option, none, some, List, [], ◌∷◌,
  ◌++◌, ◌==◌, if◌then◌else◌, Bool-cases, length,
}
use apcore_mcp_rust.Prelude.Fallible.{ok, err, err-ne-ok, ok_unique}
use apcore_mcp_rust.Json.{
  Value, null, string, array, object, cons, nil, Fields, end, field, get, contains_key,
}
use apcore_mcp_rust.Middleware.{Middleware}
use apcore_mcp_rust.Builder.{BackendSource, executor, default_config}
use apcore_mcp_rust.Builder.Build.{
  Apcore, ApCoreMcpBuilder, ApCoreMcp, resolve_backend, install_all, build,
}
use apcore_mcp_rust.Builder.Valid.{IsValid}
use apcore_mcp_rust.Builder.Guarded.{IsAdmitted, build-IsAdmitted}

-- An executor as its list of access control and its middleware. A list is the number of its rules.
abbrev Chain : Type 0
Chain = Option ℕ × List String

abbrev of_config : Middleware Value → String
of_config mw = "configured"

abbrev apcore : Apcore
apcore = record {
  Registry = Unit {0};
  Executor = Chain;
  AnyMiddleware = String;
  Acl = ℕ;
  RetryConfig = Value;
  Strategy = String;
  Handler = Unit {0};
  Store = Unit {0};
  Notify = Unit {0};
  new_registry = tt;
  new_executor = λ r. (none, []);
  use_middleware = λ mw e. if mw == "broken" then err "refused" else ok (e.0, e.1 ++ mw ∷ []);
  set_acl = λ a e. (some a, e.1);
  of_config = of_config;
  metrics = "metrics";
  usage = "usage";
  resolve_strategy_by_name = λ name. if name == "fast" then some name else none;
  retries = record {
    default = null;
    default_max_retries = null;
    from_value = λ v. ok v;
    show = λ n. "";
  };
  printers = record { show = λ n. ""; debug = λ s. s; debug_list = λ ss. ""; print = λ v. "" };
  try_new = λ rules effect. ok (length rules);
}

-- One entry of middleware, and a default effect without rules.
abbrev mcp : Fields
mcp =
    field "acl" (object (field "default_effect" (string "deny") end))
      (field "middleware" (array (cons (object (field "type" (string "logging") end)) nil)) end)

abbrev builder : Bool → ApCoreMcpBuilder apcore
builder is_shared = record {
  config = record default_config { log_level = some "ınfo"; observability = true };
  backend = some (executor is_shared (some 9, []));
  approval_handler = none;
  approval_store = none;
  approval_notify_callback = none;
  middleware = "own" ∷ [];
  acl = none;
}

abbrev built : ApCoreMcp apcore
built = record {
  config = (builder false).config;
  standalone_registry = none;
  executor = (some 0, "configured" ∷ "own" ∷ "metrics" ∷ "usage" ∷ []);
  has_collectors = true;
  approval_handler = none;
  approval_store = none;
  resolved_strategy = none;
}

builds : build apcore mcp (builder false) ≡ ok built
unfolding build contains_key
builds = refl

-- A build that fails because the executor is shared has installed its middleware already.
leaves :
    (install_all apcore mcp (builder true) true (some 9, [])).0
    ≡ (some 9, "configured" ∷ "own" ∷ [])
unfolding install_all get contains_key
leaves = refl

acl_of-use_middleware :
    (mw : String) (e installed : Chain)
    → apcore.use_middleware mw e ≡ ok installed
    → installed.0 ≡ e.0
acl_of-use_middleware mw e installed h = elim (Bool-cases (mw == "broken")) [
  | inl y ↦ absurd (err-ne-ok (rw y at h))
  | inr n ↦ ap (λ x. x.0) (sym (ok_unique (rw n at h)))
]

build-IsAdmitted_example :
    (backend : BackendSource (Unit {0}) Chain) × (some (executor false (some 9, [])) ≡ some backend)
    × IsValid (builder false).config
    × IsAdmitted apcore
        (λ e. e.0)
        (λ a e. refl)
        acl_of-use_middleware
        mcp
        (builder false)
        (resolve_backend apcore backend).1
        (resolve_backend apcore backend).2
        built.executor
build-IsAdmitted_example =
    build-IsAdmitted apcore (λ e. e.0) (λ a e. refl) acl_of-use_middleware mcp (builder false) built
      builds
