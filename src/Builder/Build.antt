-- ===== src/Builder/Build.antt =====
-- src/apcore_mcp.rs: `build`, over the calls of apcore.
use apcore_mcp_rust.Prelude.{
  String, Bool, true, false, Option, none, some, List, [], ◌∷◌, map, if◌then◌else◌, or_else, ◌<>◌,
}
use apcore_mcp_rust.Prelude.Fallible.{Fallible, ok, err, ◌>>=◌, ok_or}
use apcore_mcp_rust.Json.{Value, Fields, get_str, and_then}
use apcore_mcp_rust.ApprovalStore.{map_option}
use apcore_mcp_rust.Acl.{AclRule, Printers, Checked, build_acl_from_config}
use apcore_mcp_rust.Middleware.{Middleware, RetryApi, build_middleware_from_config}
use apcore_mcp_rust.Builder.{
  BackendSource, extensions_dir, registry, executor, ApCoreMcpConfig, Result, ApCoreMcpError,
  backend_resolution, config_error, validate, get_pipeline_config, get_middleware_config,
  get_acl_config,
}

-- What `build` calls of apcore: the registry, the executor with its middleware and its access
-- control list, the collectors of its observability and the presets of strategies. An error of
-- apcore is its text. `Store` and `Notify` are types of what the builder is handed: a store of
-- approvals and a callback that is told of requests.
pub record Apcore : Type 1 where
  pub Registry : Type 0
  pub Executor : Type 0
  pub AnyMiddleware : Type 0
  pub Acl : Type 0
  pub RetryConfig : Type 0
  pub Strategy : Type 0
  pub Handler : Type 0
  pub Store : Type 0
  pub Notify : Type 0
  pub new_registry : Registry
  pub new_executor : Registry → Executor
  pub use_middleware : AnyMiddleware → Executor → Fallible String Executor
  pub set_acl : Acl → Executor → Executor
  pub of_config : Middleware RetryConfig → AnyMiddleware
  pub metrics : AnyMiddleware
  pub usage : AnyMiddleware
  pub resolve_strategy_by_name : String → Option Strategy
  pub retries : RetryApi RetryConfig
  pub printers : Printers
  pub try_new : List AclRule → String → Checked Acl

module _ (api : Apcore) where
  pub data ApprovalHandler : Type 0 where
    supplied : api.Handler → ApprovalHandler
    storage_backed : api.Store → Option api.Notify → ApprovalHandler

  -- Without the authenticator, the collector of metrics and the formatter of output, which are
  -- handed on as they are.
  pub record ApCoreMcpBuilder : Type 0 where
    pub config : ApCoreMcpConfig
    pub backend : Option (BackendSource api.Registry api.Executor)
    pub approval_handler : Option api.Handler
    pub approval_store : Option api.Store
    pub approval_notify_callback : Option api.Notify
    pub middleware : List api.AnyMiddleware
    pub acl : Option api.Acl

  pub record ApCoreMcp : Type 0 where
    pub config : ApCoreMcpConfig
    pub standalone_registry : Option api.Registry
    pub executor : api.Executor
    pub has_collectors : Bool
    pub approval_handler : Option ApprovalHandler
    pub approval_store : Option api.Store
    pub resolved_strategy : Option api.Strategy

  -- The registry of the backend, whether another `Arc` shares the executor, and the executor.
  unfoldable pub resolve_backend :
      BackendSource api.Registry api.Executor → Option api.Registry × Bool × api.Executor
  resolve_backend (extensions_dir path) =
      (some api.new_registry, false, api.new_executor api.new_registry)
  resolve_backend (registry r) = (some r, false, api.new_executor r)
  resolve_backend (executor is_shared e) = (none, is_shared, e)

  unfoldable pub resolved_strategy_name : Option Value → Option String → Option String
  unfolding get_str
  resolved_strategy_name (some pipeline) (some strategy) =
      or_else (get_str "strategy" pipeline) (some strategy)
  resolved_strategy_name (some pipeline) none = get_str "strategy" pipeline
  resolved_strategy_name none strategy = strategy

  -- Middleware is installed on the executor itself, whoever else has it, so that what went before
  -- an error stays installed.
  unfoldable pub install_each :
      String → List api.AnyMiddleware → api.Executor → api.Executor × Result (Unit {0})
  install_each label [] e = (e, ok tt)
  install_each label (mw ∷ mws) e = elim (api.use_middleware mw e) [
    | err text ↦ (e, err (config_error (label <> text)))
    | ok installed ↦ install_each label mws installed
  ]

  unfoldable pub and_then_on {ℓ κ} :
      {A : Type ℓ} {B : Type κ}
      → api.Executor × Result A
      → (A → api.Executor → api.Executor × Result B)
      → api.Executor × Result B
  and_then_on (e, err error) next = (e, err error)
  and_then_on (e, ok a) next = next a e

  -- `map_err` of the text of an error
  abbrev pub configured {ℓ} : {A : Type ℓ} → Fallible String A → Result A
  configured (err text) = err (config_error text)
  configured (ok a) = ok a

  unfoldable pub effective_acl : Fields → Option api.Acl → Result (Option api.Acl)
  unfolding build_acl_from_config
  effective_acl mcp (some a) = ok (some a)
  effective_acl mcp none =
      configured (build_acl_from_config api.printers api.try_new (get_acl_config mcp))

  abbrev pub shared_executor : ApCoreMcpError
  shared_executor =
      config_error
        "failed to install ACL: Executor Arc is already shared — install the ACL on the Executor before passing it to APCoreMCPBuilder::backend()"

  unfoldable pub install_acl :
      Bool → Option api.Acl → api.Executor → api.Executor × Result (Unit {0})
  install_acl is_shared none e = (e, ok tt)
  install_acl is_shared (some a) e =
      if is_shared then (e, err shared_executor) else (api.set_acl a e, ok tt)

  unfoldable pub install_observability : Bool → api.Executor → api.Executor × Result (Unit {0})
  unfolding and_then_on install_each
  install_observability false e = (e, ok tt)
  install_observability true e =
      and_then_on (install_each "failed to install MetricsMiddleware: " (api.metrics ∷ []) e)
        (λ done. install_each "failed to install UsageMiddleware: " (api.usage ∷ []))

  unfoldable pub build_handler : ApCoreMcpBuilder → Option ApprovalHandler
  build_handler b = elim b.approval_store [
    | some store ↦ some (storage_backed store b.approval_notify_callback)
    | none ↦ map_option supplied b.approval_handler
  ]

  -- What is done to the executor, with the namespace mcp of the configuration: its middleware first,
  -- then the caller's.
  unfoldable pub install_middleware :
      Fields → ApCoreMcpBuilder → api.Executor → api.Executor × Result (Unit {0})
  unfolding and_then_on build_middleware_from_config install_each
  install_middleware mcp b e =
      and_then_on
        (e, configured (build_middleware_from_config api.retries (get_middleware_config mcp)))
        λ entries e.
          and_then_on
            (install_each "failed to install Config Bus middleware: " (map api.of_config entries) e)
            λ done. install_each "failed to install middleware: " b.middleware

  unfoldable pub admit_and_observe :
      Fields → ApCoreMcpBuilder → Bool → api.Executor → api.Executor × Result (Unit {0})
  unfolding and_then_on effective_acl install_acl install_observability
  admit_and_observe mcp b is_shared e =
      and_then_on (e, effective_acl mcp b.acl)
        λ acl e.
          and_then_on (install_acl is_shared acl e)
            λ done. install_observability b.config.observability

  unfoldable pub install_all :
      Fields → ApCoreMcpBuilder → Bool → api.Executor → api.Executor × Result (Unit {0})
  unfolding and_then_on install_middleware admit_and_observe
  install_all mcp b is_shared e =
      and_then_on (install_middleware mcp b e) (λ done. admit_and_observe mcp b is_shared)

  unfoldable pub build : Fields → ApCoreMcpBuilder → Result ApCoreMcp
  unfolding validate resolve_backend install_all resolved_strategy_name build_handler
  build mcp b = do
    checked ← validate b.config
    backend ← ok_or b.backend (backend_resolution "backend source is required")
    let (standalone_registry, is_shared, initial) = resolve_backend backend
    let (e, installed) = install_all mcp b is_shared initial
    done ← installed
    ok (record {
      config = b.config;
      standalone_registry = standalone_registry;
      executor = e;
      has_collectors = b.config.observability;
      approval_handler = build_handler b;
      approval_store = b.approval_store;
      resolved_strategy =
          and_then (resolved_strategy_name (get_pipeline_config mcp) b.config.strategy)
            api.resolve_strategy_by_name;
    })
