-- ===== src/Builder/Guarded.antt =====
-- What the access control list of src/apcore_mcp.rs is after `build`.
use apcore_mcp_rust.Prelude.{
  String, ◌≡◌, refl, sym, ap, ◌∙◌, subst, ◌⊎◌, inl, inr, Bool, true, false, Option, none, some,
  List, [], ◌∷◌, map, Option-cases,
}
use apcore_mcp_rust.Prelude.Fallible.{
  Fallible, ok, err, ok_or, err-ne-ok, ok_or-eq-ok, ok_unique, bind-eq-ok, Fallible-cases,
}
use apcore_mcp_rust.Json.{Fields}
use apcore_mcp_rust.Acl.{build_acl_from_config}
use apcore_mcp_rust.Middleware.{build_middleware_from_config}
use apcore_mcp_rust.Builder.{BackendSource, Result, validate, get_acl_config, get_middleware_config}
use apcore_mcp_rust.Builder.Valid.{IsValid, validate-IsValid}
use apcore_mcp_rust.Builder.Build.{
  Apcore, ApCoreMcpBuilder, ApCoreMcp, resolve_backend, install_each, and_then_on, configured,
  effective_acl, install_acl, install_observability, install_middleware, admit_and_observe,
  install_all, build,
}

module _ (api : Apcore) where
  -- What holds after the second step whenever the first has succeeded holds after both.
  and_then_on-holds {ℓ κ} :
      {A : Type ℓ} {B : Type κ} (Holds : api.Executor → Type 0) (p : api.Executor × Result A)
      (next : A → api.Executor → api.Executor × Result B) (b : B)
      → ((a : A) → p.1 ≡ ok a → (next a p.0).1 ≡ ok b → Holds (next a p.0).0)
      → (and_then_on api p next).1 ≡ ok b
      → Holds (and_then_on api p next).0
  unfolding and_then_on
  and_then_on-holds Holds (e, err error) next b k h = absurd (err-ne-ok h)
  and_then_on-holds Holds (e, ok a) next b k h = k a refl h

  configured-eq-ok {ℓ} :
      {A : Type ℓ} (r : Fallible String A) (a : A) → configured api r ≡ ok a → r ≡ ok a
  configured-eq-ok (err text) a h = absurd (err-ne-ok h)
  configured-eq-ok (ok x) a h = ap ok (ok_unique h)

  -- An executor's list of access control, which is the one set last, and which middleware leaves
  -- as it is.
  module _ (acl_of : api.Executor → Option api.Acl)
      (acl_of-set_acl : (a : api.Acl) (e : api.Executor) → acl_of (api.set_acl a e) ≡ some a)
      (acl_of-use_middleware : (mw : api.AnyMiddleware) (e installed : api.Executor)
        → api.use_middleware mw e ≡ ok installed
        → acl_of installed ≡ acl_of e) where
    acl_of-install_each :
        (label : String) (mws : List api.AnyMiddleware) (e : api.Executor)
        → acl_of (install_each api label mws e).0 ≡ acl_of e
    unfolding install_each
    acl_of-install_each label [] e = refl
    acl_of-install_each label (mw ∷ mws) e = elim (Fallible-cases (api.use_middleware mw e)) [
      | inl (text, x) ↦ rw (x, install_each) refl
      | inr (installed, x) ↦
          rw (x, install_each)
            (acl_of-install_each label mws installed ∙ acl_of-use_middleware mw e installed x)
    ]

    acl_of-and_then_on {ℓ κ} :
        {A : Type ℓ} {B : Type κ} (p : api.Executor × Result A)
        (next : A → api.Executor → api.Executor × Result B) (o : Option api.Acl)
        → acl_of p.0 ≡ o
        → ((a : A) (e : api.Executor) → acl_of e ≡ o → acl_of (next a e).0 ≡ o)
        → acl_of (and_then_on api p next).0 ≡ o
    unfolding and_then_on
    acl_of-and_then_on (e, err error) next o h k = h
    acl_of-and_then_on (e, ok a) next o h k = k a e h

    acl_of-install_observability :
        (b : Bool) (e : api.Executor) → acl_of (install_observability api b e).0 ≡ acl_of e
    unfolding install_observability
    acl_of-install_observability false e = refl
    acl_of-install_observability true e =
        acl_of-and_then_on (install_each api _ (api.metrics ∷ []) e) _ (acl_of e)
          (acl_of-install_each _ (api.metrics ∷ []) e)
          (λ done x h. acl_of-install_each _ (api.usage ∷ []) x ∙ h)

    -- The list after an installation: the one that is installed, on an executor that no other `Arc`
    -- shares, or the one that was there.
    abbrev pub IsInstalled : Option api.Acl → Bool → api.Executor → api.Executor → Type 0
    IsInstalled none is_shared initial e = acl_of e ≡ acl_of initial
    IsInstalled (some a) is_shared initial e = (acl_of e ≡ some a) × (is_shared ≡ false)

    install_acl-IsInstalled :
        (is_shared : Bool) (acl : Option api.Acl) (initial e : api.Executor)
        → acl_of e ≡ acl_of initial
        → (install_acl api is_shared acl e).1 ≡ ok tt
        → IsInstalled acl is_shared initial (install_acl api is_shared acl e).0
    unfolding install_acl
    install_acl-IsInstalled is_shared none initial e k h = k
    install_acl-IsInstalled true (some a) initial e k h = absurd (err-ne-ok h)
    install_acl-IsInstalled false (some a) initial e k h = (acl_of-set_acl a e, refl)

    IsInstalled-eq :
        (acl : Option api.Acl) (is_shared : Bool) (initial e later : api.Executor)
        → acl_of later ≡ acl_of e
        → IsInstalled acl is_shared initial e
        → IsInstalled acl is_shared initial later
    IsInstalled-eq none is_shared initial e later k h = k ∙ h
    IsInstalled-eq (some a) is_shared initial e later k (h, s) = (k ∙ h, s)

    -- The list to be installed: the caller's, and only without one the configuration's.
    abbrev pub IsWanted : Fields → ApCoreMcpBuilder api → Option api.Acl → Type 0
    IsWanted mcp b acl =
        ((a : api.Acl) × (b.acl ≡ some a) × (acl ≡ some a))
        ⊎ ((b.acl ≡ none)
            × (build_acl_from_config api.printers api.try_new (get_acl_config mcp) ≡ ok acl))

    effective_acl-IsWanted :
        (mcp : Fields) (b : ApCoreMcpBuilder api) (acl : Option api.Acl)
        → effective_acl api mcp b.acl ≡ ok acl
        → IsWanted mcp b acl
    unfolding effective_acl
    effective_acl-IsWanted mcp b acl h = elim (Option-cases b.acl) [
      | inr (a, e) ↦ inl (a, e, sym (ok_unique (rw (e, effective_acl) at h)))
      | inl e ↦ inr (e, configured-eq-ok _ acl (rw (e, effective_acl) at h))
    ]

    abbrev pub IsAdmitted :
        Fields → ApCoreMcpBuilder api → Bool → api.Executor → api.Executor → Type 0
    IsAdmitted mcp b is_shared initial e =
        (acl : Option api.Acl) × IsWanted mcp b acl × IsInstalled acl is_shared initial e

    acl_of-install_middleware :
        (mcp : Fields) (b : ApCoreMcpBuilder api) (e : api.Executor)
        → acl_of (install_middleware api mcp b e).0 ≡ acl_of e
    unfolding install_middleware
    acl_of-install_middleware mcp b e =
        acl_of-and_then_on
          (e, configured api (build_middleware_from_config api.retries (get_middleware_config mcp)))
          _ (acl_of e) refl
          (λ entries x h.
            acl_of-and_then_on (install_each api _ (map api.of_config entries) x) _ (acl_of e)
              (acl_of-install_each _ (map api.of_config entries) x ∙ h)
              (λ done y k. acl_of-install_each _ b.middleware y ∙ k))

    admit_and_observe-IsAdmitted :
        (mcp : Fields) (b : ApCoreMcpBuilder api) (is_shared : Bool) (initial e : api.Executor)
        → acl_of e ≡ acl_of initial
        → (admit_and_observe api mcp b is_shared e).1 ≡ ok tt
        → IsAdmitted mcp b is_shared initial (admit_and_observe api mcp b is_shared e).0
    unfolding admit_and_observe
    admit_and_observe-IsAdmitted mcp b is_shared initial e k =
        let Q = IsAdmitted mcp b is_shared initial in
        let observe = λ (done : Unit {0}). install_observability api b.config.observability in
        and_then_on-holds Q (e, effective_acl api mcp b.acl)
          (λ acl e. and_then_on api (install_acl api is_shared acl e) observe) tt
          λ acl wanted.
            and_then_on-holds Q (install_acl api is_shared acl e) observe tt λ done h rest. (
              acl,
              effective_acl-IsWanted mcp b acl wanted,
              IsInstalled-eq acl is_shared initial (install_acl api is_shared acl e).0
                  (install_observability api b.config.observability
                    (install_acl api is_shared acl e).0).0
                  (acl_of-install_observability b.config.observability
                    (install_acl api is_shared acl e).0)
                  (install_acl-IsInstalled is_shared acl initial e k h),
            )

    install_all-IsAdmitted :
        (mcp : Fields) (b : ApCoreMcpBuilder api) (is_shared : Bool) (initial : api.Executor)
        → (install_all api mcp b is_shared initial).1 ≡ ok tt
        → IsAdmitted mcp b is_shared initial (install_all api mcp b is_shared initial).0
    unfolding install_all
    install_all-IsAdmitted mcp b is_shared initial =
        and_then_on-holds (IsAdmitted mcp b is_shared initial)
          (install_middleware api mcp b initial) (λ done. admit_and_observe api mcp b is_shared) tt
          (λ done h.
            admit_and_observe-IsAdmitted mcp b is_shared initial
              (install_middleware api mcp b initial).0 (acl_of-install_middleware mcp b initial))

    -- Where apcore's executor has the list of access control that was set last, and middleware
    -- leaves it as it is: a build that succeeds has a valid configuration and a backend, and its
    -- executor has the list that the caller gave, or, where the caller gave none, the one that the
    -- configuration describes. An executor that gets a list is shared with nobody else. Only where
    -- neither gives one does the executor keep what it had.
    pub build-IsAdmitted :
        (mcp : Fields) (b : ApCoreMcpBuilder api) (m : ApCoreMcp api)
        → build api mcp b ≡ ok m
        → (backend : BackendSource api.Registry api.Executor) × (b.backend ≡ some backend)
          × IsValid b.config
          × IsAdmitted mcp b
              (resolve_backend api backend).1
              (resolve_backend api backend).2
              m.executor
    unfolding build
    build-IsAdmitted mcp b m h =
        let (checked, v, h1) = bind-eq-ok (validate b.config) _ h in
        let (backend, e, h2) = bind-eq-ok (ok_or b.backend _) _ h1 in
        let r = resolve_backend api backend in
        let (done, i, h3) = bind-eq-ok (install_all api mcp b r.1 r.2).1 _ h2 in
        (
          backend,
          ok_or-eq-ok b.backend _ backend e,
          validate-IsValid b.config v,
          subst (IsAdmitted mcp b r.1 r.2) (ap (λ x. x.executor) (ok_unique h3))
              (install_all-IsAdmitted mcp b r.1 r.2 i),
        )
