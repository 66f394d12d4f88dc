-- ===== src/Middleware/Built.antt =====
-- What the entries of mcp.middleware become, for src/middleware_builder.rs.
use apcore_mcp_rust.Prelude.{
  ℕ, ◌+◌, String, ◌≡◌, sym, ap, ◌∙◌, subst, inl, inr, true, not, some, List, [], ◌∷◌, arith, ◌==◌,
  eq_iff, Bool-cases, Option-cases, unwrap_or, is_empty, All, contains,
}
use apcore_mcp_rust.Json.{
  Value, string, array, object, Items, Fields, get, remove, has_no_fields, keys, items, as_str,
  as_object, and_then,
}
use apcore_mcp_rust.Prelude.Fallible.{Fallible-cases, ok, ok_unique}
use apcore_mcp_rust.Acl.{filter}
use apcore_mcp_rust.Acl.Shape.{as_object-some, as_str-some}
use apcore_mcp_rust.Middleware.{
  Middleware, retry, logging, error_history, RetryApi, logging_keys, error_history_keys, other_keys,
  flag, limit, with_max_retries, build_retry, build_logging, build_error_history, build_entry,
  build_entries, build_middleware_from_config,
}

no_others :
    (known ks : List String)
    → is_empty (filter (λ k. not (contains known k)) ks) ≡ true
    → All (λ k. contains known k ≡ true) ks
no_others known [] h = tt
no_others known (k ∷ ks) h = elim (Bool-cases (contains known k)) [
  | inl y ↦ (y, no_others known ks (rw y at h))
  | inr n ↦ absurd (cc (rw n at h))
]

-- All keys of the entry are known.
abbrev pub OnlyKeys : List String → Fields → Type 0
OnlyKeys known obj = All (λ k. contains known k ≡ true) (keys obj)

module _ {C : Type 0} (api : RetryApi C) where
  -- What an entry of each type becomes.
  pub data IsEntry (obj : Fields) : Middleware C → Type 0 where
    retries_by_default :
        get "type" obj ≡ some (string "retry")
        → has_no_fields (remove "type" obj) ≡ true
        → IsEntry obj (retry api.default)
    retries :
        (config : C)
        → get "type" obj ≡ some (string "retry")
        → api.from_value (object (with_max_retries api (remove "type" obj))) ≡ ok config
        → IsEntry obj (retry config)
    logs :
        get "type" obj ≡ some (string "logging")
        → OnlyKeys logging_keys obj
        → IsEntry obj
            (logging (flag "log_inputs" obj) (flag "log_outputs" obj) (flag "log_errors" obj))
    remembers :
        get "type" obj ≡ some (string "error_history")
        → OnlyKeys error_history_keys obj
        → IsEntry obj (
            error_history
              (unwrap_or (limit "max_entries_per_module" obj) 50)
              (limit "max_total_entries" obj))

  -- One middleware for each entry, in their order.
  pub data AreEntries : List Value → List (Middleware C) → Type 0 where
    no_entries : AreEntries [] []
    one_more :
        {vs : List Value} {m : Middleware C} {ms : List (Middleware C)} (obj : Fields)
        → IsEntry obj m
        → AreEntries vs ms
        → AreEntries (object obj ∷ vs) (m ∷ ms)

  build_retry-IsEntry :
      (idx : ℕ) (obj : Fields) (m : Middleware C)
      → get "type" obj ≡ some (string "retry")
      → build_retry api idx obj ≡ ok m
      → IsEntry obj m
  unfolding build_retry
  build_retry-IsEntry idx obj m t h = elim (Bool-cases (has_no_fields (remove "type" obj))) [
    | inl y ↦ subst (IsEntry obj) (ok_unique (rw (y, build_retry) at h)) (retries_by_default t y)
    | inr n ↦
        elim (Fallible-cases (api.from_value (object (with_max_retries api (remove "type" obj))))) [
          | inl (e, f) ↦ absurd (ground (arith, n, f))
          | inr (config, f) ↦
              subst (IsEntry obj) (ok_unique (rw (n, f, build_retry) at h)) (retries config t f)
        ]
  ]

  build_logging-IsEntry :
      (idx : ℕ) (obj : Fields) (m : Middleware C)
      → get "type" obj ≡ some (string "logging")
      → build_logging api idx obj ≡ ok m
      → IsEntry obj m
  unfolding build_logging
  build_logging-IsEntry idx obj m t h = elim (Bool-cases (is_empty (other_keys logging_keys obj))) [
    | inr n ↦ absurd (ground (arith, n))
    | inl y ↦
        subst (IsEntry obj) (ok_unique (rw (y, build_logging) at h))
          (logs t (no_others logging_keys (keys obj) y))
  ]

  build_error_history-IsEntry :
      (idx : ℕ) (obj : Fields) (m : Middleware C)
      → get "type" obj ≡ some (string "error_history")
      → build_error_history api idx obj ≡ ok m
      → IsEntry obj m
  unfolding build_error_history
  build_error_history-IsEntry idx obj m t h =
      elim (Bool-cases (is_empty (other_keys error_history_keys obj))) [
        | inr n ↦ absurd (ground (arith, n))
        | inl y ↦
            subst (IsEntry obj) (ok_unique (rw (y, build_error_history) at h))
              (remembers t (no_others error_history_keys (keys obj) y))
      ]

  build_entry-IsEntry :
      (idx : ℕ) (v : Value) (m : Middleware C)
      → build_entry api idx v ≡ ok m
      → (obj : Fields) × (v ≡ object obj) × IsEntry obj m
  unfolding build_entry
  build_entry-IsEntry idx v m h = elim (Option-cases (as_object v)) [
    | inl n ↦ absurd (ground (arith, n))
    | inr (obj, o) ↦ elim (Option-cases (and_then (get "type" obj) as_str)) [
      | inl n ↦ absurd (ground (arith, o, n))
      | inr (s, t) ↦
          let typed = as_str-some (get "type" obj) s t in
          (
            obj,
            as_object-some v obj o,
            elim (Bool-cases (s == "retry")) [
              | inl y ↦
                  build_retry-IsEntry idx obj m
                    (typed ∙ ap (λ s. some (string s)) ((eq_iff s "retry").0 y))
                    (rw (o, t, y, build_entry) at h)
              | inr n ↦ elim (Bool-cases (s == "logging")) [
                | inl y ↦
                    build_logging-IsEntry idx obj m
                      (typed ∙ ap (λ s. some (string s)) ((eq_iff s "logging").0 y))
                      (rw (o, t, n, y, build_entry) at h)
                | inr l ↦ elim (Bool-cases (s == "error_history")) [
                  | inl y ↦
                      build_error_history-IsEntry idx obj m
                        (typed ∙ ap (λ s. some (string s)) ((eq_iff s "error_history").0 y))
                        (rw (o, t, n, l, y, build_entry) at h)
                  | inr e ↦ absurd (ground (arith, o, t, n, l, e))
                ]
              ]
            ],
          )
    ]
  ]

  build_entries-AreEntries :
      (idx : ℕ) (vs : List Value) (ms : List (Middleware C))
      → build_entries api idx vs ≡ ok ms
      → AreEntries vs ms
  unfolding build_entries
  build_entries-AreEntries idx [] ms h = subst (AreEntries []) (ok_unique h) no_entries
  build_entries-AreEntries idx (v ∷ vs) ms h = elim (Fallible-cases (build_entry api idx v)) [
    | inl (e, a) ↦ absurd (ground (arith, a))
    | inr (m, a) ↦ elim (Fallible-cases (build_entries api (idx + 1) vs)) [
      | inl (e, b) ↦ absurd (ground (arith, a, b))
      | inr (rest, b) ↦
          let (obj, o, i) = build_entry-IsEntry idx v m a in
          subst (AreEntries (v ∷ vs)) (ok_unique (rw (a, b, build_entries) at h)) (
            subst (λ v. AreEntries (v ∷ vs) (m ∷ rest)) (sym o)
              (one_more obj i (build_entries-AreEntries (idx + 1) vs rest b)))
    ]
  ]

  -- Where a list of entries is taken, each is an object whose "type" is "retry", "logging" or
  -- "error_history", and there is one middleware of its type for each, in their order: with the
  -- retry configuration that apcore reads from the other keys, or its default where there are none;
  -- with the three flags, each true by default, and no unknown key; with the two limits, the first
  -- 50 by default, and no unknown key.
  pub build_middleware_from_config-AreEntries :
      (vs : Items) (ms : List (Middleware C))
      → build_middleware_from_config api (some (array vs)) ≡ ok ms
      → AreEntries (items vs) ms
  unfolding build_middleware_from_config
  build_middleware_from_config-AreEntries vs ms h = build_entries-AreEntries 0 (items vs) ms h
