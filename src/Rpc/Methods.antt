-- ===== src/Rpc/Methods.antt =====
-- The methods that src/server/server.rs tells apart, as a case lemma.
use apcore_mcp_rust.Prelude.{
  String, ◌≡◌, refl, sym, subst, inl, inr, Bool, true, false, ◌||◌, ◌==◌, eq_iff, Bool-cases, ◌<>◌,
}
use apcore_mcp_rust.Json.{Value}
use apcore_mcp_rust.Rpc.{State, ServerHandler, RpcResult, notification, error, method_not_found}
use apcore_mcp_rust.Rpc.Handler.{
  dispatch, initialize, tools_list, tools_call, resources_list, resources_read,
  resource_templates_list, cancelled,
}

-- The methods that are notifications.
abbrev pub is_notification : String → Bool
is_notification method =
    method == "notifications/initialized" || method == "notifications/cancelled"

module _ {World : Type 0} (print : Value → String) (h : ServerHandler World) where
  -- What holds of each method's outcome, and of an unknown method's, holds of the dispatched one's.
  pub dispatch-by :
      (P : String → State World × RpcResult → Type 0) (method : String) (message : Value)
      (st : State World)
      → P "initialize" (initialize print h message st)
      → P "tools/list" (tools_list print h message st)
      → P "tools/call" (tools_call print h message st)
      → P "resources/list" (resources_list print h st)
      → P "resources/read" (resources_read print h message st)
      → P "resources/templates/list" (resource_templates_list print h st)
      → P "notifications/initialized" (st, notification)
      → P "notifications/cancelled" (cancelled print h message st)
      → ((k : String)
          → is_notification k ≡ false
          → P k (st, error method_not_found ("unknown method: " <> k)))
      → P method (dispatch print h method message st)
  unfolding dispatch
  dispatch-by P method message st by_initialize by_list by_call by_resources by_read by_templates
        by_initialized by_cancelled by_other =
      let at : (k : String)
          → P k (dispatch print h k message st)
          → method == k ≡ true
          → P method (dispatch print h method message st) =
        λ k p e. subst (λ k. P k (dispatch print h k message st)) (sym ((eq_iff method k).0 e)) p in
      elim (Bool-cases (method == "initialize")) [
        | inl y ↦ at "initialize" by_initialize y
        | inr n0 ↦ elim (Bool-cases (method == "tools/list")) [
          | inl y ↦ at "tools/list" by_list y
          | inr n1 ↦ elim (Bool-cases (method == "tools/call")) [
            | inl y ↦ at "tools/call" by_call y
            | inr n2 ↦ elim (Bool-cases (method == "resources/list")) [
              | inl y ↦ at "resources/list" by_resources y
              | inr n3 ↦ elim (Bool-cases (method == "resources/read")) [
                | inl y ↦ at "resources/read" by_read y
                | inr n4 ↦ elim (Bool-cases (method == "resources/templates/list")) [
                  | inl y ↦ at "resources/templates/list" by_templates y
                  | inr n5 ↦ elim (Bool-cases (method == "notifications/initialized")) [
                    | inl y ↦ at "notifications/initialized" by_initialized y
                    | inr n6 ↦ elim (Bool-cases (method == "notifications/cancelled")) [
                      | inl y ↦ at "notifications/cancelled" by_cancelled y
                      | inr n7 ↦
                          rw (n0, n1, n2, n3, n4, n5, n6, n7, dispatch)
                            (by_other method (rw (n6, n7) refl))
                    ]
                  ]
                ]
              ]
            ]
          ]
        ]
      ]
