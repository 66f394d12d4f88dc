-- ===== src/Tasks/Submitted.antt =====
-- Which submissions src/server/async_task_bridge.rs passes to apcore, and what it keeps of them.
use apcore_mcp_rust.Prelude.{
  String, ◌≡◌, refl, subst, ◌⊎◌, inl, inr, true, false, not, Option, none, some, arith, starts_with,
  Bool-cases, Option-cases, is_blank,
}
use apcore_mcp_rust.Json.{Value, null, bool, string, array, object, Fields, end, get_key, get_str}
use apcore_mcp_rust.Prelude.Fallible.{Fallible-cases, ok, err, ok_unique}
use apcore_mcp_rust.Auth.{Identity}
use apcore_mcp_rust.Acl.{keep_if}
use apcore_mcp_rust.Acl.Shape.{keep_if-some}
use apcore_mcp_rust.Tasks.{TaskError, Descriptor, is_async_module, is_reserved_id, inputs_of}
use apcore_mcp_rust.Tasks.Handlers.{submission, handle_submit, is_async_registered}
use apcore_mcp_rust.Tasks.Bridge.{ManagerApi, ApcoreApi, Bridge, submit}

-- The inputs are the object under "arguments", or an empty one where there is none or null.
pub data IsInputs : Option Value → Value → Type 0 where
  missing : IsInputs none (object end)
  by_null : IsInputs (some null) (object end)
  by_object : (fs : Fields) → IsInputs (some (object fs)) (object fs)

-- The arguments name a module that is not the bridge's own and that is registered as async.
abbrev pub IsSubmission : ApcoreApi → Value → String → Value → Type 0
IsSubmission apcore arguments module_id inputs =
    (get_str "module_id" arguments ≡ some module_id)
    × (is_blank module_id ≡ false)
    × (starts_with module_id "__apcore_" ≡ false)
    × ((d : Descriptor) × (apcore.get_definition module_id ≡ some d)
        × (is_async_module d.0 d.1 ≡ true))
    × IsInputs (get_key "arguments" arguments) inputs

IsInputs-from :
    (message : String) (arguments v : Value) (inputs : Value)
    → get_key "arguments" arguments ≡ some v
    → inputs_of (object end) message arguments ≡ ok inputs
    → IsInputs (some v) inputs
unfolding inputs_of
IsInputs-from message arguments null inputs e h =
    subst (IsInputs (some null)) (ok_unique (rw (e, inputs_of) at h)) by_null
IsInputs-from message arguments (object fs) inputs e h =
    subst (IsInputs (some (object fs))) (ok_unique (rw (e, inputs_of) at h)) (by_object fs)
IsInputs-from message arguments (bool b) inputs e h = absurd (ground (arith, e))
IsInputs-from message arguments (Value.number n) inputs e h = absurd (ground (arith, e))
IsInputs-from message arguments (string s) inputs e h = absurd (ground (arith, e))
IsInputs-from message arguments (array vs) inputs e h = absurd (ground (arith, e))

inputs_of-IsInputs :
    (message : String) (arguments : Value) (inputs : Value)
    → inputs_of (object end) message arguments ≡ ok inputs
    → IsInputs (get_key "arguments" arguments) inputs
unfolding inputs_of
inputs_of-IsInputs message arguments inputs h =
    elim (Option-cases (get_key "arguments" arguments)) [
      | inl n ↦ rw n (subst (IsInputs none) (ok_unique (rw (n, inputs_of) at h)) missing)
      | inr (v, e) ↦ rw e (IsInputs-from message arguments v inputs e h)
    ]

registered :
    (apcore : ApcoreApi) (module_id : String)
    → is_async_registered apcore module_id ≡ true
    → (d : Descriptor) × (apcore.get_definition module_id ≡ some d)
      × (is_async_module d.0 d.1 ≡ true)
unfolding is_async_registered
registered apcore module_id h = elim (Option-cases (apcore.get_definition module_id)) [
  | inl n ↦ absurd (ground (arith, n))
  | inr (d, e) ↦ (d, e, rw (e, is_async_registered) at h)
]

abbrev not_an_object : String
not_an_object = "__apcore_task_submit requires `arguments` to be a JSON object"

submission-IsSubmission :
    (apcore : ApcoreApi) (arguments : Value) (module_id : String) (inputs : Value)
    → submission apcore arguments ≡ ok (module_id, inputs)
    → IsSubmission apcore arguments module_id inputs
unfolding submission is_reserved_id
submission-IsSubmission apcore arguments module_id inputs h =
    elim (Option-cases (keep_if (λ s. not (is_blank s)) (get_str "module_id" arguments))) [
      | inl n ↦ absurd (ground (arith, n))
      | inr (id, k) ↦ elim (Bool-cases (is_reserved_id id)) [
        | inl y ↦ absurd (ground (arith, k, y))
        | inr r ↦ elim (Bool-cases (is_async_registered apcore id)) [
          | inr n ↦ absurd (ground (arith, k, r, n))
          | inl a ↦ elim (Fallible-cases (inputs_of (object end) not_an_object arguments)) [
            | inl (e, f) ↦ absurd (ground (arith, k, r, a, f))
            | inr (v, f) ↦
                let (named, filled) =
                  keep_if-some (λ s. not (is_blank s)) (get_str "module_id" arguments) id k in
                let q : ◌≡◌ {A = String × Value} (id, v) (module_id, inputs) =
                  ok_unique (rw (k, r, a, f, submission) at h) in
                subst (λ p. IsSubmission apcore arguments p.0 p.1) q
                  (
                    named,
                    ground (arith, filled),
                    r,
                    registered apcore id a,
                    inputs_of-IsInputs not_an_object arguments v f,
                  )
          ]
        ]
      ]
    ]

module _ {M Sender : Type 0} (api : ManagerApi M) where
  -- A submission is refused with an error, and nothing is changed; or it names a module that is
  -- not the bridge's own and that is registered as async, its inputs are an object, and the bridge
  -- is as after submitting this module with these inputs.
  pub handle_submit-guarded :
      (apcore : ApcoreApi) (arguments : Value) (identity : Option Identity) (token : Option Value)
      (sender : Option Sender) (session : Option String) (b : Bridge M Sender)
      → ((e : TaskError) × (handle_submit api apcore arguments identity token sender session b
            ≡ (b, err e)))
        ⊎ ((module_id : String) × (inputs : Value) × ((handle_submit api apcore arguments identity
                token sender session b).0
              ≡ (submit api module_id inputs identity token sender session b).0)
            × IsSubmission apcore arguments module_id inputs)
  unfolding handle_submit
  handle_submit-guarded apcore arguments identity token sender session b =
      elim (Fallible-cases (submission apcore arguments)) [
        | inl (e, h) ↦ inl (e, rw (h, handle_submit) refl)
        | inr ((id, v), h) ↦
            inr (id, v, rw (h, handle_submit) refl, submission-IsSubmission apcore arguments id v h)
      ]
