-- ===== src/OpenAi/Converted.antt =====
-- What one tool of src/converters/openai.rs is.
use apcore_mcp_rust.Prelude.{
  String, ◌≡◌, refl, sym, ap, ◌∙◌, inl, inr, Bool, true, false, Bool-cases, unwrap_or,
}
use apcore_mcp_rust.Prelude.Fallible.{Fallible, ok, err, ok_unique, bind-eq-ok, Fallible-cases}
use apcore_mcp_rust.Json.{Value, null, bool, get, insert, get_key, fields_of}
use apcore_mcp_rust.Rpc.{index}
use apcore_mcp_rust.Adapters.{AdapterError}
use apcore_mcp_rust.Schema.{convert_input_schema_strict}
use apcore_mcp_rust.ModuleId.Pattern.{Regex}
use apcore_mcp_rust.ModuleId.{normalize}
use apcore_mcp_rust.OpenAi.{Place, ConvertOptions}
use apcore_mcp_rust.OpenAi.Strict.{Strict}
use apcore_mcp_rust.OpenAi.Clean.{Clean}
use apcore_mcp_rust.OpenAi.Tools.{
  ConverterError, adapter, from, Api, tool_of, tool_name_of, convert_descriptor_with_options,
}

from-eq-ok {ℓ} : {A : Type ℓ} (r : Fallible AdapterError A) (a : A) → from r ≡ ok a → r ≡ ok a
from-eq-ok (err e) a h = cc
from-eq-ok (ok b) a h = ap ok (ok_unique h)

module _ {Example : Type 0} (api : Api Example) (is_match : Regex → String → Bool) where
  -- A tool in strict mode.
  abbrev pub IsStrictTool : String → Value → Type 0
  IsStrictTool id tool =
      (normalize is_match id ≡ ok (tool_name_of tool))
      × (index "strict" (index "function" tool) ≡ bool true)
      × Clean (index "parameters" (index "function" tool))
      × Strict Place.schema (index "parameters" (index "function" tool))

  tool_name_of-tool_of :
      (options : ConvertOptions) (name desc : String) (parameters : Value)
      → tool_name_of (tool_of api options name desc parameters) ≡ name
  unfolding tool_of get_key get insert fields_of
  tool_name_of-tool_of options name desc parameters = elim (Bool-cases options.strict) [
    | inl y ↦ rw y refl
    | inr off ↦ rw off refl
  ]

  abbrev schema_of : Value → Value
  schema_of descriptor = unwrap_or (get_key "input_schema" descriptor) null

  -- What a conversion that succeeds has done.
  convert_descriptor-eq-ok :
      (id : String) (descriptor : Value) (description : String) (options : ConvertOptions)
      → (tool : Value)
      → convert_descriptor_with_options api is_match id descriptor description options ≡ ok tool
      → (name desc : String) × (parameters : Value) × (normalize is_match id ≡ ok name)
        × (tool_of api options name desc parameters ≡ tool)
  unfolding convert_descriptor_with_options
  convert_descriptor-eq-ok id descriptor description options tool h =
      let (name, n, h') = bind-eq-ok (from (normalize is_match id)) _ h in
      let (parameters, p, e) =
        bind-eq-ok (from (convert_input_schema_strict (schema_of descriptor) false)) _ h' in
      (name, _, parameters, from-eq-ok (normalize is_match id) name n, ok_unique e)

  from-eq-err {ℓ} :
      {A : Type ℓ} (r : Fallible AdapterError A) (e : ConverterError)
      → from r ≡ err e
      → (a : AdapterError) × (e ≡ adapter a)
  from-eq-err (err a) e h = (a, cc)
  from-eq-err (ok a) e h = cc

  pub convert_descriptor-eq-err :
      (id : String) (descriptor : Value) (description : String) (options : ConvertOptions)
      → (e : ConverterError)
      → convert_descriptor_with_options api is_match id descriptor description options ≡ err e
      → (a : AdapterError) × (e ≡ adapter a)
  unfolding convert_descriptor_with_options
  convert_descriptor-eq-err id descriptor description options e h =
      elim (Fallible-cases (normalize is_match id)) [
        | inl (a, p) ↦ from-eq-err (err a) e (sym (rw p refl) ∙ h)
        | inr (name, p) ↦
            elim (Fallible-cases (convert_input_schema_strict (schema_of descriptor) false)) [
              | inl (a, q) ↦ (a, cc (h, p, q))
              | inr (v, q) ↦ cc (h, p, q)
            ]
      ]

  pub convert_descriptor-name :
      (id : String) (descriptor : Value) (description : String) (options : ConvertOptions)
      → (tool : Value)
      → convert_descriptor_with_options api is_match id descriptor description options ≡ ok tool
      → normalize is_match id ≡ ok (tool_name_of tool)
  convert_descriptor-name id descriptor description options tool h =
      let (name, desc, parameters, n, e) =
        convert_descriptor-eq-ok id descriptor description options tool h in
      n ∙ ap ok (sym (tool_name_of-tool_of options name desc parameters) ∙ ap tool_name_of e)
