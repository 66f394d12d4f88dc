-- ===== src/Schema/Strict.antt =====
-- The strict walk of src/adapters/schema.rs, step by step.
use apcore_mcp_rust.Prelude.{
  String, ◌≡◌, refl, ap, ◌∙◌, inl, inr, Bool, false, not, ◌&&◌, Option, none, some, arith, ◌==◌,
  eq_iff, eq_refl, if◌then◌else◌, Bool-cases, is_some,
}
use apcore_mcp_rust.Json.{
  Value, bool, array, object, Fields, end, field, get, contains_key, get-insert,
}
use apcore_mcp_rust.ApprovalStore.{map_option}
use apcore_mcp_rust.Schema.{plain, role, is_object_type, seal, inject, inject_fields}

get-inject_fields :
    (k : String) (fs : Fields) → get k (inject_fields fs) ≡ map_option (inject (role k)) (get k fs)
unfolding get inject
get-inject_fields k end = refl
get-inject_fields k (field j v fs) = elim (Bool-cases (j == k)) [
  | inl y ↦ rw ((eq_iff j k).0 y, eq_refl k) refl
  | inr off ↦ rw (off, get-inject_fields k fs) refl
]

pub inject-plain : (v : Value) → inject plain v ≡ v
unfolding inject
inject-plain (object m) = refl
inject-plain (array vs) = refl
inject-plain _ = refl

pub get-inject_fields_plain :
    (k : String) (fs : Fields) → role k ≡ plain → get k (inject_fields fs) ≡ get k fs
get-inject_fields_plain k fs p = get-inject_fields k fs ∙ rw p (kept (get k fs))
  where
    kept : (o : Option Value) → map_option (inject plain) o ≡ o
    kept none = refl
    kept (some v) = ap some (inject-plain v)

pub contains_key-inject_fields :
    (k : String) (fs : Fields) → contains_key k (inject_fields fs) ≡ contains_key k fs
unfolding contains_key
contains_key-inject_fields k fs = rw (get-inject_fields k fs) (same (get k fs))
  where
    same : (o : Option Value) → is_some (map_option (inject (role k)) o) ≡ is_some o
    same none = refl
    same (some v) = refl

-- The walk adds the key "additionalProperties" to an object schema that lacks it.
abbrev pub adds : Fields → Bool
adds m = is_object_type m && not (contains_key "additionalProperties" m)

pub get-seal :
    (k : String) (m below : Fields)
    → get k (seal m below)
      ≡ (if adds m && ("additionalProperties" == k) then some (bool false) else get k below)
get-seal k m below = elim (Bool-cases (adds m)) [
  | inl y ↦ rw y (get-insert "additionalProperties" k (bool false) below)
  | inr off ↦ rw off refl
]

pub is_object_type-seal :
    (m : Fields) → is_object_type (seal m (inject_fields m)) ≡ is_object_type m
unfolding contains_key role
is_object_type-seal m = ground (
  arith,
  get-seal "type" m (inject_fields m),
  get-seal "properties" m (inject_fields m),
  get-inject_fields_plain "type" m refl,
  contains_key-inject_fields "properties" m,
)
