-- ===== src/Schema/Walk.antt =====
-- The strict walk of src/adapters/schema.rs, by induction over the schema.
use apcore_mcp_rust.Prelude.{
  String, ◌≡◌, refl, ap, ◌∙◌, inl, inr, true, false, arith, eq_iff, Bool-cases,
}
use apcore_mcp_rust.Json.{
  Value, bool, array, object, Items, nil, cons, Fields, end, field, insert, contains_key,
}
use apcore_mcp_rust.Schema.{
  Role, dict, schema, list, role, is_object_type, seal, inject, inject_items, inject_fields,
  inject_values, inject_strict,
}
use apcore_mcp_rust.Schema.References.{NoRefs, NoRefsItems, NoRefsFields, NoRefs-insert}
use apcore_mcp_rust.Schema.Strict.{adds, get-seal, contains_key-inject_fields, is_object_type-seal}

-- Every object schema that the walk reaches says what it thinks of additional properties.
unfoldable mutual
  pub Closed : Role → Value → Type 0
  Closed schema (object m) =
      (is_object_type m ≡ true → contains_key "additionalProperties" m ≡ true) × ClosedFields m
  Closed schema (array vs) = ClosedItems vs
  Closed dict (object inner) = ClosedValues inner
  Closed list (array vs) = ClosedItems vs
  Closed _ v = Unit {0}

  pub ClosedItems : Items → Type 0
  ClosedItems nil = Unit {0}
  ClosedItems (cons v vs) = Closed schema v × ClosedItems vs

  pub ClosedFields : Fields → Type 0
  ClosedFields end = Unit {0}
  ClosedFields (field k v fs) = Closed (role k) v × ClosedFields fs

  pub ClosedValues : Fields → Type 0
  ClosedValues end = Unit {0}
  ClosedValues (field k v fs) = Closed schema v × ClosedValues fs

ClosedFields-insert :
    (k : String) (v : Value) (fs : Fields)
    → Closed (role k) v
    → ClosedFields fs
    → ClosedFields (insert k v fs)
unfolding Closed insert
ClosedFields-insert k v end h g = (h, tt)
ClosedFields-insert k v (field j w fs) h g = ground (arith, ClosedFields-insert k v fs h)

seal-closes :
    (m : Fields)
    → is_object_type (seal m (inject_fields m)) ≡ true
    → contains_key "additionalProperties" (seal m (inject_fields m)) ≡ true
unfolding contains_key
seal-closes m h = ground (
  arith,
  is_object_type-seal m,
  get-seal "additionalProperties" m (inject_fields m),
  contains_key-inject_fields "additionalProperties" m,
)

seal-ClosedFields :
    (m : Fields) → ClosedFields (inject_fields m) → ClosedFields (seal m (inject_fields m))
unfolding Closed role
seal-ClosedFields m h = elim (Bool-cases (adds m)) [
  | inl y ↦ rw y (ClosedFields-insert "additionalProperties" (bool false) (inject_fields m) tt h)
  | inr off ↦ rw off h
]

mutual
  unfolding Closed inject

  inject-Closed : (r : Role) (v : Value) → Closed r (inject r v)
  inject-Closed schema (object m) = (seal-closes m, seal-ClosedFields m (inject_fields-Closed m))
  inject-Closed schema (array vs) = inject_items-Closed vs
  inject-Closed dict (object inner) = inject_values-Closed inner
  inject-Closed list (array vs) = inject_items-Closed vs
  inject-Closed _ v = tt

  inject_items-Closed : (vs : Items) → ClosedItems (inject_items vs)
  inject_items-Closed nil = tt
  inject_items-Closed (cons v vs) = (inject-Closed schema v, inject_items-Closed vs)

  inject_fields-Closed : (fs : Fields) → ClosedFields (inject_fields fs)
  inject_fields-Closed end = tt
  inject_fields-Closed (field k v fs) = (inject-Closed (role k) v, inject_fields-Closed fs)

  inject_values-Closed : (fs : Fields) → ClosedValues (inject_values fs)
  inject_values-Closed end = tt
  inject_values-Closed (field k v fs) = (inject-Closed schema v, inject_values-Closed fs)

inject_fields-insert :
    (k : String) (v : Value) (fs : Fields)
    → inject_fields (insert k v fs) ≡ insert k (inject (role k) v) (inject_fields fs)
unfolding inject insert
inject_fields-insert k v end = refl
inject_fields-insert k v (field j w fs) = ground (arith, inject_fields-insert k v fs)

adds-seal : (m : Fields) → adds (seal m (inject_fields m)) ≡ false
unfolding contains_key
adds-seal m = ground (
  arith,
  is_object_type-seal m,
  get-seal "additionalProperties" m (inject_fields m),
  contains_key-inject_fields "additionalProperties" m,
)

inject_fields-seal :
    (m : Fields)
    → inject_fields (inject_fields m) ≡ inject_fields m
    → inject_fields (seal m (inject_fields m)) ≡ seal m (inject_fields m)
unfolding role inject
inject_fields-seal m e = elim (Bool-cases (adds m)) [
  | inl y ↦ rw y (
      inject_fields-insert "additionalProperties" (bool false) (inject_fields m)
      ∙ ap (insert "additionalProperties" (bool false)) e)
  | inr off ↦ rw off e
]

seal_again :
    (m : Fields)
    → inject_fields (inject_fields m) ≡ inject_fields m
    → seal (seal m (inject_fields m)) (inject_fields (seal m (inject_fields m)))
      ≡ seal m (inject_fields m)
seal_again m e = rw (adds-seal m) (inject_fields-seal m e)

mutual
  unfolding inject

  inject-inject : (r : Role) (v : Value) → inject r (inject r v) ≡ inject r v
  inject-inject schema (object m) = ap object (seal_again m (inject_fields_again m))
  inject-inject schema (array vs) = ap array (inject_items_again vs)
  inject-inject dict (object inner) = ap object (inject_values_again inner)
  inject-inject list (array vs) = ap array (inject_items_again vs)
  inject-inject _ v = refl

  inject_items_again : (vs : Items) → inject_items (inject_items vs) ≡ inject_items vs
  inject_items_again nil = refl
  inject_items_again (cons v vs) = cc (inject-inject schema v, inject_items_again vs)

  inject_fields_again : (fs : Fields) → inject_fields (inject_fields fs) ≡ inject_fields fs
  inject_fields_again end = refl
  inject_fields_again (field k v fs) = cc (inject-inject (role k) v, inject_fields_again fs)

  inject_values_again : (fs : Fields) → inject_values (inject_values fs) ≡ inject_values fs
  inject_values_again end = refl
  inject_values_again (field k v fs) = cc (inject-inject schema v, inject_values_again fs)

-- The strict walk closes every object schema that it reaches (under the keys of maps of schemas, of
-- schemas and of lists of schemas, at any depth), and a second walk changes nothing.
pub inject_strict-Closed :
    (v : Value)
    → Closed schema (inject_strict v) × (inject_strict (inject_strict v) ≡ inject_strict v)
unfolding inject_strict
inject_strict-Closed v = (inject-Closed schema v, inject-inject schema v)

NoRefs-seal :
    (m : Fields) → NoRefsFields (inject_fields m) → NoRefsFields (seal m (inject_fields m))
unfolding NoRefs
NoRefs-seal m h = elim (Bool-cases (adds m)) [
  | inl y ↦ rw y (
      NoRefs-insert "additionalProperties" (bool false) (inject_fields m)
        (λ e. cc ((eq_iff "additionalProperties" "$ref").1 e)) tt h)
  | inr off ↦ rw off h
]

mutual
  unfolding NoRefs inject

  pub inject-NoRefs : (r : Role) (v : Value) → NoRefs v → NoRefs (inject r v)
  inject-NoRefs schema (object m) h = NoRefs-seal m (inject_fields-NoRefs m h)
  inject-NoRefs schema (array vs) h = inject_items-NoRefs vs h
  inject-NoRefs dict (object inner) h = inject_values-NoRefs inner h
  inject-NoRefs list (array vs) h = inject_items-NoRefs vs h
  inject-NoRefs _ v h = h

  inject_items-NoRefs : (vs : Items) → NoRefsItems vs → NoRefsItems (inject_items vs)
  inject_items-NoRefs nil h = tt
  inject_items-NoRefs (cons v vs) (h, g) = (inject-NoRefs schema v h, inject_items-NoRefs vs g)

  inject_fields-NoRefs : (fs : Fields) → NoRefsFields fs → NoRefsFields (inject_fields fs)
  inject_fields-NoRefs end h = tt
  inject_fields-NoRefs (field k v fs) (n, h, g) =
      (n, inject-NoRefs (role k) v h, inject_fields-NoRefs fs g)

  inject_values-NoRefs : (fs : Fields) → NoRefsFields fs → NoRefsFields (inject_values fs)
  inject_values-NoRefs end h = tt
  inject_values-NoRefs (field k v fs) (n, h, g) =
      (n, inject-NoRefs schema v h, inject_values-NoRefs fs g)
