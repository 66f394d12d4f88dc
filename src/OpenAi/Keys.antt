-- ===== src/OpenAi/Keys.antt =====
-- The maps of the strict walk of src/converters/openai.rs, key by key.
use apcore_mcp_rust.Prelude.{
  String, ◌≡◌, refl, ap, ◌∙◌, inl, inr, false, ◌&&◌, Option, none, some, List, ◌∷◌, ◌==◌, eq_iff,
  eq_refl, if◌then◌else◌, Bool-cases, is_some,
}
use apcore_mcp_rust.Json.{
  Value, bool, object, Fields, end, field, get, insert, contains_key, keys, get-insert,
}
use apcore_mcp_rust.ApprovalStore.{map_option}
use apcore_mcp_rust.OpenAi.{
  properties, other, place_of, is_text_object, has_properties, names_at, all_names, strict_fields,
  strict_at, strict_props,
}

-- What the walk leaves of the map, key by key.
strict_at-other : (o : List String) (v : Value) → strict_at other o v ≡ v
unfolding strict_at
strict_at-other o _ = refl

get-strict_fields :
    (k : String) (o : List String) (fs : Fields)
    → get k (strict_fields o fs) ≡ map_option (strict_at (place_of k) o) (get k fs)
unfolding get strict_at
get-strict_fields k o end = refl
get-strict_fields k o (field j v fs) = elim (Bool-cases (j == k)) [
  | inl y ↦ rw ((eq_iff j k).0 y, eq_refl k) refl
  | inr off ↦ rw (off, get-strict_fields k o fs) refl
]

get-strict_fields_other :
    (k : String) (o : List String) (fs : Fields)
    → place_of k ≡ other
    → get k (strict_fields o fs) ≡ get k fs
get-strict_fields_other k o fs p = get-strict_fields k o fs ∙ rw p (kept (get k fs))
  where
    kept : (x : Option Value) → map_option (strict_at other o) x ≡ x
    kept none = refl
    kept (some v) = ap some (strict_at-other o v)

keys-strict_props : (o : List String) (ps : Fields) → keys (strict_props o ps) ≡ keys ps
unfolding strict_at
keys-strict_props o end = refl
keys-strict_props o (field k v ps) = ap (λ ks. k ∷ ks) (keys-strict_props o ps)

names_at-strict_at :
    (o : List String) (x : Option Value)
    → names_at (map_option (strict_at properties o) x) ≡ names_at x
unfolding strict_at
names_at-strict_at o none = refl
names_at-strict_at o (some (object ps)) = keys-strict_props o ps
names_at-strict_at o (some _) = refl

pub all_names-strict_fields :
    (o : List String) (fs : Fields) → all_names (strict_fields o fs) ≡ all_names fs
unfolding all_names place_of
all_names-strict_fields o fs =
    ap names_at (get-strict_fields "properties" o fs) ∙ names_at-strict_at o (get "properties" fs)

pub has_properties-strict_fields :
    (o : List String) (fs : Fields) → has_properties (strict_fields o fs) ≡ has_properties fs
unfolding has_properties contains_key place_of
has_properties-strict_fields o fs =
    rw (get-strict_fields_other "type" o fs refl, get-strict_fields "properties" o fs)
      (ap (λ b. is_text_object (get "type" fs) && b) (same (get "properties" fs)))
  where
    same : (x : Option Value) → is_some (map_option (strict_at properties o) x) ≡ is_some x
    same none = refl
    same (some v) = refl

-- The insertions of `enforce`.
pub get-enforced :
    (k : String) (r : Value) (below : Fields)
    → get k (insert "required" r (insert "additionalProperties" (bool false) below)) ≡ (
        if "required" == k
        then some r
        else if "additionalProperties" == k
        then some (bool false)
        else get k below)
get-enforced k r below =
    get-insert "required" k r (insert "additionalProperties" (bool false) below)
    ∙ rw (get-insert "additionalProperties" k (bool false) below) refl

pub all_names-enforced :
    (r : Value) (below : Fields)
    → all_names (insert "required" r (insert "additionalProperties" (bool false) below))
      ≡ all_names below
unfolding all_names
all_names-enforced r below = rw (get-enforced "properties" r below) refl
