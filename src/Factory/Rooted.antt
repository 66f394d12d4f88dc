-- ===== src/Factory/Rooted.antt =====
-- The root of an input schema that src/server/factory.rs takes, and the one that it shows.
use apcore_mcp_rust.Prelude.{
  String, ◌≡◌, refl, sym, ap, subst, ◌⊎◌, inl, inr, Bool, true, false, not, ◌&&◌, ◌||◌, Option,
  none, some, List, [], ◌∷◌, arith, ◌==◌, eq_iff, eq_refl, if◌then◌else◌, Bool-cases, Option-cases,
  some_unique, any, all, All, OnSome, contains,
}
use apcore_mcp_rust.Prelude.Fallible.{ok, err, ◌>>=◌, ok_or, ok_unique, bind-eq-ok, ok_or-eq-ok}
use apcore_mcp_rust.Json.{
  Value, null, bool, number, string, array, object, Items, Fields, end, field, get, insert, get_key,
  as_str, as_object, items, get-insert,
}
use apcore_mcp_rust.Acl.{texts}
use apcore_mcp_rust.Schema.{is_object_text}
use apcore_mcp_rust.Factory.{
  Result, FactoryError, other_error, base_schema, is_blank_schema, is_kind, are_distinct,
  allows_object, input_schema_of,
}

-- The types of JSON Schema.
pub data IsType : Value → Type 0 where
  an_object : IsType (string "object")
  an_array : IsType (string "array")
  a_string : IsType (string "string")
  a_number : IsType (string "number")
  an_integer : IsType (string "integer")
  a_boolean : IsType (string "boolean")
  a_null : IsType (string "null")

pub data Has (v : Value) : List Value → Type 0 where
  first : {vs : List Value} → Has v (v ∷ vs)
  later : {w : Value} {vs : List Value} → Has v vs → Has v (w ∷ vs)

abbrev pub NoneTwice : List Value → Type 0
NoneTwice [] = Unit
NoneTwice (v ∷ vs) = (Has v vs → ⊥) × NoneTwice vs

-- A "type" that an object satisfies: "object", or a list of types, none of them twice, with
-- "object" among them.
pub data AllowsObject : Value → Type 0 where
  only : AllowsObject (string "object")
  among :
      {vs : Items}
      → Has (string "object") (items vs)
      → All IsType (items vs)
      → NoneTwice (items vs)
      → AllowsObject (array vs)

any-Has : (vs : List Value) → any is_object_text vs ≡ true → Has (string "object") vs
any-Has [] h = cc
any-Has (string s ∷ vs) h = elim (Bool-cases (s == "object")) [
  | inl y ↦ subst (λ t. Has (string "object") (string t ∷ vs)) (sym ((eq_iff s "object").0 y)) first
  | inr n ↦ later (any-Has vs (rw n at h))
]
any-Has (null ∷ vs) h = later (any-Has vs h)
any-Has (bool b ∷ vs) h = later (any-Has vs h)
any-Has (number n ∷ vs) h = later (any-Has vs h)
any-Has (array ws ∷ vs) h = later (any-Has vs h)
any-Has (object fs ∷ vs) h = later (any-Has vs h)

both_true : (a b : Bool) → a && b ≡ true → (a ≡ true) × (b ≡ true)
both_true a b h = ground arith

either_true : (a b : Bool) → b ≡ true → a || b ≡ true
either_true a b h = ground arith

not_both : (b : Bool) → not b ≡ true → b ≡ true → ⊥
not_both b n y = ground arith

one_of : (a b : Bool) → a || b ≡ true → (a ≡ true) ⊎ (b ≡ true)
one_of true b h = inl refl
one_of false b h = inr h

named : (s t : String) → IsType (string s) → s == t ≡ true → IsType (string t)
named s t h e = subst (λ u. IsType (string u)) ((eq_iff s t).0 e) h

is_kind-IsType : (v : Value) → is_kind v ≡ true → IsType v
is_kind-IsType (string s) h = elim (one_of ("object" == s) _ h) [
  | inl e ↦ named "object" s an_object e
  | inr h ↦ elim (one_of ("array" == s) _ h) [
    | inl e ↦ named "array" s an_array e
    | inr h ↦ elim (one_of ("string" == s) _ h) [
      | inl e ↦ named "string" s a_string e
      | inr h ↦ elim (one_of ("number" == s) _ h) [
        | inl e ↦ named "number" s a_number e
        | inr h ↦ elim (one_of ("integer" == s) _ h) [
          | inl e ↦ named "integer" s an_integer e
          | inr h ↦ elim (one_of ("boolean" == s) _ h) [
            | inl e ↦ named "boolean" s a_boolean e
            | inr h ↦ elim (one_of ("null" == s) _ h) [
              | inl e ↦ named "null" s a_null e
              | inr h ↦ cc
            ]
          ]
        ]
      ]
    ]
  ]
]
is_kind-IsType _ h = cc

all-IsType : (vs : List Value) → all is_kind vs ≡ true → All IsType vs
all-IsType [] h = tt
all-IsType (v ∷ vs) h =
    let (k, ks) = both_true (is_kind v) (all is_kind vs) h in (is_kind-IsType v k, all-IsType vs ks)

contains-texts :
    (s : String) (v : Value) (vs : List Value)
    → v ≡ string s
    → Has v vs
    → contains (texts vs) s ≡ true
contains-texts s v _ e (first {vs}) =
    subst (λ u. contains (texts (u ∷ vs)) s ≡ true) (sym e) (rw (eq_refl s) refl)
contains-texts s v _ e (later {w} {vs} h) =
    let below = contains-texts s v vs e h in
    elim (Option-cases (as_str w)) [
      | inl n ↦ rw (n, contains) below
      | inr (t, o) ↦ rw (o, contains) (either_true (t == s) (contains (texts vs) s) below)
    ]

IsType-text : {v : Value} → IsType v → (s : String) × (v ≡ string s)
IsType-text an_object = ("object", refl)
IsType-text an_array = ("array", refl)
IsType-text a_string = ("string", refl)
IsType-text a_number = ("number", refl)
IsType-text an_integer = ("integer", refl)
IsType-text a_boolean = ("boolean", refl)
IsType-text a_null = ("null", refl)

are_distinct-NoneTwice :
    (vs : List Value) → All IsType vs → are_distinct (texts vs) ≡ true → NoneTwice vs
are_distinct-NoneTwice [] h k = tt
are_distinct-NoneTwice (v ∷ vs) (t, ts) k =
    let (s, e) = IsType-text t in
    let k' : are_distinct (s ∷ texts vs) ≡ true =
      subst (λ u. are_distinct (texts (u ∷ vs)) ≡ true) e k in
    let (once, rest) = both_true (not (contains (texts vs) s)) (are_distinct (texts vs)) k' in
    (
      λ h. not_both (contains (texts vs) s) once (contains-texts s v vs e h),
      are_distinct-NoneTwice vs ts rest,
    )

allows_object-AllowsObject : (o : Option Value) → allows_object o ≡ true → OnSome AllowsObject o
unfolding allows_object
allows_object-AllowsObject none h = tt
allows_object-AllowsObject (some (string s)) h =
    subst (λ t. AllowsObject (string t)) (sym ((eq_iff s "object").0 h)) only
allows_object-AllowsObject (some (array types)) h =
    let vs = items types in
    let (h', d) = both_true (any is_object_text vs && all is_kind vs) (are_distinct (texts vs)) h in
    let (a, k) = both_true (any is_object_text vs) (all is_kind vs) h' in
    let ts = all-IsType vs k in among (any-Has vs a) ts (are_distinct-NoneTwice vs ts d)
allows_object-AllowsObject (some null) h = cc
allows_object-AllowsObject (some (bool b)) h = cc
allows_object-AllowsObject (some (number n)) h = cc
allows_object-AllowsObject (some (object fs)) h = cc

-- The input schema of a module, and that of its tool. An empty one becomes an object without
-- properties. Any other is an object that allows an object, of which the tool has every key as it
-- was, with "object" for its type.
abbrev pub IsRooted : Value → Value → Type 0
IsRooted v w =
    (((v ≡ null) ⊎ (v ≡ object end))
      × (w ≡ object (field "properties" (object end) (field "type" (string "object") end))))
    ⊎ ((m out : Fields) × (v ≡ object m)
        × (m ≡ end → ⊥)
        × (w ≡ object out)
        × OnSome AllowsObject (get "type" m)
        × ((k : String) → get k out ≡ (if "type" == k then some (string "object") else get k m)))

as_object-eq : (v : Value) (m : Fields) → as_object v ≡ some m → v ≡ object m
as_object-eq (object fs) m e = ap object (some_unique {o = some fs} refl e)
as_object-eq _ m e = cc

-- A guard that fails with an error has let a success through.
pub guarded-eq-ok {ℓ} :
    {A : Type ℓ} (b : Bool) (e : FactoryError) (r : Result A) (a : A)
    → (if b then err e else r) ≡ ok a
    → (b ≡ false) × (r ≡ ok a)
guarded-eq-ok true e r a h = cc
guarded-eq-ok false e r a h = (refl, h)

not-eq-false : (b : Bool) → not b ≡ false → b ≡ true
not-eq-false true h = refl
not-eq-false false h = cc

is_blank_schema-empty : (v : Value) → is_blank_schema v ≡ true → (v ≡ null) ⊎ (v ≡ object end)
is_blank_schema-empty null h = inl refl
is_blank_schema-empty (object end) h = inr refl
is_blank_schema-empty (object (field k v fs)) h = cc
is_blank_schema-empty _ h = cc

full-object : (v : Value) (m : Fields) → is_blank_schema v ≡ false → v ≡ object m → m ≡ end → ⊥
full-object v m n e z = cc (n, e, z)

checked-eq-ok :
    (v w : Value)
    → (if not (allows_object (get_key "type" v))
        then err (other_error "MCP input schema must allow an object root")
        else (ok_or (as_object v) (other_error "MCP input schema must be an object")
            >>= (λ m. ok (object (insert "type" (string "object") m)))))
      ≡ ok w
    → (m : Fields) × (v ≡ object m)
      × (object (insert "type" (string "object") m) ≡ w)
      × (allows_object (get_key "type" v) ≡ true)
checked-eq-ok v w h =
    let (y, h') = guarded-eq-ok (not (allows_object (get_key "type" v))) _ _ w h in
    let (m, e, k) =
      bind-eq-ok (ok_or (as_object v) (other_error "MCP input schema must be an object")) _ h' in
    (m, as_object-eq v m (ok_or-eq-ok _ _ m e), ok_unique k, not-eq-false _ y)

pub input_schema_of-IsRooted : (v w : Value) → input_schema_of v ≡ ok w → IsRooted v w
unfolding input_schema_of base_schema get_key insert
input_schema_of-IsRooted v w h = elim (Bool-cases (is_blank_schema v)) [
  | inl y ↦
      inl (is_blank_schema-empty v y, sym (ok_unique (rw (y, input_schema_of, base_schema) at h)))
  | inr n ↦
      let (m, e, k, a) = checked-eq-ok v w (rw (n, input_schema_of, base_schema) at h) in
      inr (
        m,
        insert "type" (string "object") m,
        e,
        full-object v m n e,
        sym k,
        allows_object-AllowsObject (get "type" m)
            (subst (λ u. allows_object (get_key "type" u) ≡ true) e a),
        λ key. get-insert "type" key (string "object") m,
      )
]
