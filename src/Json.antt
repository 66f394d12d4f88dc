-- ===== src/Json.antt =====
-- `serde_json::Value` and what the program calls of it. The crate's `Map` is the default one,
-- sorted by key: `insert` keeps the order, and iteration goes in it.
use apcore_mcp_rust.Prelude.{
  ℕ, String, ◌≡◌, refl, Bool, true, false, Option, none, some, List, [], ◌∷◌, arith, ◌==◌, eq_iff,
  if◌then◌else◌, is_some,
}
use Prim.Native.Nat.{Ordering}
use Prim.Native.String.{compare}

-- A number is a `u64`, a negative `i64` (`neg_int n` is -(n + 1)), or a finite double, of which
-- the program reads the text and whether it is zero.
pub data Number : Type 0 where
  pos_int : ℕ → Number
  neg_int : ℕ → Number
  float : (text : String) (is_zero : Bool) → Number

mutual
  pub data Value : Type 0 where
    null : Value
    bool : Bool → Value
    number : Number → Value
    string : String → Value
    array : Items → Value
    object : Fields → Value

  pub data Items : Type 0 where
    nil : Items
    cons : Value → Items → Items

  pub data Fields : Type 0 where
    end : Fields
    field : String → Value → Fields → Fields

-- `Map`
unfoldable pub get : String → Fields → Option Value
get k end = none
get k (field j v fs) = if j == k then some v else get k fs

unfoldable pub insert : String → Value → Fields → Fields
insert k v end = field k v end
insert k v (field j w fs) = elim (compare k j) [
  | Ordering.lt ↦ field k v (field j w fs)
  | Ordering.eq ↦ field k v fs
  | Ordering.gt ↦ field j w (insert k v fs)
]

unfoldable pub remove : String → Fields → Fields
remove k end = end
remove k (field j v fs) = if j == k then remove k fs else field j v (remove k fs)

unfoldable pub contains_key : String → Fields → Bool
unfolding get
contains_key k fs = is_some (get k fs)

abbrev pub keys : Fields → List String
keys end = []
keys (field k v fs) = k ∷ keys fs

abbrev pub has_no_fields : Fields → Bool
has_no_fields end = true
has_no_fields (field k v fs) = false

abbrev pub items : Items → List Value
items nil = []
items (cons v vs) = v ∷ items vs

abbrev pub to_items : List Value → Items
to_items [] = nil
to_items (v ∷ vs) = cons v (to_items vs)

-- `Value`
abbrev pub is_null : Value → Bool
is_null null = true
is_null _ = false

abbrev pub as_bool : Value → Option Bool
as_bool (bool b) = some b
as_bool _ = none

abbrev pub as_str : Value → Option String
as_str (string s) = some s
as_str _ = none

abbrev pub as_u64 : Value → Option ℕ
as_u64 (number (Number.pos_int n)) = some n
as_u64 _ = none

abbrev pub as_array : Value → Option (List Value)
as_array (array vs) = some (items vs)
as_array _ = none

abbrev pub as_object : Value → Option Fields
as_object (object fs) = some fs
as_object _ = none

-- `Value::get` with a text: none on what is no object.
unfoldable pub get_key : String → Value → Option Value
unfolding get
get_key k (object fs) = get k fs
get_key k _ = none

abbrev pub and_then {ℓ κ} : {A : Type ℓ} {B : Type κ} → Option A → (A → Option B) → Option B
and_then none f = none
and_then (some a) f = f a

-- `value.get(k).and_then(Value::as_str)`
unfoldable pub get_str : String → Value → Option String
unfolding get_key
get_str k v = and_then (get_key k v) as_str

-- `json!({ … })`
unfoldable pub fields_of : List (String × Value) → Fields
unfolding insert
fields_of [] = end
fields_of ((k, v) ∷ rest) = insert k v (fields_of rest)

abbrev pub json : List (String × Value) → Value
json kvs = object (fields_of kvs)

pub get-insert :
    (k j : String) (v : Value) (m : Fields)
    → get j (insert k v m) ≡ (if k == j then some v else get j m)
unfolding get insert
get-insert k j v end = refl
get-insert k j v (field i w m) =
    ground (arith, eq_iff k j, eq_iff k i, eq_iff i j, get-insert k j v m)

pub get-remove :
    (k j : String) (m : Fields) → get j (remove k m) ≡ (if k == j then none else get j m)
unfolding get remove
get-remove k j end = ground arith
get-remove k j (field i w m) = ground (arith, eq_iff k j, eq_iff i k, eq_iff i j, get-remove k j m)
