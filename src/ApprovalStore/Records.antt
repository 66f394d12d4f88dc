-- ===== src/ApprovalStore/Records.antt =====
-- Lemmas on the map of records: what `remove`, `retain` and the eviction leave.
use apcore_mcp_rust.Prelude.{
  String, ◌≡◌, refl, ◌↔◌, inl, inr, Bool, false, Option, none, some, [], ◌∷◌, arith, eq_iff,
  if◌then◌else◌, Option-cases,
}
use apcore_mcp_rust.Prelude.Map.{Map, get, insert, remove, get-insert, get-remove}
use apcore_mcp_rust.ApprovalStore.{InternalRecord, is_pending, oldest_pending, retain}

-- No key occurs twice.
abbrev pub Distinct : Map InternalRecord → Type 0
Distinct [] = Unit
Distinct ((k, r) ∷ m) = (get k m ≡ none) × Distinct m

pub Distinct-insert :
    (k : String) (r : InternalRecord) (m : Map InternalRecord)
    → Distinct m
    → Distinct (insert k r m)
unfolding insert get
Distinct-insert k r [] h = (refl, tt)
Distinct-insert k r ((j, w) ∷ m) (f, h) =
    ground (arith, eq_iff j k, get-insert k j r m, eq_iff k j, Distinct-insert k r m h)

pub Distinct-remove : (k : String) (m : Map InternalRecord) → Distinct m → Distinct (remove k m)
unfolding remove
Distinct-remove k [] h = tt
Distinct-remove k ((j, w) ∷ m) (f, h) = ground (arith, get-remove k j m, Distinct-remove k m h)

pub get-retain-none :
    (p : InternalRecord → Bool) (k : String) (m : Map InternalRecord)
    → get k m ≡ none
    → get k (retain p m) ≡ none
unfolding get
get-retain-none p k [] e = refl
get-retain-none p k ((j, r) ∷ m) e = ground (arith, get-retain-none p k m)

pub Distinct-retain :
    (p : InternalRecord → Bool) (m : Map InternalRecord) → Distinct m → Distinct (retain p m)
Distinct-retain p [] h = tt
Distinct-retain p ((j, r) ∷ m) (f, h) =
    ground (arith, get-retain-none p j m f, Distinct-retain p m h)

abbrev pub filter_option : (InternalRecord → Bool) → Option InternalRecord → Option InternalRecord
filter_option p none = none
filter_option p (some r) = if p r then some r else none

pub get-retain :
    (p : InternalRecord → Bool) (k : String) (m : Map InternalRecord)
    → Distinct m
    → get k (retain p m) ≡ filter_option p (get k m)
unfolding get
get-retain p k [] h = refl
get-retain p k ((j, r) ∷ m) (f, h) =
    ground (arith, eq_iff j k, get-retain-none p j m f, get-retain p k m h)

-- No entry of the map is pending.
abbrev pub NonePending : Map InternalRecord → Type 0
NonePending [] = Unit
NonePending ((k, r) ∷ m) = (is_pending r.status ≡ false) × NonePending m

pub oldest_pending-none : (m : Map InternalRecord) → (oldest_pending m ≡ none) ↔ NonePending m
unfolding oldest_pending
oldest_pending-none [] = ground arith
oldest_pending-none ((k, r) ∷ m) = elim (Option-cases (oldest_pending m)) [
  | inl e ↦ ground (arith, oldest_pending-none m)
  | inr (x, e) ↦ ground (arith, oldest_pending-none m)
]
