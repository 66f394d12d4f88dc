-- ===== src/Router/Merge.antt =====
-- src/server/router.rs: how the chunks of a stream are merged. A level is what the depth leaves of
-- DEEP_MERGE_MAX_DEPTH.
use apcore_mcp_rust.Prelude.{
  ℕ, zero, suc, String, ◌≡◌, refl, ◌∙◌, subst, inl, inr, Option, none, some, ◌==◌, eq_iff, eq_refl,
  if◌then◌else◌, Bool-cases,
}
use apcore_mcp_rust.Json.{Value, object, Fields, end, field, get, insert, get-insert}

abbrev pub deep_merge_max_depth : ℕ
deep_merge_max_depth = 32

unfoldable mutual
  pub deep_merge : ℕ → Value → Value → Value
  deep_merge levels (object base) (object overlay) = object (merge_fields levels base overlay)
  deep_merge levels (object base) overlay = overlay
  deep_merge levels base overlay = overlay

  pub merge_fields : ℕ → Fields → Fields → Fields
  merge_fields levels merged end = merged
  merge_fields zero merged (field k v overlay) = merge_fields zero (insert k v merged) overlay
  merge_fields (suc levels) merged (field k v overlay) =
      merge_fields (suc levels)
        (insert k (elim (get k merged) [ none ↦ v | some existing ↦ deep_merge levels existing v ])
          merged)
        overlay

abbrev pub merge_at : ℕ → Option Value → Value → Value
merge_at levels existing v = elim existing [
  | none ↦ v
  | some existing ↦ deep_merge levels existing v
]

-- What a merged object holds under a key, where the overlay's keys are distinct.
abbrev pub IsDistinct : Fields → Type 0
IsDistinct end = Unit
IsDistinct (field k v fs) = (get k fs ≡ none) × IsDistinct fs

abbrev pub merged_value : ℕ → Option Value → Option Value → Option Value
merged_value levels base none = base
merged_value zero base (some v) = some v
merged_value (suc levels) base (some v) = some (merge_at levels base v)

-- Writing the overlay's first field and then reading its others is reading all of it.
merged_value-insert :
    (levels : ℕ) (key k : String) (v : Value) (base overlay : Fields)
    → get k overlay ≡ none
    → merged_value
        (suc levels)
        (get key (insert k (merge_at levels (get k base) v) base))
        (get key overlay)
      ≡ merged_value (suc levels) (get key base) (if k == key then some v else get key overlay)
merged_value-insert levels key k v base overlay n = elim (Bool-cases (k == key)) [
  | inl b ↦
      subst
        (λ j.
          merged_value (suc levels) (get j (insert k (merge_at levels (get k base) v) base))
            (get j overlay)
          ≡ merged_value (suc levels) (get j base) (if k == j then some v else get j overlay))
        ((eq_iff k key).0 b)
        (rw (get-insert k k (merge_at levels (get k base) v) base, eq_refl k, n) refl)
  | inr b ↦ rw (get-insert k key (merge_at levels (get k base) v) base, b) refl
]

merged_value-insert_flat :
    (key k : String) (v : Value) (base overlay : Fields)
    → get k overlay ≡ none
    → merged_value 0 (get key (insert k v base)) (get key overlay)
      ≡ merged_value 0 (get key base) (if k == key then some v else get key overlay)
merged_value-insert_flat key k v base overlay n = elim (Bool-cases (k == key)) [
  | inl b ↦
      subst
        (λ j.
          merged_value 0 (get j (insert k v base)) (get j overlay)
          ≡ merged_value 0 (get j base) (if k == j then some v else get j overlay))
        ((eq_iff k key).0 b) (rw (get-insert k k v base, eq_refl k, n) refl)
  | inr b ↦ rw (get-insert k key v base, b) refl
]

pub get-merge_fields :
    (levels : ℕ) (key : String) (base overlay : Fields)
    → IsDistinct overlay
    → get key (merge_fields levels base overlay)
      ≡ merged_value levels (get key base) (get key overlay)
unfolding merge_fields get
get-merge_fields levels key base end h = refl
get-merge_fields zero key base (field k v overlay) (n, h) =
    get-merge_fields zero key (insert k v base) overlay h
    ∙ merged_value-insert_flat key k v base overlay n
get-merge_fields (suc levels) key base (field k v overlay) (n, h) =
    get-merge_fields (suc levels) key (insert k (merge_at levels (get k base) v) base) overlay h
    ∙ merged_value-insert levels key k v base overlay n
