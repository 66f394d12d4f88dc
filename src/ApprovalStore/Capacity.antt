-- ===== src/ApprovalStore/Capacity.antt =====
-- How save_pending of src/approval_store.rs makes room.
use apcore_mcp_rust.Prelude.{
  ℕ, ◌+◌, ◌≤◌, ◌<◌, String, ◌≡◌, refl, none, some, [], ◌∷◌, arith, eq_refl, length,
}
use apcore_mcp_rust.Prelude.Map.{Map, get, insert, get-insert}
use apcore_mcp_rust.ApprovalStore.{
  pending, InternalRecord, Store, get_result, save_pending, make_room, evict_oldest_pending,
  oldest_pending, fresh,
}
use apcore_mcp_rust.ApprovalStore.Records.{NonePending, oldest_pending-none}

-- Whatever room has to be made, the saved request reads as pending afterwards, with no reason.
pub get_result-save_pending :
    (now : ℕ) (id module_id : String) (s : Store)
    → get_result id (save_pending now id module_id s)
      ≡ some (record { status = pending; module_id = module_id; reason = none })
unfolding get_result save_pending
get_result-save_pending now id module_id s =
    rw (get-insert id id (fresh module_id now) (make_room s), eq_refl id) refl

length-insert_absent :
    (k : String) (v : InternalRecord) (m : Map InternalRecord)
    → get k m ≡ none
    → length (insert k v m) ≡ length m + 1
unfolding get insert
length-insert_absent k v [] e = omega arith
length-insert_absent k v ((j, w) ∷ m) e = ground (arith, length-insert_absent k v m)

-- A store that is full of decided records grows past its limit: with no pending record to evict, a
-- request under a new ID is added all the same.
pub save_pending_overflows :
    (now : ℕ) (id module_id : String) (s : Store)
    → NonePending s.records
    → s.max_records ≤ length s.records
    → get id s.records ≡ none
    → s.max_records < length (save_pending now id module_id s).records
unfolding save_pending make_room evict_oldest_pending
save_pending_overflows now id module_id s h full e =
    let none_old : oldest_pending s.records ≡ none = (oldest_pending-none s.records).1 h in
    ground (arith, length-insert_absent id (fresh module_id now) s.records)
