-- ===== src/ApprovalStore/Examples.antt =====
-- The theorems at a small store: one request saved at time 5, a limit of one record.
use apcore_mcp_rust.Prelude.{ℕ, ◌+◌, ◌<◌, ◌≡◌, refl, ◌↔◌, true, none, some, arith, length}
use apcore_mcp_rust.Prelude.Map.{get, insert, remove}
use apcore_mcp_rust.ApprovalStore.{
  pending, approved, ApprovalRecord, InternalRecord, Store, with_options, get_result, save_pending,
  resolve, sweep, fire, make_room, evict_oldest_pending, oldest_pending, fresh,
}
use apcore_mcp_rust.ApprovalStore.Resolve.{resolve-eq-true_iff}
use apcore_mcp_rust.ApprovalStore.Capacity.{save_pending_overflows}
use apcore_mcp_rust.ApprovalStore.Reach.{
  saves, resolves, Reach, here, next, Inv, with_options-Reach-Inv, record_expires,
}

store : Unit {0}
unfolding with_options get_result save_pending resolve sweep fire make_room evict_oldest_pending
    oldest_pending get insert remove
store = tt

abbrev empty : Store
empty = with_options 10 20 1

abbrev one : Store
one = save_pending 5 "a" "image.resize" empty

abbrev asked : ApprovalRecord
asked = record { status = pending; module_id = "image.resize"; reason = none }

one_reads : get_result "a" one ≡ some asked
unfolding store
one_reads = refl

one_taken : (resolve 24 "a" true none one).1 ≡ true
unfolding store
one_taken = refl

swept_late : get_result "a" (sweep 26 one) ≡ none
unfolding store
swept_late = refl

fired_early : get_result "a" (fire 24 0 one) ≡ some asked
unfolding store
fired_early = refl

resolve-eq-true_iff_example :
    ((resolve 24 "a" true none one).1 ≡ true)
    ↔ ((r : ApprovalRecord) × (get_result "a" one ≡ some r) × (r.status ≡ pending))
resolve-eq-true_iff_example = resolve-eq-true_iff 24 "a" true none one

abbrev old : InternalRecord
old = fresh "image.resize" 5

one_holds : get "a" one.records ≡ some old
unfolding store
one_holds = refl

evicted : get_result "a" (save_pending 6 "b" "ping" one) ≡ none
unfolding store
evicted = refl

abbrev closed : Store
closed = (resolve 24 "a" true none one).0

save_pending_overflows_example :
    closed.max_records < length (save_pending 25 "b" "ping" closed).records
unfolding store
save_pending_overflows_example =
    save_pending_overflows 25 "b" "ping" closed (refl, tt) (omega arith) refl

history : Reach empty closed
history = next (next here (saves 5 "a" "image.resize")) (resolves 24 "a" true none)

with_options-Reach-Inv_example : Inv 20 closed
with_options-Reach-Inv_example = with_options-Reach-Inv 10 20 1 history

abbrev late : InternalRecord
late = record {
  status = approved;
  module_id = "image.resize";
  reason = none;
  created_at = 5;
  resolved_at = some 24;
}

closed_holds : get "a" closed.records ≡ some late
unfolding store
closed_holds = refl

record_expires_example : (i : ℕ) × (get_result "a" (fire (late.created_at + 20) i closed) ≡ none)
record_expires_example = record_expires 10 20 1 "a" late history closed_holds
