-- ===== src/ApprovalStore.antt =====
-- src/approval_store.rs: the in-memory store of pending approvals. Time is an argument of each
-- call; the spawned tasks that sleep and then remove a record are the list `timers`. What the
-- store's `Notify` wakes (`wait_for_resolution`, a helper of the tests) is left out.
pub mod Records
pub mod Resolve
pub mod Capacity
pub mod Reach
mod Examples
use apcore_mcp_rust.Prelude.{
  ℕ, zero, suc, ◌+◌, ◌-◌, String, Bool, true, false, not, Option, none, some, List, [], ◌∷◌, ltb,
  leb, if◌then◌else◌, unwrap_or, length,
}
use apcore_mcp_rust.Prelude.Map.{Map, get, insert, remove}

pub data ApprovalStatus : Type 0 where
  pending approved rejected : ApprovalStatus

pub record ApprovalRecord : Type 0 where
  pub status : ApprovalStatus
  pub module_id : String
  pub reason : Option String

pub record InternalRecord : Type 0 where
  pub status : ApprovalStatus
  pub module_id : String
  pub reason : Option String
  pub created_at : ℕ
  pub resolved_at : Option ℕ

pub record Store : Type 0 where
  pub records : Map InternalRecord
  pub timers : List (ℕ × String)
  pub resolved_ttl : ℕ
  pub pending_ttl : ℕ
  pub max_records : ℕ

abbrev pub is_pending : ApprovalStatus → Bool
is_pending pending = true
is_pending _ = false

unfoldable pub with_options : ℕ → ℕ → ℕ → Store
with_options resolved_ttl pending_ttl max_records = record {
  records = [];
  timers = [];
  resolved_ttl = resolved_ttl;
  pending_ttl = pending_ttl;
  max_records = max_records;
}

abbrev older : String × ℕ → Option (String × ℕ) → Option (String × ℕ)
older a none = some a
older a (some b) = if ltb b.1 a.1 then some b else some a

-- The pending entry that was created first, and when; of equals the first in the order of
-- iteration (`min_by_key`).
pub oldest_pending : Map InternalRecord → Option (String × ℕ)
oldest_pending [] = none
oldest_pending ((id, r) ∷ m) =
    let rest = oldest_pending m in
    if is_pending r.status then older (id, r.created_at) rest else rest

pub evict_oldest_pending : Map InternalRecord → Map InternalRecord
evict_oldest_pending m = elim (oldest_pending m) [ none ↦ m | some (id, t) ↦ remove id m ]

abbrev pub fresh : String → ℕ → InternalRecord
fresh module_id now = record {
  status = pending;
  module_id = module_id;
  reason = none;
  created_at = now;
  resolved_at = none;
}

-- The part of `save_pending` that makes room.
pub make_room : Store → Map InternalRecord
make_room s =
    if leb s.max_records (length s.records) then evict_oldest_pending s.records else s.records

unfoldable pub save_pending : ℕ → String → String → Store → Store
save_pending now approval_id module_id s = record s {
  records = insert approval_id (fresh module_id now) (make_room s);
  timers = (now + s.pending_ttl, approval_id) ∷ s.timers;
}

abbrev pub snapshot : InternalRecord → ApprovalRecord
snapshot r = record { status = r.status; module_id = r.module_id; reason = r.reason }

abbrev pub map_option {ℓ κ} : {A : Type ℓ} {B : Type κ} → (A → B) → Option A → Option B
map_option f none = none
map_option f (some a) = some (f a)

unfoldable pub get_result : String → Store → Option ApprovalRecord
get_result approval_id s = map_option snapshot (get approval_id s.records)

abbrev pub decided : Bool → ApprovalStatus
decided true = approved
decided false = rejected

abbrev pub resolved : ℕ → Bool → Option String → InternalRecord → InternalRecord
resolved now is_approved reason r = record r {
  status = decided is_approved;
  reason = reason;
  resolved_at = some now;
}

unfoldable pub resolve : ℕ → String → Bool → Option String → Store → Store × Bool
resolve now approval_id is_approved reason s = elim (get approval_id s.records) [
  | none ↦ (s, false)
  | some r ↦ if not (is_pending r.status) then (s, false) else (
    record s {
      records = insert approval_id (resolved now is_approved reason r) s.records;
      timers = (now + s.resolved_ttl, approval_id) ∷ s.timers;
    },
    true,
  )
]

-- Which records a round of the sweep keeps; `duration_since` stops at 0.
abbrev pub kept : ℕ → Store → InternalRecord → Bool
kept now s r =
    if is_pending r.status
    then leb (now - r.created_at) s.pending_ttl
    else unwrap_or (map_option (λ t. leb (now - t) s.resolved_ttl) r.resolved_at) true

abbrev pub retain : (InternalRecord → Bool) → Map InternalRecord → Map InternalRecord
retain p [] = []
retain p ((id, r) ∷ m) = if p r then (id, r) ∷ retain p m else retain p m

-- One round of `start_sweep_task`.
unfoldable pub sweep : ℕ → Store → Store
sweep now s = record s { records = retain (kept now s) s.records }

abbrev pub drop_timer : ℕ → List (ℕ × String) → List (ℕ × String)
drop_timer i [] = []
drop_timer zero (t ∷ ts) = ts
drop_timer (suc i) (t ∷ ts) = t ∷ drop_timer i ts

abbrev pub timer_at : ℕ → List (ℕ × String) → Option (ℕ × String)
timer_at i [] = none
timer_at zero (t ∷ ts) = some t
timer_at (suc i) (t ∷ ts) = timer_at i ts

-- The i-th spawned task wakes: it sleeps until its time, then removes its record and ends.
unfoldable pub fire : ℕ → ℕ → Store → Store
fire now i s = elim (timer_at i s.timers) [
  | none ↦ s
  | some (due, id) ↦
      if leb due now
      then record s { records = remove id s.records; timers = drop_timer i s.timers }
      else s
]
