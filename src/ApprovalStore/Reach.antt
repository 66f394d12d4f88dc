-- ===== src/ApprovalStore/Reach.antt =====
-- Every history of the store: calls, rounds of the sweep and spawned tasks that wake, in any order.
use apcore_mcp_rust.Prelude.{
  ℕ, zero, suc, ◌+◌, String, ◌≡◌, refl, ◌≢◌, ◌⊎◌, inl, inr, Bool, true, not, Option, none, some,
  List, [], ◌∷◌, arith, eq_iff, eq_refl, leb, Bool-cases, Option-cases, is_some, length,
}
use apcore_mcp_rust.Prelude.Map.{get, insert, get-insert, get-remove}
use apcore_mcp_rust.ApprovalStore.{
  InternalRecord, Store, is_pending, resolved, with_options, get_result, save_pending, resolve,
  sweep, fire, fresh, kept, drop_timer, timer_at, make_room, evict_oldest_pending, oldest_pending,
}
use apcore_mcp_rust.ApprovalStore.Records.{
  Distinct, Distinct-insert, Distinct-remove, Distinct-retain, get-retain,
}

pub data Step (s : Store) : Store → Type 0 where
  saves : (now : ℕ) (id module_id : String) → Step s (save_pending now id module_id s)
  resolves :
      (now : ℕ) (id : String) (b : Bool) (reason : Option String)
      → Step s (resolve now id b reason s).0
  sweeps : (now : ℕ) → Step s (sweep now s)
  fires : (now i : ℕ) → Step s (fire now i s)

pub data Reach (s : Store) : Store → Type 0 where
  here : Reach s s
  next : {t u : Store} → Reach s t → Step t u → Reach s u

-- A task is armed that removes `id` at the time `due`.
abbrev pub IsArmed : ℕ → String → List (ℕ × String) → Type 0
IsArmed due id [] = ⊥
IsArmed due id ((d, j) ∷ ts) = ((d ≡ due) × (j ≡ id)) ⊎ IsArmed due id ts

-- The fields of a record agree: a pending one has no decision, a decided one its time.
abbrev pub IsWellFormed : InternalRecord → Type 0
IsWellFormed r =
    (is_some r.resolved_at ≡ not (is_pending r.status))
    × (is_pending r.status ≡ true → r.reason ≡ none)

-- The IDs are distinct, the fields agree, and a task is armed that removes the record when the TTL
-- of pending records has passed since it was saved.
pub record Inv (ttl : ℕ) (s : Store) : Type 0 where
  pub distinct : Distinct s.records
  pub same_ttl : s.pending_ttl ≡ ttl
  pub formed : (id : String) (r : InternalRecord) → get id s.records ≡ some r → IsWellFormed r
  pub armed :
      (id : String) (r : InternalRecord)
      → get id s.records ≡ some r
      → IsArmed (r.created_at + ttl) id s.timers

Distinct-make_room : (s : Store) → Distinct s.records → Distinct (make_room s)
unfolding make_room evict_oldest_pending
Distinct-make_room s d = elim (Bool-cases (leb s.max_records (length s.records))) [
  | inr n ↦ rw n d
  | inl y ↦ elim (Option-cases (oldest_pending s.records)) [
    | inl o ↦ ground (arith, y, o)
    | inr ((id, t), o) ↦ ground (arith, Distinct-remove id s.records d)
  ]
]

get-make_room :
    (s : Store) (k : String) (r : InternalRecord)
    → get k (make_room s) ≡ some r
    → get k s.records ≡ some r
unfolding make_room evict_oldest_pending
get-make_room s k r e = elim (Option-cases (oldest_pending s.records)) [
  | inl o ↦ ground arith
  | inr ((id, t), o) ↦ ground (arith, get-remove id k s.records)
]

drop_timer-IsArmed :
    (i d : ℕ) (id : String) (due : ℕ) (j : String) (ts : List (ℕ × String))
    → timer_at i ts ≡ some (d, id)
    → id ≢ j
    → IsArmed due j ts
    → IsArmed due j (drop_timer i ts)
drop_timer-IsArmed i d id due j [] e ne h = h
drop_timer-IsArmed zero d id due j ((d', id') ∷ ts) e ne (inl (p, q)) = absurd (ground arith)
drop_timer-IsArmed zero d id due j ((d', id') ∷ ts) e ne (inr h) = h
drop_timer-IsArmed (suc i) d id due j ((d', id') ∷ ts) e ne (inl h) = inl h
drop_timer-IsArmed (suc i) d id due j ((d', id') ∷ ts) e ne (inr h) =
    inr (drop_timer-IsArmed i d id due j ts e ne h)

module _ (ttl : ℕ) (s : Store) (v : Inv ttl s) where
  saves-Inv : (now : ℕ) (id module_id : String) → Inv ttl (save_pending now id module_id s)
  unfolding save_pending
  saves-Inv now id module_id = record {
    distinct =
        Distinct-insert id (fresh module_id now) (make_room s) (Distinct-make_room s v.distinct);
    same_ttl = v.same_ttl;
    formed = λ j r e. ground (
      arith,
      get-insert id j (fresh module_id now) (make_room s),
      get-make_room s j r,
      v.formed j r,
    );
    armed = λ j r e. ground (
      arith,
      eq_iff id j,
      v.same_ttl,
      get-insert id j (fresh module_id now) (make_room s),
      get-make_room s j r,
      v.armed j r,
    );
  }

  taken-Inv :
      (now : ℕ) (id : String) (b : Bool) (reason : Option String) (q : InternalRecord)
      → get id s.records ≡ some q
      → Inv ttl (record s {
        records = insert id (resolved now b reason q) s.records;
        timers = (now + s.resolved_ttl, id) ∷ s.timers;
      })
  taken-Inv now id b reason q e = record {
    distinct = Distinct-insert id (resolved now b reason q) s.records v.distinct;
    same_ttl = v.same_ttl;
    formed =
        λ j r h. ground (arith, get-insert id j (resolved now b reason q) s.records, v.formed j r);
    armed = λ j r h. ground (
      arith,
      eq_iff id j,
      get-insert id j (resolved now b reason q) s.records,
      v.armed j r,
      v.armed id q e,
    );
  }

  resolves-Inv :
      (now : ℕ) (id : String) (b : Bool) (reason : Option String)
      → Inv ttl (resolve now id b reason s).0
  unfolding resolve
  resolves-Inv now id b reason = elim (Option-cases (get id s.records)) [
    | inl e ↦ rw (e, resolve) v
    | inr (q, e) ↦ elim (Bool-cases (is_pending q.status)) [
      | inr n ↦ rw (e, resolve) (rw n v)
      | inl y ↦ rw (e, resolve) (rw y (taken-Inv now id b reason q e))
    ]
  ]

  sweeps-Inv : (now : ℕ) → Inv ttl (sweep now s)
  unfolding sweep
  sweeps-Inv now = record {
    distinct = Distinct-retain (kept now s) s.records v.distinct;
    same_ttl = v.same_ttl;
    formed = λ j r e. ground (arith, get-retain (kept now s) j s.records v.distinct, v.formed j r);
    armed = λ j r e. ground (arith, get-retain (kept now s) j s.records v.distinct, v.armed j r);
  }

  fires-Inv : (now i : ℕ) → Inv ttl (fire now i s)
  unfolding fire
  fires-Inv now i = elim (Option-cases (timer_at i s.timers)) [
    | inl e ↦ rw (e, fire) v
    | inr ((due, id), e) ↦ elim (Bool-cases (leb due now)) [
      | inr n ↦ rw (e, fire) (rw n v)
      | inl y ↦
          rw (e, fire)
            (rw y record {
              distinct = Distinct-remove id s.records v.distinct;
              same_ttl = v.same_ttl;
              formed = λ j r h. ground (arith, get-remove id j s.records, v.formed j r);
              armed = λ j r h. ground (
                arith,
                eq_iff id j,
                get-remove id j s.records,
                v.armed j r,
                drop_timer-IsArmed i due id (r.created_at + ttl) j s.timers e,
              );
            })
    ]
  ]

  Step-Inv : {t : Store} → Step s t → Inv ttl t
  Step-Inv (saves now id module_id) = saves-Inv now id module_id
  Step-Inv (resolves now id b reason) = resolves-Inv now id b reason
  Step-Inv (sweeps now) = sweeps-Inv now
  Step-Inv (fires now i) = fires-Inv now i

Reach-Inv : (ttl : ℕ) {s t : Store} → Inv ttl s → Reach s t → Inv ttl t
Reach-Inv ttl v here = v
Reach-Inv ttl v (next {t} r st) = Step-Inv ttl t (Reach-Inv ttl v r) st

with_options-Inv :
    (resolved_ttl pending_ttl max_records : ℕ)
    → Inv pending_ttl (with_options resolved_ttl pending_ttl max_records)
unfolding with_options get
with_options-Inv a ttl c = record {
  distinct = tt;
  same_ttl = refl;
  formed = λ j r e. cc;
  armed = λ j r e. cc;
}

-- From an empty store every history keeps the records' IDs distinct, a record undecided and
-- without a reason exactly as long as it is pending, and for each record a spawned task that
-- removes it when the TTL of pending records has passed since it was saved.
pub with_options-Reach-Inv :
    (resolved_ttl pending_ttl max_records : ℕ) {t : Store}
    → Reach (with_options resolved_ttl pending_ttl max_records) t
    → Inv pending_ttl t
with_options-Reach-Inv a ttl c r = Reach-Inv ttl (with_options-Inv a ttl c) r

armed_index :
    (due : ℕ) (id : String) (ts : List (ℕ × String))
    → IsArmed due id ts
    → (i : ℕ) × (timer_at i ts ≡ some (due, id))
armed_index due id [] h = elim h [ ]
armed_index due id ((d, j) ∷ ts) (inl (e, f)) = (0, ground arith)
armed_index due id ((d, j) ∷ ts) (inr h) = let (i, e) = armed_index due id ts h in (suc i, e)

-- In every reachable store each record, decided or not, has a task that takes it out of the store
-- at `pending_ttl` after it was saved: a decision made late is not kept for `resolved_ttl`.
pub record_expires :
    (resolved_ttl pending_ttl max_records : ℕ) {t : Store} (id : String) (r : InternalRecord)
    → Reach (with_options resolved_ttl pending_ttl max_records) t
    → get id t.records ≡ some r
    → (i : ℕ) × (get_result id (fire (r.created_at + pending_ttl) i t) ≡ none)
unfolding fire get_result
record_expires a ttl c {t} id r reach e =
    let v = with_options-Reach-Inv a ttl c reach in
    let (i, at) = armed_index (r.created_at + ttl) id t.timers (v.armed id r e) in
    (i, ground (arith, get-remove id id t.records, eq_refl id))
