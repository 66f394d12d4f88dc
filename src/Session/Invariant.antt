-- ===== src/Session/Invariant.antt =====
-- The invariant of a connection, for src/server/session.rs.
use apcore_mcp_rust.Prelude.{
  ℕ, String, ◌≡◌, refl, sym, ap, ◌∙◌, subst, inl, inr, Option, none, some, arith, ◌==◌, eq_iff,
  Bool-cases, Option-cases, some_unique,
}
use apcore_mcp_rust.Json.{Number, Value, get_key, and_then}
use apcore_mcp_rust.Prelude.Map.{Map, get, insert, remove, get-insert, get-remove}
use apcore_mcp_rust.Session.{close, register, drop_guard, response_id_key, try_take_response}
use apcore_mcp_rust.Session.Live.{
  Channel, waiting, received, Live, deliver, hang_up_all, get-hang_up_all, received_unique,
  not_waiting, still_received, get-deliver, opened, receive, Step, starts, receives, ends, learns,
  marks, closes, Reach, here, next, IsAnswer, Inv,
}

module _ (print : Number → String) where
  starts-Inv :
      (w : Live) (id : String)
      → get id w.calls ≡ none
      → Inv print w
      → Inv print (record { session = register id id w.session; calls = insert id waiting w.calls })
  unfolding register
  starts-Inv w id n i = record {
    waits = λ j h. ground (
      arith,
      eq_iff id j,
      get-insert id j id w.session.pending,
      get-insert id j waiting w.calls,
      i.waits j,
    );
    pends = λ j x h. ground (
      arith,
      eq_iff id j,
      get-insert id j id w.session.pending,
      get-insert id j waiting w.calls,
      i.pends j x,
    );
    answers = λ j v h. ground (arith, eq_iff id j, get-insert id j waiting w.calls, i.answers j v);
  }

  ends-Inv :
      (w : Live) (id : String)
      → Inv print w
      → Inv print (record { session = drop_guard id w.session; calls = remove id w.calls })
  unfolding drop_guard
  ends-Inv w id i = record {
    waits = λ j h.
        ground (
          arith,
          eq_iff id j,
          get-remove id j w.session.pending,
          get-remove id j w.calls,
          i.waits j,
        );
    pends = λ j x h. ground (
      arith,
      eq_iff id j,
      get-remove id j w.session.pending,
      get-remove id j w.calls,
      i.pends j x,
    );
    answers = λ j v h. ground (arith, eq_iff id j, get-remove id j w.calls, i.answers j v);
  }

  closes-Inv :
      (w : Live)
      → Inv print w
      → Inv print (record { session = close w.session; calls = hang_up_all w.calls })
  unfolding close get
  closes-Inv w i = record {
    waits = λ j h. let (d, e, p) = get-hang_up_all j waiting w.calls h in absurd (not_waiting d p);
    pends = λ j x h. absurd (ground arith);
    answers = λ j v h.
        let (d, e, p) = get-hang_up_all j (received v) w.calls h in
        i.answers j v (e ∙ ap some (still_received d v p));
  }

  taken-answers :
      (v u : Value) (id j : String) (calls : Map Channel)
      → IsAnswer print id v
      → get id calls ≡ some waiting
      → (get j calls ≡ some (received u) → IsAnswer print j u)
      → get j (deliver v (some id) calls) ≡ some (received u)
      → IsAnswer print j u
  taken-answers v u id j calls a c old h = elim (Bool-cases (id == j)) [
    | inl y ↦
        let e : ◌≡◌ {A = Option Channel} (some (received v)) (some (received u)) =
          sym (rw y at (get-deliver v id j calls c)) ∙ h in
        subst (IsAnswer print j) (received_unique v u (some_unique {o = some (received v)} refl e))
          (subst (λ k. IsAnswer print k v) ((eq_iff id j).0 y) a)
    | inr n ↦ old (sym (rw n at (get-deliver v id j calls c)) ∙ h)
  ]

  taken-Inv :
      (w : Live) (v : Value) (id : String)
      → IsAnswer print id v
      → get id w.calls ≡ some waiting
      → Inv print w
      → Inv print (record {
        session = record w.session { pending = remove id w.session.pending };
        calls = deliver v (some id) w.calls;
      })
  taken-Inv w v id a c i = record {
    waits = λ j h. ground (
      arith,
      eq_iff id j,
      get-remove id j w.session.pending,
      get-deliver v id j w.calls c,
      i.waits j,
    );
    pends = λ j x h. ground (
      arith,
      eq_iff id j,
      get-remove id j w.session.pending,
      get-deliver v id j w.calls c,
      i.pends j x,
    );
    answers = λ j u h. taken-answers v u id j w.calls a c (i.answers j u) h;
  }

  receives-Inv : (message : Value) (w : Live) → Inv print w → Inv print (receive print message w)
  unfolding receive try_take_response
  receives-Inv v w i = elim (Option-cases (get_key "method" v)) [
    | inr (m, e) ↦ rw e i
    | inl e ↦ elim (Option-cases (and_then (get_key "id" v) (response_id_key print))) [
      | inl k ↦ rw (e, k) i
      | inr (id, k) ↦ elim (Option-cases (get id w.session.pending)) [
        | inl p ↦ rw (e, k, p) i
        | inr (x, p) ↦
            let (q, c) = i.pends id x p in
            rw (e, k, p)
              (subst
                (λ z. Inv print (record {
                  session = record w.session { pending = remove id w.session.pending };
                  calls = deliver v (some z) w.calls;
                }))
                (sym q) (taken-Inv w v id (e, k) c i))
      ]
    ]
  ]

  Step-Inv : {w u : Live} → Inv print w → Step print w u → Inv print u
  Step-Inv {w = w} i (starts id n) = starts-Inv w id n i
  Step-Inv {w = w} i (receives v) = receives-Inv v w i
  Step-Inv {w = w} i (ends id) = ends-Inv w id i
  Step-Inv i (learns c) = record { waits = i.waits; pends = i.pends; answers = i.answers }
  Step-Inv i (marks b) = record { waits = i.waits; pends = i.pends; answers = i.answers }
  Step-Inv {w = w} i closes = closes-Inv w i

  Reach-Inv : {w u : Live} → Inv print w → Reach print w u → Inv print u
  Reach-Inv i here = i
  Reach-Inv i (next r st) = Step-Inv (Reach-Inv i r) st

  -- Whatever happens on a connection from its opening, its table holds exactly the requests that
  -- wait, each under its own ID, and every message given to a request has that request's ID and no
  -- method.
  pub new-Reach-Inv :
      (id : String) (limit : ℕ) (w : Live) → Reach print (opened id limit) w → Inv print w
  unfolding get
  new-Reach-Inv id limit w r =
      Reach-Inv
        (record {
          waits = λ j h. absurd (ground arith);
          pends = λ j x h. absurd (ground arith);
          answers = λ j v h. absurd (ground arith);
        })
        r
