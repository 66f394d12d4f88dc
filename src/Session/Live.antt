-- ===== src/Session/Live.antt =====
-- Every history of a connection: requests that start and end, messages that come in, and the end of
-- the connection, in any order.
use apcore_mcp_rust.Prelude.{
  ℕ, String, ◌≡◌, refl, sym, ap, ◌≢◌, inl, inr, Bool, Option, none, some, [], ◌∷◌, arith, ◌==◌,
  if◌then◌else◌, Bool-cases, some_unique,
}
use apcore_mcp_rust.Json.{Number, Value, get_key, and_then}
use apcore_mcp_rust.Prelude.Map.{Map, get, insert, remove, get-insert}
use apcore_mcp_rust.Session.{
  Session, new, with_elicit_timeout, set_client_capabilities, set_structured_results, close,
  register, drop_guard, response_id_key, try_take_response, Wake, answered, sender_dropped, elapsed,
}

-- What the receiver of a call in flight would be given now.
pub data Channel : Type 0 where
  waiting dropped : Channel
  received : Value → Channel

pub record Live : Type 0 where
  pub session : Session
  pub calls : Map Channel

-- A message is sent on a channel whose receiver still waits; else it is lost.
abbrev pub deliver : Value → Option String → Map Channel → Map Channel
deliver message none calls = calls
deliver message (some waiter) calls = elim (get waiter calls) [
  | some waiting ↦ insert waiter (received message) calls
  | some dropped ↦ calls
  | some (received v) ↦ calls
  | none ↦ calls
]

abbrev content : Value → Channel → Value
content d (received v) = v
content d _ = d

-- Every sender is dropped.
abbrev pub hang_up : Channel → Channel
hang_up waiting = dropped
hang_up dropped = dropped
hang_up (received v) = received v

abbrev pub hang_up_all : Map Channel → Map Channel
hang_up_all [] = []
hang_up_all ((id, c) ∷ calls) = (id, hang_up c) ∷ hang_up_all calls

-- What a call in flight can be given when it wakes.
pub data Wakes : Channel → Wake → Type 0 where
  by_answer : (v : Value) → Wakes (received v) (answered v)
  by_hang_up : Wakes dropped sender_dropped
  by_time : Wakes waiting elapsed

pub get-hang_up_all :
    (id : String) (c : Channel) (calls : Map Channel)
    → get id (hang_up_all calls) ≡ some c
    → (d : Channel) × (get id calls ≡ some d) × (c ≡ hang_up d)
unfolding get
get-hang_up_all id c [] h = absurd (ground arith)
get-hang_up_all id c ((j, e) ∷ calls) h = elim (Bool-cases (j == id)) [
  | inl y ↦ (e, rw y (refl), some_unique {o = some c} refl (sym (rw y at h)))
  | inr n ↦ rw n (get-hang_up_all id c calls (rw n at h))
]

pub received_unique : (v u : Value) → received v ≡ received u → v ≡ u
received_unique v u p = ap (λ c. content v c) p

pub not_waiting : (d : Channel) → waiting ≢ hang_up d
not_waiting waiting p = cc
not_waiting dropped p = cc
not_waiting (received v) p = cc

pub still_received : (d : Channel) (v : Value) → received v ≡ hang_up d → d ≡ received v
still_received waiting v p = cc
still_received dropped v p = cc
still_received (received u) v p = sym p

pub get-deliver :
    (v : Value) (id j : String) (calls : Map Channel)
    → get id calls ≡ some waiting
    → get j (deliver v (some id) calls) ≡ (if id == j then some (received v) else get j calls)
get-deliver v id j calls h = rw (h, deliver) (get-insert id j (received v) calls)

abbrev pub opened : String → ℕ → Live
opened id limit = record { session = with_elicit_timeout limit (new id); calls = [] }

module _ (print : Number → String) where
  -- `try_take_response` with the delivery to the waiter.
  unfoldable pub receive : Value → Live → Live
  unfolding try_take_response
  receive message w =
      let taken = try_take_response print message w.session in
      record { session = taken.0; calls = deliver message taken.1 w.calls }

  -- The ID of a call is new among the calls in flight, as the IDs are drawn at random.
  pub data Step (w : Live) : Live → Type 0 where
    starts :
        (id : String)
        → get id w.calls ≡ none
        → Step w (record { session = register id id w.session; calls = insert id waiting w.calls })
    receives : (message : Value) → Step w (receive message w)
    ends :
        (id : String)
        → Step w (record { session = drop_guard id w.session; calls = remove id w.calls })
    learns :
        (capabilities : Value)
        → Step w
            (record { session = set_client_capabilities capabilities w.session; calls = w.calls })
    marks :
        (supported : Bool)
        → Step w (record { session = set_structured_results supported w.session; calls = w.calls })
    closes : Step w (record { session = close w.session; calls = hang_up_all w.calls })

  pub data Reach (w : Live) : Live → Type 0 where
    here : Reach w w
    next : {u v : Live} → Reach w u → Step u v → Reach w v

  -- A message that answers the request: no method, and the request's ID.
  abbrev pub IsAnswer : String → Value → Type 0
  IsAnswer id v =
      (get_key "method" v ≡ none) × (and_then (get_key "id" v) (response_id_key print) ≡ some id)

  -- The table holds the calls that wait and no other, each under its own ID, and what was received
  -- answers the call that received it.
  pub record Inv (w : Live) : Type 0 where
    pub waits : (id : String) → get id w.calls ≡ some waiting → get id w.session.pending ≡ some id
    pub pends :
        (id x : String)
        → get id w.session.pending ≡ some x
        → (x ≡ id) × (get id w.calls ≡ some waiting)
    pub answers : (id : String) (v : Value) → get id w.calls ≡ some (received v) → IsAnswer id v
