-- ===== src/Transport/Reach.antt =====
-- Histories of the SSE connections of src/server/transport.rs: what each stream carries.
use apcore_mcp_rust.Prelude.{
  String, ◌≡◌, refl, subst, ◌⊎◌, inl, inr, true, false, Option, none, some, List, [], ◌∷◌, ◌++◌,
  arith, ◌==◌, eq_iff, Bool-cases, Option-cases, some_unique, All, All-append, List-cases,
  All-split, All-map, ◌<>◌, before,
}
use apcore_mcp_rust.Json.{Number, Value}
use apcore_mcp_rust.Prelude.Map.{Map, get, insert, remove, get-insert, get-remove}
use apcore_mcp_rust.Rpc.{State, ServerHandler}
use apcore_mcp_rust.Rpc.Handler.{handle_message}
use apcore_mcp_rust.Rpc.Answers.{IsResponse, handle_message-IsResponse}
use apcore_mcp_rust.Transport.{stamp_session_id}
use apcore_mcp_rust.Transport.Sse.{
  Event, endpoint_event, message_event, endpoint_of, Queue, Sse, open_session, send,
  sse_messages_handler, receive, taken, stop_accepting, drop_guard, run,
}

-- The connections, every message that was posted so far, with the session it was posted to, and
-- every message that the server sent itself, with the session whose sink it was given to.
pub record Live (World : Type 0) : Type 0 where
  pub sse : Sse World
  pub posted : List (String × Value)
  pub sent : List (String × Value)

-- The message was posted to the session.
abbrev pub Posted : String → Value → List (String × Value) → Type 0
Posted id message [] = ⊥
Posted id message ((j, v) ∷ ps) = ((j ≡ id) × (v ≡ message)) ⊎ Posted id message ps

abbrev pub IsDispatched : List (String × Value) → String × Value → Type 0
IsDispatched posted (id, stamped) =
    (message : Value) × Posted id message posted × (stamped ≡ stamp_session_id id message)

-- An event of a session's stream is the URL of that session, a message that the server sent through
-- that session's sink, or the response to a message that was posted to the session.
pub data IsOwn (posted sent : List (String × Value)) (id : String) : Event → Type 0 where
  endpoint : IsOwn posted sent id (endpoint_event ("/messages/?sessionId=" <> id))
  request :
      {message : Value} → Posted id message sent → IsOwn posted sent id (message_event message)
  response :
      {response : Value} (message : Value)
      → Posted id message posted
      → IsResponse (stamp_session_id id message) response
      → IsOwn posted sent id (message_event response)

abbrev pub AreOwn : List (String × Value) → List (String × Value) → List (String × Event) → Type 0
AreOwn posted sent events = All (λ e. IsOwn posted sent e.0 e.1) events

-- Every message in a queue was posted to the queue's session.
abbrev pub Queued : List (String × Value) → Map Queue → Type 0
Queued posted queues =
    (id : String) (q : Queue) → get id queues ≡ some q → All (λ m. Posted id m posted) q.messages

-- What waits in a session's queue was posted to it, what waits for the handler is a message that
-- was posted to its session and carries that session's ID, and every event of a session's stream is its
-- own.
pub record Inv {World : Type 0} (t : Live World) : Type 0 where
  pub queued : Queued t.posted t.sse.queues
  pub dispatched : All (IsDispatched t.posted) t.sse.in_flight
  pub answered : AreOwn t.posted t.sent t.sse.events

insert-Queued :
    (posted : List (String × Value)) (queues : Map Queue) (id : String) (q : Queue)
    → All (λ m. Posted id m posted) q.messages
    → Queued posted queues
    → Queued posted (insert id q queues)
insert-Queued posted queues id q h i k q' e = elim (Bool-cases (id == k)) [
  | inl b ↦
      let same : some q ≡ some q' = rw (get-insert id k q queues, b) at e in
      subst (λ x. All (λ m. Posted k m posted) x.messages) (some_unique refl same)
        (subst (λ j. All (λ m. Posted j m posted) q.messages) ((eq_iff id k).0 b) h)
  | inr b ↦ i k q' (rw (get-insert id k q queues, b) at e)
]

remove-Queued :
    (posted : List (String × Value)) (queues : Map Queue) (id : String)
    → Queued posted queues
    → Queued posted (remove id queues)
remove-Queued posted queues id i k q' e = elim (Bool-cases (id == k)) [
  | inl b ↦ absurd (ground (arith, get-remove id k queues, b, e))
  | inr b ↦ i k q' (rw (get-remove id k queues, b) at e)
]

module _ (posted : List (String × Value)) (new : String × Value) where
  later-Posted :
      (id : String) (ms : List Value)
      → All (λ m. Posted id m posted) ms
      → All (λ m. Posted id m (new ∷ posted)) ms
  later-Posted id ms h =
      All-map (λ m. Posted id m posted) (λ m. Posted id m (new ∷ posted)) (λ m p. inr p) ms h

  later-IsDispatched :
      (xs : List (String × Value))
      → All (IsDispatched posted) xs
      → All (IsDispatched (new ∷ posted)) xs
  later-IsDispatched xs h =
      All-map (IsDispatched posted) (IsDispatched (new ∷ posted))
        (λ (id, m) (m0, p, e). (m0, inr p, e)) xs h

  later-AreOwn :
      (sent : List (String × Value)) (es : List (String × Event))
      → AreOwn posted sent es
      → AreOwn (new ∷ posted) sent es
  later-AreOwn sent es h =
      All-map (λ e. IsOwn posted sent e.0 e.1) (λ e. IsOwn (new ∷ posted) sent e.0 e.1)
        (λ e own. later_posted e.0 e.1 own) es h
    where
      later_posted :
          (id : String) (e : Event) → IsOwn posted sent id e → IsOwn (new ∷ posted) sent id e
      later_posted id _ endpoint = endpoint
      later_posted id _ (request p) = request p
      later_posted id _ (response m p r) = response m (inr p) r

  sent-AreOwn :
      (sent : List (String × Value)) (es : List (String × Event))
      → AreOwn posted sent es
      → AreOwn posted (new ∷ sent) es
  sent-AreOwn sent es h =
      All-map (λ e. IsOwn posted sent e.0 e.1) (λ e. IsOwn posted (new ∷ sent) e.0 e.1)
        (λ e own. later_sent e.0 e.1 own) es h
    where
      later_sent :
          (id : String) (e : Event) → IsOwn posted sent id e → IsOwn posted (new ∷ sent) id e
      later_sent id _ endpoint = endpoint
      later_sent id _ (request p) = request (inr p)
      later_sent id _ (response m p r) = response m p r

module _ {World : Type 0} (print_number : Number → String) (print : Value → String)
    (h : ServerHandler World) (cancel : Option (String → State World → State World)) where
  abbrev post : Option String → Value → Live World → Live World
  post query body t = record {
    sse = (sse_messages_handler query body t.sse).0;
    posted = elim query [ none ↦ t.posted | some id ↦ (id, body) ∷ t.posted ];
    sent = t.sent;
  }

  abbrev sends_to : String → Value → Live World → Live World
  sends_to id message t = record t { sse = send id message t.sse; sent = (id, message) ∷ t.sent }

  pub data Step : Live World → Live World → Type 0 where
    opens : {t : Live World} (id : String) → Step t (record t { sse = open_session id t.sse })
    posts : {t : Live World} (query : Option String) (body : Value) → Step t (post query body t)
    receives :
        {t : Live World} (id : String) → Step t (record t { sse = receive print_number id t.sse })
    runs :
        {t : Live World} (before : List (String × Value)) (entry : String × Value)
        (after : List (String × Value))
        → t.sse.in_flight ≡ before ++ entry ∷ after
        → Step t (record t { sse = run print h before entry after t.sse })
    sends : {t : Live World} (id : String) (message : Value) → Step t (sends_to id message t)
    stops : {t : Live World} (id : String) → Step t (record t { sse = stop_accepting id t.sse })
    drops : {t : Live World} (id : String) → Step t (record t { sse = drop_guard cancel id t.sse })

  pub data Reach : Live World → Live World → Type 0 where
    here : {t : Live World} → Reach t t
    next : {t u v : Live World} → Reach t u → Step u v → Reach t v

  opens-Inv :
      (t : Live World) (id : String) → Inv t → Inv (record t { sse = open_session id t.sse })
  unfolding open_session
  opens-Inv t id i = record {
    queued =
        insert-Queued t.posted t.sse.queues id (record { is_open = true; messages = [] }) tt
          i.queued;
    dispatched = i.dispatched;
    answered =
        All-append (λ e. IsOwn t.posted t.sent e.0 e.1) t.sse.events ((id, endpoint_of id) ∷ [])
          i.answered (endpoint, tt);
  }

  sends-Inv : (t : Live World) (id : String) (message : Value) → Inv t → Inv (sends_to id message t)
  unfolding send
  sends-Inv t id message i = record {
    queued = i.queued;
    dispatched = i.dispatched;
    answered =
        All-append (λ e. IsOwn t.posted ((id, message) ∷ t.sent) e.0 e.1) t.sse.events
          ((id, message_event message) ∷ [])
          (sent-AreOwn t.posted (id, message) t.sent t.sse.events i.answered)
          (request (inl (refl, refl)), tt);
  }

  posts-Inv :
      (t : Live World) (query : Option String) (body : Value) → Inv t → Inv (post query body t)
  unfolding sse_messages_handler
  posts-Inv t none body i = i
  posts-Inv t (some id) body i =
      let later : Inv (record t { posted = (id, body) ∷ t.posted }) = record {
        queued = λ k q e. later-Posted t.posted (id, body) k q.messages (i.queued k q e);
        dispatched = later-IsDispatched t.posted (id, body) t.sse.in_flight i.dispatched;
        answered = later-AreOwn t.posted (id, body) t.sent t.sse.events i.answered;
      } in
      elim (Option-cases (get id t.sse.queues)) [
        | inl g ↦ rw (g, post, sse_messages_handler) later
        | inr (q, g) ↦ elim (Bool-cases q.is_open) [
          | inr o ↦ rw (g, o, post, sse_messages_handler) later
          | inl o ↦
              rw (g, o, post, sse_messages_handler)
                record {
                  queued =
                      insert-Queued ((id, body) ∷ t.posted) t.sse.queues id
                        (record { is_open = true; messages = q.messages ++ body ∷ [] })
                        (All-append (λ m. Posted id m ((id, body) ∷ t.posted)) q.messages
                          (body ∷ []) (later.queued id q g) (inl (refl, refl), tt))
                        later.queued;
                  dispatched = later.dispatched;
                  answered = later.answered;
                }
        ]
      ]

  runs-Inv :
      (t : Live World) (before : List (String × Value)) (entry : String × Value)
      (after : List (String × Value))
      → t.sse.in_flight ≡ before ++ entry ∷ after
      → Inv t
      → Inv (record t { sse = run print h before entry after t.sse })
  unfolding run
  runs-Inv t before (id, m) after e i =
      let (b, (message, p, s), a) =
        All-split (IsDispatched t.posted) before (id, m) after (rw e at i.dispatched) in
      record {
        queued = i.queued;
        dispatched = All-append (IsDispatched t.posted) before after b a;
        answered = elim (Option-cases (handle_message print h m t.sse.server).1) [
          | inl n ↦ rw (n, run) i.answered
          | inr (r, n) ↦
              rw (n, run)
                (All-append (λ e. IsOwn t.posted t.sent e.0 e.1) t.sse.events
                  ((id, message_event r) ∷ []) i.answered
                  (
                    response message p (
                        subst (λ x. IsResponse x r) s
                          (handle_message-IsResponse print h m r t.sse.server n)),
                    tt,
                  ))
        ];
      }

  stops-Inv :
      (t : Live World) (id : String) → Inv t → Inv (record t { sse = stop_accepting id t.sse })
  unfolding stop_accepting
  stops-Inv t id i = elim (Option-cases (get id t.sse.queues)) [
    | inl g ↦ rw (g, stop_accepting) i
    | inr (q, g) ↦
        rw (g, stop_accepting)
          record {
            queued =
                insert-Queued t.posted t.sse.queues id (record q { is_open = false })
                  (i.queued id q g) i.queued;
            dispatched = i.dispatched;
            answered = i.answered;
          }
  ]

  drops-Inv :
      (t : Live World) (id : String) → Inv t → Inv (record t { sse = drop_guard cancel id t.sse })
  unfolding drop_guard
  drops-Inv t id i = record {
    queued = remove-Queued t.posted t.sse.queues id i.queued;
    dispatched = i.dispatched;
    answered = i.answered;
  }

  receives-Inv :
      (t : Live World) (id : String)
      → Inv t
      → Inv (record t { sse = receive print_number id t.sse })
  unfolding receive
  receives-Inv t id i = elim (Option-cases (get id t.sse.queues)) [
    | inl g ↦ rw (g, receive) i
    | inr (q, g) ↦ elim (List-cases q.messages) [
      | inl e ↦ rw (g, e, receive) i
      | inr (m, ms, e) ↦
          let h : All (λ m. Posted id m t.posted) (m ∷ ms) =
            subst (λ xs. All (λ m. Posted id m t.posted) xs) e (i.queued id q g) in
          let rest : Queued t.posted (insert id (record q { messages = ms }) t.sse.queues) =
            insert-Queued t.posted t.sse.queues id (record q { messages = ms }) h.1 i.queued in
          elim (Bool-cases (taken print_number id m t.sse.server).1) [
            | inl c ↦
                rw (g, e, c, receive)
                  record { queued = rest; dispatched = i.dispatched; answered = i.answered }
            | inr c ↦
                rw (g, e, c, receive)
                  record {
                    queued = rest;
                    dispatched =
                        All-append (IsDispatched t.posted) t.sse.in_flight
                          ((id, stamp_session_id id m) ∷ []) i.dispatched ((m, h.0, refl), tt);
                    answered = i.answered;
                  }
          ]
    ]
  ]

  Step-Inv : (t : Live World) {u : Live World} → Step t u → Inv t → Inv u
  Step-Inv t (opens id) i = opens-Inv t id i
  Step-Inv t (posts query body) i = posts-Inv t query body i
  Step-Inv t (receives id) i = receives-Inv t id i
  Step-Inv t (runs before entry after e) i = runs-Inv t before entry after e i
  Step-Inv t (sends id message) i = sends-Inv t id message i
  Step-Inv t (stops id) i = stops-Inv t id i
  Step-Inv t (drops id) i = drops-Inv t id i

  -- Whatever has happened on the connections, starting with none, each message in a queue was posted
  -- to the queue's session; each message that waits for the handler was posted to its session and
  -- carries that session's ID; and each event on a session's stream is the URL of that
  -- session, a message that the server sent through that session's sink, or the response to a
  -- message that was posted to that session.
  pub start-Reach-Inv :
      (server : State World) (t : Live World)
      → Reach
          (record {
            sse = record { queues = []; server = server; in_flight = []; events = [] };
            posted = [];
            sent = [];
          })
          t
      → Inv t
  unfolding get
  start-Reach-Inv server _ here = record {
    queued = λ id q e. absurd (ground (arith, e));
    dispatched = tt;
    answered = tt;
  }
  start-Reach-Inv server _ (next {u = u} r s) = Step-Inv u s (start-Reach-Inv server u r)
