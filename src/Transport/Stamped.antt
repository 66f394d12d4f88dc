-- ===== src/Transport/Stamped.antt =====
-- What the transports of src/server/transport.rs write on a message, and what the handler of
-- src/server/server.rs reads of it.
use apcore_mcp_rust.Prelude.{
  String, ◌≡◌, refl, ap, inl, inr, Bool, true, false, not, ◌&&◌, Option, none, some, arith, ◌==◌,
  eq_refl, Option-cases,
}
use apcore_mcp_rust.Json.{
  Value, null, bool, number, string, array, object, Fields, end, get, insert, remove, get_key,
  get_str, fields_of, get-insert, get-remove,
}
use apcore_mcp_rust.Session.{Sessions}
use apcore_mcp_rust.Rpc.{
  index, is_text, is_object, is_some_and, request_error, session_of, record_client_capabilities,
}
use apcore_mcp_rust.Transport.{
  stamp_session_id, stamp_http_protocol, with_params, stamp_meta, stamp_version, meta_of,
}

-- The parameters of a message that has an object for them, or none.
abbrev pub fields_in : Option Value → Fields
fields_in (some (object fs)) = fs
fields_in _ = end

abbrev pub params_of : Value → Fields
params_of message = fields_in (get_key "params" message)

-- An object whose parameters are absent or an object.
abbrev pub is_call : Value → Bool
is_call message =
    is_object message && not (is_some_and (λ p. not (is_object p)) (get_key "params" message))

pub index-with_params :
    (f : Fields → Fields) (message : Value)
    → is_call message ≡ true
    → index "params" (with_params f message) ≡ object (f (params_of message))
unfolding get_key fields_of
index-with_params f null h = cc
index-with_params f (bool b) h = cc
index-with_params f (number n) h = cc
index-with_params f (string s) h = cc
index-with_params f (array vs) h = cc
index-with_params f (object fs) h = elim (Option-cases (get "params" fs)) [
  | inl p ↦ rw (p, get-insert "params" "params" (object (f end)) fs, with_params) refl
  | inr (null, p) ↦ absurd (ground (arith, h, p))
  | inr (bool b, p) ↦ absurd (ground (arith, h, p))
  | inr (number n, p) ↦ absurd (ground (arith, h, p))
  | inr (string s, p) ↦ absurd (ground (arith, h, p))
  | inr (array vs, p) ↦ absurd (ground (arith, h, p))
  | inr (object params, p) ↦
      rw (p, get-insert "params" "params" (object (f params)) fs, with_params) refl
]

pub get_key-with_params :
    (f : Fields → Fields) (k : String) (message : Value)
    → "params" == k ≡ false
    → get_key k (with_params f message) ≡ get_key k message
unfolding get_key fields_of
get_key-with_params f k (object fs) h = elim (Option-cases (get "params" fs)) [
  | inl p ↦ rw (p, get-insert "params" k (object (f end)) fs, h, with_params) refl
  | inr (null, p) ↦ rw (p, with_params) refl
  | inr (bool b, p) ↦ rw (p, with_params) refl
  | inr (number n, p) ↦ rw (p, with_params) refl
  | inr (string s, p) ↦ rw (p, with_params) refl
  | inr (array vs, p) ↦ rw (p, with_params) refl
  | inr (object params, p) ↦
      rw (p, get-insert "params" k (object (f params)) fs, h, with_params) refl
]
get_key-with_params f k null h = refl
get_key-with_params f k (bool b) h = refl
get_key-with_params f k (number n) h = refl
get_key-with_params f k (string s) h = refl
get_key-with_params f k (array vs) h = refl

is_object-with_params :
    (f : Fields → Fields) (message : Value) → is_object (with_params f message) ≡ is_object message
is_object-with_params f (object fs) = ground arith
is_object-with_params f null = refl
is_object-with_params f (bool b) = refl
is_object-with_params f (number n) = refl
is_object-with_params f (string s) = refl
is_object-with_params f (array vs) = refl

abbrev pub is_malformed : Option Value → Bool
is_malformed o = is_some_and (λ p. not (is_object p)) o

is_malformed-with_params :
    (f : Fields → Fields) (message : Value)
    → is_malformed (get_key "params" (with_params f message))
      ≡ is_malformed (get_key "params" message)
unfolding get_key fields_of
is_malformed-with_params f (object fs) = elim (Option-cases (get "params" fs)) [
  | inl p ↦ rw (p, get-insert "params" "params" (object (f end)) fs, with_params, get_key) refl
  | inr (null, p) ↦ rw (p, with_params, get_key) (ap is_malformed p)
  | inr (bool b, p) ↦ rw (p, with_params, get_key) (ap is_malformed p)
  | inr (number n, p) ↦ rw (p, with_params, get_key) (ap is_malformed p)
  | inr (string s, p) ↦ rw (p, with_params, get_key) (ap is_malformed p)
  | inr (array vs, p) ↦ rw (p, with_params, get_key) (ap is_malformed p)
  | inr (object params, p) ↦
      rw (p, get-insert "params" "params" (object (f params)) fs, with_params, get_key) refl
]
is_malformed-with_params f null = refl
is_malformed-with_params f (bool b) = refl
is_malformed-with_params f (number n) = refl
is_malformed-with_params f (string s) = refl
is_malformed-with_params f (array vs) = refl

pub request_error-with_params :
    (f : Fields → Fields) (message : Value)
    → request_error (with_params f message) ≡ request_error message
unfolding request_error
request_error-with_params f message =
    rw
      (
        is_object-with_params f message,
        get_key-with_params f "jsonrpc" message refl,
        get_key-with_params f "id" message refl,
        is_malformed-with_params f message,
        request_error,
      )
      refl

index-insert : (k : String) (v : Value) (fs : Fields) → index k (object (insert k v fs)) ≡ v
unfolding get_key
index-insert k v fs = rw (get-insert k k v fs, eq_refl k) refl

pub stamp_meta-insert :
    (id : String) (params : Fields)
    → stamp_meta id params
      ≡ insert "_meta"
          (object (insert "sessionId" (string id) (remove "mcpProtocolVersion" (meta_of params))))
          params
unfolding fields_of remove
stamp_meta-insert id params = elim (Option-cases (get "_meta" params)) [
  | inl p ↦ rw (p, stamp_meta, meta_of) refl
  | inr (null, p) ↦ rw (p, stamp_meta, meta_of) refl
  | inr (bool b, p) ↦ rw (p, stamp_meta, meta_of) refl
  | inr (number n, p) ↦ rw (p, stamp_meta, meta_of) refl
  | inr (string s, p) ↦ rw (p, stamp_meta, meta_of) refl
  | inr (array vs, p) ↦ rw (p, stamp_meta, meta_of) refl
  | inr (object fs, p) ↦ rw (p, stamp_meta, meta_of) refl
]

index-stamp_meta :
    (id : String) (params : Fields)
    → index "_meta" (object (stamp_meta id params))
      ≡ object (insert "sessionId" (string id) (remove "mcpProtocolVersion" (meta_of params)))
index-stamp_meta id params = rw (stamp_meta-insert id params) (
    index-insert "_meta"
      (object (insert "sessionId" (string id) (remove "mcpProtocolVersion" (meta_of params))))
      params)

pub get_key-params :
    (k : String) (message : Value)
    → is_call message ≡ true
    → get_key k (index "params" message) ≡ get k (params_of message)
unfolding get_key get
get_key-params k message h = elim (Option-cases (get_key "params" message)) [
  | inl p ↦ rw (p, index, params_of) refl
  | inr (null, p) ↦ absurd (ground (arith, h, p))
  | inr (bool b, p) ↦ absurd (ground (arith, h, p))
  | inr (number n, p) ↦ absurd (ground (arith, h, p))
  | inr (string s, p) ↦ absurd (ground (arith, h, p))
  | inr (array vs, p) ↦ absurd (ground (arith, h, p))
  | inr (object fs, p) ↦ rw (p, index, params_of) refl
]

index-stamp_version :
    (version : String) (params : Fields)
    → index "_meta" (object (stamp_version version params))
      ≡ object (insert "mcpProtocolVersion" (string version) (remove "sessionId" (meta_of params)))
index-stamp_version version params =
    index-insert "_meta"
      (object (insert "mcpProtocolVersion" (string version) (remove "sessionId" (meta_of params))))
      params

-- A message with a session's ID on it: the handler reads that ID and no revision of the caller's,
-- and all else but the parameters is as before.
pub record IsStamped (id : String) (message : Value) (stamped : Value) : Type 0 where
  pub session : session_of stamped ≡ some id
  pub no_version : get_key "mcpProtocolVersion" (index "_meta" (index "params" stamped)) ≡ none
  pub rest : (k : String) → "params" == k ≡ false → get_key k stamped ≡ get_key k message

pub stamp_session_id-IsStamped :
    (id : String) (message : Value)
    → is_call message ≡ true
    → IsStamped id message (stamp_session_id id message)
unfolding stamp_session_id get_str get_key
stamp_session_id-IsStamped id message h =
    let meta = meta_of (params_of message) in
    let e = index-with_params (stamp_meta id) message h in
    record {
      session =
          rw
            (
              e,
              index-stamp_meta id (params_of message),
              get-insert "sessionId" "sessionId" (string id) (remove "mcpProtocolVersion" meta),
            )
            refl;
      no_version =
          rw
            (
              e,
              index-stamp_meta id (params_of message),
              get-insert "sessionId" "mcpProtocolVersion" (string id)
                  (remove "mcpProtocolVersion" meta),
              get-remove "mcpProtocolVersion" "mcpProtocolVersion" meta,
            )
            refl;
      rest = λ k. get_key-with_params (stamp_meta id) k message;
    }

-- A message with the revision of its HTTP header on it: the handler reads that revision and no
-- session.
pub record IsVersioned (version : String) (stamped : Value) : Type 0 where
  pub revision :
      is_text "2025-06-18" (index "mcpProtocolVersion" (index "_meta" (index "params" stamped)))
      ≡ (version == "2025-06-18")
  pub no_session : session_of stamped ≡ none

pub stamp_http_protocol-IsVersioned :
    (version : String) (message : Value)
    → is_call message ≡ true
    → IsVersioned version (stamp_http_protocol version message)
unfolding stamp_http_protocol get_str get_key
stamp_http_protocol-IsVersioned version message h =
    let meta = meta_of (params_of message) in
    let e = index-with_params (stamp_version version) message h in
    record {
      revision =
          rw
            (
              e,
              index-stamp_version version (params_of message),
              get-insert "mcpProtocolVersion" "mcpProtocolVersion" (string version)
                  (remove "sessionId" meta),
            )
            refl;
      no_session =
          rw
            (
              e,
              index-stamp_version version (params_of message),
              get-insert "mcpProtocolVersion" "sessionId" (string version)
                  (remove "sessionId" meta),
              get-remove "sessionId" "sessionId" meta,
            )
            refl;
    }

pub record-IsVersioned :
    (version : String) (stamped : Value) (registry : Option Sessions)
    → IsVersioned version stamped
    → record_client_capabilities stamped registry ≡ registry
unfolding record_client_capabilities get_str get_key
record-IsVersioned version stamped none v = refl
record-IsVersioned version stamped (some sessions) v =
    elim (Option-cases (get_key "params" stamped)) [
      | inl p ↦ rw (p, record_client_capabilities) refl
      | inr (params, p) ↦ elim (Option-cases (get_key "_meta" params)) [
        | inl q ↦ rw (p, q, record_client_capabilities) refl
        | inr (meta, q) ↦
            let i : get_str "sessionId" meta ≡ none = rw (p, q) at v.no_session in
            rw (p, q, i, record_client_capabilities) refl
      ]
    ]
