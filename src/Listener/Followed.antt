-- ===== src/Listener/Followed.antt =====
-- The tools of src/server/listener.rs against what the events say of one module.
use apcore_mcp_rust.Prelude.{
  ℕ, zero, suc, String, ◌≡◌, refl, ap, ◌∙◌, ◌⊎◌, inl, inr, Bool, true, false, ◌&&◌, Option, none,
  some, List, [], ◌∷◌, arith, ◌==◌, if◌then◌else◌, Bool-cases, Option-cases, or_else,
}
use apcore_mcp_rust.Prelude.Map.{Map}
use apcore_mcp_rust.Prelude.Map
use apcore_mcp_rust.Wire.{Tool}
use apcore_mcp_rust.Factory.{ModuleDescriptor}
use apcore_mcp_rust.Listener.{
  RegistryListener, new, start, stop, tool_for, on_register, on_unregister, repeat, Event, started,
  stopped, registered, unregistered, handle, run,
}

-- What one module's tool is after an event, and whether the listener is active: an active listener
-- takes the tool that can be built, keeps the one it has if none can, and forgets it when the
-- module goes.
abbrev pub follow : String → Event → Bool × Option Tool → Bool × Option Tool
follow id started v = (true, v.1)
follow id stopped v = (false, v.1)
follow id (registered j definition) v =
    (v.0, (if v.0 && (j == id) then or_else (tool_for definition) v.1 else v.1))
follow id (unregistered j) v = (v.0, (if v.0 && (j == id) then none else v.1))

abbrev pub follow_all : String → List Event → Bool × Option Tool → Bool × Option Tool
follow_all id [] v = v
follow_all id (e ∷ es) v = follow_all id es (follow id e v)

abbrev pub view : String → RegistryListener → Bool × Option Tool
view id l = (l.active, Map.get id l.tools)

-- A callback that does the same to a key each time does it as often as one likes, but once.
get-repeat :
    (id : String) (f : Map Tool → Map Tool) (update : Option Tool → Option Tool)
    → ((ts : Map Tool) → Map.get id (f ts) ≡ update (Map.get id ts))
    → ((o : Option Tool) → update (update o) ≡ update o)
    → (n : ℕ) (ts : Map Tool) → Map.get id (repeat (suc n) f ts) ≡ update (Map.get id ts)
get-repeat id f update h k zero ts = h ts
get-repeat id f update h k (suc n) ts =
    get-repeat id f update h k n (f ts) ∙ ap update (h ts) ∙ k (Map.get id ts)

get-on_register :
    (id j : String) (definition : Option ModuleDescriptor) (ts : Map Tool)
    → Map.get id (on_register true j definition ts)
      ≡ (if j == id then or_else (tool_for definition) (Map.get id ts) else Map.get id ts)
unfolding on_register
get-on_register id j definition ts = elim (Option-cases (tool_for definition)) [
  | inl e ↦ rw e (elim (Bool-cases (j == id)) [ inl y ↦ rw y refl | inr off ↦ rw off refl ])
  | inr (tool, e) ↦ rw e (Map.get-insert j id tool ts)
]

get-on_unregister :
    (id j : String) (ts : Map Tool)
    → Map.get id (on_unregister true j ts) ≡ (if j == id then none else Map.get id ts)
unfolding on_unregister
get-on_unregister id j ts = Map.get-remove j id ts

repeat-inactive :
    (f : Map Tool → Map Tool)
    → ((ts : Map Tool) → f ts ≡ ts)
    → (n : ℕ) (ts : Map Tool) → repeat n f ts ≡ ts
repeat-inactive f h zero ts = refl
repeat-inactive f h (suc n) ts = repeat-inactive f h n (f ts) ∙ h ts

-- An active listener has its callbacks in the registry.
abbrev IsReady : RegistryListener → Type 0
IsReady l = (l.active ≡ false) ⊎ ((n : ℕ) × (l.callbacks ≡ suc n))

get-registered :
    (id j : String) (definition : Option ModuleDescriptor) (active : Bool) (n : ℕ) (ts : Map Tool)
    → (active ≡ false) ⊎ ((m : ℕ) × (n ≡ suc m))
    → Map.get id (repeat n (on_register active j definition) ts) ≡ (
        if active && (j == id)
        then or_else (tool_for definition) (Map.get id ts)
        else Map.get id ts)
unfolding on_register
get-registered id j definition false n ts h =
    ap (Map.get id) (repeat-inactive (on_register false j definition) (λ s. refl) n ts)
get-registered id j definition true zero ts (inr (m, e)) = absurd (omega (arith, e))
get-registered id j definition true zero ts (inl e) = cc
get-registered id j definition true (suc n) ts h =
    get-repeat id (on_register true j definition)
      (λ o. if j == id then or_else (tool_for definition) o else o)
      (get-on_register id j definition) (twice (j == id) (tool_for definition)) n ts
  where
    twice :
        (b : Bool) (t o : Option Tool)
        → (if b then or_else t (if b then or_else t o else o) else if b then or_else t o else o)
          ≡ (if b then or_else t o else o)
    twice false t o = refl
    twice true none o = refl
    twice true (some t) o = refl

get-unregistered :
    (id j : String) (active : Bool) (n : ℕ) (ts : Map Tool)
    → (active ≡ false) ⊎ ((m : ℕ) × (n ≡ suc m))
    → Map.get id (repeat n (on_unregister active j) ts)
      ≡ (if active && (j == id) then none else Map.get id ts)
unfolding on_unregister
get-unregistered id j false n ts h =
    ap (Map.get id) (repeat-inactive (on_unregister false j) (λ s. refl) n ts)
get-unregistered id j true zero ts (inr (m, e)) = absurd (omega (arith, e))
get-unregistered id j true zero ts (inl e) = cc
get-unregistered id j true (suc n) ts h =
    get-repeat id (on_unregister true j) (λ o. if j == id then none else o) (get-on_unregister id j)
      (twice (j == id)) n ts
  where
    twice :
        (b : Bool) (o : Option Tool)
        → (if b then none else if b then none else o) ≡ (if b then none else o)
    twice false o = refl
    twice true o = refl

abbrev activated : RegistryListener → RegistryListener
activated l = record l { active = true; callbacks = suc l.callbacks }

start-follow :
    (id : String) (l : RegistryListener) (b : Bool)
    → l.active ≡ b
    → view id (if b then l else activated l) ≡ (true, Map.get id l.tools)
start-follow id l true e = ap (λ a. (a, Map.get id l.tools)) e
start-follow id l false e = refl

start-IsReady :
    (l : RegistryListener) (b : Bool) → IsReady l → IsReady (if b then l else activated l)
start-IsReady l true h = h
start-IsReady l false h = inr (l.callbacks, refl)

handle-follow :
    (id : String) (e : Event) (l : RegistryListener)
    → IsReady l
    → view id (handle e l) ≡ follow id e (view id l)
unfolding handle start stop
handle-follow id started l h = start-follow id l l.active refl
handle-follow id stopped l h = refl
handle-follow id (registered j definition) l h =
    ap (λ o. (l.active, o)) (get-registered id j definition l.active l.callbacks l.tools h)
handle-follow id (unregistered j) l h =
    ap (λ o. (l.active, o)) (get-unregistered id j l.active l.callbacks l.tools h)

handle-IsReady : (e : Event) (l : RegistryListener) → IsReady l → IsReady (handle e l)
unfolding handle start stop
handle-IsReady started l h = start-IsReady l l.active h
handle-IsReady stopped l h = inl refl
handle-IsReady (registered j definition) l h = h
handle-IsReady (unregistered j) l h = h

run-follow :
    (id : String) (es : List Event) (l : RegistryListener)
    → IsReady l
    → view id (run es l) ≡ follow_all id es (view id l)
unfolding run
run-follow id [] l h = refl
run-follow id (e ∷ es) l h =
    run-follow id es (handle e l) (handle-IsReady e l h)
    ∙ ap (follow_all id es) (handle-follow id e l h)

-- After any history of a new listener, the tool that it holds for a module is the one that the
-- events say on their own: the last that could be built while it was active, unless the module was
-- unregistered while it was active; starts and stops in between, which leave callbacks behind in
-- the registry, make no other difference.
pub run-follow_all :
    (id : String) (es : List Event) → view id (run es new) ≡ follow_all id es (false, none)
unfolding Map.get
run-follow_all id es = run-follow id es new (inl refl)
