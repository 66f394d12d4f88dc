-- ===== src/Listener.antt =====
-- src/server/listener.rs: the tools that follow the events of apcore's registry.
pub mod Followed
mod Examples
use apcore_mcp_rust.Prelude.{
  ℕ, zero, suc, String, Bool, true, false, not, Option, none, some, List, [], ◌∷◌, if◌then◌else◌,
}
use apcore_mcp_rust.Prelude.Map.{Map}
use apcore_mcp_rust.Prelude.Map
use apcore_mcp_rust.Prelude.Fallible.{ok, err}
use apcore_mcp_rust.Wire.{Tool}
use apcore_mcp_rust.Factory.{ModuleDescriptor}
use apcore_mcp_rust.Factory.Tools.{build_tool}

-- The listener, with the number of callbacks that the registry holds for each of the two events.
pub record RegistryListener : Type 0 where
  pub tools : Map Tool
  pub active : Bool
  pub callbacks : ℕ

abbrev pub new : RegistryListener
new = record { tools = []; active = false; callbacks = 0 }

unfoldable pub start : RegistryListener → RegistryListener
start l = if l.active then l else record l { active = true; callbacks = suc l.callbacks }

unfoldable pub stop : RegistryListener → RegistryListener
stop l = record l { active = false }

abbrev pub is_active : RegistryListener → Bool
is_active l = l.active

-- The tool of the definition that the registry has for the module.
unfoldable pub tool_for : Option ModuleDescriptor → Option Tool
unfolding build_tool
tool_for none = none
tool_for (some descriptor) = elim (build_tool descriptor descriptor.description none) [
  | ok tool ↦ some tool
  | err e ↦ none
]

-- The two callbacks.
unfoldable pub on_register : Bool → String → Option ModuleDescriptor → Map Tool → Map Tool
unfolding tool_for Map.insert
on_register active module_id definition tools =
    if not active
    then tools
    else elim (tool_for definition) [ none ↦ tools | some tool ↦ Map.insert module_id tool tools ]

unfoldable pub on_unregister : Bool → String → Map Tool → Map Tool
unfolding Map.remove
on_unregister active module_id tools = if not active then tools else Map.remove module_id tools

abbrev pub repeat {ℓ} : {A : Type ℓ} → ℕ → (A → A) → A → A
repeat zero f x = x
repeat (suc n) f x = repeat n f (f x)

-- What happens: a call of the listener, or an event of the registry, which has a definition for a
-- module that registers.
pub data Event : Type 0 where
  started stopped : Event
  registered : (module_id : String) (definition : Option ModuleDescriptor) → Event
  unregistered : (module_id : String) → Event

-- The registry runs the callbacks that it holds for an event.
unfoldable pub handle : Event → RegistryListener → RegistryListener
unfolding start stop on_register on_unregister
handle started l = start l
handle stopped l = stop l
handle (registered module_id definition) l = record l {
  tools = repeat l.callbacks (on_register l.active module_id definition) l.tools;
}
handle (unregistered module_id) l = record l {
  tools = repeat l.callbacks (on_unregister l.active module_id) l.tools;
}

unfoldable pub run : List Event → RegistryListener → RegistryListener
unfolding handle
run [] l = l
run (e ∷ es) l = run es (handle e l)
