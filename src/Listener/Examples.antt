-- ===== src/Listener/Examples.antt =====
-- The theorem at a history: a start after a stop, and a module that cannot be built again.
use apcore_mcp_rust.Prelude.{◌≡◌, false, none, some, List, [], ◌∷◌}
use apcore_mcp_rust.Json.{null, object, end}
use apcore_mcp_rust.Factory.{ModuleDescriptor}
use apcore_mcp_rust.Listener.{new, Event, started, stopped, registered, unregistered, run}
use apcore_mcp_rust.Listener.Followed.{view, follow_all, run-follow_all}

abbrev resize : ModuleDescriptor
resize = record {
  module_id = "image.resize";
  description = "Resizes.";
  input_schema = object end;
  output_schema = null;
  annotations = none;
  metadata = [];
  display = none;
}

abbrev history : List Event
history =
    started
    ∷ registered "image.resize" (some resize)
    ∷ stopped
    ∷ unregistered "image.resize"
    ∷ started
    ∷ registered "image.resize" none
    ∷ []

run-follow_all_example :
    view "image.resize" (run history new) ≡ follow_all "image.resize" history (false, none)
run-follow_all_example = run-follow_all "image.resize" history
