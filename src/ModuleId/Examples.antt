-- ===== src/ModuleId/Examples.antt =====
-- The theorems at concrete IDs, over the concrete engine.
use apcore_mcp_rust.Prelude.{String, ◌≡◌, true, some}
use apcore_mcp_rust.ModuleId.Engine.{engine, engine-IsEngine, engine_accepts}
use apcore_mcp_rust.ModuleId.{ok, is_valid_module_id, normalize, denormalize, denormalize_checked}
use apcore_mcp_rust.ModuleId.RoundTrip.{denormalize-normalize}

image_valid : is_valid_module_id engine "image.resize" ≡ true
unfolding is_valid_module_id
image_valid = engine_accepts

denormalize-normalize_example :
    (name : String) × (normalize engine "image.resize" ≡ ok name)
    × (denormalize name ≡ "image.resize")
    × (denormalize_checked engine name ≡ some "image.resize")
denormalize-normalize_example =
    denormalize-normalize engine engine-IsEngine "image.resize" image_valid
