-- ===== src/Factory/Handlers.antt =====
-- src/server/factory.rs: register_handlers, and the lists of resources.
use apcore_mcp_rust.Prelude.{
  String, Char, code, Bool, true, ◌&&◌, ◌||◌, Option, none, some, List, [], ◌∷◌, map, ◌==◌, leb,
  eqb, if◌then◌else◌, is_some, unwrap_or, length, ◌<>◌, count,
}
use apcore_mcp_rust.Prelude.Map.{Map}
use apcore_mcp_rust.Prelude.Map
use apcore_mcp_rust.Json.{
  Number, Value, number, string, array, object, Fields, end, insert, as_str, as_array, is_null,
  get_key, and_then, get_str, json, fields_of, to_items,
}
use apcore_mcp_rust.ApprovalStore.{map_option}
use apcore_mcp_rust.Wire.{Tool, TextContent, new_text, CallToolResult}
use apcore_mcp_rust.Session.{Sessions}
use apcore_mcp_rust.Router.{ContentItem, Reply}
use apcore_mcp_rust.Rpc.{index, is_text, is_some_and, session_supports}
use apcore_mcp_rust.Factory.Tools.{meta_of}
use apcore_mcp_rust.Structured.References.{Referencing}
use apcore_mcp_rust.Structured.Content.{with_structured_content}

abbrev pub insert_some : String → Option Value → Fields → Fields
unfolding insert
insert_some k none obj = obj
insert_some k (some v) obj = insert k v obj

-- An entry that is there and not null.
abbrev pub not_null : Option Value → Option Value
not_null none = none
not_null (some v) = if is_null v then none else some v

unfoldable pub summarize_step : Value → Value
unfolding insert_some get_key get_str
summarize_step step = object (
    insert_some "skip_reason" (not_null (get_key "skip_reason" step)) (
      insert_some "duration_ms" (get_key "duration_ms" step)
        (insert_some "name" (map_option string (get_str "name" step)) end)))

unfoldable pub summarize_trace : Value → Value
unfolding summarize_step fields_of insert get_key
summarize_trace trace =
    let step_summaries =
      map summarize_step (unwrap_or (and_then (get_key "steps" trace) as_array) []) in
    json (
      ("step_count", number (Number.pos_int (length step_summaries)))
      ∷ ("steps", array (to_items step_summaries))
      ∷ [])

-- `replace('-', "")`
unfoldable pub without_dashes : String → String
without_dashes String.[] = ""
without_dashes (String.◌∷◌ c s) =
    let rest = without_dashes s in if eqb (code c) (code "-") then rest else String.◌∷◌ c rest

abbrev pub is_hex : Char → Bool
is_hex c = (leb 48 (code c) && leb (code c) 57) || (leb 97 (code c) && leb (code c) 102)

unfoldable pub all_hex : String → Bool
all_hex String.[] = true
all_hex (String.◌∷◌ c s) = is_hex c && all_hex s

-- The W3C traceparent of a trace's ID; `parent` is drawn at random.
unfoldable pub traceparent : String → String → Option String
unfolding without_dashes all_hex
traceparent parent trace_id =
    let trace_hex = without_dashes trace_id in
    if eqb (count trace_hex) 32 && all_hex trace_hex
    then some ("00-" <> trace_hex <> "-" <> parent <> "-01")
    else none

unfoldable pub text_items : List ContentItem → List TextContent
text_items [] = []
text_items (item ∷ items) =
    let rest = text_items items in
    if item.content_type == "text"
    then new_text (unwrap_or (as_str item.data_of) "") ∷ rest
    else rest

-- The last item of a trace.
unfoldable pub meta_trace : Option Value → List ContentItem → Option Value
unfolding summarize_trace
meta_trace found [] = found
meta_trace found (item ∷ items) =
    meta_trace (if item.content_type == "trace" then some (summarize_trace item.data_of) else found)
      items

unfoldable pub result_of : String → Reply → CallToolResult
unfolding text_items meta_trace traceparent insert_some
result_of parent (items, is_error, trace_id) = record {
  content = text_items items;
  structured_content = none;
  is_error = is_error;
  meta = meta_of (
      insert_some "traceparent" (map_option string (and_then trace_id (traceparent parent)))
        (insert_some "trace" (meta_trace none items) end));
}

-- A tool without an output schema adds nothing; of two of one name the later one's counts, which the
-- map has already, since it is filled from the end.
abbrev pub add_schema : Option Value → String → Map Value → Map Value
add_schema none name m = m
add_schema (some schema) name m = if is_some (Map.get name m) then m else Map.insert name schema m

unfoldable pub output_schemas_of : List Tool → Map Value
unfolding Map.insert Map.get
output_schemas_of [] = []
output_schemas_of (tool ∷ tools) = add_schema tool.output_schema tool.name (output_schemas_of tools)

-- Whether the client of a call has structured results.
unfoldable pub is_structured : Sessions → Option Value → Bool
unfolding get_key get_str Map.get
is_structured sessions extra =
    is_some_and (λ e. is_text "2025-06-18" (index "mcpProtocolVersion" e)) extra
    || session_supports
        (and_then (and_then extra (get_str "sessionId")) (λ id. Map.get id sessions))

-- Over the router's `handle_call` and its sessions, both in its state, and the parameters of the
-- structured results; a call is answered with the sessions as they are when it arrives.
module _ {W : Type 0} (handle_call : String → Value → Option Value → W → W × Reply)
    (session_registry : W → Sessions) (from_str : String → Option Value)
    (reprint : String → Option String) {Resolver : Type 0} (crate : Referencing Resolver)
    (is_valid : Value → Value → Bool) where
  unfoldable pub call_tool :
      List Tool → String → String → Value → Option Value → W → W × CallToolResult
  unfolding is_structured result_of output_schemas_of with_structured_content Map.get
  call_tool tools parent name arguments extra w =
      let structured = is_structured (session_registry w) extra in
      let called = handle_call name arguments extra w in
      let result = result_of parent called.1 in
      (
        called.0,
        (if structured
            then with_structured_content from_str reprint crate is_valid
                (Map.get name (output_schemas_of tools)) result
            else result),
      )
