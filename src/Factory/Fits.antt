-- ===== src/Factory/Fits.antt =====
-- What the call handler of src/server/factory.rs answers with.
use apcore_mcp_rust.Prelude.{
  String, ◌≡◌, ◌≢◌, ◌⊎◌, Bool, true, Option, none, some, List, [], ◌∷◌, ◌==◌, if◌then◌else◌,
  or_else,
}
use apcore_mcp_rust.Prelude.Map.{Map}
use apcore_mcp_rust.Prelude.Map
use apcore_mcp_rust.Json.{Value, string, as_str, get_str}
use apcore_mcp_rust.Wire.{Tool, TextContent, new_text, CallToolResult}
use apcore_mcp_rust.Session.{Session, Sessions}
use apcore_mcp_rust.Router.{ContentItem, Reply}
use apcore_mcp_rust.Rpc.{index}
use apcore_mcp_rust.Structured.References.{Referencing}
use apcore_mcp_rust.Structured.Kept.{IsStructured}

-- The text of an item of type "text", which is empty where its data is no text.
pub data IsText (item : ContentItem) : TextContent → Type 0 where
  of_text : {s : String} → item.data_of ≡ string s → IsText item (new_text s)
  of_other : as_str item.data_of ≡ none → IsText item (new_text "")

-- The texts of a reply, in its order; what is no text is left out.
pub data AreTexts : List ContentItem → List TextContent → Type 0 where
  no_texts : AreTexts [] []
  one_text :
      {item : ContentItem} {items : List ContentItem} {t : TextContent} {ts : List TextContent}
      → item.content_type ≡ "text"
      → IsText item t
      → AreTexts items ts
      → AreTexts (item ∷ items) (t ∷ ts)
  no_text :
      {item : ContentItem} {items : List ContentItem} {ts : List TextContent}
      → item.content_type ≢ "text"
      → AreTexts items ts
      → AreTexts (item ∷ items) ts

-- The result that a reply of the router is; nothing is said of its metadata.
abbrev pub IsReply : Reply → CallToolResult → Type 0
IsReply (items, is_error, trace_id) r =
    AreTexts items r.content × (r.is_error ≡ is_error) × (r.structured_content ≡ none)

-- The call is of the version that has structured results, or its session has negotiated them.
pub data HasStructured (sessions : Sessions) : Option Value → Type 0 where
  by_version :
      {e : Value}
      → index "mcpProtocolVersion" e ≡ string "2025-06-18"
      → HasStructured sessions (some e)
  by_session :
      {e : Value} {id : String} {session : Session}
      → get_str "sessionId" e ≡ some id
      → Map.get id sessions ≡ some session
      → session.structured_results ≡ true
      → HasStructured sessions (some e)

-- The output schema of the last tool of the name that has one.
abbrev pub advertised : String → List Tool → Option Value
advertised name [] = none
advertised name (tool ∷ tools) =
    or_else (advertised name tools) (if tool.name == name then tool.output_schema else none)

module _ {W : Type 0} (handle_call : String → Value → Option Value → W → W × Reply)
    (session_registry : W → Sessions) (from_str : String → Option Value)
    (reprint : String → Option String) {Resolver : Type 0} (crate : Referencing Resolver)
    (is_valid : Value → Value → Bool) where
  abbrev pub IsCalled : List Tool → String → Value → Option Value → W → W × CallToolResult → Type 0
  IsCalled tools name arguments extra w out =
      let called = handle_call name arguments extra w in
      (out.0 ≡ called.0)
      × (reply : CallToolResult) × IsReply called.1 reply
      × (((HasStructured (session_registry w) extra → ⊥) × (out.1 ≡ reply))
          ⊎ (HasStructured (session_registry w) extra
              × IsStructured from_str reprint crate is_valid (advertised name tools) reply out.1))
