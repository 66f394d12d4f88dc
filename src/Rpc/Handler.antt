-- ===== src/Rpc/Handler.antt =====
-- src/server/server.rs: the handler that answers a client's JSON-RPC message, method by method.
use apcore_mcp_rust.Prelude.{
  String, code, Bool, true, false, not, ◌&&◌, Option, none, some, [], ◌∷◌, ◌==◌, if◌then◌else◌,
  is_some, unwrap_or, or_else, ◌<>◌,
}
use apcore_mcp_rust.Json.{
  Value, null, bool, string, array, object, get_key, get_str, and_then, json, remove, fields_of,
  nil,
}
use apcore_mcp_rust.Prelude.Fallible.{ok, err}
use apcore_mcp_rust.ApprovalStore.{map_option}
use apcore_mcp_rust.Wire.{
  Tool, CallToolResult, Resource, ReadResourceContents, ResourceTemplate, tool_fields,
  result_fields, list_of, set,
}
use apcore_mcp_rust.Rpc.{
  State, ServerHandler, RpcResult, success, error, notification, invalid_request, method_not_found,
  invalid_params, index, is_text, is_string, valid_request_id, request_error, negotiated_protocol,
  supports_structured_results, record_client_capabilities, wrap_response,
}

-- A tool as a client that knows no structured results is told of it.
unfoldable pub listed : Bool → Tool → Value
listed structured t =
    object (if structured then tool_fields t else remove "outputSchema" (tool_fields t))

unfoldable pub called : Bool → CallToolResult → Value
unfolding result_fields
called structured r =
    object (result_fields (if structured then r else record r { structured_content = none }))

abbrev pub capabilities : Option Value → Value
capabilities extensions = object (
    set "extensions" extensions (
      fields_of (
        ("tools", json (("listChanged", bool true) ∷ []))
        ∷ ("resources", json (("listChanged", bool false) ∷ []))
        ∷ [])))

abbrev pub resource_value : Resource → Value
resource_value r =
    json (("uri", string r.uri) ∷ ("name", string r.name) ∷ ("mimeType", string r.mime_type) ∷ [])

abbrev pub template_value : ResourceTemplate → Value
template_value t = json (
    ("uriTemplate", string t.uri_template)
    ∷ ("name", string t.name)
    ∷ ("mimeType", string t.mime_type)
    ∷ [])

abbrev pub contents_value : ReadResourceContents → Value
contents_value c = json (("content", string c.content) ∷ ("mimeType", string c.mime_type) ∷ [])

-- `id.filter(valid_request_id)`
abbrev pub valid_id : Option Value → Option Value
valid_id none = none
valid_id (some id) = if valid_request_id id then some id else none

-- Of the messages that are no requests, those that are left unanswered: notifications.
abbrev pub is_unanswered : Value → Bool
is_unanswered message =
    not (is_some (get_key "id" message))
    && is_text "2.0" (index "jsonrpc" message)
    && is_string (index "method" message)

-- `serde_json` prints a value: a parameter.
module _ {World : Type 0} (print : Value → String) (h : ServerHandler World) where
  unfoldable pub initialize : Value → State World → State World × RpcResult
  initialize message st = (
    record st { session_registry = record_client_capabilities message st.session_registry },
    success (
        json (
          ("capabilities", capabilities h.init_options.extensions)
          ∷ (
            "serverInfo",
            json (
                ("name", string h.init_options.server_name)
                ∷ ("version", string h.init_options.server_version)
                ∷ []),
          )
          ∷ ("protocolVersion", string (negotiated_protocol message))
          ∷ [])),
  )

  unfoldable pub tools_list : Value → State World → State World × RpcResult
  tools_list message st = (
    st,
    success (
        json (
          (
            "tools",
            array (
                list_of (listed (supports_structured_results st.session_registry message))
                  (h.list_tools st)),
          )
          ∷ [])),
  )

  unfoldable pub tools_call : Value → State World → State World × RpcResult
  tools_call message st = elim (get_key "params" message) [
    | none ↦ (st, error invalid_params "Invalid params: missing 'params'")
    | some params ↦ elim (get_str "name" params) [
      | none ↦ (st, error invalid_params "Invalid params: missing 'name' in params")
      | some name ↦
          let (st', result) =
            h.call_tool name (unwrap_or (get_key "arguments" params) (json []))
              (get_key "_meta" params) st in
          (st', success (called (supports_structured_results st'.session_registry message) result))
    ]
  ]

  unfoldable pub resources_list : State World → State World × RpcResult
  resources_list st = elim h.list_resources [
    | none ↦ (st, success (json (("resources", array nil) ∷ [])))
    | some handler ↦
        (st, success (json (("resources", array (list_of resource_value (handler st))) ∷ [])))
  ]

  unfoldable pub resources_read : Value → State World → State World × RpcResult
  resources_read message st = elim (get_key "params" message) [
    | none ↦ (st, error invalid_params "Invalid params: missing 'params'")
    | some params ↦ elim (get_str "uri" params) [
      | none ↦ (st, error invalid_params "Invalid params: missing 'uri' in params")
      | some uri ↦ elim h.read_resource [
        | none ↦ (st, error method_not_found "resources not supported")
        | some handler ↦ elim (handler uri st).1 [
          | ok contents ↦ (
            (handler uri st).0,
            success (json (("contents", array (list_of contents_value contents)) ∷ [])),
          )
          | err e ↦ ((handler uri st).0, error invalid_params e)
        ]
      ]
    ]
  ]

  unfoldable pub resource_templates_list : State World → State World × RpcResult
  resource_templates_list st = elim h.list_resource_templates [
    | none ↦ (st, success (json (("resourceTemplates", array nil) ∷ [])))
    | some handler ↦ (
      st,
      success (json (("resourceTemplates", array (list_of template_value (handler st))) ∷ [])),
    )
  ]

  abbrev key_text : Value → String
  key_text (string s) = s
  key_text other = print other

  -- The key that a cancellation names.
  unfoldable pub cancelled_key : Value → String
  cancelled_key message =
      unwrap_or
        (or_else (map_option key_text (and_then (get_key "params" message) (get_key "requestId")))
          (map_option print (get_key "id" message)))
        ""

  unfoldable pub cancelled : Value → State World → State World × RpcResult
  cancelled message st = elim h.cancel_handler [
    | none ↦ (st, notification)
    | some handler ↦ (handler (cancelled_key message) st, notification)
  ]

  unfoldable pub dispatch : String → Value → State World → State World × RpcResult
  dispatch method message st =
      if method == "initialize"
      then initialize message st
      else if method == "tools/list"
      then tools_list message st
      else if method == "tools/call"
      then tools_call message st
      else if method == "resources/list"
      then resources_list st
      else if method == "resources/read"
      then resources_read message st
      else if method == "resources/templates/list"
      then resource_templates_list st
      else if method == "notifications/initialized"
      then (st, notification)
      else if method == "notifications/cancelled"
      then cancelled message st
      else (st, error method_not_found ("unknown method: " <> method))

  unfoldable pub handle_message : Value → State World → State World × Option Value
  unfolding dispatch wrap_response
  handle_message message st = elim (request_error message) [
    | some (code, e) ↦
        if not (is_some (get_key "id" message))
          && is_text "2.0" (index "jsonrpc" message)
          && is_string (index "method" message)
        then (st, none)
        else (
          st,
          wrap_response (some (unwrap_or (valid_id (get_key "id" message)) null)) (error code e),
        )
    | none ↦ elim (get_str "method" message) [
      | none ↦ (
        st,
        wrap_response (get_key "id" message)
            (error invalid_request "Invalid Request: missing 'method'"),
      )
      | some method ↦
          let (st', result) = dispatch method message st in
          (st', wrap_response (get_key "id" message) result)
    ]
  ]
