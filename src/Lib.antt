-- ===== src/Lib.antt =====
-- Verification library of apcore-mcp, the bridge that offers apcore modules as MCP tools (Rust).
--
-- The program. A registry of apcore modules is turned into MCP tools: module IDs become tool names
-- (src/adapters/id_normalizer.rs), module schemas become tool schemas (src/adapters/schema.rs),
-- errors of modules become responses that are safe to show (src/adapters/errors.rs). A request over
-- HTTP passes a layer that authenticates it (src/auth/middleware.rs, src/auth/jwt.rs), and apcore
-- admits its calls by an access control list that is read from the configuration
-- (src/acl_builder.rs); the middleware around a call comes from it too (src/middleware_builder.rs).
-- A connection is a session (src/server/session.rs), over which the server also asks the client;
-- the messages that come in on it are answered by the handler of src/server/server.rs, after the
-- transport has written on them whose they are (src/server/transport.rs). A call that needs a
-- human's consent goes to an approval handler (src/adapters/approval.rs), which either asks the
-- client through a callback that is registered for the call (src/server/elicit_registry.rs), in the
-- end by a session's elicit_form, or keeps the request in a store (src/approval_store.rs), which
-- the client polls by a tool of its own (src/server/approval_bridge.rs). Modules that run in the
-- background are submitted, polled and cancelled by tools, and cancelled when their session ends
-- (src/server/async_task_bridge.rs). The tools themselves are built of the registry's definitions
-- and their annotations (src/server/factory.rs, src/adapters/annotations.rs), once for the list of
-- tools and again as modules come and go (src/server/listener.rs); the same modules are offered as
-- OpenAI tools (src/converters/openai.rs). All of it is put together by a builder
-- (src/apcore_mcp.rs), which installs the middleware and the list on apcore's executor; what a call
-- returns is offered as structured content too, if its numbers keep their values
-- (src/server/types/json_precision.rs).
--
-- The files.
--   Prelude       shared names; Prelude.Map is the association list that stands for a HashMap,
--                 Prelude.Int the integers over the native natural numbers
--   Json          serde_json::Value with the operations of its sorted Map
--   Adapters      src/adapters/mod.rs: AdapterError; chains of fallible calls are Prelude.Fallible
--   ModuleId      src/constants.rs (MODULE_ID_PATTERN) and src/adapters/id_normalizer.rs; Pattern has
--                 the pattern and the texts it matches, Engine a concrete matcher for the examples
--   ApprovalStore src/approval_store.rs: one function for each call, sweep for a round of the
--                 background task, fire for a spawned task that wakes
--   Approval      src/adapters/approval.rs, src/helpers.rs (the answers), src/server/elicit_registry.rs
--                 and src/server/approval_bridge.rs
--   Errors        src/adapters/errors.rs: to_mcp_error by the error's code, then by the code's text
--   Schema        src/adapters/schema.rs: inline_refs, ensure_object_type and inject_strict
--   Session       src/server/session.rs: the calls of a session and of the registry of sessions; Live has
--                 the histories of a connection, with what each request in flight has received
--   Acl           src/acl_builder.rs: build_acl_from_config by the section, its rules and their fields
--   Auth          src/auth: Jwt is src/auth/jwt.rs, Middleware is src/auth/middleware.rs, Texts what they use
--                 of str
--   Tasks         src/server/async_task_bridge.rs: Bridge has the state and its calls, Handlers the tools
--   Cancellation  src/server/router.rs: cancel_call, _cancel_guard and the eviction of cancel tokens
--   Middleware    src/middleware_builder.rs: the entries of mcp.middleware by their type
--   Wire          src/server/types.rs: tools, results and resources, and how they are serialized
--   Rpc           src/server/server.rs: Rpc has the messages, Handler the handler, method by method
--   Transport     src/server/transport.rs: the stamping of messages and the endpoints over HTTP; Sse has the
--                 connections, Reach their histories
--   Router        src/server/router.rs: Merge is deep_merge, Extra what a call reads of its metadata, Calls
--                 the paths to the executor, Dispatch handle_call over the bridges
--   Annotations   src/adapters/annotations.rs: the hints of MCP and the suffix of a description
--   OpenAi        src/converters/openai.rs: strict mode; Order has the source's order of writes, Tools
--                 the conversion of descriptors and registries
--   Factory       src/server/factory.rs: the tools of modules; Tools has build_tool and build_tools,
--                 Resources the reads of resources, Listed their lists, Handlers the calls of tools
--   Structured    src/server/types.rs: with_structured_content; Precision is src/server/types/
--                 json_precision.rs, Decimal how a number is read, Meaning what normal forms mean;
--                 References is src/server/schema_references.rs, Entered what it finds in one schema
--   Listener      src/server/listener.rs: the tools that follow the registry's events, over histories
--   Builder       src/apcore_mcp.rs: the configuration and validate, with the sections that src/config.rs
--                 reads; Build has build
-- In each component the main file holds the definitions, the children hold the proofs, and Examples
-- holds the theorems at concrete inputs.
--
-- Conventions. Time is a natural number that each call takes as an argument, and so is a UUID that a
-- call draws. Work that the source spawns to run later is an entry of a list in the state, and its
-- running a step of its own. Code of other crates is a parameter:
--   ModuleId   the regex engine
--   Approval   the printer of JSON values and apcore's default ApprovalResult
--   Errors     the texts of apcore's error codes
--   Session    the sink of a connection, the printer of numbers and the derived reader of an answer
--   Rpc        the printer of JSON values; the handlers of tools and resources are fields of a record
--   Factory    for the calls and the resources, the router's handle_call, with the modules that the
--              registry has; the random part of a traceparent is an argument
--   Builder    apcore's registry and executor with its middleware and its list of access control, which
--              is the list set last and which middleware leaves as it is, and its named strategies
--   Structured serde_json's readers, jsonschema's validator and the calls of the crate referencing, of
--              which the parts of a schema lie inside it and do not overlap
--   Router     apcore's redactor and the executor, the formatters of apcore-toolkit, the printers of
--              JSON values and of mapped errors, and the context that a call is given
--   Acl        apcore's ACL::try_new and the printers of messages
--   Auth       jsonwebtoken, which refuses a token without a required exp, nbf, aud, iss or sub, the
--              printer of JSON values and the service behind the layer
--   Middleware apcore's RetryConfig with its default and its reader
--   Tasks      apcore's task manager with the executor behind it, registry and redactor
--   Annotations, OpenAi, Factory, Listener
--              apcore's registry, annotations and readers, the regex engine, the printer of numbers and
--              the formatter of apcore-toolkit
-- A double is its text and whether it is zero.
--
-- Bounds and fuel. inline_refs recurs on the levels that are left, 33 minus the source's depth, so
-- that its error at level zero is the source's own error beyond MAX_REF_DEPTH = 32; deep_merge has
-- 32 minus the depth for its levels and merges flat at level zero, as the source does. The scan
-- for numbers (Structured) has as much fuel as its text has characters, and the walk over a schema's
-- references as its schema has values, which is proved to be enough; no other fuel is added. All other loops recur on a list, on a text, on a schema or
-- on a count.
--
-- Not modelled: the loop over the standard streams, the routes and metrics (the rest of
-- src/server/transport.rs, src/stdio.rs) and the start and stop of the servers (the rest of
-- src/server/server.rs), the contexts that the router makes (the rest of src/server/router.rs), the
-- initialization options (the rest of src/server/factory.rs), the command line (src/cli.rs) and the
-- entry points that serve (the rest of src/apcore_mcp.rs); the explorer (src/explorer) and what
-- mostly calls other crates (src/markdown.rs, the rest of src/config.rs, src/openapi_backend.rs).
-- Log lines are left out everywhere, and so are descriptions of tools that are only data.
pub mod Prelude
pub mod Json
pub mod Adapters
pub mod ModuleId
pub mod ApprovalStore
pub mod Approval
pub mod Errors
pub mod Schema
pub mod Session
pub mod Acl
pub mod Auth
pub mod Tasks
pub mod Cancellation
pub mod Middleware
pub mod Wire
pub mod Rpc
pub mod Transport
pub mod Router
pub mod OpenAi
pub mod Annotations
pub mod Factory
pub mod Listener
pub mod Structured
pub mod Builder
