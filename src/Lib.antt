-- ===== src/Lib.antt =====
-- The plugin that connects a proxy for language models to the CommandCode gateway (go/). A turn comes
-- in as an OpenAI chat request. The plugin resolves its model in a catalog, reserves the conversation
-- in a session store, converts the request into the gateway's envelope, and folds the gateway's NDJSON
-- events into an OpenAI answer, as a stream of frames or as a whole.
--
-- Which file is about which code:
-- - Base: what the parts share. Texts are sequences of characters and measured in bytes of UTF-8; the
--   functions of Go's `strings` that the program uses are written out in Base/Texts, a Go map is
--   Base/Maps, a result or an error Base/Results. Case folding is that of ASCII letters.
-- - Session: go/session.go, `sessionStore`. `acquire` and `release` are the operations that hold the
--   lock; a list element is an entry with a handle, the clock and new identifiers are arguments.
--   Interleaved turns are sequences of these operations (Session/Traces).
-- - Identity: go/session.go, `explicitSessionKey`: which conversation a request names, by its headers,
--   metadata and body. An object is the list of its members, duplicates kept; Identity/Agreed compares
--   the code with the evidence that Identity/Claims gathers.
-- - Config: go/config.go. `decode_config` reads a document and `validate_config` checks the result,
--   `update` is the store's operation; Config/Sources has the precedence of keys and addresses.
-- - Lifecycle: go/plugin.go and go/abi_runtime.go, the tasks of an instance and the one active
--   instance. A step is what one holder of a lock does (Lifecycle/Steps); a shutdown is three steps, with
--   the wait for the tasks between the first two.
-- - Normalize: go/normalize.go, the two hooks on responses, and `countTokens` of go/executor.go.
-- - Gateway: go/gateway_client.go, `Open`: the request, its headers and its errors.
-- - Executor: go/executor.go and go/stream.go. `prepare_turn` is `prepareTurn`, Executor/Run has both
--   executions and the relay of a stream. The session store is passed from call to call, and a deferred
--   release runs where the Go function returns.
-- - Plugin: go/plugin.go, `Configure` and `snapshot`, over the configuration and the registry.
-- - Dispatch: go/dispatch.go, `routeModel`.
-- - Abi: go/main.go, `hostCall` and `cliproxyPluginCall`.
-- - Models: go/models.go. `new_snapshot` builds the two indexes, `parse_model_name`, `match`, `allowed`,
--   `definition` and `registered` read them; Models/Effort is `reasoningEffort`, Models/Budget is
--   `maxTokens` of go/request.go, Models/Roster is `parseModelsFile` of go/models_remote.go.
-- - Registry: go/models_remote.go, `ModelRegistry`. `Refresh` takes its lock twice, so it is two
--   operations, `begin_refresh` and `complete_refresh`, and what lies between them is a download under
--   way; histories of configuration, begun and completed refreshes are sequences of events
--   (Registry/Flight). Registry/Fetch is `fetch`, with `readBounded` of go/gateway_client.go.
-- - Wire: values of decoded JSON, the events, and what the program needs of `encoding/json`.
-- - Response: go/response.go. `apply_event` folds one event into the answer, the sink of frames and the
--   counters of turns; Response/Chunks is `toOpenAIChunks`, Response/Whole `toOpenAIResponse`.
-- - Decoder: go/event_decoder.go. `push` takes a line, `finish` the end of the input, and
--   Decoder/Consume is the loop of `Consume` over the lines of an input.
-- - Request: go/request.go. Request/Content reads message contents, Request/Convert is
--   `toWireMessages`, Request/Tools is `toWireTools` and `normalizeSchema`, and Request/Envelope is
--   `buildEnvelopeForSession`.
--
-- Every loop is a recursion on the list, text or value that it runs over, so nothing runs on fuel.
-- Counters, byte totals and token counts do not wrap at 64 bits; the limits that the program sets are
-- far below. JSON decoding and encoding, YAML, HTTP, the clock, random identifiers and the scanner of
-- lines are parameters or arguments. Not modelled: the exports and the memory of the C interface
-- (go/main.go), the table of methods (go/dispatch.go) that calls the operations above, the compiled
-- catalog, and the build tools.
pub mod Abi
pub mod Base
pub mod Config
pub mod Decoder
pub mod Dispatch
pub mod Executor
pub mod Gateway
pub mod Identity
pub mod Lifecycle
pub mod Models
pub mod Normalize
pub mod Plugin
pub mod Registry
pub mod Request
pub mod Response
pub mod Session
pub mod Wire
