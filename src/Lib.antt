-- ===== src/Lib.antt =====
-- The verification of mod-playerbots-mcp, the server module through which a tool inspects and steers
-- playerbots over a loopback socket.
--
-- A client sends one frame: a length and a flat JSON object with a token, a schema version, a request
-- id and an operation. The server thread reads it (`HandleConnection`), the parser authenticates and
-- checks it (`ParseRequestPayload`), and the handler hands it to the world thread and waits
-- (`DispatchVerificationRequest`). One response goes back in one frame. Recovery requests are logged
-- as audit records, also those that are refused. The two threads share one result per request, on
-- which the claim of the world thread and the abandonment of the caller exclude each other.
--
-- Which file models what:
-- - Base: lists, options, byte strings, bitwise operations on numbers, and the tests on them.
-- - Protocol/Types: src/Bot/MCP/PlayerbotVerificationProtocol.h. Unsigned integers are numbers; every
--   narrowing cast is written out as a remainder.
-- - Protocol/Errors, Protocol/Print: `MakeError`, `ErrorCodeName`, `AppendEscapedJsonString` and
--   `std::to_string` of src/Bot/MCP/PlayerbotVerificationProtocol.cpp.
-- - Protocol/Frame: `EncodeFrame` and `DecodeFrame` of the same file.
-- - Protocol/Json: `FlatJsonParser` of the same file. A position is the rest of the text, and a method
--   that fails gives none. `Parse` runs with a set for duplicate keys or without one.
-- - Protocol/Json/Trees: JSON trees with a grammar of numbers and words, independent of the source, and
--   the one way in which this module writes them. Protocol/Responses/Envelopes, Recovery/Json and WorldThread/Json see what the writers of
--   the source put together as such trees.
-- - Protocol/Auth: the digest of the token and `ConstantTimeTokenDigestEquals`.
-- - Protocol/Requests: `ParseRequestPayload`, `ParseCheck` and their helpers. An early return with an
--   error is a rejected outcome.
-- - Protocol/GmPolicy: `IsRefusedGmCommand`.
-- - Protocol/Paging: `PaginateGuids`.
-- - Protocol/Responses: `Response` and `SerializeResponse`.
-- - Recovery: the audit records, `BuildRejectedRecoveryAudit` and `SerializeRecoveryAuditRecord`, and
--   `BuildRecoverResponse` of src/Bot/MCP/PlayerbotVerificationOperation.cpp up to its record, with
--   the positions in it (Recovery/Positions).
-- - WorldThread: `ExecuteVerificationOnWorldThread` of the same file and its handlers, each with the world
--   behind it and its response. WorldThread/Core is the server core as they call it.
-- - Server: `HandleConnection` of src/Bot/MCP/PlayerbotVerificationServer.cpp. What the socket, the
--   clock and the handler do is given; the lines logged and the frames written are the result.
--   Server/Deadline is `CompleteWithDeadline`, and Server/Loop is `Run`, by rounds that are given.
-- - Handoff: `PlayerbotVerificationResult`, `Execute` and `DispatchVerificationRequest` of
--   src/Bot/MCP/PlayerbotVerificationOperation.cpp, as functions and, in Handoff/Steps, as the steps of
--   two threads, of which the world thread may execute an operation again. Each method holds the lock
--   throughout and is one step.
-- - Lifecycle: `Start`, `Stop` and the end of `Run` of src/Bot/MCP/PlayerbotVerificationServer.cpp, on
--   the flags, the acceptor and the digest.
-- - Scripts: the hooks of src/PlayerbotsMCPScripts.cpp and `ReloadPlayerbotMCPConfig`.
-- - Settings: `LoadPlayerbotMCPSettings` of src/Bot/MCP/PlayerbotMCPConfig.h.
-- - Conditions: `EvaluateVerificationCondition` of src/Bot/MCP/PlayerbotVerificationOperation.cpp.
-- - Tests: runs on concrete input.
--
-- Bounds. The loops of the parser that do not consume their text structurally run on fuel, one more
-- than the length of the text, and for nested values two more than twice that length: each round
-- consumes at least one byte (Protocol/Json/Shrinks), so they do not run out (Protocol/Json/Fuel).
-- Nested values are skipped to the depth of 32 that the source allows.
--
-- Parameters. SHA-256 (`digest`), printing of a float (`print_float`), the handler, the socket, the
-- clock and whether a port can be bound are given to the definitions that use them. So is the server core
-- (WorldThread/Core): a world of any type, what the handlers read in it, and their calls that change it.
--
-- Not modelled: the server core behind the handlers; the sockets themselves, which belong to a library,
-- with `AbortNetwork`, which closes them; the clocks; the loader
-- of the module; the sidecar, which is a Python program.
pub mod Base
pub mod Conditions
pub mod Handoff
pub mod Lifecycle
pub mod Protocol
pub mod Recovery
pub mod Scripts
pub mod Server
pub mod Settings
pub mod Tests
pub mod WorldThread
