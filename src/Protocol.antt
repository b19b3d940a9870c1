-- ===== src/Protocol.antt =====
-- Bot/MCP/PlayerbotVerificationProtocol.h and .cpp: the wire protocol of the bridge.
pub mod Types
pub mod Errors
pub mod Frame
pub mod Paging
pub mod Json
pub mod Print
pub mod Auth
pub mod GmPolicy
pub mod Requests
pub mod Responses
