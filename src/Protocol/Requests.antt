-- ===== src/Protocol/Requests.antt =====
-- The request parser of src/Bot/MCP/PlayerbotVerificationProtocol.cpp: from the fields of a flat
-- object to a typed request, or the error that the client is told.
pub mod Outcome
pub mod Fields
pub mod Rules
pub mod Check
pub mod Operations
pub mod Payload
