-- ===== src/Recovery/Json.antt =====
-- `SerializeRecoveryAuditRecord` of src/Bot/MCP/PlayerbotVerificationProtocol.cpp as JSON.
pub mod Plain
pub mod Members
pub mod Pieces
pub mod Text
pub mod Sane
