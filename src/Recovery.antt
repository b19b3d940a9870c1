-- ===== src/Recovery.antt =====
-- The recovery audit of src/Bot/MCP/PlayerbotVerificationProtocol.cpp: what is logged of each attempt
-- to bring a bot home, and the record of the attempt itself.
pub mod Types
pub mod Names
pub mod Rejected
pub mod Serialize
pub mod Recover
pub mod Positions
pub mod Json
