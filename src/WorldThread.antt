-- ===== src/WorldThread.antt =====
-- What src/Bot/MCP/PlayerbotVerificationOperation.cpp does on the world thread: one handler to an
-- operation, over the server core. The core is not of this repository, so it is a parameter: a world
-- of any type, what the handlers read in it, and their calls that change it. A pointer to a player is
-- a number, and a float is its bit pattern.
pub mod Core
pub mod Text
pub mod Names
pub mod Status
pub mod Listing
pub mod Anomalies
pub mod Inspect
pub mod Command
pub mod Skills
pub mod GameObjects
pub mod Leases
pub mod Console
pub mod Recovery
pub mod Execute
pub mod Rules
pub mod Unchanged
pub mod Audited
pub mod Served
pub mod Json
