-- ===== src/Protocol/Json.antt =====
-- `FlatJsonParser` of src/Bot/MCP/PlayerbotVerificationProtocol.cpp. The input from `position` on is
-- the argument of each routine, and what is left of it the second part of its result.
pub mod Text
pub mod Numbers
pub mod Nested
pub mod Objects
pub mod Trees
pub mod Shrinks
pub mod Fuel
