-- ===== src/Tests.antt =====
-- Runs of the definitions on concrete input, and the theorems applied to them.
mod Codec
mod Loops
mod Recoveries
mod Checks
mod Startup
mod Worlds
mod Handlers
mod Readable
mod Payloads
mod Connections
mod Handovers
