-- ===== src/WorldThread/Recovery.antt =====
-- `BuildRecoverResponse` of src/Bot/MCP/PlayerbotVerificationOperation.cpp as a whole: the record of
-- Recovery/Recover, what becomes of the world, and `RecoveryResponse` of the record.
use mod_playerbots_mcp.Base.{ℕ, Bool, false, ◌&&◌, Option, none, some, Bytes, if◌then◌else◌}
use mod_playerbots_mcp.Handoff.{new_recovery_record}
use mod_playerbots_mcp.Protocol.Responses.{Response, success}
use mod_playerbots_mcp.Protocol.Types.{Request}
use mod_playerbots_mcp.Recovery.Recover.{Bot, Recovery, build_recover_record}
use mod_playerbots_mcp.Recovery.Positions.{bot_of, recovery_positions_match}
use mod_playerbots_mcp.Recovery.Serialize.{serialize_recovery_audit_record}
use mod_playerbots_mcp.Recovery.Types.{RecoveryAuditRecord}
use mod_playerbots_mcp.WorldThread.Core.{Core}

-- Does the handler come to `PlayerbotRecoverToHomebind`?
unfoldable pub is_recovered_bot : Option Bot → Bool
is_recovered_bot none = false
is_recovered_bot (some bot) = bot.is_in_world && bot.is_managed

module _ (core : Core) (print_float : ℕ → Bytes) where
  -- `RecoveryResponse` of a record.
  unfoldable pub record_response : RecoveryAuditRecord → Response
  record_response r = record (success (serialize_recovery_audit_record print_float r)) {
    recovery_audit = some r;
  }

  -- The bot of a GUID, if it is connected.
  unfoldable pub connected_bot : core.World → ℕ → Option Bot
  connected_bot w guid = elim (core.connected w guid) [
    | none ↦ none
    | some c ↦ some (bot_of core.area_zone c)
  ]

  unfoldable pub recovery_of : core.World → Request → Recovery
  recovery_of w request =
      build_recover_record (recovery_positions_match core.floats.fuzzy_eq)
        (connected_bot w request.bot_guid) (core.has_cache_entry w request.bot_guid)
        (new_recovery_record print_float (core.timestamp_ms w) request)

  unfoldable pub recovered_world : core.World → ℕ → Bool → Bool → core.World
  recovered_world w guid runs saves =
      let w₁ = if runs then core.recover_to_homebind w guid else w in
      if saves then core.save w₁ guid else w₁

  unfoldable pub build_recover_response : core.World → Request → core.World × Response
  build_recover_response w request =
      let (r, saves) = recovery_of w request in
      (
        recovered_world w request.bot_guid (is_recovered_bot (connected_bot w request.bot_guid))
            saves,
        record_response r,
      )
