-- ===== src/Recovery/Recover.antt =====
-- `BuildRecoverResponse` of src/Bot/MCP/PlayerbotVerificationOperation.cpp: the record of a recovery that
-- the world thread carries out. What the server core says of the bot is given, and so is how
-- positions are compared. `RecoveryResponse` of the record is modelled in Handoff.
pub mod Truth
use mod_playerbots_mcp.Base.{ℕ, Bool, true, false, Option, none, some, Bytes, if◌then◌else◌}
use mod_playerbots_mcp.Recovery.Types.{
  RecoveryPosition, RecoveryAuditRecord, RecoveryOutcome, RecoveryReason, RecoveryMutationState,
  RecoveryPersistenceState,
}

-- `PlayerbotHomebindRecoveryResult`, by the cases of the `switch`.
pub data HomebindResult : Type 0 where
  recovered already_at_current_homebind already_pending_homebind not_in_world dead : HomebindResult
  in_combat rooted in_flight battleground_queue battleground arena : HomebindResult
  on_transport teleport_in_progress invalid_homebind teleport_rejected : HomebindResult

-- A bot that is connected.
pub record Bot : Type 0 where
  pub name : Bytes
  pub is_in_world : Bool
  pub position : RecoveryPosition
  pub is_managed : Bool
  -- What `PlayerbotRecoverToHomebind` returns, and where the bot is then.
  pub result : HomebindResult
  pub position_after : RecoveryPosition
  pub homebind : RecoveryPosition
  pub teleport_destination : RecoveryPosition

-- The record, and whether the bot is saved.
abbrev pub Recovery : Type 0
Recovery = RecoveryAuditRecord × Bool

abbrev pub refuse : RecoveryOutcome → RecoveryReason → RecoveryAuditRecord → Recovery
refuse outcome reason r = (record r { outcome = outcome; reason = reason }, false)

module _ (positions_match : RecoveryPosition → RecoveryPosition → Bool) where
  -- The `switch` on the result.
  unfoldable pub after_recovery : Bot → RecoveryAuditRecord → HomebindResult → Recovery
  after_recovery bot r HomebindResult.recovered = (
    record r {
      accepted_destination = some bot.homebind;
      observed_at_destination = positions_match bot.position_after bot.homebind;
      movement_reset = true;
      travel_reset = true;
      taxi_reset = true;
      outcome = RecoveryOutcome.recovered;
      reason = RecoveryReason.homebind_teleport_accepted;
      mutation_state = RecoveryMutationState.completed;
      persistence_state = RecoveryPersistenceState.deferred;
    },
    true,
  )
  after_recovery bot r HomebindResult.already_at_current_homebind = (
    record r {
      observed_at_destination = true;
      outcome = RecoveryOutcome.already_at_homebind;
      reason = RecoveryReason.current_homebind;
    },
    false,
  )
  after_recovery bot r HomebindResult.already_pending_homebind = (
    record r {
      accepted_destination = some bot.teleport_destination;
      observed_at_destination = positions_match bot.position_after bot.teleport_destination;
      outcome = RecoveryOutcome.already_at_homebind;
      reason = RecoveryReason.pending_homebind;
    },
    false,
  )
  after_recovery bot r HomebindResult.not_in_world =
      refuse RecoveryOutcome.bot_not_available RecoveryReason.character_not_in_world r
  after_recovery bot r HomebindResult.dead =
      refuse RecoveryOutcome.bot_not_available RecoveryReason.dead r
  after_recovery bot r HomebindResult.in_combat =
      refuse RecoveryOutcome.bot_not_available RecoveryReason.in_combat r
  after_recovery bot r HomebindResult.rooted =
      refuse RecoveryOutcome.bot_not_available RecoveryReason.rooted r
  after_recovery bot r HomebindResult.in_flight =
      refuse RecoveryOutcome.bot_not_available RecoveryReason.in_flight r
  after_recovery bot r HomebindResult.battleground_queue =
      refuse RecoveryOutcome.bot_not_available RecoveryReason.battleground_queue r
  after_recovery bot r HomebindResult.battleground =
      refuse RecoveryOutcome.bot_not_available RecoveryReason.battleground r
  after_recovery bot r HomebindResult.arena =
      refuse RecoveryOutcome.bot_not_available RecoveryReason.arena r
  after_recovery bot r HomebindResult.on_transport =
      refuse RecoveryOutcome.bot_not_available RecoveryReason.on_transport r
  after_recovery bot r HomebindResult.teleport_in_progress =
      refuse RecoveryOutcome.bot_not_available RecoveryReason.teleport_in_progress r
  after_recovery bot r HomebindResult.invalid_homebind =
      refuse RecoveryOutcome.recovery_failed RecoveryReason.invalid_homebind r
  after_recovery bot r HomebindResult.teleport_rejected = (
    record r {
      movement_reset = true;
      travel_reset = true;
      taxi_reset = true;
      outcome = RecoveryOutcome.recovery_failed;
      reason = RecoveryReason.teleport_rejected;
      mutation_state = RecoveryMutationState.completed;
    },
    false,
  )

  -- A bot that is connected.
  unfoldable pub recover_bot : Bot → RecoveryAuditRecord → Recovery
  recover_bot bot r =
      let named = record r { bot_name = some bot.name } in
      let placed = record named {
        before_position = some bot.position;
        observed_position = some bot.position;
      } in
      if bot.is_in_world
      then (if bot.is_managed
          then after_recovery bot (record placed { observed_position = some bot.position_after })
              bot.result
          else refuse RecoveryOutcome.not_managed_playerbot RecoveryReason.playerbot_ai_missing
              placed)
      else refuse RecoveryOutcome.bot_not_available RecoveryReason.character_not_in_world named

  -- `BuildRecoverResponse` on a new record: the bot, if it is connected, and whether the character is
  -- known.
  unfoldable pub build_recover_record : Option Bot → Bool → RecoveryAuditRecord → Recovery
  build_recover_record bot cached r = elim bot [
    | some b ↦ recover_bot b r
    | none ↦
        if cached
        then refuse RecoveryOutcome.bot_not_available RecoveryReason.character_offline r
        else refuse RecoveryOutcome.bot_not_found RecoveryReason.character_not_found r
  ]
