-- ===== src/WorldThread/Names.antt =====
-- The names of src/Bot/MCP/PlayerbotVerificationOperation.cpp for states, loops and leases.
use mod_playerbots_mcp.Base.{Bytes, bytes}
use mod_playerbots_mcp.WorldThread.Core.{
  BotState, LoopClassifier, LoopObjectiveKind, AcquireOutcome, ReleaseOutcome,
}

-- `VerificationStateName`.
unfoldable pub verification_state_name : BotState → Bytes
verification_state_name BotState.combat = bytes "combat"
verification_state_name BotState.dead = bytes "dead"
verification_state_name BotState.non_combat = bytes "non-combat"
verification_state_name BotState.other_state = bytes "unknown"

-- `LoopClassifierName`.
unfoldable pub loop_classifier_name : LoopClassifier → Bytes
loop_classifier_name LoopClassifier.stationary_movement = bytes "stationary_movement"
loop_classifier_name LoopClassifier.movement_oscillation = bytes "movement_oscillation"
loop_classifier_name LoopClassifier.repeated_action = bytes "repeated_action"
loop_classifier_name LoopClassifier.death_relapse = bytes "death_relapse"
loop_classifier_name LoopClassifier.recovery_relapse = bytes "recovery_relapse"

-- `LoopObjectiveKindName`.
unfoldable pub loop_objective_kind_name : LoopObjectiveKind → Bytes
loop_objective_kind_name LoopObjectiveKind.no_objective = bytes "none"
loop_objective_kind_name LoopObjectiveKind.quest = bytes "quest"
loop_objective_kind_name LoopObjectiveKind.grind = bytes "grind"
loop_objective_kind_name LoopObjectiveKind.profession = bytes "profession"

-- `ActivityLeaseAcquireOutcomeName`.
unfoldable pub acquire_outcome_name : AcquireOutcome → Bytes
acquire_outcome_name AcquireOutcome.acquired = bytes "acquired"
acquire_outcome_name AcquireOutcome.renewed = bytes "renewed"
acquire_outcome_name AcquireOutcome.acquire_conflict = bytes "conflict"
acquire_outcome_name AcquireOutcome.acquire_invalid = bytes "invalid"

-- `ActivityLeaseReleaseOutcomeName`.
unfoldable pub release_outcome_name : ReleaseOutcome → Bytes
release_outcome_name ReleaseOutcome.released = bytes "released"
release_outcome_name ReleaseOutcome.already_inactive = bytes "already_inactive"
release_outcome_name ReleaseOutcome.release_conflict = bytes "conflict"
release_outcome_name ReleaseOutcome.release_invalid = bytes "invalid"
