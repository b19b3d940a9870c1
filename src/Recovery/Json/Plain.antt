-- ===== src/Recovery/Json/Plain.antt =====
-- The names of the audit log need no escape.
use mod_playerbots_mcp.Base.{◌≡◌, refl, true}
use mod_playerbots_mcp.Protocol.Print.Plain.{is_plain}
use mod_playerbots_mcp.Recovery.Names.{
  recovery_destination_name, recovery_outcome_name, recovery_reason_name,
  recovery_mutation_state_name, recovery_persistence_state_name,
}
use mod_playerbots_mcp.Recovery.Types.{
  RecoveryDestination, RecoveryOutcome, RecoveryReason, RecoveryMutationState,
  RecoveryPersistenceState,
}

pub destination-plain : (x : RecoveryDestination) → is_plain (recovery_destination_name x) ≡ true
unfolding recovery_destination_name
destination-plain RecoveryDestination.missing = refl
destination-plain _ = refl

pub outcome-plain : (x : RecoveryOutcome) → is_plain (recovery_outcome_name x) ≡ true
unfolding recovery_outcome_name
outcome-plain RecoveryOutcome.recovered = refl
outcome-plain _ = refl

pub reason-plain : (x : RecoveryReason) → is_plain (recovery_reason_name x) ≡ true
unfolding recovery_reason_name
reason-plain RecoveryReason.dead = refl
reason-plain _ = refl

pub mutation-plain : (x : RecoveryMutationState) → is_plain (recovery_mutation_state_name x) ≡ true
unfolding recovery_mutation_state_name
mutation-plain RecoveryMutationState.completed = refl
mutation-plain _ = refl

pub persistence-plain :
    (x : RecoveryPersistenceState) → is_plain (recovery_persistence_state_name x) ≡ true
unfolding recovery_persistence_state_name
persistence-plain RecoveryPersistenceState.deferred = refl
persistence-plain _ = refl
