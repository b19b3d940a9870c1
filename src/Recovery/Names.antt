-- ===== src/Recovery/Names.antt =====
-- The names that the audit log spells, `RecoveryDestinationName` and the others of
-- src/Bot/MCP/PlayerbotVerificationProtocol.cpp.
use mod_playerbots_mcp.Base.{Bytes, bytes}
use mod_playerbots_mcp.Recovery.Types.{
  RecoveryDestination, RecoveryOutcome, RecoveryReason, RecoveryMutationState,
  RecoveryPersistenceState,
}

unfoldable pub recovery_destination_name : RecoveryDestination → Bytes
recovery_destination_name RecoveryDestination.missing = bytes "missing"
recovery_destination_name RecoveryDestination.homebind = bytes "homebind"
recovery_destination_name RecoveryDestination.unsupported = bytes "unsupported"

unfoldable pub recovery_outcome_name : RecoveryOutcome → Bytes
recovery_outcome_name RecoveryOutcome.recovered = bytes "recovered"
recovery_outcome_name RecoveryOutcome.already_at_homebind = bytes "already_at_homebind"
recovery_outcome_name RecoveryOutcome.invalid_request = bytes "invalid_request"
recovery_outcome_name RecoveryOutcome.unauthorized = bytes "unauthorized"
recovery_outcome_name RecoveryOutcome.bot_not_found = bytes "bot_not_found"
recovery_outcome_name RecoveryOutcome.bot_not_available = bytes "bot_not_available"
recovery_outcome_name RecoveryOutcome.not_managed_playerbot = bytes "not_managed_playerbot"
recovery_outcome_name RecoveryOutcome.unsupported_destination = bytes "unsupported_destination"
recovery_outcome_name RecoveryOutcome.recovery_failed = bytes "recovery_failed"
recovery_outcome_name RecoveryOutcome.recovery_timed_out = bytes "recovery_timed_out"

unfoldable pub recovery_reason_name : RecoveryReason → Bytes
recovery_reason_name RecoveryReason.homebind_teleport_accepted = bytes "homebind_teleport_accepted"
recovery_reason_name RecoveryReason.current_homebind = bytes "current_homebind"
recovery_reason_name RecoveryReason.pending_homebind = bytes "pending_homebind"
recovery_reason_name RecoveryReason.malformed_request = bytes "malformed_request"
recovery_reason_name RecoveryReason.invalid_guid = bytes "invalid_guid"
recovery_reason_name RecoveryReason.unsupported_schema = bytes "unsupported_schema"
recovery_reason_name RecoveryReason.unknown_operation = bytes "unknown_operation"
recovery_reason_name RecoveryReason.invalid_tool_input = bytes "invalid_tool_input"
recovery_reason_name RecoveryReason.authentication_failed = bytes "authentication_failed"
recovery_reason_name RecoveryReason.character_not_found = bytes "character_not_found"
recovery_reason_name RecoveryReason.character_offline = bytes "character_offline"
recovery_reason_name RecoveryReason.character_not_in_world = bytes "character_not_in_world"
recovery_reason_name RecoveryReason.dead = bytes "dead"
recovery_reason_name RecoveryReason.in_combat = bytes "in_combat"
recovery_reason_name RecoveryReason.rooted = bytes "rooted"
recovery_reason_name RecoveryReason.in_flight = bytes "in_flight"
recovery_reason_name RecoveryReason.battleground_queue = bytes "battleground_queue"
recovery_reason_name RecoveryReason.battleground = bytes "battleground"
recovery_reason_name RecoveryReason.arena = bytes "arena"
recovery_reason_name RecoveryReason.on_transport = bytes "on_transport"
recovery_reason_name RecoveryReason.teleport_in_progress = bytes "teleport_in_progress"
recovery_reason_name RecoveryReason.playerbot_ai_missing = bytes "playerbot_ai_missing"
recovery_reason_name RecoveryReason.destination_not_homebind = bytes "destination_not_homebind"
recovery_reason_name RecoveryReason.invalid_homebind = bytes "invalid_homebind"
recovery_reason_name RecoveryReason.teleport_rejected = bytes "teleport_rejected"
recovery_reason_name RecoveryReason.operation_unavailable = bytes "operation_unavailable"
recovery_reason_name RecoveryReason.queue_full = bytes "queue_full"
recovery_reason_name RecoveryReason.shutting_down = bytes "shutting_down"
recovery_reason_name RecoveryReason.internal_error = bytes "internal_error"
recovery_reason_name RecoveryReason.response_too_large = bytes "response_too_large"
recovery_reason_name RecoveryReason.adapter_configuration = bytes "adapter_configuration"
recovery_reason_name RecoveryReason.server_unreachable = bytes "server_unreachable"
recovery_reason_name RecoveryReason.protocol_mismatch = bytes "protocol_mismatch"
recovery_reason_name RecoveryReason.invalid_server_response = bytes "invalid_server_response"
recovery_reason_name RecoveryReason.queue_timeout_before_claim = bytes "queue_timeout_before_claim"
recovery_reason_name RecoveryReason.execution_timeout_after_claim =
    bytes "execution_timeout_after_claim"
recovery_reason_name RecoveryReason.client_lock_timeout = bytes "client_lock_timeout"
recovery_reason_name RecoveryReason.socket_timeout = bytes "socket_timeout"
recovery_reason_name RecoveryReason.response_timeout = bytes "response_timeout"

unfoldable pub recovery_mutation_state_name : RecoveryMutationState → Bytes
recovery_mutation_state_name RecoveryMutationState.not_started = bytes "not_started"
recovery_mutation_state_name RecoveryMutationState.completed = bytes "completed"
recovery_mutation_state_name RecoveryMutationState.unknown_after_execution_started =
    bytes "unknown_after_execution_started"

unfoldable pub recovery_persistence_state_name : RecoveryPersistenceState → Bytes
recovery_persistence_state_name RecoveryPersistenceState.not_requested = bytes "not_requested"
recovery_persistence_state_name RecoveryPersistenceState.deferred = bytes "deferred"
