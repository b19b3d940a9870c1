-- ===== src/Recovery/Types.antt =====
-- The recovery audit types of src/Bot/MCP/PlayerbotVerificationProtocol.h. A float is given by its bit
-- pattern, a number; how it is printed and compared is a parameter where that is needed.
use mod_playerbots_mcp.Base.{ℕ, Bool, false, Option, none, Bytes}

pub data RecoveryDestination : Type 0 where
  missing homebind unsupported : RecoveryDestination

pub data RecoveryOutcome : Type 0 where
  recovered already_at_homebind invalid_request unauthorized bot_not_found : RecoveryOutcome
  bot_not_available not_managed_playerbot unsupported_destination : RecoveryOutcome
  recovery_failed recovery_timed_out : RecoveryOutcome

pub data RecoveryReason : Type 0 where
  homebind_teleport_accepted current_homebind pending_homebind : RecoveryReason
  malformed_request invalid_guid unsupported_schema unknown_operation : RecoveryReason
  invalid_tool_input authentication_failed character_not_found : RecoveryReason
  character_offline character_not_in_world dead in_combat rooted in_flight : RecoveryReason
  battleground_queue battleground arena on_transport teleport_in_progress : RecoveryReason
  playerbot_ai_missing destination_not_homebind invalid_homebind : RecoveryReason
  teleport_rejected operation_unavailable queue_full shutting_down : RecoveryReason
  internal_error response_too_large adapter_configuration server_unreachable : RecoveryReason
  protocol_mismatch invalid_server_response queue_timeout_before_claim : RecoveryReason
  execution_timeout_after_claim client_lock_timeout socket_timeout : RecoveryReason
  response_timeout : RecoveryReason

pub data RecoveryMutationState : Type 0 where
  not_started completed unknown_after_execution_started : RecoveryMutationState

pub data RecoveryPersistenceState : Type 0 where
  not_requested deferred : RecoveryPersistenceState

pub record RecoveryPosition : Type 0 where
  pub map_id : ℕ
  pub zone_id : ℕ
  pub area_id : ℕ
  pub x : ℕ
  pub y : ℕ
  pub z : ℕ
  pub orientation : ℕ

pub record RecoveryAuditRecord : Type 0 where
  pub timestamp_ms : ℕ
  pub request_id : Option ℕ
  pub bot_guid : Option ℕ
  pub bot_name : Option Bytes
  pub destination : RecoveryDestination
  pub before_position : Option RecoveryPosition
  pub accepted_destination : Option RecoveryPosition
  pub observed_position : Option RecoveryPosition
  pub observed_at_destination : Bool
  pub movement_reset : Bool
  pub travel_reset : Bool
  pub taxi_reset : Bool
  pub outcome : RecoveryOutcome
  pub reason : RecoveryReason
  pub mutation_state : RecoveryMutationState
  pub persistence_state : RecoveryPersistenceState

-- A default-initialised record.
abbrev pub new_record : RecoveryAuditRecord
new_record = record {
  timestamp_ms = 0;
  request_id = none;
  bot_guid = none;
  bot_name = none;
  destination = missing;
  before_position = none;
  accepted_destination = none;
  observed_position = none;
  observed_at_destination = false;
  movement_reset = false;
  travel_reset = false;
  taxi_reset = false;
  outcome = invalid_request;
  reason = malformed_request;
  mutation_state = not_started;
  persistence_state = not_requested;
}
