-- ===== src/Recovery/Rejected.antt =====
-- `BuildRejectedRecoveryAudit` of src/Bot/MCP/PlayerbotVerificationProtocol.cpp: the audit record of a
-- recovery request that the parser refuses, as far as its fields can be read.
use mod_playerbots_mcp.Base.{
  ℕ, ◌%◌, ◌^◌, Bool, false, ◌&&◌, not, Option, none, some, Bytes, bytes, if◌then◌else◌, str_eq,
  contains,
}
use mod_playerbots_mcp.Protocol.Json.Objects.{Fields, parse_lenient}
use mod_playerbots_mcp.Protocol.Requests.Fields.{unsigned_field, string_field, is_valid_guid}
use mod_playerbots_mcp.Protocol.Types.{ErrorCode}
use mod_playerbots_mcp.Recovery.Types.{
  RecoveryDestination, RecoveryOutcome, RecoveryReason, RecoveryAuditRecord, new_record,
}

-- The `switch` on the error.
unfoldable pub rejection : ErrorCode → RecoveryOutcome × RecoveryReason
rejection ErrorCode.authentication_failed =
    (RecoveryOutcome.unauthorized, RecoveryReason.authentication_failed)
rejection ErrorCode.unsupported_destination =
    (RecoveryOutcome.unsupported_destination, RecoveryReason.destination_not_homebind)
rejection ErrorCode.invalid_guid = (RecoveryOutcome.invalid_request, RecoveryReason.invalid_guid)
rejection ErrorCode.unsupported_schema_version =
    (RecoveryOutcome.invalid_request, RecoveryReason.unsupported_schema)
rejection ErrorCode.unknown_operation =
    (RecoveryOutcome.invalid_request, RecoveryReason.unknown_operation)
rejection ErrorCode.bot_not_found =
    (RecoveryOutcome.bot_not_found, RecoveryReason.character_not_found)
rejection ErrorCode.bot_unavailable =
    (RecoveryOutcome.bot_not_available, RecoveryReason.character_offline)
rejection ErrorCode.not_managed_playerbot =
    (RecoveryOutcome.not_managed_playerbot, RecoveryReason.playerbot_ai_missing)
rejection ErrorCode.operation_unavailable =
    (RecoveryOutcome.recovery_failed, RecoveryReason.operation_unavailable)
rejection ErrorCode.queue_full = (RecoveryOutcome.recovery_failed, RecoveryReason.queue_full)
rejection ErrorCode.shutdown = (RecoveryOutcome.recovery_failed, RecoveryReason.shutting_down)
rejection ErrorCode.response_too_large =
    (RecoveryOutcome.recovery_failed, RecoveryReason.response_too_large)
rejection ErrorCode.timeout =
    (RecoveryOutcome.recovery_timed_out, RecoveryReason.queue_timeout_before_claim)
rejection ErrorCode.recovery_failed =
    (RecoveryOutcome.recovery_failed, RecoveryReason.internal_error)
rejection ErrorCode.internal_error =
    (RecoveryOutcome.recovery_failed, RecoveryReason.internal_error)
rejection _ = (RecoveryOutcome.invalid_request, RecoveryReason.malformed_request)

-- A field that was given once.
abbrev pub once {ℓ} : {A : Type ℓ} → Fields → Bytes → Option A → Option A
once f name value = if contains name f.duplicates then none else value

audited_guid : Option ℕ → Option ℕ
audited_guid none = none
audited_guid (some g) = if is_valid_guid g then some (g % 2 ^ 32) else none

audited_destination : Option Bytes → RecoveryDestination
audited_destination none = RecoveryDestination.missing
audited_destination (some d) =
    if str_eq d (bytes "homebind")
    then RecoveryDestination.homebind
    else RecoveryDestination.unsupported

-- Is this a recovery request, named as one once?
unfoldable pub is_recover : Fields → Bool
is_recover f = elim (string_field f.fields (bytes "operation")) [
  | none ↦ false
  | some name ↦ str_eq name (bytes "recover") && not (contains (bytes "operation") f.duplicates)
]

unfoldable pub rejected_record : Fields → ErrorCode → ℕ → RecoveryAuditRecord
unfolding audited_guid audited_destination
rejected_record f error timestamp_ms = record new_record {
  timestamp_ms = timestamp_ms;
  request_id = once f (bytes "requestId") (unsigned_field f.fields (bytes "requestId"));
  bot_guid = once f (bytes "botGuid") (audited_guid (unsigned_field f.fields (bytes "botGuid")));
  destination =
      audited_destination
        (once f (bytes "destination") (string_field f.fields (bytes "destination")));
  outcome = (rejection error).0;
  reason = (rejection error).1;
}

unfoldable pub build_rejected_recovery_audit : Bytes → ErrorCode → ℕ → Option RecoveryAuditRecord
build_rejected_recovery_audit payload error timestamp_ms = elim (parse_lenient payload) [
  | none ↦ none
  | some f ↦ if is_recover f then some (rejected_record f error timestamp_ms) else none
]
