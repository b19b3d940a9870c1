-- ===== src/Protocol/Errors.antt =====
-- `ErrorCodeName` and `MakeError` of src/Bot/MCP/PlayerbotVerificationProtocol.cpp: the wire name
-- and the message of each error code.
use mod_playerbots_mcp.Base.{[], Bytes, bytes}
use mod_playerbots_mcp.Protocol.Types.{ErrorCode, ProtocolError}

unfoldable pub error_message : ErrorCode → Bytes
error_message ErrorCode.malformed_frame = bytes "The frame is malformed."
error_message ErrorCode.frame_too_large = bytes "The frame exceeds the 64 KiB limit."
error_message ErrorCode.malformed_request = bytes "The request schema is malformed."
error_message ErrorCode.authentication_failed = bytes "Authentication failed."
error_message ErrorCode.unsupported_schema_version = bytes "The schema version is unsupported."
error_message ErrorCode.unknown_operation = bytes "The operation is unknown."
error_message ErrorCode.invalid_guid = bytes "A player GUID is invalid."
error_message ErrorCode.invalid_limit = bytes "The list limit must be from 1 through 100."
error_message ErrorCode.invalid_command = bytes "The command is invalid."
error_message ErrorCode.command_refused =
    bytes
      "The command is refused: process lifecycle and account administration are outside this bridge. Run it at the worldserver console instead."
error_message ErrorCode.invalid_condition = bytes "The check condition is invalid."
error_message ErrorCode.unsupported_destination = bytes "The recovery destination is unsupported."
error_message ErrorCode.response_too_large = bytes "The response exceeds the aggregate budget."
error_message ErrorCode.operation_unavailable = bytes "The operation is unavailable."
error_message ErrorCode.queue_full = bytes "The world operation queue is full."
error_message ErrorCode.timeout = bytes "The world operation timed out."
error_message ErrorCode.shutdown = bytes "The verification server is shutting down."
error_message ErrorCode.bot_not_found = bytes "The bot is not available."
error_message ErrorCode.bot_unavailable = bytes "The bot cannot be recovered in its current state."
error_message ErrorCode.not_managed_playerbot = bytes "The player is not a managed Playerbot."
error_message ErrorCode.recovery_failed = bytes "The recovery operation failed."
error_message ErrorCode.master_not_found = bytes "The master is not available."
error_message ErrorCode.master_is_bot = bytes "The master must be a real player."
error_message ErrorCode.invalid_relationship = bytes "The master relationship is invalid."
error_message ErrorCode.invalid_skill = bytes "The skill value or maximum is invalid."
error_message ErrorCode.game_object_not_found =
    bytes "No spawned gameobject with that entry exists on the bot's map."
error_message ErrorCode.not_random_bot = bytes "The player is not an online random bot."
error_message ErrorCode.invalid_activity_lease =
    bytes "The activity lease is malformed or outside its bounds."
error_message ErrorCode.activity_lease_conflict =
    bytes "Another owner holds the bot's active activity lease."
error_message ErrorCode.internal_error = bytes "The operation failed internally."
error_message ErrorCode.no_error = []

-- `MakeError`; the code is the one given, on every branch.
unfoldable pub make_error : ErrorCode → ProtocolError
make_error code = record { code = code; message = error_message code }

unfoldable pub error_code_name : ErrorCode → Bytes
error_code_name ErrorCode.no_error = bytes "none"
error_code_name ErrorCode.malformed_frame = bytes "malformed_frame"
error_code_name ErrorCode.frame_too_large = bytes "frame_too_large"
error_code_name ErrorCode.malformed_request = bytes "malformed_request"
error_code_name ErrorCode.authentication_failed = bytes "authentication_failed"
error_code_name ErrorCode.unsupported_schema_version = bytes "unsupported_schema_version"
error_code_name ErrorCode.unknown_operation = bytes "unknown_operation"
error_code_name ErrorCode.invalid_guid = bytes "invalid_guid"
error_code_name ErrorCode.invalid_limit = bytes "invalid_limit"
error_code_name ErrorCode.invalid_command = bytes "invalid_command"
error_code_name ErrorCode.command_refused = bytes "command_refused"
error_code_name ErrorCode.invalid_condition = bytes "invalid_condition"
error_code_name ErrorCode.unsupported_destination = bytes "unsupported_destination"
error_code_name ErrorCode.response_too_large = bytes "response_too_large"
error_code_name ErrorCode.operation_unavailable = bytes "operation_unavailable"
error_code_name ErrorCode.queue_full = bytes "queue_full"
error_code_name ErrorCode.timeout = bytes "timeout"
error_code_name ErrorCode.shutdown = bytes "shutdown"
error_code_name ErrorCode.bot_not_found = bytes "bot_not_found"
error_code_name ErrorCode.bot_unavailable = bytes "bot_unavailable"
error_code_name ErrorCode.not_managed_playerbot = bytes "not_managed_playerbot"
error_code_name ErrorCode.recovery_failed = bytes "recovery_failed"
error_code_name ErrorCode.master_not_found = bytes "master_not_found"
error_code_name ErrorCode.master_is_bot = bytes "master_is_bot"
error_code_name ErrorCode.invalid_relationship = bytes "invalid_relationship"
error_code_name ErrorCode.invalid_skill = bytes "invalid_skill"
error_code_name ErrorCode.game_object_not_found = bytes "gameobject_not_found"
error_code_name ErrorCode.not_random_bot = bytes "not_random_bot"
error_code_name ErrorCode.invalid_activity_lease = bytes "invalid_activity_lease"
error_code_name ErrorCode.activity_lease_conflict = bytes "activity_lease_conflict"
error_code_name ErrorCode.internal_error = bytes "internal_error"
