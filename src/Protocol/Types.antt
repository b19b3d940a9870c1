-- ===== src/Protocol/Types.antt =====
-- The types of src/Bot/MCP/PlayerbotVerificationProtocol.h, and its limits. Strings are byte lists;
-- uint32 and uint64 values are numbers, with the casts of the source written out where they stand.
use mod_playerbots_mcp.Base.{ℕ, ◌*◌, ◌-◌, ◌^◌, Bool, List, [], Option, Bytes}

abbrev pub schema_version : ℕ
schema_version = 2

abbrev pub frame_header_bytes : ℕ
frame_header_bytes = 4

abbrev pub max_frame_payload_bytes : ℕ
max_frame_payload_bytes = 64 * 1024

abbrev pub max_response_payload_bytes : ℕ
max_response_payload_bytes = 60 * 1024

abbrev pub min_token_bytes : ℕ
min_token_bytes = 32

abbrev pub token_digest_bytes : ℕ
token_digest_bytes = 32

abbrev pub max_list_limit : ℕ
max_list_limit = 100

abbrev pub max_anomaly_limit : ℕ
max_anomaly_limit = 50

abbrev pub skill_rank_step : ℕ
skill_rank_step = 75

abbrev pub max_skill_maximum : ℕ
max_skill_maximum = 450

abbrev pub max_activity_lease_seconds : ℕ
max_activity_lease_seconds = 45 * 60

abbrev pub activity_lease_token_hex_length : ℕ
activity_lease_token_hex_length = 32

-- `std::numeric_limits<uint16>::max()` and so on.
abbrev pub max_uint16 : ℕ
max_uint16 = 2 ^ 16 - 1

abbrev pub max_uint32 : ℕ
max_uint32 = 2 ^ 32 - 1

abbrev pub max_uint64 : ℕ
max_uint64 = 2 ^ 64 - 1

pub data ErrorCode : Type 0 where
  no_error malformed_frame frame_too_large malformed_request authentication_failed : ErrorCode
  unsupported_schema_version unknown_operation invalid_guid invalid_limit invalid_command :
      ErrorCode
  command_refused invalid_condition unsupported_destination response_too_large : ErrorCode
  operation_unavailable queue_full timeout shutdown bot_not_found bot_unavailable : ErrorCode
  not_managed_playerbot recovery_failed master_not_found master_is_bot : ErrorCode
  invalid_relationship invalid_skill game_object_not_found not_random_bot : ErrorCode
  invalid_activity_lease activity_lease_conflict internal_error : ErrorCode

pub record ProtocolError : Type 0 where
  pub code : ErrorCode
  pub message : Bytes

pub data Operation : Type 0 where
  status list inspect anomalies check command recover set_skill : Operation
  teleport_to_game_object hold_activity inspect_activity_lease release_activity : Operation
  gm_command reload_config : Operation

pub record FrameDecodeResult : Type 0 where
  pub payload : Option Bytes
  pub error : ProtocolError

pub record Request : Type 0 where
  pub request_id : ℕ
  pub operation : Operation
  pub bot_guid : ℕ
  pub master_guid : ℕ
  pub after_guid : ℕ
  pub limit : ℕ
  pub command : Bytes
  pub condition : Bytes
  pub destination : Bytes
  pub numbers : List (Bytes × ℕ)
  pub strings : List (Bytes × Bytes)

-- A default-initialised request.
abbrev pub new_request : Request
new_request = record {
  request_id = 0;
  operation = Operation.status;
  bot_guid = 0;
  master_guid = 0;
  after_guid = 0;
  limit = 0;
  command = [];
  condition = [];
  destination = [];
  numbers = [];
  strings = [];
}

pub record RequestParseResult : Type 0 where
  pub request : Option Request
  pub response_request_id : ℕ
  pub error : ProtocolError

-- A SHA-256 digest, byte by byte.
abbrev pub TokenDigest : Type 0
TokenDigest = List ℕ

pub record GuidPage : Type 0 where
  pub guids : List ℕ
  pub next_after_guid : ℕ
  pub has_more : Bool
