-- ===== src/Protocol/Requests/Payload.antt =====
-- `ParseRequestPayload`: authentication first, then the schema version, then the operation.
pub mod Admits
pub mod Branches
pub mod Checks
pub mod WellFormed
pub mod Authenticated
use mod_playerbots_mcp.Base.{
  ℕ, Bool, false, none, some, Bytes, bytes, ◌==◌, if◌then◌else◌, value_or, str_eq,
}
use mod_playerbots_mcp.Protocol.Auth.{digest_verification_token, token_digest_equals}
use mod_playerbots_mcp.Protocol.Errors.{make_error}
use mod_playerbots_mcp.Protocol.Json.Objects.{FlatJsonFields, parse_strict}
use mod_playerbots_mcp.Protocol.Requests.Fields.{unsigned_field, string_field}
use mod_playerbots_mcp.Protocol.Requests.Operations.{
  parse_status, parse_list, parse_inspect, parse_anomalies, parse_command, parse_recover,
  parse_set_skill, parse_teleport_to_game_object, parse_hold_activity, parse_inspect_activity_lease,
  parse_release_activity, parse_gm_command, parse_reload_config, parse_check_operation,
}
use mod_playerbots_mcp.Protocol.Requests.Outcome.{
  Outcome, accepted, rejected, require, or_reject, ◌>>=◌, ◌>>◌,
}
use mod_playerbots_mcp.Protocol.Types.{
  Request, RequestParseResult, TokenDigest, ErrorCode, new_request, no_error, malformed_request,
  authentication_failed, unsupported_schema_version, unknown_operation, schema_version,
}

unfoldable pub parse_operation : Bytes → FlatJsonFields → Request → Outcome Request
parse_operation name fields request =
    if str_eq name (bytes "status")
    then parse_status fields request
    else if str_eq name (bytes "list")
    then parse_list fields request
    else if str_eq name (bytes "inspect")
    then parse_inspect fields request
    else if str_eq name (bytes "anomalies")
    then parse_anomalies fields request
    else if str_eq name (bytes "command")
    then parse_command fields request
    else if str_eq name (bytes "recover")
    then parse_recover fields request
    else if str_eq name (bytes "set_skill")
    then parse_set_skill fields request
    else if str_eq name (bytes "teleport_to_gameobject")
    then parse_teleport_to_game_object fields request
    else if str_eq name (bytes "hold_activity")
    then parse_hold_activity fields request
    else if str_eq name (bytes "inspect_activity_lease")
    then parse_inspect_activity_lease fields request
    else if str_eq name (bytes "release_activity")
    then parse_release_activity fields request
    else if str_eq name (bytes "gm_command")
    then parse_gm_command fields request
    else if str_eq name (bytes "reload_config")
    then parse_reload_config fields request
    else if str_eq name (bytes "check")
    then parse_check_operation fields request
    else rejected (make_error unknown_operation)

-- What follows authentication.
unfoldable pub parse_authenticated : FlatJsonFields → Outcome Request
parse_authenticated fields = do
  version ← or_reject (unsigned_field fields (bytes "schemaVersion")) malformed_request
  require (version == schema_version) unsupported_schema_version
  request_id ← or_reject (unsigned_field fields (bytes "requestId")) malformed_request
  name ← or_reject (string_field fields (bytes "operation")) malformed_request
  parse_operation name fields (record new_request { request_id = request_id })

abbrev pub to_result : Outcome Request → RequestParseResult
to_result (accepted r) = record {
  request = some r;
  response_request_id = 0;
  error = make_error no_error;
}
to_result (rejected e) = record { request = none; response_request_id = 0; error = e }

abbrev reject : ErrorCode → ℕ → RequestParseResult
reject code id = record { request = none; response_request_id = id; error = make_error code }

module _ (digest : Bytes → TokenDigest) where
  -- `!token || !ConstantTimeTokenDigestEquals(...)` is the negation of this.
  unfoldable pub is_authenticated : TokenDigest → FlatJsonFields → Bool
  is_authenticated expected fields = elim (string_field fields (bytes "token")) [
    | none ↦ false
    | some token ↦ token_digest_equals (digest_verification_token digest token) expected
  ]

  unfoldable pub parse_request_payload : Bytes → TokenDigest → RequestParseResult
  parse_request_payload payload expected = elim (parse_strict payload) [
    | none ↦ reject malformed_request 0
    | some fields ↦
        if is_authenticated expected fields
        then to_result (parse_authenticated fields)
        else reject authentication_failed (value_or 0 (unsigned_field fields (bytes "requestId")))
  ]
