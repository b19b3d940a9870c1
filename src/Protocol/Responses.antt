-- ===== src/Protocol/Responses.antt =====
-- `Response`, `SerializeError` and `SerializeResponse` of
-- src/Bot/MCP/PlayerbotVerificationProtocol.cpp.
pub mod Budget
pub mod Rendered
pub mod Envelopes
use mod_playerbots_mcp.Base.{
  ℕ, Bool, true, false, List, [], ◌∷◌, ◌++◌, Option, none, some, Bytes, bytes, concat, length, leb,
  if◌then◌else◌, is_empty,
}
use mod_playerbots_mcp.Protocol.Errors.{error_code_name, make_error}
use mod_playerbots_mcp.Protocol.Print.{to_string, append_escaped_json_string}
use mod_playerbots_mcp.Protocol.Types.{
  ErrorCode, ProtocolError, no_error, response_too_large, schema_version,
  max_response_payload_bytes,
}
use mod_playerbots_mcp.Recovery.Types.{RecoveryAuditRecord}

pub record Response : Type 0 where
  pub ok : Bool
  pub result_json : Bytes
  pub error : ProtocolError
  pub recovery_audit : Option RecoveryAuditRecord

-- `Response::Success`.
unfoldable pub success : Bytes → Response
success result_json = record {
  ok = true;
  result_json = result_json;
  error = record { code = no_error; message = [] };
  recovery_audit = none;
}

-- `Response::Failure`.
unfoldable pub failure : ErrorCode → Bytes → Response
failure code message = record {
  ok = false;
  result_json = [];
  error = record { code = code; message = message };
  recovery_audit = none;
}

-- How every envelope begins, up to the request id.
unfoldable pub envelope_start : ℕ → Bytes
envelope_start request_id = concat (
    bytes "{\"schemaVersion\":"
    ∷ to_string schema_version
    ∷ bytes ",\"requestId\":"
    ∷ to_string request_id
    ∷ [])

unfoldable pub serialize_error : ℕ → ErrorCode → Bytes
serialize_error request_id code =
    append_escaped_json_string
      (envelope_start request_id
        ++ concat (
            bytes ",\"ok\":false,\"error\":{\"code\":\""
            ∷ error_code_name code
            ∷ bytes "\",\"message\":"
            ∷ []))
      (make_error code).message
    ++ bytes "}}"

-- The envelope of a result, whatever its size.
unfoldable pub success_envelope : ℕ → Bytes → Bytes
success_envelope request_id result_json =
    envelope_start request_id
    ++ concat (
        bytes ",\"ok\":true,\"result\":"
        ∷ (if is_empty result_json then bytes "{}" else result_json)
        ∷ bytes "}"
        ∷ [])

unfoldable pub serialize_response : ℕ → Response → Bytes
serialize_response request_id r =
    if r.ok
    then (let output = success_envelope request_id r.result_json in
        if leb (length output) max_response_payload_bytes
        then output
        else serialize_error request_id response_too_large)
    else serialize_error request_id r.error.code
