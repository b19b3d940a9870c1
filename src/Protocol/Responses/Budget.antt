-- ===== src/Protocol/Responses/Budget.antt =====
-- No answer exceeds the response budget, so none is dropped by the framing.
use mod_playerbots_mcp.Base.{
  ℕ, ◌+◌, ◌*◌, ◌≤◌, ◌≡◌, [], ◌∷◌, ◌++◌, some, Bytes, bytes, concat, length, length-append, arith,
}
use mod_playerbots_mcp.Protocol.Errors.{error_code_name, error_message, make_error}
use mod_playerbots_mcp.Protocol.Frame.{encode_frame, decode_frame}
use mod_playerbots_mcp.Protocol.Frame.RoundTrip.{decode-encode}
use mod_playerbots_mcp.Protocol.Print.{
  to_string, escape_byte, escape_loop, append_escaped_json_string,
}
use mod_playerbots_mcp.Protocol.Print.ReadNumbers.{length-to_string-le}
use mod_playerbots_mcp.Protocol.Responses.{
  Response, envelope_start, serialize_error, serialize_response,
}
use mod_playerbots_mcp.Protocol.Types.{
  ErrorCode, max_response_payload_bytes, max_uint64, schema_version, response_too_large,
}

length-escape_byte-le : (c : ℕ) → length (escape_byte c) ≤ 6
unfolding escape_byte
length-escape_byte-le c = ground arith

length-escape_loop-le :
    (output value : Bytes) → length (escape_loop output value) ≤ length output + length value * 6
unfolding escape_loop
length-escape_loop-le output [] = omega arith
length-escape_loop-le output (c ∷ cs) = omega (
  arith,
  length-escape_loop-le (output ++ escape_byte c) cs,
  length-append output (escape_byte c),
  length-escape_byte-le c,
)

length-append_escaped-le :
    (output value : Bytes)
    → length (append_escaped_json_string output value) ≤ length output + length value * 6 + 2
unfolding append_escaped_json_string
length-append_escaped-le output value = omega (
  arith,
  length-escape_loop-le (output ++ b'"' ∷ []) value,
  length-append output (b'"' ∷ []),
  length-append (escape_loop (output ++ b'"' ∷ []) value) (b'"' ∷ []),
)

-- The texts of an error are short.
length-error_code_name-le : (code : ErrorCode) → length (error_code_name code) ≤ 100
unfolding error_code_name
length-error_code_name-le ErrorCode.no_error = omega arith
length-error_code_name-le _ = omega arith

length-error_message-le : (code : ErrorCode) → length (error_message code) ≤ 200
unfolding error_message
length-error_message-le ErrorCode.no_error = omega arith
length-error_message-le _ = omega arith

length-envelope_start-le : (id : ℕ) → id ≤ max_uint64 → length (envelope_start id) ≤ 80
unfolding envelope_start concat
length-envelope_start-le id h = omega (
  arith,
  length-append (to_string schema_version) (bytes ",\"requestId\":" ++ (to_string id ++ [])),
  length-append (to_string id) [],
  length-to_string-le schema_version (omega arith),
  length-to_string-le id h,
)

length-serialize_error-le :
    (id : ℕ) (code : ErrorCode) → id ≤ max_uint64 → length (serialize_error id code) ≤ 2000
unfolding serialize_error concat make_error
length-serialize_error-le id code h =
    let head =
      bytes ",\"ok\":false,\"error\":{\"code\":\""
      ++ (error_code_name code ++ (bytes "\",\"message\":" ++ [])) in
    omega (
      arith,
      length-append (append_escaped_json_string (envelope_start id ++ head) (error_message code))
          (bytes "}}"),
      length-append_escaped-le (envelope_start id ++ head) (error_message code),
      length-append (envelope_start id) head,
      length-append (error_code_name code) (bytes "\",\"message\":" ++ []),
      length-envelope_start-le id h,
      length-error_code_name-le code,
      length-error_message-le code,
    )

-- Every answer to a uint64 request id fits the response budget: a result that would not is replaced
-- by the error for that.
pub length-serialize_response-le :
    (id : ℕ) (r : Response)
    → id ≤ max_uint64
    → length (serialize_response id r) ≤ max_response_payload_bytes
unfolding serialize_response
length-serialize_response-le id r h = ground (
  arith,
  length-serialize_error-le id r.error.code h,
  length-serialize_error-le id response_too_large h,
)

-- Every answer is framed, and a client that decodes the frame gets the whole answer.
pub decode-encode-serialize_response :
    (id : ℕ) (r : Response)
    → id ≤ max_uint64
    → (frame : Bytes) × (encode_frame (serialize_response id r) ≡ some frame)
      × ((decode_frame frame).payload ≡ some (serialize_response id r))
decode-encode-serialize_response id r h =
    decode-encode (serialize_response id r) (omega (arith, length-serialize_response-le id r h))
