-- ===== src/Protocol/Frame.antt =====
-- `EncodeFrame` and `DecodeFrame` of src/Bot/MCP/PlayerbotVerificationProtocol.cpp: a payload behind
-- its length in four bytes, most significant first.
pub mod RoundTrip
use mod_playerbots_mcp.Base.{
  ℕ, ◌+◌, ◌*◌, ◌/◌, ◌%◌, ◌^◌, bit_or, List, [], ◌∷◌, ◌++◌, Option, none, some, Bytes, length, ltb,
  not, ◌==◌, if◌then◌else◌,
}
use mod_playerbots_mcp.Protocol.Errors.{make_error}
use mod_playerbots_mcp.Protocol.Types.{
  FrameDecodeResult, malformed_frame, frame_too_large, no_error, frame_header_bytes,
  max_frame_payload_bytes,
}

-- The four header bytes of a uint32 length.
unfoldable pub header_bytes : ℕ → Bytes
header_bytes n = n / 2 ^ 24 % 256 ∷ n / 2 ^ 16 % 256 ∷ n / 2 ^ 8 % 256 ∷ n % 256 ∷ []

unfoldable pub encode_frame : Bytes → Option Bytes
encode_frame payload =
    if ltb max_frame_payload_bytes (length payload)
    then none
    else some (header_bytes (length payload % 2 ^ 32) ++ payload)

-- The length that four header bytes spell, as a uint32.
unfoldable pub header_length : ℕ → ℕ → ℕ → ℕ → ℕ
header_length a b c d = bit_or (bit_or (bit_or (a * 2 ^ 24) (b * 2 ^ 16)) (c * 2 ^ 8)) d

unfoldable pub decode_frame : Bytes → FrameDecodeResult
decode_frame (a ∷ b ∷ c ∷ d ∷ rest) =
    let len = header_length a b c d in
    if ltb max_frame_payload_bytes len
    then record { payload = none; error = make_error frame_too_large }
    else if not (length (a ∷ b ∷ c ∷ d ∷ rest) == frame_header_bytes + len)
    then record { payload = none; error = make_error malformed_frame }
    else record { payload = some rest; error = make_error no_error }
decode_frame _ = record { payload = none; error = make_error malformed_frame }
