-- ===== src/Protocol/Frame/RoundTrip.antt =====
-- Encoding and decoding are inverse on the frames that the protocol admits.
use mod_playerbots_mcp.Base.{
  ℕ, true, all, ltb, ◌+◌, ◌*◌, ◌/◌, ◌%◌, ◌^◌, ◌≤◌, ◌<◌, bit_or, ◌≡◌, ap, ◌∙◌, [], ◌∷◌, ◌++◌, some,
  Bytes, All, length, arith, bit_or_shift,
}
use mod_playerbots_mcp.Protocol.Types.{max_frame_payload_bytes}
use mod_playerbots_mcp.Protocol.Frame.{header_bytes, header_length, encode_frame, decode_frame}

abbrev pub IsByte : ℕ → Type 0
IsByte b = b < 256

-- A literal is of bytes if a test says so.
pub are_bytes : (xs : Bytes) → all (λ x. ltb x 256) xs ≡ true → All IsByte xs
are_bytes [] h = tt
are_bytes (x ∷ xs) h = (ground arith, are_bytes xs (ground arith))

-- The header is the big-endian value of its bytes.
pub header_length_lem :
    (a b c d : ℕ)
    → IsByte a
    → IsByte b
    → IsByte c
    → IsByte d
    → header_length a b c d ≡ ((a * 256 + b) * 256 + c) * 256 + d
unfolding header_length
header_length_lem a b c d ha hb hc hd =
    let e₁ : bit_or (a * 2 ^ 24) (b * 2 ^ 16) ≡ (a * 256 + b) * 2 ^ 16 =
      omega (arith, bit_or_shift 24 a (b * 2 ^ 16) (omega arith)) in
    let e₂ : bit_or ((a * 256 + b) * 2 ^ 16) (c * 2 ^ 8) ≡ ((a * 256 + b) * 256 + c) * 2 ^ 8 =
      omega (arith, bit_or_shift 16 (a * 256 + b) (c * 2 ^ 8) (omega arith)) in
    let e₃ = bit_or_shift 8 ((a * 256 + b) * 256 + c) d hd in
    ap (λ t. bit_or (bit_or t (c * 2 ^ 8)) d) e₁ ∙ ap (λ t. bit_or t d) e₂ ∙ e₃ ∙ omega arith

pub header_length-header_bytes :
    (n : ℕ)
    → n < 2 ^ 32
    → header_length (n / 2 ^ 24 % 256) (n / 2 ^ 16 % 256) (n / 2 ^ 8 % 256) (n % 256) ≡ n
header_length-header_bytes n h = omega (
  arith,
  header_length_lem (n / 2 ^ 24 % 256) (n / 2 ^ 16 % 256) (n / 2 ^ 8 % 256) (n % 256) (omega arith)
      (omega arith) (omega arith) (omega arith),
)

-- Every payload of at most 64 KiB is framed, and the frame decodes to that payload.
pub decode-encode :
    (payload : Bytes)
    → length payload ≤ max_frame_payload_bytes
    → (frame : Bytes) × (encode_frame payload ≡ some frame)
      × ((decode_frame frame).payload ≡ some payload)
unfolding encode_frame decode_frame header_bytes
decode-encode payload h =
    let n = length payload in
    let e : n % 2 ^ 32 ≡ n = omega arith in
    (
      header_bytes (n % 2 ^ 32) ++ payload,
      ground arith,
      ground (arith, header_length-header_bytes (n % 2 ^ 32) (omega arith)),
    )

-- A frame of bytes that decodes is the one frame of its payload: decoding accepts no other.
pub encode-decode :
    (frame payload : Bytes)
    → All IsByte frame
    → (decode_frame frame).payload ≡ some payload
    → encode_frame payload ≡ some frame
unfolding encode_frame decode_frame header_bytes
encode-decode [] payload h e = cc
encode-decode (a ∷ []) payload h e = cc
encode-decode (a ∷ b ∷ []) payload h e = cc
encode-decode (a ∷ b ∷ c ∷ []) payload h e = cc
encode-decode (a ∷ b ∷ c ∷ d ∷ rest) payload h e =
    ground (arith, header_length_lem a b c d h.0 h.1.0 h.1.1.0 h.1.1.1.0)
