-- ===== src/Protocol/Print/ReadStrings.antt =====
-- `ParseString` reads back what `AppendEscapedJsonString` writes.
use mod_playerbots_mcp.Base.{
  ℕ, zero, suc, ◌+◌, ◌*◌, ◌/◌, ◌%◌, ◌^◌, ◌≤◌, ◌<◌, ◌≡◌, refl, ap, ◌∙◌, sym, true, false, ◌&&◌, [],
  ◌∷◌, ◌++◌, append_assoc, append-nil, some, Bytes, length, length-append, All, ltb, leb, arith,
  bit_or_shift,
}
use mod_playerbots_mcp.Protocol.Frame.RoundTrip.{IsByte}
use mod_playerbots_mcp.Protocol.Json.Text.{
  hex_value, add_hex, parse_hex4, append_utf8, piece, unicode_step, escape_step, string_step,
  string_loop, parse_string, consume,
}
use mod_playerbots_mcp.Protocol.Print.{
  hex_digit, escape_byte, escape_loop, append_escaped_json_string,
}

hex_value-hex_digit : (d : ℕ) → d < 16 → hex_value (hex_digit d) ≡ some d
unfolding hex_value hex_digit
hex_value-hex_digit d h = ground arith

add_hex_lem :
    (value digit : ℕ) → value < 2 ^ 28 → digit < 16 → add_hex value digit ≡ value * 16 + digit
unfolding add_hex
add_hex_lem value digit h d =
    let fits : value * 2 ^ 4 % 2 ^ 32 ≡ value * 2 ^ 4 = omega arith in
    rw fits (bit_or_shift 4 value digit d)

parse_hex4_control :
    (c : ℕ) (rest : Bytes)
    → c < 32
    → parse_hex4 (b'0' ∷ b'0' ∷ hex_digit (c / 2 ^ 4 % 16) ∷ hex_digit (c % 16) ∷ rest)
      ≡ some (c, rest)
unfolding parse_hex4
parse_hex4_control c rest h =
    let high : ℕ = c / 2 ^ 4 % 16 in
    let low : ℕ = c % 16 in
    let zeros : add_hex (add_hex 0 0) 0 ≡ 0 = unfold add_hex in refl in
    let value : add_hex (add_hex (add_hex (add_hex 0 0) 0) high) low ≡ c =
      ap (λ t. add_hex (add_hex t high) low) zeros
      ∙ ap (λ t. add_hex t low) (add_hex_lem 0 high (omega arith) (omega arith))
      ∙ add_hex_lem (0 * 16 + high) low (omega arith) (omega arith)
      ∙ omega arith in
    let zero_digit : hex_value b'0' ≡ some 0 = unfold hex_value in refl in
    rw (
      zero_digit,
      hex_value-hex_digit high (omega arith),
      hex_value-hex_digit low (omega arith),
      value,
    )

unicode_step_control :
    (c : ℕ) (acc rest : Bytes)
    → c < 32
    → unicode_step acc (b'0' ∷ b'0' ∷ hex_digit (c / 2 ^ 4 % 16) ∷ hex_digit (c % 16) ∷ rest)
      ≡ piece (acc ++ c ∷ []) rest
unfolding unicode_step append_utf8
unicode_step_control c acc rest h =
    let not_surrogate : (leb 0xD800 c && leb c 0xDFFF) ≡ false = ground arith in
    let ascii : ltb c 0x80 ≡ true = ground arith in
    let byte : c % 256 ≡ c = omega arith in
    rw (parse_hex4_control c rest h, unicode_step) (rw (not_surrogate, ascii, byte))

string_step-escape_byte :
    (c : ℕ) (acc rest : Bytes)
    → IsByte c
    → string_step acc (escape_byte c ++ rest) ≡ piece (acc ++ c ∷ []) rest
unfolding string_step escape_step escape_byte
string_step-escape_byte c acc rest h = ground (arith, unicode_step_control c acc rest)

escaped : Bytes → Bytes
escaped [] = []
escaped (c ∷ cs) = escape_byte c ++ escaped cs

escape_loop-escaped : (output value : Bytes) → escape_loop output value ≡ output ++ escaped value
unfolding escape_loop escaped
escape_loop-escaped output [] = sym (append-nil output)
escape_loop-escaped output (c ∷ cs) =
    escape_loop-escaped (output ++ escape_byte c) cs
    ∙ append_assoc output (escape_byte c) (escaped cs)

escape_byte_pos : (c : ℕ) → 0 < length (escape_byte c)
unfolding escape_byte
escape_byte_pos c = ground arith

length-escaped : (value : Bytes) → length value ≤ length (escaped value)
unfolding escaped
length-escaped [] = omega arith
length-escaped (c ∷ cs) =
    omega (arith, length-append (escape_byte c) (escaped cs), escape_byte_pos c, length-escaped cs)

string_loop-escaped :
    (fuel : ℕ) (value acc rest : Bytes)
    → All IsByte value
    → length value < fuel
    → string_loop fuel acc (escaped value ++ b'"' ∷ rest) ≡ some (acc ++ value, rest)
unfolding string_loop escaped
string_loop-escaped zero value acc rest h lt = absurd (omega arith)
string_loop-escaped (suc fuel) [] acc rest h lt =
    unfold string_step in ap (λ t. some (t, rest)) (sym (append-nil acc))
string_loop-escaped (suc fuel) (c ∷ cs) acc rest h lt =
    rw
      (
        append_assoc (escape_byte c) (escaped cs) (b'"' ∷ rest),
        string_step-escape_byte c acc (escaped cs ++ b'"' ∷ rest) h.0,
        string_loop,
      )
      (string_loop-escaped fuel cs (acc ++ c ∷ []) rest h.1 (omega arith)
        ∙ ap (λ t. some (t, rest)) (append_assoc acc (c ∷ []) cs))

-- Every string of bytes that is written as a JSON string, quotes and control characters included,
-- is read back as it was, whatever follows it.
pub parse_string-append_escaped :
    (value rest : Bytes)
    → All IsByte value
    → parse_string (append_escaped_json_string [] value ++ rest) ≡ some (value, rest)
unfolding parse_string append_escaped_json_string consume
parse_string-append_escaped value rest h =
    let body = escaped value ++ b'"' ∷ rest in
    rw (escape_loop-escaped (b'"' ∷ []) value, append_assoc (escaped value) (b'"' ∷ []) rest)
      (string_loop-escaped (suc (length body)) value [] rest h
        (omega (arith, length-append (escaped value) (b'"' ∷ rest), length-escaped value)))

-- What is written begins with a quote.
pub append_escaped-begins :
    (value rest : Bytes) → (t : Bytes) × (append_escaped_json_string [] value ++ rest ≡ b'"' ∷ t)
unfolding append_escaped_json_string
append_escaped-begins value rest = (
  (escaped value ++ b'"' ∷ []) ++ rest,
  ap (λ text. (text ++ b'"' ∷ []) ++ rest) (escape_loop-escaped (b'"' ∷ []) value),
)

-- What is written goes behind what is there.
pub append_escaped-append :
    (output value : Bytes)
    → append_escaped_json_string output value ≡ output ++ append_escaped_json_string [] value
unfolding append_escaped_json_string
append_escaped-append output value =
    ap (λ t. t ++ b'"' ∷ [])
      (escape_loop-escaped (output ++ b'"' ∷ []) value
        ∙ append_assoc output (b'"' ∷ []) (escaped value)
        ∙ ap (λ t. output ++ t) (sym (escape_loop-escaped (b'"' ∷ []) value)))
    ∙ append_assoc output (escape_loop (b'"' ∷ []) value) (b'"' ∷ [])
