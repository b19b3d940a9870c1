-- ===== src/Protocol/Print.antt =====
-- The writers of src/Bot/MCP/PlayerbotVerificationProtocol.cpp: `std::to_string` and
-- `AppendEscapedJsonString`.
pub mod ReadNumbers
pub mod ReadStrings
pub mod Plain
use mod_playerbots_mcp.Base.{
  ℕ, zero, suc, ◌+◌, ◌-◌, ◌/◌, ◌%◌, ◌^◌, Bool, true, false, List, [], ◌∷◌, ◌++◌, Bytes, bytes, ltb,
  ◌==◌, if◌then◌else◌,
}

unfoldable pub decimal : ℕ → ℕ → Bytes
decimal zero n = []
decimal (suc fuel) n =
    let front = decimal fuel (n / 10) in
    if ltb n 10 then (n + b'0') ∷ [] else front ++ (n % 10 + b'0') ∷ []

-- Each digit divides the number by ten, so the number itself is fuel enough.
unfoldable pub to_string : ℕ → Bytes
unfolding decimal
to_string n = decimal (suc n) n

-- `HEX[digit]`.
unfoldable pub hex_digit : ℕ → ℕ
hex_digit d = if ltb d 10 then d + b'0' else d - 10 + b'a'

-- The `switch` on one character.
unfoldable pub escape_byte : ℕ → Bytes
escape_byte c =
    if c == b'"'
    then b'\\' ∷ b'"' ∷ []
    else if c == b'\\'
    then b'\\' ∷ b'\\' ∷ []
    else if c == b'\n'
    then b'\\' ∷ b'n' ∷ []
    else if c == b'\r'
    then b'\\' ∷ b'r' ∷ []
    else if c == b'\t'
    then b'\\' ∷ b't' ∷ []
    else if c == 0x08
    then b'\\' ∷ b'b' ∷ []
    else if c == 0x0C
    then b'\\' ∷ b'f' ∷ []
    else if ltb c 0x20
    then b'\\' ∷ b'u' ∷ b'0' ∷ b'0' ∷ hex_digit (c / 2 ^ 4 % 16) ∷ hex_digit (c % 16) ∷ []
    else c ∷ []

unfoldable pub escape_loop : Bytes → Bytes → Bytes
escape_loop output [] = output
escape_loop output (c ∷ cs) = escape_loop (output ++ escape_byte c) cs

unfoldable pub append_escaped_json_string : Bytes → Bytes → Bytes
unfolding escape_loop
append_escaped_json_string output value = escape_loop (output ++ b'"' ∷ []) value ++ b'"' ∷ []
