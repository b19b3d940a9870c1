-- ===== src/Protocol/Json/Text.antt =====
-- Whitespace, single characters and string literals.
use mod_playerbots_mcp.Base.{
  ℕ, zero, suc, ◌+◌, ◌-◌, ◌*◌, ◌/◌, ◌%◌, ◌^◌, bit_or, Bool, ◌&&◌, ◌||◌, [], ◌∷◌, ◌++◌, Option, none,
  some, Bytes, length, ltb, leb, ◌==◌, if◌then◌else◌, ◌>>=◌,
}

unfoldable pub is_space : ℕ → Bool
is_space c = c == b' ' || c == b'\t' || c == b'\n' || c == b'\r'

unfoldable pub is_digit : ℕ → Bool
is_digit c = leb b'0' c && leb c b'9'

unfoldable pub skip_whitespace : Bytes → Bytes
unfolding is_space
skip_whitespace [] = []
skip_whitespace (c ∷ cs) = let rest = skip_whitespace cs in if is_space c then rest else c ∷ cs

-- `none` when the next character is another one, which leaves the position alone.
unfoldable pub consume : ℕ → Bytes → Option Bytes
consume expected [] = none
consume expected (c ∷ cs) = if c == expected then some cs else none

unfoldable pub hex_value : ℕ → Option ℕ
hex_value c =
    if leb b'0' c && leb c b'9'
    then some (c - b'0')
    else if leb b'a' c && leb c b'f'
    then some (c - b'a' + 10)
    else if leb b'A' c && leb c b'F'
    then some (c - b'A' + 10)
    else none

-- `value <<= 4; value |= digit`.
unfoldable pub add_hex : ℕ → ℕ → ℕ
add_hex value digit = bit_or (value * 2 ^ 4 % 2 ^ 32) digit

unfoldable pub parse_hex4 : Bytes → Option (ℕ × Bytes)
parse_hex4 (a ∷ b ∷ c ∷ d ∷ rest) = do
  x ← hex_value a
  y ← hex_value b
  z ← hex_value c
  w ← hex_value d
  some (add_hex (add_hex (add_hex (add_hex 0 x) y) z) w, rest)
parse_hex4 _ = none

-- `static_cast<char>`.
abbrev to_char : ℕ → ℕ
to_char n = n % 256

unfoldable pub append_utf8 : Bytes → ℕ → Bytes
append_utf8 output codepoint =
    if ltb codepoint 0x80
    then output ++ to_char codepoint ∷ []
    else if ltb codepoint 0x800
    then output
      ++ to_char (bit_or 0xC0 (codepoint / 2 ^ 6)) ∷ to_char (bit_or 0x80 (codepoint % 2 ^ 6)) ∷ []
    else output
      ++ to_char (bit_or 0xE0 (codepoint / 2 ^ 12))
        ∷ to_char (bit_or 0x80 (codepoint / 2 ^ 6 % 2 ^ 6))
        ∷ to_char (bit_or 0x80 (codepoint % 2 ^ 6))
        ∷ []

-- One round of the loop of `ParseString`: the closing quote, more output, or a refusal.
pub data StringStep : Type 0 where
  closed : Bytes → StringStep
  piece : Bytes → Bytes → StringStep
  bad : StringStep

-- `case 'u'`.
unfoldable pub unicode_step : Bytes → Bytes → StringStep
unicode_step result cs = elim (parse_hex4 cs) [
  | none ↦ bad
  | some (codepoint, rest) ↦
      if leb 0xD800 codepoint && leb codepoint 0xDFFF
      then bad
      else piece (append_utf8 result codepoint) rest
]

-- `switch (escape)`.
unfoldable pub escape_step : Bytes → Bytes → StringStep
escape_step result [] = bad
escape_step result (e ∷ cs) =
    if e == b'"'
    then piece (result ++ b'"' ∷ []) cs
    else if e == b'\\'
    then piece (result ++ b'\\' ∷ []) cs
    else if e == b'/'
    then piece (result ++ b'/' ∷ []) cs
    else if e == b'n'
    then piece (result ++ b'\n' ∷ []) cs
    else if e == b'r'
    then piece (result ++ b'\r' ∷ []) cs
    else if e == b't'
    then piece (result ++ b'\t' ∷ []) cs
    else if e == b'b'
    then piece (result ++ 0x08 ∷ []) cs
    else if e == b'f'
    then piece (result ++ 0x0C ∷ []) cs
    else if e == b'u'
    then unicode_step result cs
    else bad

unfoldable pub string_step : Bytes → Bytes → StringStep
string_step result [] = bad
string_step result (c ∷ cs) =
    if c == b'"'
    then closed cs
    else if c == b'\\'
    then escape_step result cs
    else if ltb c 0x20
    then bad
    else piece (result ++ c ∷ []) cs

-- The loop, on fuel: each round takes a character of the input at least.
unfoldable pub string_loop : ℕ → Bytes → Bytes → Option (Bytes × Bytes)
string_loop zero result s = none
string_loop (suc fuel) result s = elim (string_step result s) [
  | closed rest ↦ some (result, rest)
  | piece result' rest ↦ string_loop fuel result' rest
  | bad ↦ none
]

unfoldable pub parse_string : Bytes → Option (Bytes × Bytes)
parse_string s = do rest ← consume b'"' s; string_loop (suc (length rest)) [] rest
