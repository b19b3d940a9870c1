-- ===== src/Protocol/Json/Numbers.antt =====
-- Numbers: the unsigned ones that are read, and the others, which are skipped.
use mod_playerbots_mcp.Base.{
  ℕ, ◌+◌, ◌-◌, ◌*◌, ◌/◌, ◌%◌, ◌^◌, Bool, false, ◌&&◌, ◌||◌, not, [], ◌∷◌, Option, none, some, Bytes,
  ltb, leb, ◌==◌, if◌then◌else◌, ◌>>=◌, ◌>>◌, guard, value_or,
}
use mod_playerbots_mcp.Protocol.Json.Text.{is_digit, consume}
use mod_playerbots_mcp.Protocol.Types.{max_uint64}

-- Is there a next character, and does it pass the test?
abbrev pub next_is : (ℕ → Bool) → Bytes → Bool
next_is p [] = false
next_is p (c ∷ cs) = p c

-- The loop of `ParseUnsigned`: the number, how many digits it has, and the rest.
unfoldable pub unsigned_loop : ℕ → ℕ → Bytes → Option (ℕ × ℕ × Bytes)
unfolding is_digit
unsigned_loop result digits [] = some (result, digits, [])
unsigned_loop result digits (c ∷ cs) =
    let digit = c - b'0' in
    let more = unsigned_loop ((result * 10 + digit) % 2 ^ 64) (digits + 1) cs in
    if is_digit c
    then if ltb ((max_uint64 - digit) / 10) result then none else more
    else some (result, digits, c ∷ cs)

unfoldable pub parse_unsigned : Bytes → Option (ℕ × Bytes)
unfolding unsigned_loop
parse_unsigned s = do
  (result, digits, rest) ← unsigned_loop 0 0 s
  guard (not (digits == 0 || ltb 20 digits))
  guard (not (next_is (λ c. c == b'.' || c == b'e' || c == b'E') rest))
  some (result, rest)

unfoldable pub skip_digits : Bytes → Bytes
unfolding is_digit
skip_digits [] = []
skip_digits (c ∷ cs) = let rest = skip_digits cs in if is_digit c then rest else c ∷ cs

-- The part before a point or an exponent.
unfoldable pub skip_integer : Bytes → Option Bytes
unfolding skip_digits is_digit
skip_integer [] = none
skip_integer (c ∷ cs) =
    if c == b'0'
    then if next_is is_digit cs then none else some cs
    else if leb b'1' c && leb c b'9'
    then some (skip_digits (c ∷ cs))
    else none

unfoldable pub skip_fraction : Bytes → Option Bytes
unfolding skip_digits is_digit
skip_fraction [] = some []
skip_fraction (c ∷ cs) =
    if c == b'.' then if next_is is_digit cs then some (skip_digits cs) else none else some (c ∷ cs)

unfoldable pub skip_sign : Bytes → Bytes
skip_sign [] = []
skip_sign (c ∷ cs) = if c == b'+' || c == b'-' then cs else c ∷ cs

unfoldable pub skip_exponent : Bytes → Option Bytes
unfolding skip_digits is_digit skip_sign
skip_exponent [] = some []
skip_exponent (c ∷ cs) =
    if c == b'e' || c == b'E'
    then if next_is is_digit (skip_sign cs) then some (skip_digits (skip_sign cs)) else none
    else some (c ∷ cs)

unfoldable pub skip_number : Bytes → Option Bytes
unfolding consume skip_integer skip_fraction skip_exponent
skip_number s = do
  whole ← skip_integer (value_or s (consume b'-' s))
  point ← skip_fraction whole
  skip_exponent point
