-- ===== src/Protocol/Json/Nested.antt =====
-- `SkipJsonValue`, `SkipArray` and `SkipObject`: values that are recognised and not kept.
use mod_playerbots_mcp.Base.{
  ℕ, zero, suc, ◌+◌, ◌*◌, ◌||◌, [], ◌∷◌, Option, none, some, Bytes, bytes, length, ltb, ◌==◌,
  if◌then◌else◌, ◌>>=◌,
}
use mod_playerbots_mcp.Protocol.Json.Numbers.{skip_number}
use mod_playerbots_mcp.Protocol.Json.Text.{is_digit, skip_whitespace, consume, parse_string}

abbrev pub max_nested_depth : ℕ
max_nested_depth = 32

-- `input.compare(position, length, literal) == 0`, and the move past the literal.
unfoldable pub consume_literal : Bytes → Bytes → Option Bytes
consume_literal [] s = some s
consume_literal (x ∷ xs) [] = none
consume_literal (x ∷ xs) (c ∷ cs) =
    let rest = consume_literal xs cs in if c == x then rest else none

unfoldable pub skip_string : Bytes → Option Bytes
skip_string s = elim (parse_string s) [ none ↦ none | some (_, rest) ↦ some rest ]

-- What a value begins with: one that ends by itself, or the items of an array or an object.
pub data ValueStep : Type 0 where
  finished : Option Bytes → ValueStep
  items fields : Bytes → ValueStep

unfoldable pub array_start : Bytes → ValueStep
array_start cs = elim (consume b']' (skip_whitespace cs)) [
  | some rest ↦ finished (some rest)
  | none ↦ items (skip_whitespace cs)
]

unfoldable pub object_start : Bytes → ValueStep
object_start cs = elim (consume b'}' (skip_whitespace cs)) [
  | some rest ↦ finished (some rest)
  | none ↦ fields (skip_whitespace cs)
]

unfoldable pub value_start : ℕ → Bytes → ValueStep
value_start depth [] = finished none
value_start depth (c ∷ cs) =
    if ltb max_nested_depth depth
    then finished none
    else if c == b'"'
    then finished (skip_string (c ∷ cs))
    else if c == b'-' || is_digit c
    then finished (skip_number (c ∷ cs))
    else if c == b't'
    then finished (consume_literal (bytes "true") (c ∷ cs))
    else if c == b'f'
    then finished (consume_literal (bytes "false") (c ∷ cs))
    else if c == b'n'
    then finished (consume_literal (bytes "null") (c ∷ cs))
    else if c == b'['
    then array_start cs
    else if c == b'{'
    then object_start cs
    else finished none

-- The key of a member, up to its value.
unfoldable pub member_key : Bytes → Option Bytes
member_key s = do
  named ← skip_string s
  colon ← consume b':' (skip_whitespace named)
  some (skip_whitespace colon)

-- Behind an item: the end, the next item, or an error.
pub data ListStep : Type 0 where
  ended again : Bytes → ListStep
  broken : ListStep

unfoldable pub after_item : ℕ → Bytes → ListStep
after_item close s = elim (consume b',' (skip_whitespace s)) [
  | some rest ↦ again (skip_whitespace rest)
  | none ↦ elim (consume close (skip_whitespace s)) [ some rest ↦ ended rest | none ↦ broken ]
]

-- The three routines that call one another, told apart by what is being skipped.
pub data Nest : Type 0 where
  value elements members : Nest

-- On fuel: a call nearer to the end of the input, or into an item, takes one.
unfoldable pub skip : ℕ → Nest → ℕ → Bytes → Option Bytes
skip zero nest depth s = none
skip (suc fuel) value depth s = elim (value_start depth s) [
  | finished r ↦ r
  | items rest ↦ skip fuel elements depth rest
  | fields rest ↦ skip fuel members depth rest
]
skip (suc fuel) elements depth s = elim (skip fuel value (depth + 1) s) [
  | none ↦ none
  | some r ↦ elim (after_item b']' r) [
    | ended rest ↦ some rest
    | again rest ↦ skip fuel elements depth rest
    | broken ↦ none
  ]
]
skip (suc fuel) members depth s = elim (member_key s) [
  | none ↦ none
  | some v ↦ elim (skip fuel value (depth + 1) v) [
    | none ↦ none
    | some r ↦ elim (after_item b'}' r) [
      | ended rest ↦ some rest
      | again rest ↦ skip fuel members depth rest
      | broken ↦ none
    ]
  ]
]

-- `SkipJsonValue(0)`.
unfoldable pub skip_json_value : Bytes → Option Bytes
unfolding skip
skip_json_value s = skip (2 * length s + 2) value 0 s
