-- ===== src/Protocol/Json/Objects.antt =====
-- `Parse`: one flat object of strings and unsigned numbers, any other value being only recognised.
pub mod Modes
use mod_playerbots_mcp.Base.{
  ℕ, zero, suc, Bool, true, false, List, [], ◌∷◌, Option, none, some, Bytes, length, ◌==◌,
  if◌then◌else◌, ◌>>=◌, is_some, lookup,
}
use mod_playerbots_mcp.Protocol.Json.Nested.{skip_json_value}
use mod_playerbots_mcp.Protocol.Json.Numbers.{parse_unsigned}
use mod_playerbots_mcp.Protocol.Json.Text.{is_digit, skip_whitespace, consume, parse_string}

pub record FlatJsonValue : Type 0 where
  pub is_string : Bool
  pub is_unsigned : Bool
  pub number : ℕ
  pub text : Bytes

abbrev pub string_value : Bytes → FlatJsonValue
string_value t = record { is_string = true; is_unsigned = false; number = 0; text = t }

abbrev pub unsigned_value : ℕ → FlatJsonValue
unsigned_value n = record { is_string = false; is_unsigned = true; number = n; text = [] }

abbrev pub other_value : FlatJsonValue
other_value = record { is_string = false; is_unsigned = false; number = 0; text = [] }

abbrev pub FlatJsonFields : Type 0
FlatJsonFields = List (Bytes × FlatJsonValue)

skip_other : Bytes → Option (FlatJsonValue × Bytes)
skip_other s = elim (skip_json_value s) [ none ↦ none | some rest ↦ some (other_value, rest) ]

unfoldable pub parse_value : Bytes → Option (FlatJsonValue × Bytes)
unfolding skip_other
parse_value [] = none
parse_value (c ∷ cs) =
    if c == b'"'
    then elim (parse_string (c ∷ cs)) [ none ↦ none | some (t, rest) ↦ some (string_value t, rest) ]
    else if is_digit c
    then elim (parse_unsigned (c ∷ cs)) [
      | some (n, rest) ↦ some (unsigned_value n, rest)
      | none ↦ skip_other (c ∷ cs)
    ]
    else skip_other (c ∷ cs)

-- One member, with the whitespace before its parts.
unfoldable pub parse_member : Bytes → Option (Bytes × FlatJsonValue × Bytes)
parse_member s = do
  (key, r₁) ← parse_string (skip_whitespace s)
  r₂ ← consume b':' (skip_whitespace r₁)
  (v, r₃) ← parse_value (skip_whitespace r₂)
  some (key, v, r₃)

-- The fields read so far, and the keys that came again, which `Parse` collects when it is given a
-- set for them and refuses when it is not.
pub record Fields : Type 0 where
  pub fields : FlatJsonFields
  pub duplicates : List Bytes

-- `emplace`: the first value of a key stays.
unfoldable pub emplace : Bool → Bytes → FlatJsonValue → Fields → Option Fields
emplace keep key v f =
    if is_some (lookup key f.fields)
    then if keep then some (record f { duplicates = key ∷ f.duplicates }) else none
    else some (record f { fields = (key, v) ∷ f.fields })

-- `Finish`.
unfoldable pub finish : Fields → Bytes → Option Fields
finish f s = elim (skip_whitespace s) [ [] ↦ some f | _ ∷ _ ↦ none ]

-- What follows a member.
pub data MemberEnd : Type 0 where
  comma : Bytes → MemberEnd
  stop : Option Fields → MemberEnd

unfoldable pub member_end : Fields → Bytes → MemberEnd
member_end f s = elim (consume b',' (skip_whitespace s)) [
  | some rest ↦ comma rest
  | none ↦ elim (consume b'}' (skip_whitespace s)) [
    | some rest ↦ stop (finish f rest)
    | none ↦ stop none
  ]
]

-- The loop, on fuel: each member takes a character of the input at least.
unfoldable pub member_loop : Bool → ℕ → Fields → Bytes → Option Fields
member_loop keep zero f s = none
member_loop keep (suc fuel) f s = elim (parse_member s) [
  | none ↦ none
  | some (key, v, rest) ↦ elim (emplace keep key v f) [
    | none ↦ none
    | some f' ↦ elim (member_end f' rest) [
      | comma r ↦ member_loop keep fuel f' r
      | stop result ↦ result
    ]
  ]
]

abbrev pub no_fields : Fields
no_fields = record { fields = []; duplicates = [] }

-- Behind the opening brace.
unfoldable pub object_body : Bool → Bytes → Option Fields
object_body keep inside = elim (consume b'}' (skip_whitespace inside)) [
  | some rest ↦ finish no_fields rest
  | none ↦ member_loop keep (suc (length inside)) no_fields (skip_whitespace inside)
]

unfoldable pub parse : Bool → Bytes → Option Fields
parse keep s = do inside ← consume b'{' (skip_whitespace s); object_body keep inside

-- `Parse(nullptr)`, which refuses a repeated key.
unfoldable pub parse_strict : Bytes → Option FlatJsonFields
unfolding parse
parse_strict s = elim (parse false s) [ none ↦ none | some f ↦ some f.fields ]

-- `Parse(&duplicateFields)`.
unfoldable pub parse_lenient : Bytes → Option Fields
unfolding parse
parse_lenient s = parse true s
