-- ===== src/Settings.antt =====
-- `LoadPlayerbotMCPSettings` of src/Bot/MCP/PlayerbotMCPConfig.h. The configuration is given as a
-- lookup of its keys. An empty value, which the source passes over, is no number.
pub mod Read
use mod_playerbots_mcp.Base.{
  ℕ, ◌+◌, ◌-◌, ◌*◌, Bool, true, false, not, List, [], ◌∷◌, Option, none, some, Bytes, bytes, ltb,
  ◌==◌, if◌then◌else◌,
}
use mod_playerbots_mcp.Protocol.Json.Text.{is_digit}
use mod_playerbots_mcp.Protocol.Types.{max_uint32}

pub record Settings : Type 0 where
  pub enable : Bool
  pub port : ℕ

-- The value of the digits, and what follows them.
unfoldable pub leading_digits : ℕ → Bytes → ℕ × Bytes
leading_digits value [] = (value, [])
leading_digits value (c ∷ cs) =
    let more = leading_digits (value * 10 + (c - b'0')) cs in
    if is_digit c then more else (value, c ∷ cs)

-- `std::from_chars` into a uint32: the longest run of digits, which has to be one and to fit.
unfoldable pub from_chars : Bytes → Option (ℕ × Bytes)
from_chars [] = none
from_chars (c ∷ cs) =
    let (value, rest) = leading_digits 0 (c ∷ cs) in
    if is_digit c then if ltb max_uint32 value then none else some (value, rest) else none

-- `result.ec == std::errc() && result.ptr == end`, and the value.
unfoldable pub whole_number : Bytes → Option ℕ
whole_number s = elim (from_chars s) [ some (value, []) ↦ some value | _ ↦ none ]

unfoldable pub load_settings : (Bytes → Option Bytes) → Settings
load_settings lookup = record {
  enable = elim (lookup (bytes "PlayerbotsMCP.Enable")) [
    | none ↦ true
    | some value ↦ elim (whole_number value) [ none ↦ true | some n ↦ not (n == 0) ]
  ];
  port = elim (lookup (bytes "PlayerbotsMCP.Port")) [
    | none ↦ 0
    | some value ↦ elim (whole_number value) [ none ↦ 0 | some n ↦ n ]
  ];
}
