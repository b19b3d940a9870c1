-- ===== src/WorldThread/Text.antt =====
-- How the handlers of src/Bot/MCP/PlayerbotVerificationOperation.cpp write JSON: `AppendJsonString`,
-- `BoundedText` and the spellings of truth values.
use mod_playerbots_mcp.Base.{Bool, true, false, [], Bytes, bytes}
use mod_playerbots_mcp.Conditions.{up_to_zero}
use mod_playerbots_mcp.Protocol.Print.{append_escaped_json_string}
use mod_playerbots_mcp.WorldThread.Core.{Core}

-- `AppendJsonString`: what is not UTF-8 is replaced, and then every character is escaped by the same
-- cases as in `AppendEscapedJsonString`.
unfoldable pub json_string : Core → Bytes → Bytes
json_string core value = append_escaped_json_string [] (core.replace_invalid value)

unfoldable pub bool_text : Bool → Bytes
bool_text true = bytes "true"
bool_text false = bytes "false"

-- `BoundedText`: the array up to its first zero.
unfoldable pub bounded_text : Bytes → Bytes
bounded_text = up_to_zero
