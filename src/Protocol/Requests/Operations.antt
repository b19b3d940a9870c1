-- ===== src/Protocol/Requests/Operations.antt =====
-- The branches of `ParseRequestPayload`, one to an operation. Each is given the fields and the
-- request as far as it is known, and checks in the order of the source.
use mod_playerbots_mcp.Base.{
  ℕ, ◌^◌, ◌%◌, Bool, true, false, ◌||◌, not, List, [], ◌∷◌, Bytes, bytes, ltb, leb, ◌==◌,
  if◌then◌else◌, is_empty, insert, lookup, value_or, str_eq,
}
use mod_playerbots_mcp.Protocol.GmPolicy.{is_refused_gm_command}
use mod_playerbots_mcp.Protocol.Json.Objects.{FlatJsonFields}
use mod_playerbots_mcp.Protocol.Requests.Check.{parse_check}
use mod_playerbots_mcp.Protocol.Requests.Fields.{
  has_field, has_exact_fields, unsigned_field, string_field, is_activity_lease_token, store_uint32,
  common_fields, guid_field,
}
use mod_playerbots_mcp.Protocol.Requests.Outcome.{
  Outcome, accepted, rejected, require, or_reject, ◌>>=◌, ◌>>◌,
}
use mod_playerbots_mcp.Protocol.Types.{
  Request, Operation, malformed_request, invalid_guid, invalid_limit, invalid_command,
  command_refused, unsupported_destination, invalid_skill, game_object_not_found,
  invalid_activity_lease, max_uint32, max_list_limit, max_anomaly_limit, max_skill_maximum,
  skill_rank_step, max_activity_lease_seconds,
}

-- The fields of an operation are those that all have and its own.
abbrev pub expect : FlatJsonFields → List Bytes → List Bytes → Outcome (Unit {0})
expect fields own optional =
    require (has_exact_fields fields (common_fields own) optional) malformed_request

unfoldable pub parse_status : FlatJsonFields → Request → Outcome Request
parse_status fields request = do
  expect fields [] []
  accepted (record request { operation = Operation.status })

unfoldable pub parse_list : FlatJsonFields → Request → Outcome Request
parse_list fields request = do
  expect fields (bytes "afterGuid" ∷ bytes "limit" ∷ []) []
  after_guid ← or_reject (unsigned_field fields (bytes "afterGuid")) invalid_guid
  require (leb after_guid max_uint32) invalid_guid
  limit ← or_reject (unsigned_field fields (bytes "limit")) invalid_limit
  require (not (limit == 0 || ltb max_list_limit limit)) invalid_limit
  accepted (record request {
    operation = Operation.list;
    after_guid = after_guid % 2 ^ 32;
    limit = limit % 2 ^ 32;
  })

unfoldable pub parse_inspect : FlatJsonFields → Request → Outcome Request
parse_inspect fields request = do
  expect fields (bytes "botGuid" ∷ []) []
  bot_guid ← guid_field fields (bytes "botGuid")
  accepted (record request { operation = Operation.inspect; bot_guid = bot_guid })

-- This operation names its own bound in the message.
anomaly_limit_message : Bytes
anomaly_limit_message = bytes "The anomaly limit must be from 1 through 50."

unfoldable pub or_bad_anomaly_limit : Bool → Outcome (Unit {0})
unfolding anomaly_limit_message
or_bad_anomaly_limit true = accepted tt
or_bad_anomaly_limit false =
    rejected (record { code = invalid_limit; message = anomaly_limit_message })

unfoldable pub parse_anomalies : FlatJsonFields → Request → Outcome Request
parse_anomalies fields request = do
  expect fields (bytes "limit" ∷ []) []
  let limit = value_or 0 (unsigned_field fields (bytes "limit"))
  or_bad_anomaly_limit (not (limit == 0 || ltb max_anomaly_limit limit))
  accepted (record request { operation = Operation.anomalies; limit = limit % 2 ^ 32 })

unfoldable pub parse_command : FlatJsonFields → Request → Outcome Request
parse_command fields request = do
  expect fields (bytes "botGuid" ∷ bytes "masterGuid" ∷ bytes "command" ∷ []) []
  bot_guid ← guid_field fields (bytes "botGuid")
  master_guid ← guid_field fields (bytes "masterGuid")
  command ← or_reject (string_field fields (bytes "command")) invalid_command
  require (not (is_empty command)) invalid_command
  accepted (record request {
    operation = Operation.command;
    bot_guid = bot_guid;
    master_guid = master_guid;
    command = command;
  })

unfoldable pub parse_recover : FlatJsonFields → Request → Outcome Request
parse_recover fields request = do
  expect fields (bytes "botGuid" ∷ bytes "destination" ∷ []) []
  bot_guid ← guid_field fields (bytes "botGuid")
  destination ← or_reject (string_field fields (bytes "destination")) malformed_request
  require (str_eq destination (bytes "homebind")) unsupported_destination
  accepted (record request {
    operation = Operation.recover;
    bot_guid = bot_guid;
    destination = destination;
  })

-- `request.numbers[name]` of a stored number.
abbrev pub stored : Request → Bytes → ℕ
stored request name = value_or 0 (lookup name request.numbers)

unfoldable pub parse_set_skill : FlatJsonFields → Request → Outcome Request
parse_set_skill fields request = do
  expect fields (bytes "botGuid" ∷ bytes "skillId" ∷ bytes "value" ∷ bytes "maximum" ∷ []) []
  bot_guid ← guid_field fields (bytes "botGuid")
  r₁ ← or_reject (store_uint32 request fields (bytes "skillId") false) invalid_skill
  r₂ ← or_reject (store_uint32 r₁ fields (bytes "value") false) invalid_skill
  r₃ ← or_reject (store_uint32 r₂ fields (bytes "maximum") false) invalid_skill
  let value = stored r₃ (bytes "value")
  let maximum = stored r₃ (bytes "maximum")
  require
      (not (
        ltb max_skill_maximum maximum || not (maximum % skill_rank_step == 0) || ltb maximum value))
      invalid_skill
  accepted (record r₃ { operation = Operation.set_skill; bot_guid = bot_guid })

unfoldable pub parse_teleport_to_game_object : FlatJsonFields → Request → Outcome Request
parse_teleport_to_game_object fields request = do
  expect fields (bytes "botGuid" ∷ bytes "gameObjectEntry" ∷ []) []
  bot_guid ← guid_field fields (bytes "botGuid")
  r₁ ← or_reject (store_uint32 request fields (bytes "gameObjectEntry") false) game_object_not_found
  accepted (record r₁ { operation = Operation.teleport_to_game_object; bot_guid = bot_guid })

-- The token of a lease, if the request names one.
unfoldable pub store_lease_token : FlatJsonFields → Request → Outcome Request
store_lease_token fields request = do
  token ← or_reject (string_field fields (bytes "leaseToken")) invalid_activity_lease
  require (is_activity_lease_token token) invalid_activity_lease
  accepted (record request { strings = insert (bytes "leaseToken") token request.strings })

unfoldable pub parse_hold_activity : FlatJsonFields → Request → Outcome Request
parse_hold_activity fields request = do
  expect fields (bytes "botGuid" ∷ bytes "durationSeconds" ∷ []) (bytes "leaseToken" ∷ [])
  bot_guid ← guid_field fields (bytes "botGuid")
  r₁ ←
      or_reject (store_uint32 request fields (bytes "durationSeconds") false) invalid_activity_lease
  require (leb (stored r₁ (bytes "durationSeconds")) max_activity_lease_seconds)
      invalid_activity_lease
  r₂ ← if has_field fields (bytes "leaseToken") then store_lease_token fields r₁ else accepted r₁
  accepted (record r₂ { operation = Operation.hold_activity; bot_guid = bot_guid })

unfoldable pub parse_inspect_activity_lease : FlatJsonFields → Request → Outcome Request
parse_inspect_activity_lease fields request = do
  expect fields (bytes "botGuid" ∷ []) []
  bot_guid ← guid_field fields (bytes "botGuid")
  accepted (record request { operation = Operation.inspect_activity_lease; bot_guid = bot_guid })

unfoldable pub parse_release_activity : FlatJsonFields → Request → Outcome Request
parse_release_activity fields request = do
  expect fields (bytes "botGuid" ∷ bytes "leaseToken" ∷ []) []
  bot_guid ← guid_field fields (bytes "botGuid")
  r₁ ← store_lease_token fields request
  accepted (record r₁ { operation = Operation.release_activity; bot_guid = bot_guid })

unfoldable pub parse_gm_command : FlatJsonFields → Request → Outcome Request
parse_gm_command fields request = do
  expect fields (bytes "command" ∷ []) []
  command ← or_reject (string_field fields (bytes "command")) invalid_command
  require (not (is_empty command)) invalid_command
  require (not (is_refused_gm_command command)) command_refused
  accepted (record request { operation = Operation.gm_command; command = command })

unfoldable pub parse_reload_config : FlatJsonFields → Request → Outcome Request
parse_reload_config fields request = do
  expect fields [] []
  accepted (record request { operation = Operation.reload_config })

unfoldable pub parse_check_operation : FlatJsonFields → Request → Outcome Request
parse_check_operation fields request = do
  bot_guid ← guid_field fields (bytes "botGuid")
  parse_check fields (record request { operation = Operation.check; bot_guid = bot_guid })
