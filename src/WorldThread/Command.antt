-- ===== src/WorldThread/Command.antt =====
-- `BuildCommandResponse` of src/Bot/MCP/PlayerbotVerificationOperation.cpp: the world behind it, and
-- the response.
pub mod Relation
use mod_playerbots_mcp.Base.{
  Bool, false, [], ◌∷◌, Option, none, some, Bytes, bytes, concat, ◌==◌, if◌then◌else◌,
}
use mod_playerbots_mcp.Protocol.Print.{to_string}
use mod_playerbots_mcp.Protocol.Responses.{Response, success, failure}
use mod_playerbots_mcp.Protocol.Types.{
  Request, bot_not_found, master_not_found, master_is_bot, invalid_relationship,
}
use mod_playerbots_mcp.WorldThread.Core.{Core, Player}
use mod_playerbots_mcp.WorldThread.Status.{find_bot}
use mod_playerbots_mcp.WorldThread.Text.{json_string}

-- `pointer == master`, of a pointer that may be null.
abbrev pub is_pointer : Option Player → Player → Bool
is_pointer none p = false
is_pointer (some q) p = q == p

module _ (core : Core) (w : core.World) where
  -- The text of the answer, about the world in which the command was given; the GUIDs are read behind it.
  unfoldable pub dispatched : core.World → Player → Player → Bytes → Bytes
  dispatched w' bot master command = concat (
      bytes "{\"dispatched\":true,\"botGuid\":"
      ∷ json_string core (core.guid_text w' bot)
      ∷ bytes ",\"masterGuid\":"
      ∷ json_string core (core.guid_text w' master)
      ∷ bytes ",\"command\":"
      ∷ json_string core command
      ∷ bytes ",\"baselineActionSequence\":"
      ∷ to_string (core.action_total_count w bot)
      ∷ bytes ",\"baselineEconomySequence\":"
      ∷ to_string (core.economy_sequence w bot)
      ∷ bytes "}"
      ∷ [])

  -- From the bot and the master on.
  unfoldable pub command_bot : Bytes → Player → Player → core.World × Response
  command_bot command bot master =
      if core.has_ai w master
      then (w, failure master_is_bot [])
      else if is_pointer (core.master w bot) master
      then (let w' = core.handle_command w bot command master in
          (w', success (dispatched w' bot master command)))
      else (w, failure invalid_relationship [])

  unfoldable pub build_command_response : Request → core.World × Response
  build_command_response request = elim (find_bot core w request.bot_guid) [
    | none ↦ (w, failure bot_not_found [])
    | some bot ↦ elim (core.find_player w request.master_guid) [
      | none ↦ (w, failure master_not_found [])
      | some master ↦ command_bot request.command bot master
    ]
  ]
