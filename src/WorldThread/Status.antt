-- ===== src/WorldThread/Status.antt =====
-- `ResolveBotAI`, `BuildStatusResponse` and the bots of a world in
-- src/Bot/MCP/PlayerbotVerificationOperation.cpp.
use mod_playerbots_mcp.Base.{
  ◌^◌, ◌%◌, ℕ, suc, List, [], ◌∷◌, Option, none, some, bytes, concat, if◌then◌else◌,
}
use mod_playerbots_mcp.Protocol.Print.{to_string}
use mod_playerbots_mcp.Protocol.Responses.{Response, success}
use mod_playerbots_mcp.Protocol.Types.{schema_version}
use mod_playerbots_mcp.WorldThread.Core.{Core, Player}
use mod_playerbots_mcp.WorldThread.Text.{bool_text}

module _ (core : Core) (w : core.World) where
  -- `ResolveBotAI`: a player that has an AI, if there is a player.
  unfoldable pub resolve_bot : Option Player → Option Player
  resolve_bot none = none
  resolve_bot (some p) = if core.has_ai w p then some p else none

  -- The bot of a GUID: `FindPlayer` and then `ResolveBotAI`.
  unfoldable pub find_bot : ℕ → Option Player
  unfolding resolve_bot
  find_bot low_guid = resolve_bot (core.find_player w low_guid)

  -- The loop over `GetPlayers` that keeps the GUIDs of bots.
  unfoldable pub bot_guids : List (ℕ × Player) → List ℕ
  bot_guids [] = []
  bot_guids ((low_guid, p) ∷ players) =
      let rest = bot_guids players in if core.has_ai w p then low_guid ∷ rest else rest

  -- The loop that counts them.
  unfoldable pub count_bots : List (ℕ × Player) → ℕ
  count_bots [] = 0
  count_bots ((_, p) ∷ players) =
      let rest = count_bots players in if core.has_ai w p then suc rest % 2 ^ 32 else rest

  unfoldable pub build_status_response : Response
  build_status_response = success (
      concat (
        bytes "{\"protocolSchemaVersion\":"
        ∷ to_string schema_version
        ∷ bytes ",\"inspectionSchemaVersion\":"
        ∷ to_string core.inspection_schema_version
        ∷ bytes ",\"moduleEnabled\":"
        ∷ bool_text (core.module_enabled w)
        ∷ bytes ",\"queueAvailable\":"
        ∷ bool_text (core.queue_enabled w)
        ∷ bytes ",\"queueSize\":"
        ∷ to_string (core.queue_size w)
        ∷ bytes ",\"botCount\":"
        ∷ to_string (count_bots (core.players w))
        ∷ bytes "}"
        ∷ []))
