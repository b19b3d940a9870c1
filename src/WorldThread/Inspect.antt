-- ===== src/WorldThread/Inspect.antt =====
-- `BuildInspectResponse` and `BuildCheckResponse` of src/Bot/MCP/PlayerbotVerificationOperation.cpp.
use mod_playerbots_mcp.Base.{[], ◌∷◌, none, some, bytes, concat}
use mod_playerbots_mcp.Conditions.{evaluate_verification_condition}
use mod_playerbots_mcp.Protocol.Responses.{Response, success, failure}
use mod_playerbots_mcp.Protocol.Types.{Request, bot_not_found}
use mod_playerbots_mcp.WorldThread.Core.{Core}
use mod_playerbots_mcp.WorldThread.Status.{find_bot}
use mod_playerbots_mcp.WorldThread.Text.{json_string, bool_text}

module _ (core : Core) (w : core.World) where
  unfoldable pub build_inspect_response : Request → Response
  build_inspect_response request = elim (find_bot core w request.bot_guid) [
    | none ↦ failure bot_not_found []
    | some bot ↦ success (core.serialize_verification w bot)
  ]

  unfoldable pub build_check_response : Request → Response
  build_check_response request = elim (find_bot core w request.bot_guid) [
    | none ↦ failure bot_not_found []
    | some bot ↦
        let matched = evaluate_verification_condition (core.inspection w bot) request in
        success (
          concat (
            bytes "{\"matched\":"
            ∷ bool_text matched
            ∷ bytes ",\"condition\":"
            ∷ json_string core request.condition
            ∷ bytes ",\"snapshot\":"
            ∷ core.serialize_verification w bot
            ∷ bytes "}"
            ∷ []))
  ]
