-- ===== src/WorldThread/Console.antt =====
-- `BuildGmCommandResponse` and `BuildReloadConfigResponse` of
-- src/Bot/MCP/PlayerbotVerificationOperation.cpp.
pub mod Output
use mod_playerbots_mcp.Base.{
  ◌/◌, ◌&&◌, not, List, [], ◌∷◌, ◌++◌, Bytes, bytes, concat, length, ltb, if◌then◌else◌,
}
use mod_playerbots_mcp.Protocol.Responses.{Response, success}
use mod_playerbots_mcp.Protocol.Types.{Request, max_response_payload_bytes}
use mod_playerbots_mcp.WorldThread.Core.{Core}
use mod_playerbots_mcp.WorldThread.Text.{json_string, bool_text}

-- `print`: a piece is appended while the sink is below half of the response budget.
unfoldable pub print : Bytes → Bytes → Bytes
print sink text = if ltb (length sink) (max_response_payload_bytes / 2) then sink ++ text else sink

-- What the sink holds behind all pieces.
unfoldable pub print_all : Bytes → List Bytes → Bytes
print_all sink [] = sink
print_all sink (text ∷ texts) = print_all (print sink text) texts

module _ (core : Core) (w : core.World) where
  unfoldable pub build_gm_command_response : Request → core.World × Response
  build_gm_command_response request =
      let (w', run) = core.run_console w request.command in
      (
        w',
        success (
            concat (
              bytes "{\"command\":"
              ∷ json_string core request.command
              ∷ bytes ",\"succeeded\":"
              ∷ bool_text (run.parsed && not run.sent_error)
              ∷ bytes ",\"output\":"
              ∷ json_string core (print_all [] run.printed)
              ∷ bytes "}"
              ∷ [])),
      )

  -- The settings first, and then what the world derives from them.
  unfoldable pub build_reload_config_response : core.World × Response
  build_reload_config_response = (
    core.initialize_visibility (core.load_config_settings w),
    success (bytes "{\"reloaded\":true}"),
  )
