-- ===== src/WorldThread/Execute.antt =====
-- `ExecuteVerificationOnWorldThread` of src/Bot/MCP/PlayerbotVerificationOperation.cpp.
use mod_playerbots_mcp.Base.{ℕ, Bytes}
use mod_playerbots_mcp.Protocol.Responses.{Response}
use mod_playerbots_mcp.Protocol.Types.{Request, Operation}
use mod_playerbots_mcp.WorldThread.Anomalies.{build_anomalies_response}
use mod_playerbots_mcp.WorldThread.Command.{build_command_response}
use mod_playerbots_mcp.WorldThread.Console.{build_gm_command_response, build_reload_config_response}
use mod_playerbots_mcp.WorldThread.Core.{Core}
use mod_playerbots_mcp.WorldThread.GameObjects.{build_teleport_response}
use mod_playerbots_mcp.WorldThread.Inspect.{build_inspect_response, build_check_response}
use mod_playerbots_mcp.WorldThread.Leases.{
  build_hold_activity_response, build_inspect_activity_lease_response,
  build_release_activity_response,
}
use mod_playerbots_mcp.WorldThread.Listing.{build_list_response}
use mod_playerbots_mcp.WorldThread.Recovery.{build_recover_response}
use mod_playerbots_mcp.WorldThread.Skills.{build_set_skill_response}
use mod_playerbots_mcp.WorldThread.Status.{build_status_response}

module _ (core : Core) (print_float : ℕ → Bytes) where
  -- The `switch`.
  unfoldable pub run_operation : Operation → core.World → Request → core.World × Response
  run_operation Operation.status w request = (w, build_status_response core w)
  run_operation Operation.list w request = (w, build_list_response core w request)
  run_operation Operation.inspect w request = (w, build_inspect_response core w request)
  run_operation Operation.anomalies w request = (w, build_anomalies_response core w request)
  run_operation Operation.check w request = (w, build_check_response core w request)
  run_operation Operation.command w request = build_command_response core w request
  run_operation Operation.recover w request = build_recover_response core print_float w request
  run_operation Operation.set_skill w request = build_set_skill_response core w request
  run_operation Operation.teleport_to_game_object w request = build_teleport_response core w request
  run_operation Operation.hold_activity w request = build_hold_activity_response core w request
  run_operation Operation.inspect_activity_lease w request =
      build_inspect_activity_lease_response core w request
  run_operation Operation.release_activity w request =
      build_release_activity_response core w request
  run_operation Operation.gm_command w request = build_gm_command_response core w request
  run_operation Operation.reload_config w request = build_reload_config_response core w

  unfoldable pub execute_verification : core.World → Request → core.World × Response
  execute_verification w request = run_operation request.operation w request
