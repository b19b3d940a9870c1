-- ===== src/WorldThread/Audited.antt =====
-- Which responses of the world thread carry a record, and what the whole server logs therefore.
use mod_playerbots_mcp.Base.{
  ℕ, ◌≡◌, refl, ap, true, false, none, Bytes, bytes, is_some, ◌||◌, ◌==◌, ltb,
}
use mod_playerbots_mcp.Handoff.Dispatch.{RecordsRecovery}
use mod_playerbots_mcp.Protocol.Paging.{paginate_guids}
use mod_playerbots_mcp.Protocol.Responses.{Response, success, failure}
use mod_playerbots_mcp.Protocol.Types.{Request, Operation, max_anomaly_limit}
use mod_playerbots_mcp.Server.{is_recover_operation}
use mod_playerbots_mcp.WorldThread.Anomalies.{build_anomalies_response}
use mod_playerbots_mcp.WorldThread.Command.{command_bot, build_command_response, is_pointer}
use mod_playerbots_mcp.WorldThread.Console.{build_gm_command_response, build_reload_config_response}
use mod_playerbots_mcp.WorldThread.Core.{
  Core, Player, LeaseState, AcquireOutcome, acquired, ReleaseOutcome, released,
}
use mod_playerbots_mcp.WorldThread.Execute.{run_operation, execute_verification}
use mod_playerbots_mcp.WorldThread.GameObjects.{
  teleport_near, teleport_bot, cannot_teleport, nearest_loop, build_teleport_response,
}
use mod_playerbots_mcp.WorldThread.Inspect.{build_inspect_response, build_check_response}
use mod_playerbots_mcp.WorldThread.Leases.{
  resolve_activity_lease_target, held_response, hold_bot, build_hold_activity_response,
  inspect_bot_lease, build_inspect_activity_lease_response, released_response, after_release,
  release_bot, build_release_activity_response,
}
use mod_playerbots_mcp.WorldThread.Listing.{build_list_response}
use mod_playerbots_mcp.WorldThread.Recovery.{build_recover_response, record_response}
use mod_playerbots_mcp.WorldThread.Rules.{if-holds, option-holds, target-holds}
use mod_playerbots_mcp.WorldThread.Skills.{set_bot_skill, number16, build_set_skill_response}
use mod_playerbots_mcp.WorldThread.Status.{find_bot, bot_guids, build_status_response}

abbrev IsPlain : Response → Type 0
IsPlain r = r.recovery_audit ≡ none

module _ (core : Core) (w : core.World) where
  -- A response that carries no record, of a handler that changes the world.
  abbrev LeavesPlain : core.World × Response → Type 0
  LeavesPlain (w', r) = r.recovery_audit ≡ none

  list-IsPlain : (request : Request) → IsPlain (build_list_response core w request)
  unfolding build_list_response success failure
  list-IsPlain request =
      option-holds IsPlain
        (paginate_guids (bot_guids core w (core.players w)) request.after_guid request.limit) _ _
        refl (λ page. refl)

  inspect-IsPlain : (request : Request) → IsPlain (build_inspect_response core w request)
  unfolding build_inspect_response success failure
  inspect-IsPlain request =
      option-holds IsPlain (find_bot core w request.bot_guid) _ _ refl (λ bot. refl)

  anomalies-IsPlain : (request : Request) → IsPlain (build_anomalies_response core w request)
  unfolding build_anomalies_response success failure
  anomalies-IsPlain request =
      if-holds IsPlain (request.limit == 0 || ltb max_anomaly_limit request.limit) _ _ refl refl

  check-IsPlain : (request : Request) → IsPlain (build_check_response core w request)
  unfolding build_check_response success failure
  check-IsPlain request =
      option-holds IsPlain (find_bot core w request.bot_guid) _ _ refl (λ bot. refl)

  command-LeavesPlain : (request : Request) → LeavesPlain (build_command_response core w request)
  unfolding build_command_response command_bot success failure
  command-LeavesPlain request =
      option-holds LeavesPlain (find_bot core w request.bot_guid) _ _ refl λ bot.
        option-holds LeavesPlain (core.find_player w request.master_guid) _ _ refl λ master.
          if-holds LeavesPlain (core.has_ai w master) _ _ refl
            (if-holds LeavesPlain (is_pointer (core.master w bot) master) _ _ refl refl)

  set_skill-LeavesPlain :
      (request : Request) → LeavesPlain (build_set_skill_response core w request)
  unfolding build_set_skill_response set_bot_skill success failure
  set_skill-LeavesPlain request =
      option-holds LeavesPlain (find_bot core w request.bot_guid) _ _ refl λ bot.
        if-holds LeavesPlain (core.has_skill w bot (number16 request (bytes "skillId"))) _ _ refl
          refl

  teleport-LeavesPlain : (request : Request) → LeavesPlain (build_teleport_response core w request)
  unfolding build_teleport_response teleport_bot success failure
  teleport-LeavesPlain request =
      option-holds LeavesPlain (find_bot core w request.bot_guid) _ _ refl λ bot.
        if-holds LeavesPlain (cannot_teleport core w bot) _ _ refl (
          option-holds LeavesPlain (nearest_loop core w bot _ (core.game_objects w) none) _ _ refl
            λ found. if-holds LeavesPlain (teleport_near core w bot found.0).1 _ _ refl refl)

  held_response-IsPlain :
      (w' : core.World) (bot : Player) (now : ℕ) (state : LeaseState) (outcome : AcquireOutcome)
      → IsPlain (held_response core w' bot now state outcome)
  unfolding held_response success failure
  held_response-IsPlain w' bot now state acquired = refl
  held_response-IsPlain w' bot now state _ = refl

  after_release-LeavesPlain :
      (w' : core.World) (bot : Player) (now : ℕ) (outcome : ReleaseOutcome)
      → LeavesPlain (after_release core w' bot now outcome)
  unfolding after_release released_response success failure
  after_release-LeavesPlain w' bot now released = refl
  after_release-LeavesPlain w' bot now _ = refl

  hold-LeavesPlain : (request : Request) → LeavesPlain (build_hold_activity_response core w request)
  unfolding build_hold_activity_response hold_bot failure
  hold-LeavesPlain request =
      target-holds LeavesPlain (resolve_activity_lease_target core w true request) _ _
        (λ code. refl) (λ bot. held_response-IsPlain _ bot _ _ _)

  inspect_lease-LeavesPlain :
      (request : Request) → LeavesPlain (build_inspect_activity_lease_response core w request)
  unfolding build_inspect_activity_lease_response inspect_bot_lease success failure
  inspect_lease-LeavesPlain request =
      target-holds LeavesPlain (resolve_activity_lease_target core w false request) _ _
        (λ code. refl) (λ bot. refl)

  release-LeavesPlain :
      (request : Request) → LeavesPlain (build_release_activity_response core w request)
  unfolding build_release_activity_response release_bot failure
  release-LeavesPlain request =
      target-holds LeavesPlain (resolve_activity_lease_target core w false request) _ _
        (λ code. refl) (λ bot. after_release-LeavesPlain _ bot _ _)

  run_operation-records :
      (print_float : ℕ → Bytes) (op : Operation) (request : Request)
      → is_some (run_operation core print_float op w request).1.recovery_audit
        ≡ is_recover_operation op
  unfolding run_operation is_recover_operation build_status_response build_recover_response
      record_response build_gm_command_response build_reload_config_response success
  run_operation-records print_float Operation.status request = refl
  run_operation-records print_float Operation.list request = ap is_some (list-IsPlain request)
  run_operation-records print_float Operation.inspect request = ap is_some (inspect-IsPlain request)
  run_operation-records print_float Operation.anomalies request =
      ap is_some (anomalies-IsPlain request)
  run_operation-records print_float Operation.check request = ap is_some (check-IsPlain request)
  run_operation-records print_float Operation.command request =
      ap is_some (command-LeavesPlain request)
  run_operation-records print_float Operation.recover request = refl
  run_operation-records print_float Operation.set_skill request =
      ap is_some (set_skill-LeavesPlain request)
  run_operation-records print_float Operation.teleport_to_game_object request =
      ap is_some (teleport-LeavesPlain request)
  run_operation-records print_float Operation.hold_activity request =
      ap is_some (hold-LeavesPlain request)
  run_operation-records print_float Operation.inspect_activity_lease request =
      ap is_some (inspect_lease-LeavesPlain request)
  run_operation-records print_float Operation.release_activity request =
      ap is_some (release-LeavesPlain request)
  run_operation-records print_float Operation.gm_command request = refl
  run_operation-records print_float Operation.reload_config request = refl

  -- The world thread attaches a record to its response if and only if the request is a recovery.
  pub execute_verification-records :
      (print_float : ℕ → Bytes) (request : Request)
      → RecordsRecovery request (execute_verification core print_float w request).1
  unfolding execute_verification
  execute_verification-records print_float request =
      run_operation-records print_float request.operation request
