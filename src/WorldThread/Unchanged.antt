-- ===== src/WorldThread/Unchanged.antt =====
-- What an operation that is answered by an error leaves of the world.
use mod_playerbots_mcp.Base.{
  ℕ, ◌%◌, ◌^◌, ◌≡◌, refl, ◌⊎◌, inl, inr, true, false, none, some, subst, sym, Bytes, bytes,
  Bool-cases,
}
use mod_playerbots_mcp.Conditions.{request_number, request_string}
use mod_playerbots_mcp.Protocol.Responses.{Response, success}
use mod_playerbots_mcp.Protocol.Types.{Request, Operation}
use mod_playerbots_mcp.WorldThread.Command.{command_bot, build_command_response, is_pointer}
use mod_playerbots_mcp.WorldThread.Core.{
  Core, Player, Spawn, LeaseState, AcquireOutcome, acquired, renewed, acquire_conflict,
  acquire_invalid, ReleaseOutcome, released, already_inactive, release_conflict, release_invalid,
}
use mod_playerbots_mcp.WorldThread.Execute.{run_operation, execute_verification}
use mod_playerbots_mcp.WorldThread.Console.{build_gm_command_response, build_reload_config_response}
use mod_playerbots_mcp.WorldThread.GameObjects.{
  teleport_near, teleport_bot, cannot_teleport, nearest_loop, build_teleport_response,
}
use mod_playerbots_mcp.WorldThread.Leases.{
  target, resolve_activity_lease_target, lease_token, held_response, hold_bot,
  build_hold_activity_response, inspect_bot_lease, build_inspect_activity_lease_response,
  released_response, after_release, release_bot, build_release_activity_response,
}
use mod_playerbots_mcp.WorldThread.Recovery.{build_recover_response, record_response}
use mod_playerbots_mcp.WorldThread.Rules.{
  if-holds, option-holds, target-holds, option-holds_at, target-holds_at,
}
use mod_playerbots_mcp.WorldThread.Skills.{number16, set_bot_skill, build_set_skill_response}
use mod_playerbots_mcp.WorldThread.Status.{find_bot}

-- What the core says where it refuses a lease itself.
abbrev pub RefusesHold : AcquireOutcome → Type 0
RefusesHold outcome = (outcome ≡ acquire_conflict) ⊎ (outcome ≡ acquire_invalid)

abbrev pub RefusesRelease : ReleaseOutcome → Type 0
RefusesRelease outcome = (outcome ≡ release_conflict) ⊎ (outcome ≡ release_invalid)

module _ (core : Core) (w : core.World) where
  -- The core's calls for a lease, as the handlers make them.
  abbrev held : Request → Player → core.World × AcquireOutcome × LeaseState
  held request bot =
      let (w₁, token) = lease_token core w request in
      core.hold_lease w₁ bot token (request_number request (bytes "durationSeconds") % 2 ^ 32)
        (core.game_time w₁)

  abbrev let_go : Request → Player → core.World × ReleaseOutcome
  let_go request bot =
      core.release_lease w bot (request_string request (bytes "leaseToken")) (core.game_time w)

  -- How an error leaves the world: as it was, or as the one call of the core that refused the request
  -- has left it. That is a teleport of the bot, a hold of its lease under the token that was given or
  -- drawn, or a release of its lease under the token that was given.
  pub data ErrorLeaves (request : Request) : core.World → Type 0 where
    untouched : ErrorLeaves request w
    refused_teleport :
        (bot : Player) (s : Spawn)
        → find_bot core w request.bot_guid ≡ some bot
        → (teleport_near core w bot s).1 ≡ false
        → ErrorLeaves request (teleport_near core w bot s).0
    refused_hold :
        (bot : Player)
        → resolve_activity_lease_target core w true request ≡ target bot
        → RefusesHold (held request bot).1
        → ErrorLeaves request (held request bot).0
    refused_release :
        (bot : Player)
        → resolve_activity_lease_target core w false request ≡ target bot
        → RefusesRelease (let_go request bot).1
        → ErrorLeaves request (let_go request bot).0

  abbrev pub FailsCleanly : Request → core.World × Response → Type 0
  FailsCleanly request (w', r) = r.ok ≡ false → ErrorLeaves request w'

  -- The same, of a handler that asks the core for nothing.
  abbrev FailsInPlace : core.World × Response → Type 0
  FailsInPlace (w', r) = r.ok ≡ false → w' ≡ w

  succeeds-FailsInPlace : (w' : core.World) (text : Bytes) → FailsInPlace (w', success text)
  unfolding success
  succeeds-FailsInPlace w' text h = cc

  command_bot-FailsInPlace :
      (command : Bytes) (bot master : Player) → FailsInPlace (command_bot core w command bot master)
  unfolding command_bot
  command_bot-FailsInPlace command bot master =
      if-holds FailsInPlace (core.has_ai w master) _ _ (λ h. refl)
        (if-holds FailsInPlace (is_pointer (core.master w bot) master) _ _
          (succeeds-FailsInPlace _ _) (λ h. refl))

  command-FailsInPlace : (request : Request) → FailsInPlace (build_command_response core w request)
  unfolding build_command_response
  command-FailsInPlace request =
      option-holds FailsInPlace (find_bot core w request.bot_guid) _ _ (λ h. refl)
        λ bot.
          option-holds FailsInPlace (core.find_player w request.master_guid) _ _ (λ h. refl)
            (command_bot-FailsInPlace request.command bot)

  set_skill-FailsInPlace :
      (request : Request) → FailsInPlace (build_set_skill_response core w request)
  unfolding build_set_skill_response set_bot_skill
  set_skill-FailsInPlace request =
      option-holds FailsInPlace (find_bot core w request.bot_guid) _ _ (λ h. refl)
        λ bot.
          if-holds FailsInPlace (core.has_skill w bot (number16 request (bytes "skillId"))) _ _
            (succeeds-FailsInPlace _ _) (λ h. refl)

  in_place :
      (request : Request) (p : core.World × Response) → FailsInPlace p → FailsCleanly request p
  in_place request p h failed = subst (ErrorLeaves request) (sym (h failed)) untouched

  teleport_bot-FailsCleanly :
      (request : Request) (bot : Player) (entry : ℕ) (found : Spawn × ℕ)
      → find_bot core w request.bot_guid ≡ some bot
      → FailsCleanly request (teleport_bot core w bot entry found)
  unfolding teleport_bot success
  teleport_bot-FailsCleanly request bot entry (s, d) named =
      elim (Bool-cases (teleport_near core w bot s).1) [
        | inl accepted ↦ rw (accepted, teleport_bot) (λ h. cc)
        | inr rejected ↦ rw (rejected, teleport_bot) (λ h. refused_teleport bot s named rejected)
      ]

  teleport-FailsCleanly :
      (request : Request) → FailsCleanly request (build_teleport_response core w request)
  unfolding build_teleport_response
  teleport-FailsCleanly request =
      option-holds_at (FailsCleanly request) (find_bot core w request.bot_guid) _ _ (λ h. untouched)
        λ bot named.
          let entry = request_number request (bytes "gameObjectEntry") % 2 ^ 32 in
          if-holds (FailsCleanly request) (cannot_teleport core w bot) _ _ (λ h. untouched)
            (option-holds (FailsCleanly request)
              (nearest_loop core w bot entry (core.game_objects w) none) _ _ (λ h. untouched)
              λ found. teleport_bot-FailsCleanly request bot entry found named)

  after_release-FailsCleanly :
      (request : Request) (w₁ : core.World) (bot : Player) (now : ℕ) (outcome : ReleaseOutcome)
      → (RefusesRelease outcome → ErrorLeaves request w₁)
      → FailsCleanly request (after_release core w₁ bot now outcome)
  unfolding after_release released_response success
  after_release-FailsCleanly request w₁ bot now release_conflict h = λ failed. h (inl refl)
  after_release-FailsCleanly request w₁ bot now release_invalid h = λ failed. h (inr refl)
  after_release-FailsCleanly request w₁ bot now released h = λ failed. cc
  after_release-FailsCleanly request w₁ bot now already_inactive h = λ failed. cc

  release-FailsCleanly :
      (request : Request) → FailsCleanly request (build_release_activity_response core w request)
  unfolding build_release_activity_response release_bot
  release-FailsCleanly request =
      target-holds_at (FailsCleanly request) (resolve_activity_lease_target core w false request) _
        _ (λ code failed. untouched)
        λ bot named. after_release-FailsCleanly request _ bot _ _ (refused_release bot named)

  held_response-refuses :
      (w₁ : core.World) (bot : Player) (now : ℕ) (state : LeaseState) (outcome : AcquireOutcome)
      → (held_response core w₁ bot now state outcome).ok ≡ false
      → RefusesHold outcome
  unfolding held_response success
  held_response-refuses w₁ bot now state acquire_conflict failed = inl refl
  held_response-refuses w₁ bot now state acquire_invalid failed = inr refl
  held_response-refuses w₁ bot now state acquired failed = cc
  held_response-refuses w₁ bot now state renewed failed = cc

  hold-FailsCleanly :
      (request : Request) → FailsCleanly request (build_hold_activity_response core w request)
  unfolding build_hold_activity_response hold_bot
  hold-FailsCleanly request =
      target-holds_at (FailsCleanly request) (resolve_activity_lease_target core w true request) _ _
        (λ code failed. untouched)
        λ bot named failed. refused_hold bot named (held_response-refuses _ bot _ _ _ failed)

  inspect_lease-FailsInPlace :
      (request : Request) → FailsInPlace (build_inspect_activity_lease_response core w request)
  unfolding build_inspect_activity_lease_response inspect_bot_lease success
  inspect_lease-FailsInPlace request =
      target-holds FailsInPlace (resolve_activity_lease_target core w false request) _ _
        (λ code failed. refl) (λ bot failed. cc)

  run_operation-FailsCleanly :
      (print_float : ℕ → Bytes) (op : Operation) (request : Request)
      → FailsCleanly request (run_operation core print_float op w request)
  unfolding run_operation build_gm_command_response build_reload_config_response
      build_recover_response record_response success
  run_operation-FailsCleanly print_float Operation.status request = λ h. untouched
  run_operation-FailsCleanly print_float Operation.list request = λ h. untouched
  run_operation-FailsCleanly print_float Operation.inspect request = λ h. untouched
  run_operation-FailsCleanly print_float Operation.anomalies request = λ h. untouched
  run_operation-FailsCleanly print_float Operation.check request = λ h. untouched
  run_operation-FailsCleanly print_float Operation.command request =
      in_place request (build_command_response core w request) (command-FailsInPlace request)
  run_operation-FailsCleanly print_float Operation.recover request = λ h. cc
  run_operation-FailsCleanly print_float Operation.set_skill request =
      in_place request (build_set_skill_response core w request) (set_skill-FailsInPlace request)
  run_operation-FailsCleanly print_float Operation.teleport_to_game_object request =
      teleport-FailsCleanly request
  run_operation-FailsCleanly print_float Operation.hold_activity request = hold-FailsCleanly request
  run_operation-FailsCleanly print_float Operation.inspect_activity_lease request =
      in_place request (build_inspect_activity_lease_response core w request)
        (inspect_lease-FailsInPlace request)
  run_operation-FailsCleanly print_float Operation.release_activity request =
      release-FailsCleanly request
  run_operation-FailsCleanly print_float Operation.gm_command request = λ h. cc
  run_operation-FailsCleanly print_float Operation.reload_config request = λ h. cc

  -- An operation that the world thread answers by an error has left the world as it was, or as the
  -- one call of the core that refused it has left it: a teleport of the bot that was not accepted, or
  -- a hold or a release of the target's lease that was in conflict or invalid. Nothing else is done
  -- before or behind that call, but for the random numbers of a token that a hold has drawn. Answers
  -- that are not errors, as a recovery's record of its failure, are not covered, nor is an operation
  -- that throws.
  pub execute_verification-ErrorLeaves :
      (print_float : ℕ → Bytes) (request : Request)
      → (execute_verification core print_float w request).1.ok ≡ false
      → ErrorLeaves request (execute_verification core print_float w request).0
  unfolding execute_verification
  execute_verification-ErrorLeaves print_float request =
      run_operation-FailsCleanly print_float request.operation request
