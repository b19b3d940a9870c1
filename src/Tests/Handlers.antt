-- ===== src/Tests/Handlers.antt =====
-- The handlers of the world thread in a small world.
use mod_playerbots_mcp.Base.{
  ℕ, ◌≡◌, ◌≤◌, ◌<◌, ◌+◌, ◌^◌, arith, ◌⊎◌, ◌↔◌, refl, inl, true, false, [], ◌∷◌, none, some, bytes,
  concat, length, take, str_eq, lookup,
}
use mod_playerbots_mcp.Conditions.{request_number}
use mod_playerbots_mcp.Handoff.{executed_response}
use mod_playerbots_mcp.Handoff.Dispatch.{Calls}
use mod_playerbots_mcp.Protocol.Paging.{sort}
use mod_playerbots_mcp.Protocol.Print.{to_string}
use mod_playerbots_mcp.Protocol.Requests.Payload.Admits.{Admits}
use mod_playerbots_mcp.Protocol.Responses.{success, failure}
use mod_playerbots_mcp.Protocol.Requests.Fields.{is_activity_lease_token}
use mod_playerbots_mcp.Protocol.Types.{
  Request, new_request, anomalies, command, hold_activity, set_skill, bot_not_found,
}
use mod_playerbots_mcp.Server.{handle_payload}
use mod_playerbots_mcp.Server.Audits.{lines, lines_due}
use mod_playerbots_mcp.Tests.Connections.{serving}
use mod_playerbots_mcp.Tests.Payloads.{
  digest, secret, recover_payload, recover_request, parse_request_payload-recover,
}
use mod_playerbots_mcp.Tests.Worlds.{small_core, far_node, near_node, other_node, whole_numbers}
use mod_playerbots_mcp.WorldThread.Anomalies.{anomalies_text, build_anomalies_response}
use mod_playerbots_mcp.WorldThread.Anomalies.Collected.{
  anomalies_of, CountsItsOwn, build_anomalies_response-first,
}
use mod_playerbots_mcp.WorldThread.Command.{build_command_response}
use mod_playerbots_mcp.WorldThread.Command.Relation.{MayCommand, build_command_response-ok_iff}
use mod_playerbots_mcp.WorldThread.Console.{print_all}
use mod_playerbots_mcp.WorldThread.Console.Output.{sink_limit, print_all_first}
use mod_playerbots_mcp.WorldThread.Core.{Core, Player}
use mod_playerbots_mcp.WorldThread.Execute.{run_operation, execute_verification}
use mod_playerbots_mcp.WorldThread.GameObjects.{nearest_loop, closer, is_candidate, distance_to}
use mod_playerbots_mcp.WorldThread.GameObjects.Nearest.{IsOrder, IsNearest, nearest_loop-IsNearest}
use mod_playerbots_mcp.WorldThread.Leases.{
  lease_token, build_hold_activity_response, resolve_activity_lease_target, check_target,
  check_random, hold_bot, held_response,
}
use mod_playerbots_mcp.WorldThread.Leases.Tokens.{lease_token-admitted}
use mod_playerbots_mcp.WorldThread.Served.{
  default_handler, WaitsForExecute, handle_payload-default_handler_audits,
}
use mod_playerbots_mcp.WorldThread.Skills.{build_set_skill_response, set_bot_skill, number16}
use mod_playerbots_mcp.WorldThread.Skills.Narrowing.{
  with_low_skill_id, sets_low_skill, build_set_skill_response-admitted,
  build_set_skill_response-aliases,
}
use mod_playerbots_mcp.WorldThread.Status.{find_bot, bot_guids}
use mod_playerbots_mcp.WorldThread.Unchanged.{ErrorLeaves, execute_verification-ErrorLeaves}

-- The world thread answers a recovery request in time.
abbrev pub in_time : Request → Calls
in_time request = record {
  is_accepting = true;
  queue_operation = true;
  first_wait = some (
      executed_response to_string 1000 request
        (some (execute_verification small_core to_string 0 request).1));
  abandon_wins = false;
  second_wait = none;
}

pub in_time-waits : WaitsForExecute small_core to_string in_time
in_time-waits = record { first = λ request r e. inl (1000, 0, cc e); second = λ request r e. cc e }

handle_payload-default_handler_audits_example :
    lines (
      handle_payload digest to_string
        (record serving { handler = default_handler to_string 1000 in_time })
        secret
        recover_payload)
    ≡ lines_due recover_request.operation
handle_payload-default_handler_audits_example =
    handle_payload-default_handler_audits small_core to_string digest serving 1000 in_time secret
      recover_payload recover_request in_time-waits parse_request_payload-recover

-- Without a master the bot could be held, but another lease is in the way.
abbrev masterless_core : Core
masterless_core = record small_core { master = λ w p. none }

abbrev hold_request : Request
hold_request = record new_request {
  operation = hold_activity;
  bot_guid = 7;
  numbers = (bytes "durationSeconds", 60) ∷ [];
}

hold_request-fails : (execute_verification masterless_core to_string 3 hold_request).1.ok ≡ false
unfolding execute_verification run_operation build_hold_activity_response
    resolve_activity_lease_target check_target check_random hold_bot held_response failure
hold_request-fails = refl

execute_verification-ErrorLeaves_example :
    ErrorLeaves masterless_core 3 hold_request
      (execute_verification masterless_core to_string 3 hold_request).0
execute_verification-ErrorLeaves_example =
    execute_verification-ErrorLeaves masterless_core 3 to_string hold_request hold_request-fails

lease_token-admitted_example :
    is_activity_lease_token (lease_token small_core 3 hold_request).1 ≡ true
unfolding lookup str_eq
lease_token-admitted_example =
    lease_token-admitted small_core 3 hold_request
      ((omega arith, omega arith), omega arith, omega arith, inl refl)

-- Herbalism, and an id that is 65536 above it.
abbrev skill_request : ℕ → Request
skill_request id = record new_request {
  operation = set_skill;
  bot_guid = 7;
  numbers = (bytes "skillId", id) ∷ (bytes "value", 70) ∷ (bytes "maximum", 75) ∷ [];
}

skill_request-admitted : Admits set_skill (skill_request 186)
unfolding lookup str_eq
skill_request-admitted = omega arith

build_set_skill_response-admitted_example :
    build_set_skill_response small_core 3 (skill_request 186) ≡ elim (find_bot small_core 3 7) [
      | none ↦ (3, failure bot_not_found [])
      | some bot ↦ sets_low_skill small_core 3 (skill_request 186) bot
    ]
build_set_skill_response-admitted_example =
    build_set_skill_response-admitted small_core 3 (skill_request 186) skill_request-admitted

build_set_skill_response-aliases_example :
    build_set_skill_response small_core 3 (skill_request 65722)
    ≡ build_set_skill_response small_core 3 (with_low_skill_id (skill_request 65722))
build_set_skill_response-aliases_example =
    build_set_skill_response-aliases small_core 3 (skill_request 65722)

-- The alias sets herbalism.
aliased_skill :
    (build_set_skill_response small_core 3 (skill_request 65722)).0
    ≡ small_core.set_skill 3 70 186 1 70 75
unfolding build_set_skill_response set_bot_skill number16 find_bot request_number lookup str_eq
aliased_skill = refl

ltb-IsOrder : IsOrder whole_numbers.less (λ a. Unit {0})
ltb-IsOrder = record {
  irreflexive = λ a h. ground arith;
  asymmetric = λ a b h. ground arith;
  not_less_trans = λ a b c h k l p q. ground arith;
}

nearest_loop-IsNearest_example :
    IsNearest small_core 3 70 5
      (far_node ∷ near_node ∷ other_node ∷ [])
      (nearest_loop small_core 3 70 5 (far_node ∷ near_node ∷ other_node ∷ []) none)
nearest_loop-IsNearest_example =
    nearest_loop-IsNearest small_core 3 70 5 (λ a. Unit) ltb-IsOrder (λ s. tt)
      (far_node ∷ near_node ∷ other_node ∷ [])

nearest_node :
    nearest_loop small_core 3 70 5 (far_node ∷ near_node ∷ other_node ∷ []) none
    ≡ some (near_node, 3)
unfolding nearest_loop closer is_candidate distance_to
nearest_node = refl

abbrev anomalies_request : Request
anomalies_request = record new_request { operation = anomalies; limit = 1 }

small_core-CountsItsOwn : CountsItsOwn small_core 3
small_core-CountsItsOwn bot now = omega arith

small_core-few :
    length (anomalies_of small_core 3 1000 (sort (bot_guids small_core 3 (small_core.players 3))))
    < 2 ^ 64
unfolding sort bot_guids find_bot
small_core-few = omega arith

build_anomalies_response-first_example :
    build_anomalies_response small_core 3 anomalies_request
    ≡ success (
        anomalies_text small_core
          (length (sort (bot_guids small_core 3 (small_core.players 3))))
          (take 1
            (anomalies_of small_core 3 1000 (sort (bot_guids small_core 3 (small_core.players 3)))))
          (length (
            anomalies_of small_core 3 1000 (sort (bot_guids small_core 3 (small_core.players 3))))))
build_anomalies_response-first_example =
    build_anomalies_response-first small_core 3 anomalies_request small_core-CountsItsOwn
      (omega arith, omega arith) small_core-few

print_all_first_example :
    (n : ℕ) × (print_all [] (bytes "ab" ∷ bytes "c" ∷ [])
      ≡ concat (take n (bytes "ab" ∷ bytes "c" ∷ [])))
    × ((2 ≤ n) ⊎ (sink_limit ≤ length (print_all [] (bytes "ab" ∷ bytes "c" ∷ []))))
    × (length (print_all [] (bytes "ab" ∷ bytes "c" ∷ [])) < sink_limit + 2)
print_all_first_example = print_all_first 2 (bytes "ab" ∷ bytes "c" ∷ []) (omega arith)

abbrev command_request : Request
command_request = record new_request {
  operation = command;
  bot_guid = 7;
  master_guid = 8;
  command = bytes "follow";
}

build_command_response-ok_iff_example :
    ((build_command_response small_core 3 command_request).1.ok ≡ true) ↔ (
      (bot : Player) × (master : Player) × MayCommand small_core 3 command_request bot master
      × ((build_command_response small_core 3 command_request).0
          ≡ small_core.handle_command 3 bot (bytes "follow") master))
build_command_response-ok_iff_example = build_command_response-ok_iff small_core 3 command_request
