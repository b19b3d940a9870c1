-- ===== src/Tests/Checks.antt =====
-- A check of the action history.
use mod_playerbots_mcp.Base.{
  ◌≡◌, ◌++◌, ◌∷◌, ◌↔◌, refl, true, false, [], List, bytes, take, str_eq, lookup,
}
use mod_playerbots_mcp.Conditions.{
  Attempt, Inspection, scheduled, request_number, request_string, evaluate_verification_condition,
  evaluate_action, some_attempt, action_attempt_name_matches, up_to_zero,
}
use mod_playerbots_mcp.Conditions.History.{Meets, evaluate-action_iff}
use mod_playerbots_mcp.Protocol.Types.{Request, Operation, new_request}

abbrev attempt : Attempt
attempt = record {
  sequence = 12;
  action_name = bytes "mine" ++ 0 ∷ bytes "xx";
  name_truncated = false;
  success = true;
}

abbrev inspection : Inspection
inspection = record {
  transport_attached = false;
  transport_entry = 0;
  map_id = 1;
  money_copper = 30;
  known_recipe_spell_ids = [];
  skills = [];
  inventory = [];
  history_count = 1;
  attempts = attempt ∷ [];
  economy_sequence = 0;
  economy_outcome = scheduled;
}

abbrev request : Request
request = record new_request {
  operation = Operation.check;
  condition = bytes "action";
  numbers = (bytes "afterSequence", 11) ∷ [];
  strings = (bytes "actionName", bytes "mine") ∷ (bytes "actionResult", bytes "success") ∷ [];
}

evaluate-action_iff_example : (evaluate_verification_condition inspection request ≡ true) ↔ (
    (before : List Attempt) × (a : Attempt) × (after : List Attempt) × (take
        inspection.history_count inspection.attempts
      ≡ before ++ a ∷ after)
    × Meets
        (request_number request (bytes "afterSequence"))
        (request_string request (bytes "actionName"))
        (request_string request (bytes "actionResult"))
        a)
evaluate-action_iff_example = evaluate-action_iff inspection request refl

is_met : evaluate_verification_condition inspection request ≡ true
unfolding evaluate_verification_condition str_eq evaluate_action some_attempt request_number lookup
    action_attempt_name_matches up_to_zero request_string
is_met = refl
