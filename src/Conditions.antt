-- ===== src/Conditions.antt =====
-- `EvaluateVerificationCondition` of src/Bot/MCP/PlayerbotVerificationOperation.cpp and its helpers. Of
-- what the inspector gives, the records here have the fields that the code reads.
pub mod History
use mod_playerbots_mcp.Base.{
  ℕ, Bool, true, false, ◌&&◌, ◌||◌, not, List, [], ◌∷◌, Option, none, some, Bytes, bytes, any, take,
  ltb, leb, ◌==◌, if◌then◌else◌, value_or, lookup, str_eq,
}
use mod_playerbots_mcp.Protocol.Types.{Request}

pub data EconomyOutcome : Type 0 where
  scheduled operation no_candidate failed_precondition released blocked : EconomyOutcome
  quarantined unavailable : EconomyOutcome

-- One attempt of the history. `action_name` is the whole character array.
pub record Attempt : Type 0 where
  pub sequence : ℕ
  pub action_name : Bytes
  pub name_truncated : Bool
  pub success : Bool

pub record Skill : Type 0 where
  pub id : ℕ
  pub value : ℕ

pub record Item : Type 0 where
  pub item_id : ℕ
  pub count : ℕ

pub record Inspection : Type 0 where
  pub transport_attached : Bool
  pub transport_entry : ℕ
  pub map_id : ℕ
  pub money_copper : ℕ
  pub known_recipe_spell_ids : List ℕ
  pub skills : List Skill
  pub inventory : List Item
  pub history_count : ℕ
  pub attempts : List Attempt
  pub economy_sequence : ℕ
  pub economy_outcome : EconomyOutcome

-- `RequestNumber`, with its fallback of 0.
unfoldable pub request_number : Request → Bytes → ℕ
request_number request name = value_or 0 (lookup name request.numbers)

-- `RequestString`.
unfoldable pub request_string : Request → Bytes → Bytes
request_string request name = value_or [] (lookup name request.strings)

-- `ActionAttemptName`: the array up to its first zero, by `strnlen`.
unfoldable pub up_to_zero : Bytes → Bytes
up_to_zero [] = []
up_to_zero (c ∷ cs) = let rest = up_to_zero cs in if c == 0 then [] else c ∷ rest

-- `ActionAttemptNameMatches`.
unfoldable pub action_attempt_name_matches : Attempt → Bytes → Bool
action_attempt_name_matches attempt requested =
    if attempt.name_truncated then false else str_eq (up_to_zero attempt.action_name) requested

-- `EconomyOutcomeToken`.
unfoldable pub economy_outcome_token : EconomyOutcome → Bytes
economy_outcome_token EconomyOutcome.scheduled = bytes "scheduled"
economy_outcome_token EconomyOutcome.operation = bytes "operation"
economy_outcome_token EconomyOutcome.no_candidate = bytes "no_candidate"
economy_outcome_token EconomyOutcome.failed_precondition = bytes "failed_precondition"
economy_outcome_token EconomyOutcome.released = bytes "released"
economy_outcome_token EconomyOutcome.blocked = bytes "blocked"
economy_outcome_token EconomyOutcome.quarantined = bytes "quarantined"
economy_outcome_token EconomyOutcome.unavailable = bytes "unavailable"

-- `==` of two Booleans.
abbrev pub same_bool : Bool → Bool → Bool
same_bool true b = b
same_bool false b = not b

-- `find_if` by id, and the test of what was found.
unfoldable pub find_skill : ℕ → List Skill → Option Skill
find_skill id [] = none
find_skill id (s ∷ skills) = let rest = find_skill id skills in if s.id == id then some s else rest

unfoldable pub find_item : ℕ → List Item → Option Item
find_item id [] = none
find_item id (i ∷ items) = let rest = find_item id items in if i.item_id == id then some i else rest

-- The loop over the history.
unfoldable pub some_attempt : ℕ → Bytes → Bytes → List Attempt → Bool
some_attempt after_sequence name result [] = false
some_attempt after_sequence name result (a ∷ attempts) =
    let rest = some_attempt after_sequence name result attempts in
    if leb a.sequence after_sequence || not (action_attempt_name_matches a name)
    then rest
    else if str_eq result (bytes "either") || same_bool (str_eq result (bytes "success")) a.success
    then true
    else rest

unfoldable pub evaluate_transport : Inspection → Request → Bool
evaluate_transport i request =
    if i.transport_attached
    then (let entry = request_number request (bytes "transportEntry") in
        entry == 0 || i.transport_entry == entry)
    else false

unfoldable pub evaluate_skill : Inspection → Request → Bool
evaluate_skill i request = elim (find_skill (request_number request (bytes "skillId")) i.skills) [
  | none ↦ false
  | some s ↦ leb (request_number request (bytes "minimumValue")) s.value
]

unfoldable pub evaluate_inventory : Inspection → Request → Bool
evaluate_inventory i request =
    elim (find_item (request_number request (bytes "itemId")) i.inventory) [
      | none ↦ false
      | some item ↦ leb (request_number request (bytes "minimumCount")) item.count
    ]

unfoldable pub evaluate_action : Inspection → Request → Bool
evaluate_action i request =
    some_attempt (request_number request (bytes "afterSequence"))
      (request_string request (bytes "actionName")) (request_string request (bytes "actionResult"))
      (take i.history_count i.attempts)

unfoldable pub evaluate_economy : Inspection → Request → Bool
evaluate_economy i request =
    if leb i.economy_sequence (request_number request (bytes "afterSequence"))
    then false
    else str_eq (economy_outcome_token i.economy_outcome)
        (request_string request (bytes "economyOutcome"))

unfoldable pub evaluate_verification_condition : Inspection → Request → Bool
evaluate_verification_condition i request =
    let condition = request.condition in
    if str_eq condition (bytes "transport_attached")
    then evaluate_transport i request
    else if str_eq condition (bytes "transport_detached")
    then not i.transport_attached
    else if str_eq condition (bytes "map")
    then i.map_id == request_number request (bytes "mapId")
    else if str_eq condition (bytes "money_at_most")
    then leb i.money_copper (request_number request (bytes "maximumCopper"))
    else if str_eq condition (bytes "money_decrease")
    then ltb i.money_copper (request_number request (bytes "baselineCopper"))
    else if str_eq condition (bytes "known_recipe")
    then any (λ id. id == request_number request (bytes "spellId")) i.known_recipe_spell_ids
    else if str_eq condition (bytes "profession_skill")
    then evaluate_skill i request
    else if str_eq condition (bytes "inventory")
    then evaluate_inventory i request
    else if str_eq condition (bytes "action")
    then evaluate_action i request
    else if str_eq condition (bytes "economy")
    then evaluate_economy i request
    else false
