-- ===== src/Protocol/Requests/Check.antt =====
-- `ParseCheck`: the condition of a check, with the fields that it wants.
use mod_playerbots_mcp.Base.{
  Bool, true, false, ◌&&◌, ◌||◌, not, List, [], ◌∷◌, Option, none, some, Bytes, bytes,
  if◌then◌else◌, is_empty, insert, lookup, value_or, str_eq, contains,
}
use mod_playerbots_mcp.Protocol.Json.Objects.{FlatJsonFields}
use mod_playerbots_mcp.Protocol.Requests.Fields.{
  has_field, has_exact_fields, unsigned_field, string_field, store_uint32, common_fields,
}
use mod_playerbots_mcp.Protocol.Requests.Outcome.{
  Outcome, accepted, require, or_reject, ◌>>=◌, ◌>>◌,
}
use mod_playerbots_mcp.Protocol.Types.{Request, malformed_request, invalid_condition}

-- The fields that a condition requires besides the bot and itself, and those that it allows; `none`
-- for an unknown condition.
unfoldable pub condition_fields : Bytes → Option (List Bytes × List Bytes)
condition_fields condition =
    if str_eq condition (bytes "transport_attached")
    then some ([], bytes "transportEntry" ∷ [])
    else if str_eq condition (bytes "transport_detached")
    then some ([], [])
    else if str_eq condition (bytes "map")
    then some (bytes "mapId" ∷ [], [])
    else if str_eq condition (bytes "action")
    then some (bytes "afterSequence" ∷ bytes "actionName" ∷ bytes "actionResult" ∷ [], [])
    else if str_eq condition (bytes "profession_skill")
    then some (bytes "skillId" ∷ bytes "minimumValue" ∷ [], [])
    else if str_eq condition (bytes "inventory")
    then some (bytes "itemId" ∷ bytes "minimumCount" ∷ [], [])
    else if str_eq condition (bytes "money_at_most")
    then some (bytes "maximumCopper" ∷ [], [])
    else if str_eq condition (bytes "money_decrease")
    then some (bytes "baselineCopper" ∷ [], [])
    else if str_eq condition (bytes "known_recipe")
    then some (bytes "spellId" ∷ [], [])
    else if str_eq condition (bytes "economy")
    then some (bytes "afterSequence" ∷ bytes "economyOutcome" ∷ [], [])
    else none

-- `if (test && !StoreUInt32(...)) return InvalidCondition`.
unfoldable pub store_if : Bool → FlatJsonFields → Bytes → Bool → Request → Outcome Request
store_if test fields name allow_zero request =
    if test
    then or_reject (store_uint32 request fields name allow_zero) invalid_condition
    else accepted request

-- The uint32 fields of the conditions that have some.
unfoldable pub store_condition_numbers : Bytes → FlatJsonFields → Request → Outcome Request
store_condition_numbers condition fields request = do
  let is = λ (name : Bytes). str_eq condition name
  r₁ ←
      store_if (is (bytes "transport_attached") && has_field fields (bytes "transportEntry")) fields
        (bytes "transportEntry") false request
  r₂ ← store_if (is (bytes "map")) fields (bytes "mapId") true r₁
  r₃ ← store_if (is (bytes "profession_skill")) fields (bytes "skillId") false r₂
  r₄ ← store_if (is (bytes "profession_skill")) fields (bytes "minimumValue") true r₃
  r₅ ← store_if (is (bytes "inventory")) fields (bytes "itemId") false r₄
  r₆ ← store_if (is (bytes "inventory")) fields (bytes "minimumCount") true r₅
  store_if (is (bytes "known_recipe")) fields (bytes "spellId") false r₆

-- The loop over the uint64 fields.
unfoldable pub store_uint64s : List Bytes → FlatJsonFields → Request → Outcome Request
store_uint64s [] fields request = accepted request
store_uint64s (name ∷ names) fields request =
    if has_field fields name
    then (do
      value ← or_reject (unsigned_field fields name) invalid_condition
      store_uint64s names fields (record request { numbers = insert name value request.numbers }))
    else store_uint64s names fields request

-- The loop over the string fields.
unfoldable pub store_texts : List Bytes → FlatJsonFields → Request → Outcome Request
store_texts [] fields request = accepted request
store_texts (name ∷ names) fields request =
    if has_field fields name
    then (do
      value ← or_reject (string_field fields name) invalid_condition
      require (not (is_empty value)) invalid_condition
      store_texts names fields (record request { strings = insert name value request.strings }))
    else store_texts names fields request

abbrev pub action_results : List Bytes
action_results = bytes "success" ∷ bytes "failure" ∷ bytes "either" ∷ []

abbrev pub economy_outcomes : List Bytes
economy_outcomes =
    bytes "scheduled"
    ∷ bytes "operation"
    ∷ bytes "no_candidate"
    ∷ bytes "failed_precondition"
    ∷ bytes "released"
    ∷ bytes "blocked"
    ∷ bytes "quarantined"
    ∷ []

-- `request.strings[name]`, one of the words that are known.
unfoldable pub word_is_known : Request → Bytes → List Bytes → Bool
word_is_known request name words = contains (value_or [] (lookup name request.strings)) words

unfoldable pub parse_check : FlatJsonFields → Request → Outcome Request
parse_check fields request = do
  condition ← or_reject (string_field fields (bytes "condition")) invalid_condition
  (required, optional) ← or_reject (condition_fields condition) invalid_condition
  require
      (has_exact_fields fields (common_fields (bytes "botGuid" ∷ bytes "condition" ∷ required))
        optional)
      malformed_request
  r₁ ← store_condition_numbers condition fields (record request { condition = condition })
  r₂ ←
      store_uint64s (bytes "afterSequence" ∷ bytes "maximumCopper" ∷ bytes "baselineCopper" ∷ [])
        fields r₁
  r₃ ←
      store_texts (bytes "actionName" ∷ bytes "actionResult" ∷ bytes "economyOutcome" ∷ []) fields
        r₂
  require
      (not (str_eq condition (bytes "action"))
        || word_is_known r₃ (bytes "actionResult") action_results)
      invalid_condition
  require
      (not (str_eq condition (bytes "economy"))
        || word_is_known r₃ (bytes "economyOutcome") economy_outcomes)
      invalid_condition
  accepted r₃
