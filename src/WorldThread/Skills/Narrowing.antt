-- ===== src/WorldThread/Skills/Narrowing.antt =====
-- What the casts to uint16 do to a request that the parser has admitted.
use mod_playerbots_mcp.Base.{
  ◌≡◌, ◌/◌, ◌%◌, ◌^◌, refl, [], none, some, Bytes, bytes, insert, lookup, value_or, lookup-insert,
  if◌then◌else◌, str_eq, str_eq→eq, str_eq_self, arith, Bool-cases, Option-cases, inl, inr,
}
use mod_playerbots_mcp.Conditions.{request_number}
use mod_playerbots_mcp.Protocol.Requests.Payload.Admits.{Admits}
use mod_playerbots_mcp.Protocol.Responses.{Response, success, failure}
use mod_playerbots_mcp.Protocol.Types.{
  Request, Operation, bot_not_found, invalid_skill, skill_rank_step,
}
use mod_playerbots_mcp.WorldThread.Core.{Core, Player}
use mod_playerbots_mcp.WorldThread.Skills.{
  number16, skill_text, set_bot_skill, build_set_skill_response,
}
use mod_playerbots_mcp.WorldThread.Status.{find_bot}

-- The request with the skill id that the handler uses.
abbrev pub with_low_skill_id : Request → Request
with_low_skill_id request = record request {
  numbers =
      insert (bytes "skillId") (request_number request (bytes "skillId") % 2 ^ 16) request.numbers;
}

number_with_low_skill_id :
    (request : Request) (name : Bytes)
    → request_number (with_low_skill_id request) name ≡ (
        if str_eq (bytes "skillId") name
        then request_number request (bytes "skillId") % 2 ^ 16
        else request_number request name)
unfolding request_number
number_with_low_skill_id request name =
    let low = value_or 0 (lookup (bytes "skillId") request.numbers) % 2 ^ 16 in
    elim (Bool-cases (str_eq (bytes "skillId") name)) [
      | inl same ↦ rw (lookup-insert (bytes "skillId") name low request.numbers, same) refl
      | inr other ↦ rw (lookup-insert (bytes "skillId") name low request.numbers, other) refl
    ]

number16-with_low_skill_id :
    (request : Request) (name : Bytes)
    → number16 (with_low_skill_id request) name ≡ number16 request name
unfolding number16
number16-with_low_skill_id request name = elim (Bool-cases (str_eq (bytes "skillId") name)) [
  | inl same ↦ rw⁻¹ (str_eq→eq (bytes "skillId") name same) (
      rw (number_with_low_skill_id request (bytes "skillId"), str_eq_self (bytes "skillId"))
        (omega arith))
  | inr other ↦ rw (number_with_low_skill_id request name, other) refl
]

module _ (core : Core) (w : core.World) where
  -- The values, as they are asked for, are set of the skill whose id is that of the request modulo 2 ^ 16.
  abbrev pub sets_low_skill : Request → Player → core.World × Response
  sets_low_skill request bot =
      let id = request_number request (bytes "skillId") % 2 ^ 16 in
      let value = request_number request (bytes "value") in
      let maximum = request_number request (bytes "maximum") in
      if core.has_skill w bot id
      then (let w' = core.set_skill w bot id (maximum / skill_rank_step) value maximum in
          (w', success (skill_text core w w' bot id)))
      else (w, failure invalid_skill [])

  -- Of an admitted request the casts keep the value, the maximum and the step, and only the skill id is
  -- cut to 16 bits: what is set is the skill of that id, of the bot that is named.
  pub build_set_skill_response-admitted :
      (request : Request)
      → Admits Operation.set_skill request
      → build_set_skill_response core w request ≡ elim (find_bot core w request.bot_guid) [
        | none ↦ (w, failure bot_not_found [])
        | some bot ↦ sets_low_skill request bot
      ]
  unfolding build_set_skill_response
  build_set_skill_response-admitted request admitted =
      let value : number16 request (bytes "value") ≡ request_number request (bytes "value") =
        unfold number16 request_number in omega arith in
      let maximum : number16 request (bytes "maximum") ≡ request_number request (bytes "maximum") =
        unfold number16 request_number in omega arith in
      let top = request_number request (bytes "maximum") in
      let step : top / skill_rank_step % 2 ^ 16 ≡ top / skill_rank_step =
        unfold request_number in omega arith in
      elim (Option-cases (find_bot core w request.bot_guid)) [
        | inl missing ↦ rw (missing, build_set_skill_response) refl
        | inr (bot, found) ↦
            rw (found, build_set_skill_response)
              (rw (value, maximum) (unfold set_bot_skill number16 in rw step refl))
      ]

  -- A skill id of more than 16 bits is not refused: such a request does what the request for its low 16 bits
  -- does.
  pub build_set_skill_response-aliases :
      (request : Request)
      → build_set_skill_response core w request
        ≡ build_set_skill_response core w (with_low_skill_id request)
  unfolding build_set_skill_response
  build_set_skill_response-aliases request =
      elim (Option-cases (find_bot core w request.bot_guid)) [
        | inl missing ↦ rw (missing, build_set_skill_response) refl
        | inr (bot, found) ↦
            rw (found, build_set_skill_response)
              (rw
                (
                  number16-with_low_skill_id request (bytes "skillId"),
                  number16-with_low_skill_id request (bytes "value"),
                  number16-with_low_skill_id request (bytes "maximum"),
                )
                refl)
      ]
