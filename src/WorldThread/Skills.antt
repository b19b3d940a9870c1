-- ===== src/WorldThread/Skills.antt =====
-- `BuildSetSkillResponse` of src/Bot/MCP/PlayerbotVerificationOperation.cpp.
pub mod Narrowing
use mod_playerbots_mcp.Base.{
  ℕ, ◌/◌, ◌%◌, ◌^◌, [], ◌∷◌, none, some, Bytes, bytes, concat, if◌then◌else◌,
}
use mod_playerbots_mcp.Conditions.{request_number}
use mod_playerbots_mcp.Protocol.Print.{to_string}
use mod_playerbots_mcp.Protocol.Responses.{Response, success, failure}
use mod_playerbots_mcp.Protocol.Types.{Request, bot_not_found, invalid_skill, skill_rank_step}
use mod_playerbots_mcp.WorldThread.Core.{Core, Player}
use mod_playerbots_mcp.WorldThread.Status.{find_bot}
use mod_playerbots_mcp.WorldThread.Text.{json_string}

-- `static_cast<uint16>(RequestNumber(request, name))`.
unfoldable pub number16 : Request → Bytes → ℕ
number16 request name = request_number request name % 2 ^ 16

module _ (core : Core) (w : core.World) where
  -- What is answered, from the worlds before and after.
  unfoldable pub skill_text : core.World → Player → ℕ → Bytes
  skill_text w' bot skill_id = concat (
      bytes "{\"botGuid\":"
      ∷ json_string core (core.guid_text w' bot)
      ∷ bytes ",\"skillId\":"
      ∷ to_string skill_id
      ∷ bytes ",\"previousValue\":"
      ∷ to_string (core.pure_skill_value w bot skill_id)
      ∷ bytes ",\"previousMaximum\":"
      ∷ to_string (core.pure_max_skill_value w bot skill_id)
      ∷ bytes ",\"value\":"
      ∷ to_string (core.pure_skill_value w' bot skill_id)
      ∷ bytes ",\"maximum\":"
      ∷ to_string (core.pure_max_skill_value w' bot skill_id)
      ∷ bytes "}"
      ∷ [])

  unfoldable pub set_bot_skill : Player → ℕ → ℕ → ℕ → core.World × Response
  set_bot_skill bot skill_id value maximum =
      if core.has_skill w bot skill_id
      then (let w' =
            core.set_skill w bot skill_id (maximum / skill_rank_step % 2 ^ 16) value maximum in
          (w', success (skill_text w' bot skill_id)))
      else (w, failure invalid_skill [])

  unfoldable pub build_set_skill_response : Request → core.World × Response
  build_set_skill_response request = elim (find_bot core w request.bot_guid) [
    | none ↦ (w, failure bot_not_found [])
    | some bot ↦
        set_bot_skill bot (number16 request (bytes "skillId")) (number16 request (bytes "value"))
          (number16 request (bytes "maximum"))
  ]
