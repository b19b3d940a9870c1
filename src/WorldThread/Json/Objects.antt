-- ===== src/WorldThread/Json/Objects.antt =====
-- The responses of the handlers that answer with one object.
use mod_playerbots_mcp.Base.{
  All, sym, some-eq_inv, ◌∙◌, ◌++◌, ◌≡◌, some, subst, ◌∷◌, List, Option, ap, ℕ, refl, true, [],
  none, Bytes, bytes, concat,
}
use mod_playerbots_mcp.Protocol.Json.Trees.{
  quoted, Members, member, render, render_members, more_members, SaneMembers, sane_object, object,
  sane_numeral, ends_object,
}
use mod_playerbots_mcp.Protocol.Json.Trees.Given.{render-append}
use mod_playerbots_mcp.Conditions.{evaluate_verification_condition}
use mod_playerbots_mcp.Protocol.Print.{append_escaped_json_string, escape_loop, escape_byte}
use mod_playerbots_mcp.Protocol.Responses.{failure, Response}
use mod_playerbots_mcp.Protocol.Responses.Envelopes.{IsResult}
use mod_playerbots_mcp.Protocol.Types.{
  Request, bot_not_found, master_not_found, master_is_bot, invalid_relationship, invalid_skill,
  bot_unavailable, game_object_not_found,
}
use mod_playerbots_mcp.WorldThread.Command.{
  command_bot, build_command_response, is_pointer, dispatched,
}
use mod_playerbots_mcp.WorldThread.Console.{build_gm_command_response, build_reload_config_response}
use mod_playerbots_mcp.WorldThread.Core.{Spawn, Player, Core}
use mod_playerbots_mcp.WorldThread.GameObjects.{
  is_candidate, distance_to, closer, teleport_near, teleport_bot, cannot_teleport, nearest_loop,
  build_teleport_response, teleport_text,
}
use mod_playerbots_mcp.WorldThread.Inspect.{build_inspect_response, build_check_response}
use mod_playerbots_mcp.WorldThread.Json.{
  WritesJson, number_at, truth_at, quoted_at, value_at, is_finite, IsKey, object-IsResult,
  shallow_object-IsResult, failure-IsResult,
}
use mod_playerbots_mcp.WorldThread.Rules.{if-holds, option-holds}
use mod_playerbots_mcp.WorldThread.Skills.{
  set_bot_skill, number16, build_set_skill_response, skill_text,
}
use mod_playerbots_mcp.WorldThread.Status.{find_bot, build_status_response}
use mod_playerbots_mcp.WorldThread.Text.{json_string, bool_text}

module _ (core : Core) (print_float : ℕ → Bytes) (j : WritesJson core print_float) where
  -- A text of the core under a literal key.
  pub text_at :
      {h : ℕ} {ms : Members} (k : Bytes)
      → IsKey k
      → (t : Bytes) → SaneMembers h ms
      → SaneMembers h (member k (quoted (core.replace_invalid t)) ms)
  text_at k key t s = quoted_at k key (core.replace_invalid t) (j.texts t) s

  module _ (w : core.World) where
    -- A response of a handler that changes the world.
    abbrev pub GivesResult : core.World × Response → Type 0
    GivesResult (w', r) = IsResult r

    pub status-IsResult : IsResult (build_status_response core w)
    unfolding build_status_response concat render render_members more_members
        append_escaped_json_string escape_loop escape_byte json_string
    status-IsResult =
        object-IsResult _
          (number_at (bytes "protocolSchemaVersion") refl _ (
            number_at (bytes "inspectionSchemaVersion") refl _ (
              truth_at (bytes "moduleEnabled") refl _ (
                truth_at (bytes "queueAvailable") refl _ (
                  number_at (bytes "queueSize") refl _
                    (number_at (bytes "botCount") refl _ ends_object))))))
          refl

    pub inspect-IsResult : (request : Request) → IsResult (build_inspect_response core w request)
    unfolding build_inspect_response
    inspect-IsResult request =
        option-holds IsResult (find_bot core w request.bot_guid) _ _
          (failure-IsResult bot_not_found [])
          λ bot. let (ms, s, e) = j.inspections w bot in shallow_object-IsResult _ s e

    pub check-IsResult : (request : Request) → IsResult (build_check_response core w request)
    unfolding build_check_response concat render render_members more_members
        append_escaped_json_string escape_loop escape_byte json_string
    check-IsResult request =
        option-holds IsResult (find_bot core w request.bot_guid) _ _
          (failure-IsResult bot_not_found [])
          λ bot.
            let (ms, s, e) = j.inspections w bot in
            let matched = evaluate_verification_condition (core.inspection w bot) request in
            object-IsResult _
              (truth_at (bytes "matched") refl matched (
                text_at (bytes "condition") refl request.condition
                  (value_at (bytes "snapshot") refl (sane_object s) ends_object)))
              (ap
                (λ t.
                  bytes "{\"matched\":"
                  ++ (bool_text matched
                      ++ (bytes ",\"condition\":"
                          ++ (json_string core request.condition
                              ++ (bytes ",\"snapshot\":" ++ t)))))
                (ap (λ t. t ++ bytes "}") e ∙ sym (render-append (object ms) [] (bytes "}"))))

    pub command-GivesResult :
        (request : Request) → GivesResult (build_command_response core w request)
    unfolding build_command_response command_bot dispatched bool_text concat render render_members
        more_members append_escaped_json_string escape_loop escape_byte json_string
    command-GivesResult request =
        option-holds GivesResult (find_bot core w request.bot_guid) _ _
          (failure-IsResult bot_not_found [])
          λ bot.
            option-holds GivesResult (core.find_player w request.master_guid) _ _
              (failure-IsResult master_not_found [])
              λ master.
                if-holds GivesResult (core.has_ai w master) _ _ (failure-IsResult master_is_bot [])
                  (if-holds GivesResult (is_pointer (core.master w bot) master) _ _
                    (object-IsResult _
                      (truth_at (bytes "dispatched") refl true (
                        text_at (bytes "botGuid") refl _ (
                          text_at (bytes "masterGuid") refl _ (
                            text_at (bytes "command") refl _ (
                              number_at (bytes "baselineActionSequence") refl _ (
                                number_at (bytes "baselineEconomySequence") refl _ ends_object))))))
                      refl)
                    (failure-IsResult invalid_relationship []))

    pub set_skill-GivesResult :
        (request : Request) → GivesResult (build_set_skill_response core w request)
    unfolding build_set_skill_response set_bot_skill skill_text concat render render_members
        more_members append_escaped_json_string escape_loop escape_byte json_string
    set_skill-GivesResult request =
        option-holds GivesResult (find_bot core w request.bot_guid) _ _
          (failure-IsResult bot_not_found [])
          λ bot.
            if-holds GivesResult (core.has_skill w bot (number16 request (bytes "skillId"))) _ _
              (object-IsResult _
                (text_at (bytes "botGuid") refl _ (
                  number_at (bytes "skillId") refl _ (
                    number_at (bytes "previousValue") refl _ (
                      number_at (bytes "previousMaximum") refl _ (
                        number_at (bytes "value") refl _
                          (number_at (bytes "maximum") refl _ ends_object))))))
                refl)
              (failure-IsResult invalid_skill [])

    -- The distance that is found is that of a spawn.
    abbrev HasFinite : Option (Spawn × ℕ) → Type 0
    HasFinite o = (found : Spawn × ℕ) → o ≡ some found → is_finite found.1 ≡ true

    closer-HasFinite :
        (bot : Player) (s : Spawn) (o : Option (Spawn × ℕ))
        → is_finite (core.exact_distance w bot s.x s.y s.z) ≡ true
        → HasFinite o
        → HasFinite (closer core w bot s o)
    unfolding closer distance_to
    closer-HasFinite bot s none near h =
        λ found e. subst (λ p. is_finite p.1 ≡ true) (some-eq_inv e) near
    closer-HasFinite bot s (some (nearest, d)) near h =
        if-holds HasFinite (core.floats.less (core.exact_distance w bot s.x s.y s.z) d) _ _
          (λ found e. subst (λ p. is_finite p.1 ≡ true) (some-eq_inv e) near) h

    nearest_loop-HasFinite :
        (bot : Player) (entry : ℕ) (spawns : List Spawn) (o : Option (Spawn × ℕ))
        → All (λ s. is_finite (core.exact_distance w bot s.x s.y s.z) ≡ true) spawns
        → HasFinite o
        → HasFinite (nearest_loop core w bot entry spawns o)
    unfolding nearest_loop
    nearest_loop-HasFinite bot entry [] o near h = h
    nearest_loop-HasFinite bot entry (s ∷ spawns) o (here, near) h =
        nearest_loop-HasFinite bot entry spawns _ near (
          if-holds HasFinite (is_candidate core w bot entry s) _ _ (closer-HasFinite bot s o here h)
            h)

    teleport_bot-GivesResult :
        (bot : Player) (entry : ℕ) (found : Spawn × ℕ)
        → is_finite found.1 ≡ true
        → GivesResult (teleport_bot core w bot entry found)
    unfolding teleport_bot teleport_text concat render render_members more_members
        append_escaped_json_string escape_loop escape_byte json_string
    teleport_bot-GivesResult bot entry found finite =
        if-holds GivesResult (teleport_near core w bot found.0).1 _ _
          (object-IsResult _
            (text_at (bytes "botGuid") refl _ (
              number_at (bytes "gameObjectEntry") refl _ (
                number_at (bytes "spawnId") refl _ (
                  number_at (bytes "mapId") refl _ (
                    value_at (bytes "distanceBefore") refl (sane_numeral (j.floats found.1 finite))
                      ends_object)))))
            refl)
          (failure-IsResult bot_unavailable [])

    found-GivesResult :
        (bot : Player) (entry : ℕ) (o : Option (Spawn × ℕ))
        → HasFinite o
        → GivesResult (elim o as (λ _. core.World × Response) [
          | none ↦ (w, failure game_object_not_found [])
          | some found ↦ teleport_bot core w bot entry found
        ])
    found-GivesResult bot entry none h = failure-IsResult game_object_not_found []
    found-GivesResult bot entry (some found) h =
        teleport_bot-GivesResult bot entry found (h found refl)

    pub teleport-GivesResult :
        (request : Request) → GivesResult (build_teleport_response core w request)
    unfolding build_teleport_response
    teleport-GivesResult request =
        option-holds GivesResult (find_bot core w request.bot_guid) _ _
          (failure-IsResult bot_not_found [])
          λ bot.
            if-holds GivesResult (cannot_teleport core w bot) _ _
              (failure-IsResult bot_unavailable [])
              (found-GivesResult bot _ _ (
                nearest_loop-HasFinite bot _ (core.game_objects w) none (j.finite_distances w bot)
                  (λ found e. cc e)))

    pub gm_command-GivesResult :
        (request : Request) → GivesResult (build_gm_command_response core w request)
    unfolding build_gm_command_response concat render render_members more_members
        append_escaped_json_string escape_loop escape_byte json_string
    gm_command-GivesResult request =
        object-IsResult _
          (text_at (bytes "command") refl _
            (truth_at (bytes "succeeded") refl _ (text_at (bytes "output") refl _ ends_object)))
          refl

    pub reload-GivesResult : GivesResult (build_reload_config_response core w)
    unfolding build_reload_config_response bool_text concat render render_members more_members
        append_escaped_json_string escape_loop escape_byte json_string
    reload-GivesResult = object-IsResult _ (truth_at (bytes "reloaded") refl true ends_object) refl
