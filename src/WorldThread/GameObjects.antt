-- ===== src/WorldThread/GameObjects.antt =====
-- `BuildTeleportToGameObjectResponse` of src/Bot/MCP/PlayerbotVerificationOperation.cpp.
pub mod Nearest
use mod_playerbots_mcp.Base.{
  ℕ, ◌%◌, ◌^◌, Bool, ◌&&◌, ◌||◌, not, List, [], ◌∷◌, Option, none, some, Bytes, bytes, concat, ◌==◌,
  if◌then◌else◌,
}
use mod_playerbots_mcp.Conditions.{request_number}
use mod_playerbots_mcp.Protocol.Print.{to_string}
use mod_playerbots_mcp.Protocol.Responses.{Response, success, failure}
use mod_playerbots_mcp.Protocol.Types.{
  Request, bot_not_found, bot_unavailable, game_object_not_found,
}
use mod_playerbots_mcp.WorldThread.Core.{Core, Player, Spawn}
use mod_playerbots_mcp.WorldThread.Status.{find_bot}
use mod_playerbots_mcp.WorldThread.Text.{json_string}

module _ (core : Core) (w : core.World) where
  -- What the two `continue`s of the loop leave: a spawn of the entry on the bot's map, which is not
  -- an inactive one of a pool.
  unfoldable pub is_candidate : Player → ℕ → Spawn → Bool
  is_candidate bot entry s =
      not (not (s.entry == entry) || not (s.map_id == core.map_id w bot))
      && not
          (core.is_part_of_a_pool w s.spawn_id && not (core.is_spawned_on_map_of w bot s.spawn_id))

  unfoldable pub distance_to : Player → Spawn → ℕ
  distance_to bot s = core.exact_distance w bot s.x s.y s.z

  -- `nearest` and `nearestDistance` behind one candidate.
  unfoldable pub closer : Player → Spawn → Option (Spawn × ℕ) → Option (Spawn × ℕ)
  closer bot s none = some (s, distance_to bot s)
  closer bot s (some (nearest, d)) =
      if core.floats.less (distance_to bot s) d
      then some (s, distance_to bot s)
      else some (nearest, d)

  unfoldable pub nearest_loop : Player → ℕ → List Spawn → Option (Spawn × ℕ) → Option (Spawn × ℕ)
  nearest_loop bot entry [] nearest = nearest
  nearest_loop bot entry (s ∷ spawns) nearest =
      nearest_loop bot entry spawns
        (if is_candidate bot entry s then closer bot s nearest else nearest)

  unfoldable pub teleport_text : core.World → Player → ℕ → Spawn → ℕ → Bytes
  teleport_text w' bot entry s d = concat (
      bytes "{\"botGuid\":"
      ∷ json_string core (core.guid_text w' bot)
      ∷ bytes ",\"gameObjectEntry\":"
      ∷ to_string entry
      ∷ bytes ",\"spawnId\":"
      ∷ to_string s.spawn_id
      ∷ bytes ",\"mapId\":"
      ∷ to_string s.map_id
      ∷ bytes ",\"distanceBefore\":"
      ∷ core.floats.stream d
      ∷ bytes "}"
      ∷ [])

  -- Two yards in front of the spawn.
  unfoldable pub teleport_near : Player → Spawn → core.World × Bool
  teleport_near bot s =
      let f = core.floats in
      core.teleport_to w bot s.map_id (f.add s.x (f.multiply f.two (f.cos s.orientation)))
        (f.add s.y (f.multiply f.two (f.sin s.orientation))) s.z s.orientation

  unfoldable pub teleport_bot : Player → ℕ → Spawn × ℕ → core.World × Response
  teleport_bot bot entry (s, d) =
      let (w₁, accepted) = teleport_near bot s in
      if accepted
      then (let w₂ = core.clear_taxi_destinations (core.clear_stuck_state w₁ bot) bot in
          (w₂, success (teleport_text w₂ bot entry s d)))
      else (w₁, failure bot_unavailable [])

  unfoldable pub cannot_teleport : Player → Bool
  cannot_teleport bot =
      not (core.is_in_world w bot)
      || core.is_being_teleported w bot
      || core.is_in_combat w bot
      || core.is_dead w bot

  unfoldable pub build_teleport_response : Request → core.World × Response
  build_teleport_response request = elim (find_bot core w request.bot_guid) [
    | none ↦ (w, failure bot_not_found [])
    | some bot ↦
        let entry = request_number request (bytes "gameObjectEntry") % 2 ^ 32 in
        if cannot_teleport bot
        then (w, failure bot_unavailable [])
        else elim (nearest_loop bot entry (core.game_objects w) none) [
          | none ↦ (w, failure game_object_not_found [])
          | some found ↦ teleport_bot bot entry found
        ]
  ]
