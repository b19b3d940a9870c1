-- ===== src/Recovery/Positions.antt =====
-- `CurrentRecoveryPosition`, `HomebindRecoveryPosition` and `RecoveryPositionsMatch` of
-- src/Bot/MCP/PlayerbotVerificationOperation.cpp, from what the server core says of a player. How
-- floats are compared, and the zone of an area, are given.
use mod_playerbots_mcp.Base.{ℕ, Bool, ◌&&◌, Option, none, some, Bytes, ◌==◌, if◌then◌else◌}
use mod_playerbots_mcp.Recovery.Recover.{Bot, HomebindResult}
use mod_playerbots_mcp.Recovery.Types.{RecoveryPosition}

-- `WorldLocation`.
pub record Location : Type 0 where
  pub map_id : ℕ
  pub x : ℕ
  pub y : ℕ
  pub z : ℕ
  pub orientation : ℕ

-- Where a player is, with what `GetZoneAndAreaId` says.
pub record Placement : Type 0 where
  pub location : Location
  pub zone_id : ℕ
  pub area_id : ℕ

-- What the handler reads of a player that is connected: before the recovery, and behind it.
pub record Connected : Type 0 where
  pub name : Bytes
  pub is_in_world : Bool
  pub placement : Placement
  pub is_managed : Bool
  pub result : HomebindResult
  pub placement_after : Placement
  -- The fields `m_homebind…`.
  pub homebind_area_id : ℕ
  pub homebind_map_id : ℕ
  pub homebind_x : ℕ
  pub homebind_y : ℕ
  pub homebind_z : ℕ
  pub teleport_dest : Location

-- `CurrentRecoveryPosition`.
unfoldable pub current_recovery_position : Placement → RecoveryPosition
current_recovery_position p =
    let at = p.location in
    record {
      map_id = at.map_id;
      zone_id = p.zone_id;
      area_id = p.area_id;
      x = at.x;
      y = at.y;
      z = at.z;
      orientation = at.orientation;
    }

-- The zone of an area: that of its entry in the table, or the area itself if there is none, or the
-- entry names none.
unfoldable pub zone_of_area : (ℕ → Option ℕ) → ℕ → ℕ
zone_of_area area_zone area_id = elim (area_zone area_id) [
  | none ↦ area_id
  | some zone ↦ if zone == 0 then area_id else zone
]

module _ (area_zone : ℕ → Option ℕ) where
  -- `HomebindRecoveryPosition` with a destination.
  unfoldable pub homebind_recovery_position : Connected → Location → RecoveryPosition
  homebind_recovery_position c destination = record {
    map_id = destination.map_id;
    zone_id = zone_of_area area_zone c.homebind_area_id;
    area_id = c.homebind_area_id;
    x = destination.x;
    y = destination.y;
    z = destination.z;
    orientation = destination.orientation;
  }

  -- `HomebindRecoveryPosition` of the homebind, which has the orientation of the player.
  unfoldable pub homebind_position : Connected → RecoveryPosition
  homebind_position c = homebind_recovery_position c (record {
    map_id = c.homebind_map_id;
    x = c.homebind_x;
    y = c.homebind_y;
    z = c.homebind_z;
    orientation = c.placement_after.location.orientation;
  })

  -- The bot as the record of its recovery tells of it.
  unfoldable pub bot_of : Connected → Bot
  bot_of c = record {
    name = c.name;
    is_in_world = c.is_in_world;
    position = current_recovery_position c.placement;
    is_managed = c.is_managed;
    result = c.result;
    position_after = current_recovery_position c.placement_after;
    homebind = homebind_position c;
    teleport_destination = homebind_recovery_position c c.teleport_dest;
  }

-- `RecoveryPositionsMatch`.
unfoldable pub recovery_positions_match :
    (ℕ → ℕ → Bool) → RecoveryPosition → RecoveryPosition → Bool
recovery_positions_match fuzzy_eq position destination =
    position.map_id == destination.map_id
    && fuzzy_eq position.x destination.x
    && fuzzy_eq position.y destination.y
    && fuzzy_eq position.z destination.z
