-- ===== src/WorldThread/Core.antt =====
-- The server core as the handlers of src/Bot/MCP/PlayerbotVerificationOperation.cpp call it. None of
-- it is of this repository: a world of any type, what is read in it, and the calls that change it.
use mod_playerbots_mcp.Base.{ℕ, Bool, List, Option, Bytes}
use mod_playerbots_mcp.Conditions.{Inspection}
use mod_playerbots_mcp.Recovery.Positions.{Connected}

-- A pointer to a player that is not null.
abbrev pub Player : Type 0
Player = ℕ

-- `BotState`; the `default` of the `switch` is all other values.
pub data BotState : Type 0 where
  combat dead non_combat other_state : BotState

pub data LoopClassifier : Type 0 where
  stationary_movement movement_oscillation repeated_action : LoopClassifier
  death_relapse recovery_relapse : LoopClassifier

pub data LoopObjectiveKind : Type 0 where
  no_objective quest grind profession : LoopObjectiveKind

-- `PlayerbotLoopAnomaly`. Its texts are whole character arrays.
pub record Anomaly : Type 0 where
  pub classifier : LoopClassifier
  pub objective_kind : LoopObjectiveKind
  pub objective_key : ℕ
  pub objective_title : Bytes
  pub action_name : Bytes
  pub first_evidence_ms : ℕ
  pub last_evidence_ms : ℕ
  pub evidence_count : ℕ
  -- A number as `<<` prints it; whether it is signed is up to the core.
  pub progress_delta : Bytes
  pub death_count : ℕ
  pub recovery_count : ℕ

-- `PlayerbotLoopAnomalySnapshot`: the first `count` entries of an array are in use.
pub record AnomalySnapshot : Type 0 where
  pub count : ℕ
  pub anomalies : List Anomaly

-- `GameObjectData` with its spawn id.
pub record Spawn : Type 0 where
  pub spawn_id : ℕ
  pub entry : ℕ
  pub map_id : ℕ
  pub x : ℕ
  pub y : ℕ
  pub z : ℕ
  pub orientation : ℕ

pub record LeaseState : Type 0 where
  pub active : Bool
  pub token : Bytes
  pub expires_at : ℕ

pub data AcquireOutcome : Type 0 where
  acquired renewed acquire_conflict acquire_invalid : AcquireOutcome

pub data ReleaseOutcome : Type 0 where
  released already_inactive release_conflict release_invalid : ReleaseOutcome

-- What `CliHandler` does with one console command: what it prints, piece by piece, what
-- `ParseCommands` returns, and whether an error was sent.
pub record ConsoleRun : Type 0 where
  pub printed : List Bytes
  pub parsed : Bool
  pub sent_error : Bool

-- The arithmetic of floats.
pub record Floats : Type 0 where
  pub zero_float : ℕ
  pub two : ℕ
  pub add : ℕ → ℕ → ℕ
  pub multiply : ℕ → ℕ → ℕ
  pub cos : ℕ → ℕ
  pub sin : ℕ → ℕ
  pub less : ℕ → ℕ → Bool
  -- `G3D::fuzzyEq`.
  pub fuzzy_eq : ℕ → ℕ → Bool
  -- `out << value`.
  pub stream : ℕ → Bytes

pub record Core : Type 1 where
  pub World : Type 0
  pub floats : Floats
  -- `utf8::replace_invalid`.
  pub replace_invalid : Bytes → Bytes
  -- `PLAYERBOT_VERIFICATION_INSPECTION_SCHEMA_VERSION`.
  pub inspection_schema_version : ℕ
  pub module_enabled : World → Bool
  pub queue_enabled : World → Bool
  pub queue_size : World → ℕ
  -- `ObjectAccessor::GetPlayers`, each with the low part of its GUID.
  pub players : World → List (ℕ × Player)
  pub find_player : World → ℕ → Option Player
  -- `GET_PLAYERBOT_AI` of a player, and is it there?
  pub has_ai : World → Player → Bool
  -- `GetGUID().ToString()`.
  pub guid_text : World → Player → Bytes
  pub name : World → Player → Bytes
  pub level : World → Player → ℕ
  pub bot_state : World → Player → BotState
  pub master : World → Player → Option Player
  pub has_game_client_master : World → Player → Bool
  pub map_id : World → Player → ℕ
  pub has_transport : World → Player → Bool
  -- `GetTimeMS` and `GameTime::GetGameTime`.
  pub time_ms : World → ℕ
  pub game_time : World → ℕ
  pub copy_anomalies : World → Player → ℕ → AnomalySnapshot
  -- `BuildVerification`, and its serialisation.
  pub inspection : World → Player → Inspection
  pub serialize_verification : World → Player → Bytes
  -- `PlayerbotTelemetryCopyVerification`.
  pub action_total_count : World → Player → ℕ
  pub economy_sequence : World → Player → ℕ
  pub handle_command : World → Player → Bytes → Player → World
  pub has_skill : World → Player → ℕ → Bool
  pub pure_skill_value : World → Player → ℕ → ℕ
  pub pure_max_skill_value : World → Player → ℕ → ℕ
  -- Of a player: the skill, its step, value and maximum.
  pub set_skill : World → Player → ℕ → ℕ → ℕ → ℕ → World
  pub is_in_world : World → Player → Bool
  pub is_being_teleported : World → Player → Bool
  pub is_in_combat : World → Player → Bool
  pub is_dead : World → Player → Bool
  -- `GetAllGOData`, and the pools.
  pub game_objects : World → List Spawn
  pub is_part_of_a_pool : World → ℕ → Bool
  pub is_spawned_on_map_of : World → Player → ℕ → Bool
  pub exact_distance : World → Player → ℕ → ℕ → ℕ → ℕ
  pub teleport_to : World → Player → ℕ → ℕ → ℕ → ℕ → ℕ → World × Bool
  pub clear_stuck_state : World → Player → World
  pub clear_taxi_destinations : World → Player → World
  pub has_session : World → Player → Bool
  pub is_during_remove : World → Player → Bool
  pub is_logging_out : World → Player → Bool
  pub is_random_account : World → Player → Bool
  -- Four calls of `rand32`.
  pub random : World → World × (ℕ × ℕ × ℕ × ℕ)
  pub hold_lease : World → Player → Bytes → ℕ → ℕ → World × AcquireOutcome × LeaseState
  pub inspect_lease : World → Player → ℕ → World × LeaseState
  pub release_lease : World → Player → Bytes → ℕ → World × ReleaseOutcome
  pub run_console : World → Bytes → World × ConsoleRun
  pub load_config_settings : World → World
  pub initialize_visibility : World → World
  -- What a recovery of the connected player of a GUID meets, and its calls.
  pub connected : World → ℕ → Option Connected
  -- The zone in the entry of an area, if it has one.
  pub area_zone : ℕ → Option ℕ
  pub has_cache_entry : World → ℕ → Bool
  pub recover_to_homebind : World → ℕ → World
  -- `persistence` if it is given, and `SaveToDB` if not.
  pub save : World → ℕ → World
  pub timestamp_ms : World → ℕ
