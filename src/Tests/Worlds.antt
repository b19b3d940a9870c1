-- ===== src/Tests/Worlds.antt =====
-- A small world for the handlers: how many calls have changed it, a bot 70 under the GUID 7, and its
-- master 80 under the GUID 8.
use mod_playerbots_mcp.Base.{
  ℕ, ◌+◌, ◌*◌, ◌%◌, map, true, false, [], ◌∷◌, none, some, bytes, ltb, ◌==◌, if◌then◌else◌,
}
use mod_playerbots_mcp.Conditions.{Inspection, scheduled}
use mod_playerbots_mcp.Protocol.Print.{to_string}
use mod_playerbots_mcp.Recovery.Types.{RecoveryPosition}
use mod_playerbots_mcp.WorldThread.Core.{
  Core, Floats, Spawn, Anomaly, LeaseState, non_combat, acquire_conflict, released, repeated_action,
  no_objective,
}

abbrev pub whole_numbers : Floats
whole_numbers = record {
  zero_float = 0;
  two = 2;
  add = λ a b. a + b;
  multiply = λ a b. a * b;
  cos = λ a. 1;
  sin = λ a. 0;
  less = ltb;
  fuzzy_eq = λ a b. a == b;
  stream = to_string;
}

abbrev pub origin : RecoveryPosition
origin = record { map_id = 0; zone_id = 1; area_id = 1; x = 0; y = 0; z = 0; orientation = 0 }

abbrev pub calm : Inspection
calm = record {
  transport_attached = false;
  transport_entry = 0;
  map_id = 0;
  money_copper = 10;
  known_recipe_spell_ids = [];
  skills = [];
  inventory = [];
  history_count = 0;
  attempts = [];
  economy_sequence = 0;
  economy_outcome = scheduled;
}

abbrev pub stuck : Anomaly
stuck = record {
  classifier = repeated_action;
  objective_kind = no_objective;
  objective_key = 0;
  objective_title = [];
  action_name = bytes "move";
  first_evidence_ms = 1;
  last_evidence_ms = 2;
  evidence_count = 3;
  progress_delta = bytes "0";
  death_count = 0;
  recovery_count = 0;
}

-- Nodes of one entry on the bot's map, the second one nearer, and one on another map.
abbrev pub near_node : Spawn
near_node = record { spawn_id = 2; entry = 5; map_id = 0; x = 3; y = 0; z = 0; orientation = 0 }

abbrev pub far_node : Spawn
far_node = record near_node { spawn_id = 1; x = 9 }

abbrev pub other_node : Spawn
other_node = record near_node { spawn_id = 3; map_id = 1; x = 1 }

abbrev pub lease : LeaseState
lease = record { active = true; token = bytes "t"; expires_at = 100 }

abbrev pub small_core : Core
small_core = record {
  World = ℕ;
  floats = whole_numbers;
  replace_invalid = map (λ c. c % 256);
  inspection_schema_version = 1;
  module_enabled = λ w. true;
  queue_enabled = λ w. true;
  queue_size = λ w. 0;
  players = λ w. (8, 80) ∷ (7, 70) ∷ [];
  find_player = λ w guid. if guid == 7 then some 70 else if guid == 8 then some 80 else none;
  has_ai = λ w p. p == 70;
  guid_text = λ w p. to_string p;
  name = λ w p. bytes "Bot";
  level = λ w p. 80;
  bot_state = λ w p. non_combat;
  master = λ w p. if p == 70 then some 80 else none;
  has_game_client_master = λ w p. true;
  map_id = λ w p. 0;
  has_transport = λ w p. false;
  time_ms = λ w. 1000;
  game_time = λ w. 50;
  copy_anomalies = λ w p now. record { count = 2; anomalies = stuck ∷ stuck ∷ [] };
  inspection = λ w p. calm;
  serialize_verification = λ w p. bytes "{}";
  action_total_count = λ w p. 4;
  economy_sequence = λ w p. 5;
  handle_command = λ w bot text master. w + 1;
  has_skill = λ w p id. id == 186;
  pure_skill_value = λ w p id. w;
  pure_max_skill_value = λ w p id. 75;
  set_skill = λ w p id step value maximum. w + value;
  is_in_world = λ w p. true;
  is_being_teleported = λ w p. false;
  is_in_combat = λ w p. false;
  is_dead = λ w p. false;
  game_objects = λ w. far_node ∷ near_node ∷ other_node ∷ [];
  is_part_of_a_pool = λ w id. false;
  is_spawned_on_map_of = λ w p id. false;
  exact_distance = λ w p x y z. x % 1000;
  teleport_to = λ w p map x y z o. (w + 1, true);
  clear_stuck_state = λ w p. w;
  clear_taxi_destinations = λ w p. w;
  has_session = λ w p. true;
  is_during_remove = λ w p. false;
  is_logging_out = λ w p. false;
  is_random_account = λ w p. true;
  random = λ w. (w + 1, (1, 2, 3, 4));
  hold_lease = λ w p token seconds now. (w, acquire_conflict, lease);
  inspect_lease = λ w p now. (w, lease);
  release_lease = λ w p token now. (w, released);
  run_console =
      λ w text. (w + 1, record { printed = bytes "done" ∷ []; parsed = true; sent_error = false });
  load_config_settings = λ w. w + 1;
  initialize_visibility = λ w. w + 1;
  connected = λ w guid. none;
  has_cache_entry = λ w guid. true;
  area_zone = λ area. none;
  recover_to_homebind = λ w guid. w + 1;
  save = λ w guid. w + 1;
  timestamp_ms = λ w. 1000;
}
