-- ===== src/Tests/Recoveries.antt =====
-- A bot that is brought home.
use mod_playerbots_mcp.Base.{true, some, bytes, refl, ◌≡◌, false}
use mod_playerbots_mcp.Recovery.Recover.{
  Bot, HomebindResult, build_recover_record, recover_bot, after_recovery,
}
use mod_playerbots_mcp.Recovery.Recover.Truth.{IsNew, IsTruthful, build_recover_record-IsTruthful}
use mod_playerbots_mcp.Recovery.Types.{RecoveryPosition, new_record}

abbrev inn : RecoveryPosition
inn = record { map_id = 0; zone_id = 12; area_id = 87; x = 1; y = 2; z = 3; orientation = 0 }

abbrev strayed : Bot
strayed = record {
  name = bytes "Thrall";
  is_in_world = true;
  position = record inn { x = 900 };
  is_managed = true;
  result = HomebindResult.recovered;
  position_after = record inn { x = 900 };
  homebind = inn;
  teleport_destination = inn;
}

new_record-IsNew : IsNew new_record
new_record-IsNew = record {
  no_movement_reset = refl;
  no_travel_reset = refl;
  no_taxi_reset = refl;
  nothing_started = refl;
  nothing_requested = refl;
}

build_recover_record-IsTruthful_example :
    IsTruthful
      (some strayed)
      new_record
      (build_recover_record (λ a b. false) (some strayed) true new_record)
build_recover_record-IsTruthful_example =
    build_recover_record-IsTruthful (λ a b. false) (some strayed) true new_record new_record-IsNew

strayed-saved : (build_recover_record (λ a b. false) (some strayed) true new_record).1 ≡ true
unfolding build_recover_record recover_bot after_recovery
strayed-saved = refl
