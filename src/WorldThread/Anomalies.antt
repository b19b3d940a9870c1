-- ===== src/WorldThread/Anomalies.antt =====
-- `BuildAnomaliesResponse` of src/Bot/MCP/PlayerbotVerificationOperation.cpp.
pub mod Collected
use mod_playerbots_mcp.Base.{
  ℕ, ◌+◌, ◌%◌, ◌^◌, Bool, true, false, ◌||◌, List, [], ◌∷◌, ◌++◌, none, some, Bytes, bytes, concat,
  length, take, ltb, ◌==◌, if◌then◌else◌,
}
use mod_playerbots_mcp.Protocol.Paging.{sort}
use mod_playerbots_mcp.Protocol.Print.{to_string}
use mod_playerbots_mcp.Protocol.Responses.{Response, success, failure}
use mod_playerbots_mcp.Protocol.Types.{Request, invalid_limit, max_anomaly_limit}
use mod_playerbots_mcp.WorldThread.Core.{Core, Player, Anomaly}
use mod_playerbots_mcp.WorldThread.Names.{loop_classifier_name, loop_objective_kind_name}
use mod_playerbots_mcp.WorldThread.Status.{find_bot, bot_guids}
use mod_playerbots_mcp.WorldThread.Text.{json_string, bool_text, bounded_text}

pub record AnomalyRecord : Type 0 where
  pub guid : Bytes
  pub guid_low : ℕ
  pub name : Bytes
  pub level : ℕ
  pub anomaly : Anomaly

module _ (core : Core) where
  unfoldable pub anomaly_record : core.World → ℕ → Player → Anomaly → AnomalyRecord
  anomaly_record w low_guid bot anomaly = record {
    guid = core.guid_text w bot;
    guid_low = low_guid;
    name = core.name w bot;
    level = core.level w bot;
    anomaly = anomaly;
  }

  -- The loop over one snapshot: it goes on while there are anomalies in use and records fewer than
  -- the limit.
  unfoldable pub record_loop :
      core.World → ℕ → ℕ → Player → List Anomaly → List AnomalyRecord → List AnomalyRecord
  record_loop w limit low_guid bot [] records = records
  record_loop w limit low_guid bot (a ∷ anomalies) records =
      let more =
        record_loop w limit low_guid bot anomalies
          (records ++ anomaly_record w low_guid bot a ∷ []) in
      if ltb (length records) limit then more else records

  -- The loop over the GUIDs: the records, and the uint64 total.
  unfoldable pub collect_loop :
      core.World → ℕ → ℕ → List ℕ → List AnomalyRecord → ℕ → List AnomalyRecord × ℕ
  collect_loop w limit now [] records total = (records, total)
  collect_loop w limit now (low_guid ∷ guids) records total = elim (find_bot core w low_guid) [
    | none ↦ collect_loop w limit now guids records total
    | some bot ↦
        let snapshot = core.copy_anomalies w bot now in
        collect_loop w limit now guids
          (record_loop w limit low_guid bot (take snapshot.count snapshot.anomalies) records)
          ((total + snapshot.count) % 2 ^ 64)
  ]

  unfoldable pub anomaly_entry : AnomalyRecord → Bytes
  anomaly_entry r =
      let a = r.anomaly in
      concat (
        bytes "{\"bot\":{\"guid\":"
        ∷ json_string core r.guid
        ∷ bytes ",\"guidLow\":"
        ∷ to_string r.guid_low
        ∷ bytes ",\"name\":"
        ∷ json_string core r.name
        ∷ bytes ",\"level\":"
        ∷ to_string r.level
        ∷ bytes "}"
        ∷ bytes ",\"classifier\":"
        ∷ json_string core (loop_classifier_name a.classifier)
        ∷ bytes ",\"objective\":{\"kind\":"
        ∷ json_string core (loop_objective_kind_name a.objective_kind)
        ∷ bytes ",\"key\":"
        ∷ to_string a.objective_key
        ∷ bytes ",\"title\":"
        ∷ json_string core (bounded_text a.objective_title)
        ∷ bytes "},\"action\":"
        ∷ json_string core (bounded_text a.action_name)
        ∷ bytes ",\"evidence\":{\"firstTimestampMs\":"
        ∷ to_string a.first_evidence_ms
        ∷ bytes ",\"lastTimestampMs\":"
        ∷ to_string a.last_evidence_ms
        ∷ bytes ",\"count\":"
        ∷ to_string a.evidence_count
        ∷ bytes "}"
        ∷ bytes ",\"progressDelta\":"
        ∷ a.progress_delta
        ∷ bytes ",\"deathCount\":"
        ∷ to_string a.death_count
        ∷ bytes ",\"recoveryCount\":"
        ∷ to_string a.recovery_count
        ∷ bytes "}"
        ∷ [])

  -- The loop over the records: a comma before each but the first.
  unfoldable pub entries_loop : Bool → List AnomalyRecord → Bytes
  entries_loop first [] = []
  entries_loop first (r ∷ records) =
      (if first then [] else bytes ",") ++ (anomaly_entry r ++ entries_loop false records)

  -- The answer, from the number of bots, the records and the total.
  unfoldable pub anomalies_text : ℕ → List AnomalyRecord → ℕ → Bytes
  anomalies_text bots records total = concat (
      bytes "{\"anomalies\":["
      ∷ entries_loop true records
      ∷ bytes "],\"completeness\":{\"totalBotCount\":"
      ∷ to_string bots
      ∷ bytes ",\"totalAnomalyCount\":"
      ∷ to_string total
      ∷ bytes ",\"returnedCount\":"
      ∷ to_string (length records)
      ∷ bytes ",\"truncated\":"
      ∷ bool_text (ltb (length records) total)
      ∷ bytes "}}"
      ∷ [])

  unfoldable pub build_anomalies_response : core.World → Request → Response
  build_anomalies_response w request =
      let guids = sort (bot_guids core w (core.players w)) in
      let (records, total) = collect_loop w request.limit (core.time_ms w) guids [] 0 in
      if request.limit == 0 || ltb max_anomaly_limit request.limit
      then failure invalid_limit []
      else success (anomalies_text (length guids) records total)
