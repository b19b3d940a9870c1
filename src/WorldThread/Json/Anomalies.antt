-- ===== src/WorldThread/Json/Anomalies.antt =====
-- The response that lists anomalies.
use mod_playerbots_mcp.Base.{
  ℕ, refl, ap, ◌||◌, Bool, true, false, List, [], ◌∷◌, ◌++◌, All, All-append, All-take, Bytes,
  bytes, concat, ◌==◌, ltb, length, take,
}
use mod_playerbots_mcp.Protocol.Json.Trees.{
  render, render_members, more_members, sane_list, sane_object, sane_numeral, ends_object, IsNumber,
}
use mod_playerbots_mcp.Protocol.Paging.{sort}
use mod_playerbots_mcp.Protocol.Print.{append_escaped_json_string, escape_loop, escape_byte}
use mod_playerbots_mcp.Protocol.Responses.Envelopes.{IsResult}
use mod_playerbots_mcp.Protocol.Types.{Request, invalid_limit, max_anomaly_limit}
use mod_playerbots_mcp.WorldThread.Anomalies.{
  AnomalyRecord, anomaly_record, record_loop, collect_loop, anomaly_entry, entries_loop,
  anomalies_text, build_anomalies_response,
}
use mod_playerbots_mcp.WorldThread.Core.{Core, Player, Anomaly}
use mod_playerbots_mcp.WorldThread.Json.{
  WritesJson, number_at, truth_at, value_at, shallow_object-IsResult, failure-IsResult,
}
use mod_playerbots_mcp.WorldThread.Json.Objects.{text_at}
use mod_playerbots_mcp.WorldThread.Rules.{if-holds, option-holds}
use mod_playerbots_mcp.WorldThread.Status.{find_bot, bot_guids}
use mod_playerbots_mcp.WorldThread.Text.{json_string}
use mod_playerbots_mcp.WorldThread.Json.Lists.{
  IsObject, Listed, Listed-entry, Listed-nothing, is_object,
}

module _ (core : Core) (print_float : ℕ → Bytes) (j : WritesJson core print_float) where
  anomaly_entry-IsObject :
      (r : AnomalyRecord) → IsNumber r.anomaly.progress_delta → IsObject 28 (anomaly_entry core r)
  unfolding anomaly_entry concat render render_members more_members append_escaped_json_string
      escape_loop escape_byte json_string
  anomaly_entry-IsObject r delta =
      is_object _
        (value_at (bytes "bot") refl
          (sane_object (
            text_at core print_float j (bytes "guid") refl _ (
              number_at (bytes "guidLow") refl _ (
                text_at core print_float j (bytes "name") refl _
                  (number_at (bytes "level") refl _ ends_object)))))
          (text_at core print_float j (bytes "classifier") refl _ (
            value_at (bytes "objective") refl
              (sane_object (
                text_at core print_float j (bytes "kind") refl _ (
                  number_at (bytes "key") refl _
                    (text_at core print_float j (bytes "title") refl _ ends_object))))
              (text_at core print_float j (bytes "action") refl _ (
                value_at (bytes "evidence") refl
                  (sane_object (
                    number_at (bytes "firstTimestampMs") refl _ (
                      number_at (bytes "lastTimestampMs") refl _
                        (number_at (bytes "count") refl _ ends_object))))
                  (value_at (bytes "progressDelta") refl (sane_numeral delta) (
                    number_at (bytes "deathCount") refl _
                      (number_at (bytes "recoveryCount") refl _ ends_object))))))))
        refl

  -- Records whose streamed numbers are JSON numbers.
  abbrev Streamed : List AnomalyRecord → Type 0
  Streamed = All (λ r. IsNumber r.anomaly.progress_delta)

  entries_loop-Listed :
      (first : Bool) (records : List AnomalyRecord)
      → Streamed records
      → Listed first (entries_loop core first records)
  unfolding entries_loop
  entries_loop-Listed first [] h = Listed-nothing first
  entries_loop-Listed first (r ∷ records) h =
      Listed-entry first _ _ (anomaly_entry-IsObject r h.0) (entries_loop-Listed false records h.1)

  record_loop-Streamed :
      (w : core.World) (limit low_guid : ℕ) (bot : Player) (anomalies : List Anomaly)
      (records : List AnomalyRecord)
      → All (λ a. IsNumber a.progress_delta) anomalies
      → Streamed records
      → Streamed (record_loop core w limit low_guid bot anomalies records)
  unfolding record_loop anomaly_record
  record_loop-Streamed w limit low_guid bot [] records h k = k
  record_loop-Streamed w limit low_guid bot (a ∷ anomalies) records h k =
      if-holds Streamed (ltb (length records) limit) _ _
        (record_loop-Streamed w limit low_guid bot anomalies _ h.1 (
          All-append (λ r. IsNumber r.anomaly.progress_delta) records
            (anomaly_record core w low_guid bot a ∷ []) k (h.0, tt)))
        k

  collect_loop-Streamed :
      (w : core.World) (limit now : ℕ) (guids : List ℕ) (records : List AnomalyRecord) (total : ℕ)
      → Streamed records
      → Streamed (collect_loop core w limit now guids records total).0
  unfolding collect_loop
  collect_loop-Streamed w limit now [] records total k = k
  collect_loop-Streamed w limit now (low_guid ∷ guids) records total k =
      option-holds {A = List AnomalyRecord × ℕ} (λ p. Streamed p.0) (find_bot core w low_guid) _ _
        (collect_loop-Streamed w limit now guids records total k)
        λ bot.
          let snapshot = core.copy_anomalies w bot now in
          collect_loop-Streamed w limit now guids _ _ (
            record_loop-Streamed w limit low_guid bot (take snapshot.count snapshot.anomalies)
              records
              (All-take (λ a. IsNumber a.progress_delta) snapshot.count snapshot.anomalies
                (j.deltas w bot now))
              k)

  pub anomalies-IsResult :
      (w : core.World) (request : Request) → IsResult (build_anomalies_response core w request)
  unfolding build_anomalies_response anomalies_text concat render render_members more_members
      append_escaped_json_string escape_loop escape_byte json_string
  anomalies-IsResult w request =
      let guids = sort (bot_guids core w (core.players w)) in
      let (records, total) = collect_loop core w request.limit (core.time_ms w) guids [] 0 in
      let (es, s, e) =
        entries_loop-Listed true records
          (collect_loop-Streamed w request.limit (core.time_ms w) guids [] 0 tt) in
      if-holds IsResult (request.limit == 0 || ltb max_anomaly_limit request.limit) _ _
        (failure-IsResult invalid_limit [])
        (shallow_object-IsResult _
          (value_at (bytes "anomalies") refl (sane_list s) (
            value_at (bytes "completeness") refl
              (sane_object (
                number_at (bytes "totalBotCount") refl _ (
                  number_at (bytes "totalAnomalyCount") refl _ (
                    number_at (bytes "returnedCount") refl _
                      (truth_at (bytes "truncated") refl _ ends_object)))))
              ends_object))
          (ap (λ x. bytes "{\"anomalies\":[" ++ x) (e _)))
