-- ===== src/Recovery/Serialize.antt =====
-- `SerializeRecoveryAuditRecord` and `AppendRecoveryPosition` of
-- src/Bot/MCP/PlayerbotVerificationProtocol.cpp. How a float is printed is the standard library's: it is
-- the parameter `print_float`, on bit patterns.
use mod_playerbots_mcp.Base.{
  ℕ, Bool, true, false, [], ◌∷◌, ◌++◌, Option, none, some, Bytes, bytes, concat,
}
use mod_playerbots_mcp.Protocol.Print.{to_string, append_escaped_json_string}
use mod_playerbots_mcp.Recovery.Names.{
  recovery_destination_name, recovery_outcome_name, recovery_reason_name,
  recovery_mutation_state_name, recovery_persistence_state_name,
}
use mod_playerbots_mcp.Recovery.Types.{RecoveryPosition, RecoveryAuditRecord}

unfoldable pub truth : Bool → Bytes
truth true = bytes "true"
truth false = bytes "false"

unfoldable pub optional_number : Bytes → Option ℕ → Bytes
optional_number prefix none = []
optional_number prefix (some n) = prefix ++ to_string n

unfoldable pub optional_name : Bytes → Option Bytes → Bytes
optional_name output none = output
optional_name output (some name) = append_escaped_json_string (output ++ bytes ",\"botName\":") name

module _ (print_float : ℕ → Bytes) where
  unfoldable pub append_recovery_position : Bytes → Bytes → RecoveryPosition → Bytes
  append_recovery_position output field p =
      output
      ++ concat (
          bytes ",\""
          ∷ field
          ∷ bytes "\":{\"mapId\":"
          ∷ to_string p.map_id
          ∷ bytes ",\"zoneId\":"
          ∷ to_string p.zone_id
          ∷ bytes ",\"areaId\":"
          ∷ to_string p.area_id
          ∷ bytes ",\"x\":"
          ∷ print_float p.x
          ∷ bytes ",\"y\":"
          ∷ print_float p.y
          ∷ bytes ",\"z\":"
          ∷ print_float p.z
          ∷ bytes ",\"orientation\":"
          ∷ print_float p.orientation
          ∷ bytes "}"
          ∷ [])

  unfoldable pub optional_position : Bytes → Bytes → Option RecoveryPosition → Bytes
  optional_position output field none = output
  optional_position output field (some p) = append_recovery_position output field p

  unfoldable pub serialize_recovery_audit_record : RecoveryAuditRecord → Bytes
  unfolding optional_number optional_name optional_position
  serialize_recovery_audit_record r =
      let o₁ = concat (
        bytes "{\"timestampMs\":"
        ∷ to_string r.timestamp_ms
        ∷ bytes ",\"operation\":\"recover\""
        ∷ []) in
      let o₂ = o₁ ++ optional_number (bytes ",\"requestId\":") r.request_id in
      let o₃ = o₂ ++ optional_number (bytes ",\"botGuid\":") r.bot_guid in
      let o₄ = optional_name o₃ r.bot_name in
      let o₅ =
        o₄
        ++ concat (
            bytes ",\"destination\":\""
            ∷ recovery_destination_name r.destination
            ∷ bytes "\""
            ∷ []) in
      let o₆ = optional_position o₅ (bytes "beforePosition") r.before_position in
      let o₇ = optional_position o₆ (bytes "acceptedDestination") r.accepted_destination in
      let o₈ = optional_position o₇ (bytes "observedPosition") r.observed_position in
      o₈
      ++ concat (
          bytes ",\"observedAtDestination\":"
          ∷ truth r.observed_at_destination
          ∷ bytes ",\"movementReset\":"
          ∷ truth r.movement_reset
          ∷ bytes ",\"travelReset\":"
          ∷ truth r.travel_reset
          ∷ bytes ",\"taxiReset\":"
          ∷ truth r.taxi_reset
          ∷ bytes ",\"outcome\":\""
          ∷ recovery_outcome_name r.outcome
          ∷ bytes "\",\"reason\":\""
          ∷ recovery_reason_name r.reason
          ∷ bytes "\",\"mutationState\":\""
          ∷ recovery_mutation_state_name r.mutation_state
          ∷ bytes "\",\"persistenceState\":\""
          ∷ recovery_persistence_state_name r.persistence_state
          ∷ bytes "\"}"
          ∷ [])
