-- ===== src/Recovery/Json/Members.antt =====
-- The members that `SerializeRecoveryAuditRecord` writes, some of which may be missing.
use mod_playerbots_mcp.Base.{
  ℕ, ◌≡◌, refl, ap, ◌∙◌, sym, [], ◌∷◌, ◌++◌, append_assoc, Option, none, some, Bytes, bytes, All,
}
use mod_playerbots_mcp.Protocol.Frame.RoundTrip.{IsByte}
use mod_playerbots_mcp.Protocol.Json.Trees.{
  Json, quoted, number, numeral, word, object, Members, no_members, member, render, more_members,
  Sane, SaneMembers, with_member,
}
use mod_playerbots_mcp.Protocol.Json.Trees.Given.{render-append}
use mod_playerbots_mcp.Protocol.Print.{append_escaped_json_string}
use mod_playerbots_mcp.Recovery.Names.{
  recovery_destination_name, recovery_outcome_name, recovery_reason_name,
  recovery_mutation_state_name, recovery_persistence_state_name,
}
use mod_playerbots_mcp.Recovery.Serialize.{truth}
use mod_playerbots_mcp.Recovery.Types.{RecoveryPosition, RecoveryAuditRecord}

-- A member that may be missing.
unfoldable pub optional : Bytes → Option Json → Members → Members
optional k none ms = ms
optional k (some v) ms = member k v ms

unfoldable pub optional_text : Bytes → Option Json → Bytes
optional_text k none = []
optional_text k (some v) = b',' ∷ (append_escaped_json_string [] k ++ (b':' ∷ render v []))

pub more_members-optional :
    (k : Bytes) (o : Option Json) (ms : Members) (rest : Bytes)
    → more_members (optional k o ms) rest ≡ optional_text k o ++ more_members ms rest
unfolding more_members optional optional_text
more_members-optional k none ms rest = refl
more_members-optional k (some v) ms rest =
    ap (λ t. b',' ∷ t)
      (ap (λ t. append_escaped_json_string [] k ++ (b':' ∷ t))
          (render-append v [] (more_members ms rest))
        ∙ sym (
            append_assoc (append_escaped_json_string [] k) (b':' ∷ render v [])
              (more_members ms rest)))

pub optional-Sane :
    {h : ℕ} {ms : Members} (k : Bytes) (o : Option Json)
    → All IsByte k
    → ((v : Json) → o ≡ some v → Sane h v)
    → SaneMembers h ms
    → SaneMembers h (optional k o ms)
unfolding optional
optional-Sane k none b s rest = rest
optional-Sane k (some v) b s rest = with_member b (s v refl) rest

abbrev pub number_of : Option ℕ → Option Json
number_of none = none
number_of (some n) = some (number n)

abbrev pub name_of : Option Bytes → Option Json
name_of none = none
name_of (some t) = some (quoted t)

module _ (print_float : ℕ → Bytes) where
  abbrev pub position_value : RecoveryPosition → Json
  position_value p = object (
      member (bytes "mapId") (number p.map_id) (
        member (bytes "zoneId") (number p.zone_id) (
          member (bytes "areaId") (number p.area_id) (
            member (bytes "x") (numeral (print_float p.x)) (
              member (bytes "y") (numeral (print_float p.y)) (
                member (bytes "z") (numeral (print_float p.z)) (
                  member (bytes "orientation") (numeral (print_float p.orientation))
                    no_members)))))))

  abbrev pub position_of : Option RecoveryPosition → Option Json
  position_of none = none
  position_of (some p) = some (position_value p)

  -- The object behind the operation, and the whole of it.
  abbrev pub behind_positions : RecoveryAuditRecord → Members
  behind_positions r =
      member (bytes "observedAtDestination") (word (truth r.observed_at_destination)) (
        member (bytes "movementReset") (word (truth r.movement_reset)) (
          member (bytes "travelReset") (word (truth r.travel_reset)) (
            member (bytes "taxiReset") (word (truth r.taxi_reset)) (
              member (bytes "outcome") (quoted (recovery_outcome_name r.outcome)) (
                member (bytes "reason") (quoted (recovery_reason_name r.reason)) (
                  member (bytes "mutationState")
                    (quoted (recovery_mutation_state_name r.mutation_state))
                    (member (bytes "persistenceState")
                      (quoted (recovery_persistence_state_name r.persistence_state))
                      no_members)))))))

  abbrev pub positions : RecoveryAuditRecord → Members
  positions r = optional (bytes "beforePosition") (position_of r.before_position) (
      optional (bytes "acceptedDestination") (position_of r.accepted_destination) (
        optional (bytes "observedPosition") (position_of r.observed_position) (behind_positions r)))

  abbrev pub record_members : RecoveryAuditRecord → Members
  record_members r = member (bytes "timestampMs") (number r.timestamp_ms) (
      member (bytes "operation") (quoted (bytes "recover")) (
        optional (bytes "requestId") (number_of r.request_id) (
          optional (bytes "botGuid") (number_of r.bot_guid) (
            optional (bytes "botName") (name_of r.bot_name) (
              member (bytes "destination") (quoted (recovery_destination_name r.destination))
                (positions r))))))
