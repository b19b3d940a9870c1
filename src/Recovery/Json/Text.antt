-- ===== src/Recovery/Json/Text.antt =====
-- `SerializeRecoveryAuditRecord` writes one object.
use mod_playerbots_mcp.Base.{
  ℕ, ◌≡◌, refl, ap, ap₂, ◌∙◌, sym, [], ◌∷◌, ◌++◌, append_assoc, Option, Bytes, bytes, concat,
}
use mod_playerbots_mcp.Protocol.Json.Trees.{
  quoted, object, Members, member, render, render_members, more_members,
}
use mod_playerbots_mcp.Protocol.Print.{
  to_string, append_escaped_json_string, escape_loop, escape_byte,
}
use mod_playerbots_mcp.Recovery.Names.{recovery_destination_name}
use mod_playerbots_mcp.Recovery.Serialize.{optional_number, serialize_recovery_audit_record}
use mod_playerbots_mcp.Recovery.Types.{RecoveryPosition, RecoveryAuditRecord}
use mod_playerbots_mcp.Recovery.Json.Members.{
  optional, optional_text, more_members-optional, number_of, name_of, position_of, behind_positions,
  positions, record_members,
}
use mod_playerbots_mcp.Recovery.Json.Pieces.{
  number-text, name-text, position-text, names-text, destination-text, positions-text, flatten,
}

module _ (print_float : ℕ → Bytes) (r : RecoveryAuditRecord) where
  abbrev opening : Bytes
  opening = concat (
      bytes "{\"timestampMs\":"
      ∷ to_string r.timestamp_ms
      ∷ bytes ",\"operation\":\"recover\""
      ∷ [])

  abbrev id_text : Bytes
  id_text = optional_text (bytes "requestId") (number_of r.request_id)

  abbrev guid_text : Bytes
  guid_text = optional_text (bytes "botGuid") (number_of r.bot_guid)

  abbrev name_text : Bytes
  name_text = optional_text (bytes "botName") (name_of r.bot_name)

  abbrev place_text : Bytes → Option RecoveryPosition → Bytes
  place_text field p = optional_text field (position_of print_float p)

  abbrev destination_text : Bytes
  destination_text =
      concat
        (bytes ",\"destination\":\"" ∷ recovery_destination_name r.destination ∷ bytes "\"" ∷ [])

  -- The text as it is put together, in the pieces of the members.
  serialize-pieces :
      serialize_recovery_audit_record print_float r
      ≡ (((((((opening ++ id_text) ++ guid_text) ++ name_text) ++ destination_text)
              ++ place_text (bytes "beforePosition") r.before_position)
            ++ place_text (bytes "acceptedDestination") r.accepted_destination)
          ++ place_text (bytes "observedPosition") r.observed_position)
        ++ more_members (behind_positions print_float r) (bytes "}")
  unfolding serialize_recovery_audit_record append_escaped_json_string escape_loop escape_byte
  serialize-pieces =
      let numbers =
        ap (λ t. (opening ++ t) ++ optional_number (bytes ",\"botGuid\":") r.bot_guid)
          (number-text (bytes "requestId") r.request_id)
        ∙ ap (λ t. (opening ++ id_text) ++ t) (number-text (bytes "botGuid") r.bot_guid) in
      let names = name-text _ r.bot_name ∙ ap (λ t. t ++ name_text) numbers in
      let before =
        position-text print_float _ (bytes "beforePosition") r.before_position refl
        ∙ ap (λ t. (t ++ destination_text) ++ place_text (bytes "beforePosition") r.before_position)
            names in
      let accepted =
        position-text print_float _ (bytes "acceptedDestination") r.accepted_destination refl
        ∙ ap (λ t. t ++ place_text (bytes "acceptedDestination") r.accepted_destination) before in
      let observed =
        position-text print_float _ (bytes "observedPosition") r.observed_position refl
        ∙ ap (λ t. t ++ place_text (bytes "observedPosition") r.observed_position) accepted in
      ap₂ (λ a b. a ++ b) observed (names-text print_float r)

  behind_operation : Members
  behind_operation = optional (bytes "requestId") (number_of r.request_id) (
      optional (bytes "botGuid") (number_of r.bot_guid) (
        optional (bytes "botName") (name_of r.bot_name) (
          member (bytes "destination") (quoted (recovery_destination_name r.destination))
            (positions print_float r))))

  members-text :
      more_members behind_operation (bytes "}")
      ≡ id_text
        ++ (guid_text
            ++ (name_text
                ++ (destination_text
                    ++ (place_text (bytes "beforePosition") r.before_position
                        ++ (place_text (bytes "acceptedDestination") r.accepted_destination
                            ++ (place_text (bytes "observedPosition") r.observed_position
                                ++ more_members (behind_positions print_float r) (bytes "}")))))))
  unfolding behind_operation more_members render append_escaped_json_string escape_loop escape_byte
  members-text =
      more_members-optional _ (number_of r.request_id) _ _
      ∙ ap (λ t. id_text ++ t)
          (more_members-optional _ (number_of r.bot_guid) _ _
            ∙ ap (λ t. guid_text ++ t)
                (more_members-optional _ (name_of r.bot_name) _ _
                  ∙ ap (λ t. name_text ++ t)
                      (ap
                          (λ t.
                            bytes ",\"destination\":"
                            ++ (append_escaped_json_string []
                                  (recovery_destination_name r.destination)
                                ++ t))
                          (positions-text print_float r)
                        ∙ sym (destination-text print_float r _))))

  pub serialize-render :
      serialize_recovery_audit_record print_float r
      ≡ render (object (record_members print_float r)) []
  unfolding behind_operation render render_members more_members append_escaped_json_string
      escape_loop escape_byte concat
  serialize-render =
      serialize-pieces
      ∙ flatten opening id_text guid_text name_text destination_text _ _ _ _
      ∙ ap (λ t. opening ++ t) (sym members-text)
      ∙ ap (λ t. bytes "{\"timestampMs\":" ++ t)
          (append_assoc (to_string r.timestamp_ms) (bytes ",\"operation\":\"recover\"")
            (more_members behind_operation (bytes "}")))
