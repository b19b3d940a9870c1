-- ===== src/Recovery/Json/Pieces.antt =====
-- The pieces of the text of a record, as members of an object.
use mod_playerbots_mcp.Base.{
  ℕ, ◌≡◌, refl, ap, ◌∙◌, sym, true, [], ◌∷◌, ◌++◌, append_assoc, append-nil, Option, none, some,
  Bytes, bytes, concat,
}
use mod_playerbots_mcp.Protocol.Json.Trees.{render, render_members, more_members}
use mod_playerbots_mcp.Protocol.Print.{
  to_string, append_escaped_json_string, escape_loop, escape_byte,
}
use mod_playerbots_mcp.Protocol.Print.Plain.{is_plain, append_escaped-plain}
use mod_playerbots_mcp.Protocol.Print.ReadStrings.{append_escaped-append}
use mod_playerbots_mcp.Recovery.Names.{
  recovery_destination_name, recovery_outcome_name, recovery_reason_name,
  recovery_mutation_state_name, recovery_persistence_state_name,
}
use mod_playerbots_mcp.Recovery.Serialize.{
  truth, optional_number, optional_name, append_recovery_position, optional_position,
}
use mod_playerbots_mcp.Recovery.Types.{RecoveryPosition, RecoveryAuditRecord}
use mod_playerbots_mcp.Recovery.Json.Plain.{
  destination-plain, outcome-plain, reason-plain, mutation-plain, persistence-plain,
}
use mod_playerbots_mcp.Recovery.Json.Members.{
  optional, optional_text, more_members-optional, number_of, name_of, position_of, behind_positions,
  positions,
}

pub number-text :
    (k : Bytes) (o : Option ℕ)
    → optional_number (b',' ∷ (append_escaped_json_string [] k ++ b':' ∷ [])) o
      ≡ optional_text k (number_of o)
unfolding optional_number optional_text render
number-text k none = refl
number-text k (some n) =
    ap (λ t. b',' ∷ t)
      (append_assoc (append_escaped_json_string [] k) (b':' ∷ []) (to_string n)
        ∙ ap (λ t. append_escaped_json_string [] k ++ (b':' ∷ t)) (sym (append-nil (to_string n))))

pub name-text :
    (output : Bytes) (o : Option Bytes)
    → optional_name output o ≡ output ++ optional_text (bytes "botName") (name_of o)
unfolding optional_name optional_text render append_escaped_json_string escape_loop escape_byte
name-text output none = sym (append-nil output)
name-text output (some t) =
    append_escaped-append (output ++ bytes ",\"botName\":") t
    ∙ append_assoc output (bytes ",\"botName\":") (append_escaped_json_string [] t)
    ∙ ap (λ x. output ++ (bytes ",\"botName\":" ++ x))
        (sym (append-nil (append_escaped_json_string [] t)))

module _ (print_float : ℕ → Bytes) where
  pub position-text :
      (output field : Bytes) (o : Option RecoveryPosition)
      → is_plain field ≡ true
      → optional_position print_float output field o
        ≡ output ++ optional_text field (position_of print_float o)
  unfolding optional_position append_recovery_position optional_text render render_members
      more_members append_escaped_json_string escape_loop escape_byte concat
  position-text output field none h = sym (append-nil output)
  position-text output field (some p) h =
      ap (λ x. output ++ (b',' ∷ x)) (sym (append_escaped-plain field _ h))

  -- The end of the text, the names of the states in quotes.
  pub names-text :
      (r : RecoveryAuditRecord)
      → concat (
          bytes ",\"observedAtDestination\":"
          ∷ truth r.observed_at_destination
          ∷ bytes ",\"movementReset\":"
          ∷ truth r.movement_reset
          ∷ bytes ",\"travelReset\":"
          ∷ truth r.travel_reset
          ∷ bytes ",\"taxiReset\":"
          ∷ truth r.taxi_reset
          ∷ bytes ",\"outcome\":\""
          ∷ recovery_outcome_name r.outcome
          ∷ bytes "\",\"reason\":\""
          ∷ recovery_reason_name r.reason
          ∷ bytes "\",\"mutationState\":\""
          ∷ recovery_mutation_state_name r.mutation_state
          ∷ bytes "\",\"persistenceState\":\""
          ∷ recovery_persistence_state_name r.persistence_state
          ∷ bytes "\"}"
          ∷ [])
        ≡ more_members (behind_positions print_float r) (bytes "}")
  unfolding concat more_members render append_escaped_json_string escape_loop escape_byte
  names-text r =
      rw
        (
          append_escaped-plain (recovery_outcome_name r.outcome) _ (outcome-plain r.outcome),
          append_escaped-plain (recovery_reason_name r.reason) _ (reason-plain r.reason),
          append_escaped-plain (recovery_mutation_state_name r.mutation_state) _
              (mutation-plain r.mutation_state),
          append_escaped-plain (recovery_persistence_state_name r.persistence_state) _
              (persistence-plain r.persistence_state),
        )
        refl

  pub destination-text :
      (r : RecoveryAuditRecord) (rest : Bytes)
      → concat (
            bytes ",\"destination\":\"" ∷ recovery_destination_name r.destination ∷ bytes "\"" ∷ [])
          ++ rest
        ≡ bytes ",\"destination\":"
          ++ (append_escaped_json_string [] (recovery_destination_name r.destination) ++ rest)
  unfolding concat
  destination-text r rest =
      let name = recovery_destination_name r.destination in
      ap (λ t. bytes ",\"destination\":\"" ++ t) (append_assoc name (bytes "\"") rest)
      ∙ ap (λ t. bytes ",\"destination\":" ++ t)
          (sym (append_escaped-plain name rest (destination-plain r.destination)))

  pub positions-text :
      (r : RecoveryAuditRecord)
      → more_members (positions print_float r) (bytes "}")
        ≡ optional_text (bytes "beforePosition") (position_of print_float r.before_position)
          ++ (optional_text
                (bytes "acceptedDestination")
                (position_of print_float r.accepted_destination)
              ++ (optional_text
                    (bytes "observedPosition")
                    (position_of print_float r.observed_position)
                  ++ more_members (behind_positions print_float r) (bytes "}")))
  positions-text r =
      let p = optional_text (bytes "beforePosition") (position_of print_float r.before_position) in
      let q =
        optional_text (bytes "acceptedDestination")
          (position_of print_float r.accepted_destination) in
      let last =
        optional (bytes "observedPosition") (position_of print_float r.observed_position)
          (behind_positions print_float r) in
      more_members-optional _ (position_of print_float r.before_position) _ _
      ∙ ap (λ t. p ++ t)
          (more_members-optional _ (position_of print_float r.accepted_destination) last _
            ∙ ap (λ t. q ++ t)
                (more_members-optional _ (position_of print_float r.observed_position) _ _))

-- Pieces that are appended one after the other.
pub flatten :
    (o a b c d p q s e : Bytes)
    → (((((((o ++ a) ++ b) ++ c) ++ d) ++ p) ++ q) ++ s) ++ e
      ≡ o ++ (a ++ (b ++ (c ++ (d ++ (p ++ (q ++ (s ++ e)))))))
flatten o a b c d p q s e =
    append_assoc ((((((o ++ a) ++ b) ++ c) ++ d) ++ p) ++ q) s e
    ∙ append_assoc (((((o ++ a) ++ b) ++ c) ++ d) ++ p) q (s ++ e)
    ∙ append_assoc ((((o ++ a) ++ b) ++ c) ++ d) p (q ++ (s ++ e))
    ∙ append_assoc (((o ++ a) ++ b) ++ c) d (p ++ (q ++ (s ++ e)))
    ∙ append_assoc ((o ++ a) ++ b) c (d ++ (p ++ (q ++ (s ++ e))))
    ∙ append_assoc (o ++ a) b (c ++ (d ++ (p ++ (q ++ (s ++ e)))))
    ∙ append_assoc o a (b ++ (c ++ (d ++ (p ++ (q ++ (s ++ e))))))
