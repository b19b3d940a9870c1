-- ===== src/Recovery/Json/Sane.antt =====
-- A record is written as a value that the parser skips.
use mod_playerbots_mcp.Base.{
  ℕ, suc, some-eq_inv, ◌≡◌, refl, subst, Bool, true, false, Option, none, some, Bytes, bytes, All,
  all, ltb,
}
use mod_playerbots_mcp.Protocol.Frame.RoundTrip.{IsByte, are_bytes}
use mod_playerbots_mcp.Protocol.Json.Trees.{
  Json, quoted, numeral, word, true_word, false_word, IsNumber, sane_numeral, sane_word, Members,
  member, Sane, SaneMembers, sane_quoted, sane_number, sane_object, ends_object, with_member,
}
use mod_playerbots_mcp.Protocol.Print.Plain.{is_plain, is_plain-bytes}
use mod_playerbots_mcp.Recovery.Serialize.{truth}
use mod_playerbots_mcp.Recovery.Types.{RecoveryPosition, RecoveryAuditRecord}
use mod_playerbots_mcp.Recovery.Json.Plain.{
  destination-plain, outcome-plain, reason-plain, mutation-plain, persistence-plain,
}
use mod_playerbots_mcp.Recovery.Json.Members.{
  optional-Sane, number_of, name_of, position_value, position_of, behind_positions, record_members,
}

-- The coordinates of a position are printed as JSON numbers.
abbrev pub IsPrinted : (ℕ → Bytes) → RecoveryPosition → Type 0
IsPrinted print_float p =
    IsNumber (print_float p.x)
    × IsNumber (print_float p.y)
    × IsNumber (print_float p.z)
    × IsNumber (print_float p.orientation)

-- The name and the positions in a record, if it has them, are of bytes and printed as numbers.
abbrev pub IsWritable : (ℕ → Bytes) → RecoveryAuditRecord → Type 0
IsWritable print_float r =
    ((t : Bytes) → r.bot_name ≡ some t → All IsByte t)
    × ((p : RecoveryPosition) → r.before_position ≡ some p → IsPrinted print_float p)
    × ((p : RecoveryPosition) → r.accepted_destination ≡ some p → IsPrinted print_float p)
    × ((p : RecoveryPosition) → r.observed_position ≡ some p → IsPrinted print_float p)

module _ (print_float : ℕ → Bytes) where
  float_at :
      {h : ℕ} {ms : Members} (k : Bytes)
      → all (λ x. ltb x 256) k ≡ true
      → {t : Bytes} → IsNumber t
      → SaneMembers h ms
      → SaneMembers h (member k (numeral t) ms)
  float_at k key n s = with_member (are_bytes k key) (sane_numeral n) s

  position_value-Sane :
      (h : ℕ) (p : RecoveryPosition)
      → IsPrinted print_float p
      → Sane (suc h) (position_value print_float p)
  position_value-Sane h p (x, y, z, o) = sane_object (
      with_member (are_bytes (bytes "mapId") refl) sane_number (
        with_member (are_bytes (bytes "zoneId") refl) sane_number (
          with_member (are_bytes (bytes "areaId") refl) sane_number (
            float_at (bytes "x") refl x (
              float_at (bytes "y") refl y (
                float_at (bytes "z") refl z
                  (float_at (bytes "orientation") refl o ends_object)))))))

  position_of-Sane :
      (h : ℕ) (o : Option RecoveryPosition)
      → ((p : RecoveryPosition) → o ≡ some p → IsPrinted print_float p)
      → (v : Json) → position_of print_float o ≡ some v
      → Sane (suc h) v
  position_of-Sane h none printed v e = cc
  position_of-Sane h (some p) printed v e =
      subst (Sane (suc h)) (some-eq_inv e) (position_value-Sane h p (printed p refl))

number_of-Sane : (h : ℕ) (o : Option ℕ) (v : Json) → number_of o ≡ some v → Sane h v
number_of-Sane h none v e = cc
number_of-Sane h (some n) v e = subst (Sane h) (some-eq_inv e) sane_number

name_of-Sane :
    (h : ℕ) (o : Option Bytes) (v : Json)
    → ((t : Bytes) → o ≡ some t → All IsByte t)
    → name_of o ≡ some v
    → Sane h v
name_of-Sane h none v b e = cc
name_of-Sane h (some t) v b e = subst (Sane h) (some-eq_inv e) (sane_quoted (b t refl))

truth-Sane : (h : ℕ) (b : Bool) → Sane h (word (truth b))
unfolding truth
truth-Sane h true = sane_word true_word
truth-Sane h false = sane_word false_word

plain-Sane : (h : ℕ) (s : Bytes) → is_plain s ≡ true → Sane h (quoted s)
plain-Sane h s p = sane_quoted (is_plain-bytes s p)

behind_positions-Sane :
    (print_float : ℕ → Bytes) (h : ℕ) (r : RecoveryAuditRecord)
    → SaneMembers h (behind_positions print_float r)
behind_positions-Sane print_float h r =
    with_member (are_bytes (bytes "observedAtDestination") refl)
      (truth-Sane h r.observed_at_destination)
      (with_member (are_bytes (bytes "movementReset") refl) (truth-Sane h r.movement_reset) (
        with_member (are_bytes (bytes "travelReset") refl) (truth-Sane h r.travel_reset) (
          with_member (are_bytes (bytes "taxiReset") refl) (truth-Sane h r.taxi_reset) (
            with_member (are_bytes (bytes "outcome") refl)
              (plain-Sane h _ (outcome-plain r.outcome))
              (with_member (are_bytes (bytes "reason") refl)
                (plain-Sane h _ (reason-plain r.reason))
                (with_member (are_bytes (bytes "mutationState") refl)
                  (plain-Sane h _ (mutation-plain r.mutation_state))
                  (with_member (are_bytes (bytes "persistenceState") refl)
                    (plain-Sane h _ (persistence-plain r.persistence_state)) ends_object)))))))

-- Every record is written as a sane object, if its name and positions are fit for it.
pub record_members-Sane :
    (print_float : ℕ → Bytes) (h : ℕ) (r : RecoveryAuditRecord)
    → IsWritable print_float r
    → SaneMembers (suc h) (record_members print_float r)
record_members-Sane print_float h r (named, before, accepted, observed) =
    let place = position_of-Sane print_float h in
    with_member (are_bytes (bytes "timestampMs") refl) sane_number (
      with_member (are_bytes (bytes "operation") refl) (plain-Sane _ (bytes "recover") refl) (
        optional-Sane (bytes "requestId") _ (are_bytes (bytes "requestId") refl)
          (number_of-Sane _ r.request_id)
          (optional-Sane (bytes "botGuid") _ (are_bytes (bytes "botGuid") refl)
            (number_of-Sane _ r.bot_guid)
            (optional-Sane (bytes "botName") _ (are_bytes (bytes "botName") refl)
              (λ v. name_of-Sane _ r.bot_name v named)
              (with_member (are_bytes (bytes "destination") refl)
                (plain-Sane _ _ (destination-plain r.destination))
                (optional-Sane (bytes "beforePosition") _ (are_bytes (bytes "beforePosition") refl)
                  (place r.before_position before)
                  (optional-Sane (bytes "acceptedDestination") _
                    (are_bytes (bytes "acceptedDestination") refl)
                    (place r.accepted_destination accepted)
                    (optional-Sane (bytes "observedPosition") _
                      (are_bytes (bytes "observedPosition") refl)
                      (place r.observed_position observed)
                      (behind_positions-Sane print_float (suc h) r)))))))))
