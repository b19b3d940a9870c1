-- ===== src/Protocol/Requests/Payload/WellFormed.antt =====
-- What holds of every request that the parser lets through, whatever the payload.
use mod_playerbots_mcp.Base.{
  str_eq, str_eq→eq, arith, ap, sym, ◌∙◌, ◌≤◌, [], ◌∷◌, lookup, ℕ, bytes, ◌≡◌, refl, inl, inr, true,
  some, Bytes, if◌then◌else◌, Bool-cases, Option-cases,
}
use mod_playerbots_mcp.Protocol.Json.Objects.{FlatJsonFields, parse_strict}
use mod_playerbots_mcp.Protocol.Requests.Outcome.{Outcome, accepted, rejected}
use mod_playerbots_mcp.Protocol.Requests.Payload.{
  parse_operation, parse_authenticated, is_authenticated, parse_request_payload, to_result,
}
use mod_playerbots_mcp.Protocol.Json.Objects.Modes.{AreUint64, parse_strict-AreUint64}
use mod_playerbots_mcp.Protocol.Requests.Fields.{unsigned_field, string_field}
use mod_playerbots_mcp.Protocol.Types.{max_uint64}
use mod_playerbots_mcp.Protocol.Requests.Rules.{
  Ensures-map, Ensures, refuses, require-Ensures, or_reject-Ensures, Ensures-accepted,
}
use mod_playerbots_mcp.Protocol.Types.{Request, Operation, TokenDigest}
use mod_playerbots_mcp.Protocol.Requests.Payload.Admits.{Serves, IsAdmitted, operation_name}
use mod_playerbots_mcp.Protocol.Requests.Payload.Branches.{
  parse_status-admits, parse_list-admits, parse_inspect-admits, parse_anomalies-admits,
  parse_command-admits, parse_recover-admits, parse_set_skill-admits, parse_teleport-admits,
  parse_hold-admits, parse_inspect_lease-admits, parse_release-admits, parse_gm_command-admits,
  parse_reload_config-admits,
}
use mod_playerbots_mcp.Protocol.Requests.Payload.Checks.{parse_check_operation-admits}

-- Admitted, under the id that was read, and of the operation that was named.
abbrev ServesNamed : Bytes → Request → Request → Type 0
ServesNamed name q r =
    IsAdmitted r × (r.request_id ≡ q.request_id) × (name ≡ operation_name r.operation)

module _ (name : Bytes) (q : Request) where
  -- One more test of the ladder.
  branch-admits :
      (op : Operation) {o p : Outcome Request}
      → Ensures (Serves op q) o
      → Ensures (ServesNamed name q) p
      → Ensures (ServesNamed name q) (if str_eq name (operation_name op) then o else p)
  branch-admits op h k = elim (Bool-cases (str_eq name (operation_name op))) [
    | inl named ↦
        rw named
          (Ensures-map (λ r s. (s.0, s.1, str_eq→eq name _ named ∙ ap operation_name (sym s.2))) h)
    | inr other ↦ rw other k
  ]

  parse_operation-admits :
      (fields : FlatJsonFields)
      → q.strings ≡ []
      → Ensures (ServesNamed name q) (parse_operation name fields q)
  unfolding parse_operation operation_name
  parse_operation-admits fields none_yet =
      branch-admits Operation.status (parse_status-admits fields q) (
        branch-admits Operation.list (parse_list-admits fields q) (
          branch-admits Operation.inspect (parse_inspect-admits fields q) (
            branch-admits Operation.anomalies (parse_anomalies-admits fields q) (
              branch-admits Operation.command (parse_command-admits fields q) (
                branch-admits Operation.recover (parse_recover-admits fields q) (
                  branch-admits Operation.set_skill (parse_set_skill-admits fields q) (
                    branch-admits Operation.teleport_to_game_object (parse_teleport-admits fields q)
                      (branch-admits Operation.hold_activity (parse_hold-admits fields q none_yet) (
                        branch-admits Operation.inspect_activity_lease
                          (parse_inspect_lease-admits fields q)
                          (branch-admits Operation.release_activity (parse_release-admits fields q)
                            (branch-admits Operation.gm_command (parse_gm_command-admits fields q) (
                              branch-admits Operation.reload_config
                                (parse_reload_config-admits fields q)
                                (branch-admits Operation.check
                                  (parse_check_operation-admits fields q) refuses)))))))))))))

-- Admitted, and under the id and the operation of the payload.
pub record AnswersTo (fields : FlatJsonFields) (r : Request) : Type 0 where
  pub admitted : IsAdmitted r
  pub same_id : unsigned_field fields (bytes "requestId") ≡ some r.request_id
  pub same_operation : string_field fields (bytes "operation") ≡ some (operation_name r.operation)

parse_authenticated-admits :
    (fields : FlatJsonFields) → Ensures (AnswersTo fields) (parse_authenticated fields)
unfolding parse_authenticated
parse_authenticated-admits fields = or_reject-Ensures _ _ λ version _. require-Ensures _ _ λ _.
    or_reject-Ensures _ _ λ id e. or_reject-Ensures _ _ λ name named.
      Ensures-map
        (λ r h. record {
          admitted = h.0;
          same_id = e ∙ ap some (sym h.1);
          same_operation = named ∙ ap some h.2;
        })
        (parse_operation-admits name _ fields refl)

pub unsigned_field-le :
    (fields : FlatJsonFields) (name : Bytes) (n : ℕ)
    → AreUint64 fields
    → unsigned_field fields name ≡ some n
    → n ≤ max_uint64
unfolding unsigned_field lookup
unsigned_field-le [] name n h e = cc
unsigned_field-le ((key, v) ∷ fields) name n h e =
    ground (arith, unsigned_field-le fields name n h.1)

to_result-request :
    (o : Outcome Request) (r : Request) → (to_result o).request ≡ some r → o ≡ accepted r
to_result-request (accepted q) r h = cc
to_result-request (rejected e) r h = cc

module _ (digest : Bytes → TokenDigest) where
  -- The two ways a payload is answered, by what the strict parse gives.
  pub parse_request_payload-accepts :
      (payload : Bytes) (expected : TokenDigest) (r : Request)
      → (parse_request_payload digest payload expected).request ≡ some r
      → (fields : FlatJsonFields) × (parse_strict payload ≡ some fields)
        × (is_authenticated digest expected fields ≡ true)
        × (parse_authenticated fields ≡ accepted r)
  unfolding parse_request_payload
  parse_request_payload-accepts payload expected r h = elim (Option-cases (parse_strict payload)) [
    | inl bad ↦ cc (rw (bad, parse_request_payload) at h)
    | inr (fields, good) ↦ elim (Bool-cases (is_authenticated digest expected fields)) [
      | inl known ↦ (
        fields,
        good,
        known,
        to_result-request (parse_authenticated fields) r
            (rw (good, known, parse_request_payload) at h),
      )
      | inr unknown ↦ cc (rw (good, unknown, parse_request_payload) at h)
    ]
  ]

  -- Every request that is accepted, from whatever payload, has the bounds of its operation: GUIDs are
  -- 32-bit and not zero, page limits are 1 to 100 (anomalies 1 to 50), a skill maximum is a multiple of
  -- 75 up to 450 and not below the value, a lease is at most 45 minutes under a token of 32 hex digits
  -- if it names one, a recovery goes to the homebind, a console command is not a refused one, and
  -- the condition of a check is one that is known.
  pub parse_request_payload-admits :
      (payload : Bytes) (expected : TokenDigest) (r : Request)
      → (parse_request_payload digest payload expected).request ≡ some r
      → IsAdmitted r
  parse_request_payload-admits payload expected r h =
      let (fields, _, _, e) = parse_request_payload-accepts payload expected r h in
      (Ensures-accepted (parse_authenticated-admits fields) e).admitted

  -- The id that an accepted request is answered under is the uint64 of its payload.
  pub parse_request_payload-request_id :
      (payload : Bytes) (expected : TokenDigest) (r : Request)
      → (parse_request_payload digest payload expected).request ≡ some r
      → r.request_id ≤ max_uint64
  parse_request_payload-request_id payload expected r h =
      let (fields, parsed, _, e) = parse_request_payload-accepts payload expected r h in
      unsigned_field-le fields (bytes "requestId") r.request_id
        (parse_strict-AreUint64 payload fields parsed)
        (Ensures-accepted (parse_authenticated-admits fields) e).same_id

  -- An accepted request is the one that its payload names: its operation is the one of the string
  -- `operation`, and its id is the number `requestId`.
  pub parse_request_payload-named :
      (payload : Bytes) (expected : TokenDigest) (r : Request)
      → (parse_request_payload digest payload expected).request ≡ some r
      → (fields : FlatJsonFields) × (parse_strict payload ≡ some fields)
        × (unsigned_field fields (bytes "requestId") ≡ some r.request_id)
        × (string_field fields (bytes "operation") ≡ some (operation_name r.operation))
  parse_request_payload-named payload expected r h =
      let (fields, parsed, _, e) = parse_request_payload-accepts payload expected r h in
      let answers = Ensures-accepted (parse_authenticated-admits fields) e in
      (fields, parsed, answers.same_id, answers.same_operation)
