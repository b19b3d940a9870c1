-- ===== src/Server/Audits.antt =====
-- What the audit log says of a payload, and what the handler cannot see.
use mod_playerbots_mcp.Base.{
  ℕ, ◌+◌, ◌≡◌, ◌≢◌, ◌∙◌, ap, refl, inl, inr, Bool, true, false, List, [], ◌∷◌, ◌++◌, Option, none,
  some, Bytes, bytes, if◌then◌else◌, value_or, Bool-cases, Option-cases, arith, str_eq, contains,
  ◌&&◌, not, is_some,
}
use mod_playerbots_mcp.Protocol.Frame.{encode_frame}
use mod_playerbots_mcp.Protocol.Json.Objects.{parse_strict, FlatJsonFields}
use mod_playerbots_mcp.Protocol.Json.Objects.Modes.{parse_lenient-parse_strict}
use mod_playerbots_mcp.Protocol.Requests.Fields.{string_field}
use mod_playerbots_mcp.Protocol.Requests.Payload.{parse_request_payload}
use mod_playerbots_mcp.Protocol.Requests.Payload.Admits.{operation_name}
use mod_playerbots_mcp.Protocol.Requests.Payload.Authenticated.{
  IsDigest, parse_request_payload-unauthenticated,
}
use mod_playerbots_mcp.Protocol.Requests.Payload.WellFormed.{parse_request_payload-named}
use mod_playerbots_mcp.Protocol.Responses.{Response, failure, serialize_response}
use mod_playerbots_mcp.Protocol.Types.{
  Request, Operation, ErrorCode, internal_error, shutdown, TokenDigest,
}
use mod_playerbots_mcp.Recovery.Rejected.{is_recover, build_rejected_recovery_audit}
use mod_playerbots_mcp.Recovery.Types.{RecoveryAuditRecord}
use mod_playerbots_mcp.Server.{
  Connection, Effect, written, logged, send_response, emit_audit, is_recover_operation,
  audit_response, handle_request, handle_parsed, handle_payload,
}

-- How many lines were logged.
abbrev pub lines : List Effect → ℕ
lines [] = 0
lines (logged l ∷ effects) = 1 + lines effects
lines (written f ∷ effects) = lines effects

lines-send_response : (id : ℕ) (r : Response) → lines (send_response id r) ≡ 0
unfolding send_response
lines-send_response id r = elim (Option-cases (encode_frame (serialize_response id r))) [
  | inl too_large ↦ rw (too_large, send_response) refl
  | inr (frame, framed) ↦ rw (framed, send_response) refl
]

lines-append : (a b : List Effect) → lines (a ++ b) ≡ lines a + lines b
lines-append [] b = omega arith
lines-append (logged l ∷ a) b = omega (arith, lines-append a b)
lines-append (written f ∷ a) b = lines-append a b

lines_before_response :
    (log : List Effect) (id : ℕ) (r : Response) → lines (log ++ send_response id r) ≡ lines log
lines_before_response log id r =
    omega (arith, lines-append log (send_response id r), lines-send_response id r)

-- The lines that an operation is due.
abbrev pub lines_due : Operation → ℕ
lines_due op = if is_recover_operation op then 1 else 0

named_recover :
    (op : Operation)
    → (str_eq (operation_name op) (bytes "recover") && not (contains (bytes "operation") []))
      ≡ is_recover_operation op
unfolding operation_name is_recover_operation str_eq contains
named_recover Operation.recover = refl
named_recover _ = refl

is_some-if {ℓ} : {A : Type ℓ} (b : Bool) (a : A) → is_some (if b then some a else none) ≡ b
is_some-if true a = refl
is_some-if false a = refl

is_recover-named :
    (fields : FlatJsonFields) (op : Operation)
    → string_field fields (bytes "operation") ≡ some (operation_name op)
    → is_recover (record { fields = fields; duplicates = [] }) ≡ is_recover_operation op
unfolding is_recover
is_recover-named fields op h = rw (h, is_recover) (named_recover op)

module _ (fields : FlatJsonFields) (op : Operation) where
  -- A rejection is recorded of a recovery request, and of no other.
  rejection_recorded :
      (payload : Bytes) (code : ErrorCode) (now : ℕ)
      → parse_strict payload ≡ some fields
      → string_field fields (bytes "operation") ≡ some (operation_name op)
      → is_some (build_rejected_recovery_audit payload code now) ≡ is_recover_operation op
  unfolding build_rejected_recovery_audit
  rejection_recorded payload code now parsed named =
      rw
        (
          parse_lenient-parse_strict payload fields parsed,
          is_recover-named fields op named,
          build_rejected_recovery_audit,
        )
        (is_some-if (is_recover_operation op) _)

-- Only an answer to a recovery request carries a record of one.
abbrev pub AuditsRecoveriesOnly : (Request → Option Response) → Type 0
AuditsRecoveriesOnly handler =
    (request : Request) (r : Response) (a : RecoveryAuditRecord)
    → handler request ≡ some r
    → r.recovery_audit ≡ some a
    → request.operation ≡ Operation.recover

answer_audits :
    (c : Connection) (request : Request)
    → AuditsRecoveriesOnly c.handler
    → (a : RecoveryAuditRecord)
    → (value_or (failure internal_error []) (c.handler request)).recovery_audit ≡ some a
    → request.operation ≡ Operation.recover
unfolding failure
answer_audits c request only a h = elim (Option-cases (c.handler request)) [
  | inl threw ↦ cc (rw threw at h)
  | inr (r, answered) ↦ only request r a answered (rw answered at h)
]

module _ (print_float : ℕ → Bytes) where
  lines-emit_audit :
      (o : Option RecoveryAuditRecord)
      → lines (emit_audit print_float o) ≡ (if is_some o then 1 else 0)
  unfolding emit_audit
  lines-emit_audit none = refl
  lines-emit_audit (some a) = refl

  lines-rejection :
      (fields : FlatJsonFields) (op : Operation) (payload : Bytes) (code : ErrorCode) (now : ℕ)
      → parse_strict payload ≡ some fields
      → string_field fields (bytes "operation") ≡ some (operation_name op)
      → lines (emit_audit print_float (build_rejected_recovery_audit payload code now))
        ≡ lines_due op
  lines-rejection fields op payload code now parsed named =
      lines-emit_audit (build_rejected_recovery_audit payload code now)
      ∙ ap (λ b. if b then 1 else 0) (rejection_recorded fields op payload code now parsed named)

  lines-audit_response :
      (payload : Bytes) (now : ℕ) (request : Request) (r : Response) (fields : FlatJsonFields)
      → parse_strict payload ≡ some fields
      → string_field fields (bytes "operation") ≡ some (operation_name request.operation)
      → ((a : RecoveryAuditRecord)
          → r.recovery_audit ≡ some a
          → request.operation ≡ Operation.recover)
      → lines (audit_response print_float payload now request r) ≡ lines_due request.operation
  unfolding audit_response
  lines-audit_response payload now request r fields parsed named only =
      elim (Option-cases r.recovery_audit) [
        | inr (a, present) ↦
            rw (present, only a present, audit_response)
              (unfold is_recover_operation emit_audit in refl)
        | inl absent ↦ elim (Bool-cases (is_recover_operation request.operation)) [
          | inl recovers ↦
              rw (absent, recovers, audit_response)
                (lines-rejection fields request.operation payload _ now parsed named
                  ∙ ap (λ b. if b then 1 else 0) recovers)
          | inr other ↦ rw (absent, other, audit_response) refl
        ]
      ]

  lines-handle_request :
      (c : Connection) (payload : Bytes) (request : Request) (fields : FlatJsonFields)
      → parse_strict payload ≡ some fields
      → string_field fields (bytes "operation") ≡ some (operation_name request.operation)
      → AuditsRecoveriesOnly c.handler
      → lines (handle_request print_float c payload request) ≡ lines_due request.operation
  unfolding handle_request
  lines-handle_request c payload request fields parsed named only =
      let id = request.request_id in
      let answer = value_or (failure internal_error []) (c.handler request) in
      let op = request.operation in
      elim (Bool-cases c.stopping_at_dispatch) [
        | inl stopping ↦
            rw (stopping, handle_request)
              (lines_before_response
                  (emit_audit print_float (build_rejected_recovery_audit payload shutdown c.now)) id
                  (failure shutdown [])
                ∙ lines-rejection fields op payload shutdown c.now parsed named)
        | inr running ↦
            rw (running, handle_request)
              (lines_before_response (audit_response print_float payload c.now request answer) id
                  answer
                ∙ lines-audit_response payload c.now request answer fields parsed named
                    (answer_audits c request only))
      ]

module _ (digest : Bytes → TokenDigest) (print_float : ℕ → Bytes) where
  -- Of a request that is accepted, exactly one line is logged if it is a recovery request, and none
  -- otherwise, whether the server stops, the handler throws, or it answers, with a record of the
  -- recovery or without. The handler is assumed to attach records to recovery requests only.
  pub handle_payload-audits :
      (c : Connection) (expected : TokenDigest) (payload : Bytes) (r : Request)
      → AuditsRecoveriesOnly c.handler
      → (parse_request_payload digest payload expected).request ≡ some r
      → lines (handle_payload digest print_float c expected payload) ≡ lines_due r.operation
  unfolding handle_payload handle_parsed
  handle_payload-audits c expected payload r only taken =
      let (fields, parsed, _, named) =
        parse_request_payload-named digest payload expected r taken in
      rw (taken, handle_parsed)
        (lines-handle_request print_float c payload r fields parsed named only)

  -- A flat object without the right token reaches nothing but the clock and the log: at a given time,
  -- what is logged and written does not depend on the handler or on whether the server stops. SHA-256
  -- is assumed to give 32 bytes.
  pub handle_payload-unauthenticated :
      (c d : Connection) (expected : TokenDigest) (payload : Bytes) (fields : FlatJsonFields)
      → ((t : Bytes) → IsDigest (digest t))
      → IsDigest expected
      → parse_strict payload ≡ some fields
      → ((token : Bytes)
          → string_field fields (bytes "token") ≡ some token
          → digest token ≢ expected)
      → c.now ≡ d.now
      → handle_payload digest print_float c expected payload
        ≡ handle_payload digest print_float d expected payload
  unfolding handle_payload handle_parsed
  handle_payload-unauthenticated c d expected payload fields sha known parsed wrong same_time =
      rw
        (
          parse_request_payload-unauthenticated digest payload expected fields sha known parsed
              wrong,
          same_time,
          handle_parsed,
        )
        refl
