-- ===== src/Server.antt =====
-- `PlayerbotVerificationServer` of src/Bot/MCP/PlayerbotVerificationServer.cpp: what one connection is
-- answered. What the socket, the clock and the handler do is given; what is logged and what is written
-- is the result, in order.
pub mod Answers
pub mod Audits
pub mod Silence
pub mod Deadline
pub mod Loop
use mod_playerbots_mcp.Base.{
  ℕ, Bool, true, false, List, [], ◌∷◌, ◌++◌, Option, none, some, Bytes, ltb, ◌==◌, if◌then◌else◌,
  value_or,
}
use mod_playerbots_mcp.Protocol.Frame.{header_length, encode_frame}
use mod_playerbots_mcp.Protocol.Requests.Payload.{parse_request_payload}
use mod_playerbots_mcp.Protocol.Responses.{Response, failure, serialize_response}
use mod_playerbots_mcp.Protocol.Types.{
  Operation, Request, RequestParseResult, TokenDigest, malformed_frame, frame_too_large, shutdown,
  internal_error, max_frame_payload_bytes,
}
use mod_playerbots_mcp.Recovery.Rejected.{build_rejected_recovery_audit}
use mod_playerbots_mcp.Recovery.Serialize.{serialize_recovery_audit_record}
use mod_playerbots_mcp.Recovery.Types.{RecoveryAuditRecord}

-- `ReadWithDeadline`: all of the buffer, the deadline, or another error.
pub data Read {ℓ} (A : Type ℓ) : Type ℓ where
  received : A → Read A
  timed_out : Read A
  failed : Read A

-- The four header bytes.
abbrev pub Header : Type 0
Header = ℕ × ℕ × ℕ × ℕ

-- What one connection meets. `stopping` is loaded where a read has failed and once more behind the
-- parser; the server may be stopped at any time, so each load has its own answer.
pub record Connection : Type 0 where
  pub header : Read Header
  pub payload : ℕ → Read Bytes
  pub stopping_at_header : Bool
  pub stopping_at_payload : Bool
  pub stopping_at_dispatch : Bool
  pub now : ℕ
  -- The handler's response; `none` where it throws.
  pub handler : Request → Option Response

-- A line for the audit sink, or a frame for the socket.
pub data Effect : Type 0 where
  logged written : Bytes → Effect

-- `SendResponse`.
unfoldable pub send_response : ℕ → Response → List Effect
send_response request_id response = elim (encode_frame (serialize_response request_id response)) [
  | none ↦ []
  | some frame ↦ written frame ∷ []
]

-- A failed read: silence when the peer was too slow or the server stops, and else an error.
unfoldable pub answer_failed_read : Bool → List Effect
answer_failed_read stopping = if stopping then [] else send_response 0 (failure malformed_frame [])

unfoldable pub is_recover_operation : Operation → Bool
is_recover_operation Operation.recover = true
is_recover_operation _ = false

-- An empty payload is not read from the socket.
unfoldable pub read_payload : Connection → ℕ → Read Bytes
read_payload c len = if len == 0 then received [] else c.payload len

module _ (print_float : ℕ → Bytes) where
  -- `EmitAudit`, where there is a record.
  unfoldable pub emit_audit : Option RecoveryAuditRecord → List Effect
  emit_audit none = []
  emit_audit (some r) = logged (serialize_recovery_audit_record print_float r) ∷ []

  -- What is logged of a request that the handler has answered.
  unfoldable pub audit_response : Bytes → ℕ → Request → Response → List Effect
  audit_response payload now request response = elim response.recovery_audit [
    | some r ↦ emit_audit (some r)
    | none ↦
        if is_recover_operation request.operation
        then emit_audit (
            build_rejected_recovery_audit payload
              (if response.ok then internal_error else response.error.code) now)
        else []
  ]

  unfoldable pub handle_request : Connection → Bytes → Request → List Effect
  handle_request c payload request =
      if c.stopping_at_dispatch
      then emit_audit (build_rejected_recovery_audit payload shutdown c.now)
        ++ send_response request.request_id (failure shutdown [])
      else (let response = value_or (failure internal_error []) (c.handler request) in
          audit_response payload c.now request response
          ++ send_response request.request_id response)

  -- Behind the parser.
  unfoldable pub handle_parsed : Connection → Bytes → RequestParseResult → List Effect
  handle_parsed c payload parsed = elim parsed.request [
    | some request ↦ handle_request c payload request
    | none ↦
        emit_audit (build_rejected_recovery_audit payload parsed.error.code c.now)
        ++ send_response parsed.response_request_id (failure parsed.error.code [])
  ]

module _ (digest : Bytes → TokenDigest) (print_float : ℕ → Bytes) where
  unfoldable pub handle_payload : Connection → TokenDigest → Bytes → List Effect
  handle_payload c expected payload =
      handle_parsed print_float c payload (parse_request_payload digest payload expected)

  unfoldable pub handle_header : Connection → TokenDigest → ℕ → List Effect
  handle_header c expected len =
      if ltb max_frame_payload_bytes len
      then send_response 0 (failure frame_too_large [])
      else elim (read_payload c len) [
        | received payload ↦ handle_payload c expected payload
        | timed_out ↦ []
        | failed ↦ answer_failed_read c.stopping_at_payload
      ]

  -- `HandleConnection`.
  unfoldable pub handle_connection : Connection → TokenDigest → List Effect
  handle_connection c expected = elim c.header [
    | received (a, b, d, e) ↦ handle_header c expected (header_length a b d e)
    | timed_out ↦ []
    | failed ↦ answer_failed_read c.stopping_at_header
  ]
