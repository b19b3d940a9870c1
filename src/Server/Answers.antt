-- ===== src/Server/Answers.antt =====
-- Each payload that is read gets one answer, behind at most one line of the audit log.
use mod_playerbots_mcp.Base.{
  ℕ, ◌≤◌, ◌≡◌, refl, inl, inr, Bool, true, false, List, [], ◌∷◌, ◌++◌, Option, none, some, Bytes,
  bytes, if◌then◌else◌, value_or, Bool-cases, Option-cases, arith,
}
use mod_playerbots_mcp.Protocol.Frame.{decode_frame}
use mod_playerbots_mcp.Protocol.Json.Objects.{parse_strict}
use mod_playerbots_mcp.Protocol.Json.Objects.Modes.{parse_strict-AreUint64}
use mod_playerbots_mcp.Protocol.Requests.Payload.{
  parse_request_payload, parse_authenticated, is_authenticated, to_result,
}
use mod_playerbots_mcp.Protocol.Requests.Payload.WellFormed.{
  parse_request_payload-request_id, unsigned_field-le,
}
use mod_playerbots_mcp.Protocol.Requests.Outcome.{Outcome, accepted, rejected}
use mod_playerbots_mcp.Protocol.Responses.{Response, failure, serialize_response}
use mod_playerbots_mcp.Protocol.Responses.Budget.{decode-encode-serialize_response}
use mod_playerbots_mcp.Protocol.Types.{
  Request, RequestParseResult, TokenDigest, max_uint64, shutdown, internal_error,
}
use mod_playerbots_mcp.Recovery.Types.{RecoveryAuditRecord}
use mod_playerbots_mcp.Server.{
  Connection, Effect, written, logged, send_response, emit_audit, audit_response, handle_request,
  handle_parsed, handle_payload,
}

-- The id and the response that a parsed payload is to be answered with.
abbrev pub due : Connection → RequestParseResult → ℕ × Response
due c parsed = elim parsed.request [
  | some request ↦ (
    request.request_id,
    if c.stopping_at_dispatch
        then failure shutdown []
        else value_or (failure internal_error []) (c.handler request),
  )
  | none ↦ (parsed.response_request_id, failure parsed.error.code [])
]

-- At most one line of the log.
pub data AtMostOneLine : List Effect → Type 0 where
  nothing : AtMostOneLine []
  line : {l : Bytes} → AtMostOneLine (logged l ∷ [])

-- One frame, written last, from which a client reads this answer.
pub record AnswersWith (effects : List Effect) (answer : ℕ × Response) : Type 0 where
  pub log : List Effect
  pub frame : Bytes
  pub order : effects ≡ log ++ written frame ∷ []
  pub quiet : AtMostOneLine log
  pub read_back : (decode_frame frame).payload ≡ some (serialize_response answer.0 answer.1)

pub answered :
    (log : List Effect) (id : ℕ) (r : Response)
    → id ≤ max_uint64
    → AtMostOneLine log
    → AnswersWith (log ++ send_response id r) (id, r)
unfolding send_response
answered log id r fits quiet =
    let (frame, framed, decoded) = decode-encode-serialize_response id r fits in
    record {
      log = log;
      frame = frame;
      order = rw (framed, send_response) refl;
      quiet = quiet;
      read_back = decoded;
    }

if-quiet :
    (test : Bool) {log : List Effect} → AtMostOneLine log → AtMostOneLine (if test then log else [])
if-quiet true quiet = quiet
if-quiet false quiet = nothing

to_result-id : (o : Outcome Request) → (to_result o).response_request_id ≡ 0
to_result-id (accepted r) = refl
to_result-id (rejected e) = refl

value_or_fits : (o : Option ℕ) → ((n : ℕ) → o ≡ some n → n ≤ max_uint64) → value_or 0 o ≤ max_uint64
value_or_fits none h = omega arith
value_or_fits (some n) h = h n refl

pub refused_id_fits :
    (digest : Bytes → TokenDigest) (payload : Bytes) (expected : TokenDigest)
    → (parse_request_payload digest payload expected).response_request_id ≤ max_uint64
unfolding parse_request_payload
refused_id_fits digest payload expected = elim (Option-cases (parse_strict payload)) [
  | inl bad ↦ rw (bad, parse_request_payload) (omega arith)
  | inr (fields, good) ↦ elim (Bool-cases (is_authenticated digest expected fields)) [
    | inl known ↦
        rw (good, known, parse_request_payload, to_result-id (parse_authenticated fields))
          (omega arith)
    | inr unknown ↦
        rw (good, unknown, parse_request_payload)
          (value_or_fits _ (λ n e.
            unsigned_field-le fields (bytes "requestId") n
              (parse_strict-AreUint64 payload fields good) e))
  ]
]

module _ (print_float : ℕ → Bytes) where
  emit_audit-quiet : (r : Option RecoveryAuditRecord) → AtMostOneLine (emit_audit print_float r)
  unfolding emit_audit
  emit_audit-quiet none = nothing
  emit_audit-quiet (some r) = line

  audit_response-quiet :
      (payload : Bytes) (now : ℕ) (request : Request) (r : Response)
      → AtMostOneLine (audit_response print_float payload now request r)
  unfolding audit_response
  audit_response-quiet payload now request r = elim (Option-cases r.recovery_audit) [
    | inl absent ↦ rw (absent, audit_response) (if-quiet _ (emit_audit-quiet _))
    | inr (a, present) ↦ rw (present, audit_response) (emit_audit-quiet _)
  ]

  handle_parsed-answers :
      (c : Connection) (payload : Bytes) (parsed : RequestParseResult)
      → parsed.response_request_id ≤ max_uint64
      → ((r : Request) → parsed.request ≡ some r → r.request_id ≤ max_uint64)
      → AnswersWith (handle_parsed print_float c payload parsed) (due c parsed)
  unfolding handle_parsed handle_request
  handle_parsed-answers c payload parsed refused_fits fits = elim (Option-cases parsed.request) [
    | inl refused ↦ rw (refused, handle_parsed) (answered _ _ _ refused_fits (emit_audit-quiet _))
    | inr (r, taken) ↦
        rw (taken, handle_parsed)
          (elim (Bool-cases c.stopping_at_dispatch) [
            | inl stopping ↦
                rw (stopping, handle_request) (answered _ _ _ (fits r taken) (emit_audit-quiet _))
            | inr running ↦
                rw (running, handle_request)
                  (answered _ _ _ (fits r taken) (audit_response-quiet _ _ _ _))
          ])
  ]

module _ (digest : Bytes → TokenDigest) (print_float : ℕ → Bytes) where
  -- Every payload that is read gets one answer: behind at most one line of the log there is one
  -- frame, and a client that decodes it reads the answer that is due, under the id it is due under.
  -- That holds of every payload and every handler, also one that throws.
  pub handle_payload-answers :
      (c : Connection) (expected : TokenDigest) (payload : Bytes)
      → AnswersWith
          (handle_payload digest print_float c expected payload)
          (due c (parse_request_payload digest payload expected))
  unfolding handle_payload
  handle_payload-answers c expected payload =
      handle_parsed-answers print_float c payload (parse_request_payload digest payload expected)
        (refused_id_fits digest payload expected)
        (parse_request_payload-request_id digest payload expected)
