-- ===== src/Server/Silence.antt =====
-- Which connections get an answer, and which get none.
use mod_playerbots_mcp.Base.{
  ℕ, ◌≡◌, refl, ◌⊎◌, inl, inr, Bool, true, false, List, [], Bytes, ltb, Bool-cases, arith,
}
use mod_playerbots_mcp.Protocol.Frame.{header_length}
use mod_playerbots_mcp.Protocol.Requests.Payload.{parse_request_payload}
use mod_playerbots_mcp.Protocol.Responses.{Response, failure}
use mod_playerbots_mcp.Protocol.Types.{
  TokenDigest, max_frame_payload_bytes, malformed_frame, frame_too_large,
}
use mod_playerbots_mcp.Server.{
  Read, received, timed_out, failed, Header, Connection, Effect, answer_failed_read, read_payload,
  handle_header, handle_connection,
}
use mod_playerbots_mcp.Server.Answers.{AnswersWith, nothing, answered, due, handle_payload-answers}

-- A read that is not answered: it was too slow, or it failed while the server stops.
abbrev pub IsUnanswered {ℓ} : {A : Type ℓ} → Read A → Bool → Type ℓ
IsUnanswered read stopping = (read ≡ timed_out) ⊎ ((read ≡ failed) × (stopping ≡ true))

-- The header or the payload is not answered.
abbrev pub StaysSilent : Connection → Type 0
StaysSilent c =
    IsUnanswered c.header c.stopping_at_header
    ⊎ ((h : Header) × (c.header ≡ received h)
        × IsUnanswered (read_payload c (header_length h.0 h.1 h.2 h.3)) c.stopping_at_payload)

Read-cases {ℓ} :
    {A : Type ℓ} (r : Read A) → ((a : A) × (r ≡ received a)) ⊎ (r ≡ timed_out) ⊎ (r ≡ failed)
Read-cases (received a) = inl (a, refl)
Read-cases timed_out = inr (inl refl)
Read-cases failed = inr (inr refl)

-- Effects that are one answer.
abbrev pub IsAnswered : List Effect → Type 0
IsAnswered effects = (id : ℕ) × (r : Response) × AnswersWith effects (id, r)

failed_read :
    (stopping : Bool)
    → (((stopping ≡ true) × (answer_failed_read stopping ≡ []))
        ⊎ IsAnswered (answer_failed_read stopping))
unfolding answer_failed_read
failed_read true = inl (refl, refl)
failed_read false = inr (
  0,
  failure malformed_frame [],
  answered [] 0 (failure malformed_frame []) (omega arith) nothing,
)

module _ (digest : Bytes → TokenDigest) (print_float : ℕ → Bytes) where
  header-answers :
      (c : Connection) (expected : TokenDigest) (len : ℕ)
      → (IsUnanswered (read_payload c len) c.stopping_at_payload
          × (handle_header digest print_float c expected len ≡ []))
        ⊎ IsAnswered (handle_header digest print_float c expected len)
  unfolding handle_header
  header-answers c expected len = elim (Bool-cases (ltb max_frame_payload_bytes len)) [
    | inl large ↦
        rw (large, handle_header)
          (inr (
            0,
            failure frame_too_large [],
            answered [] 0 (failure frame_too_large []) (omega arith) nothing,
          ))
    | inr fits ↦ elim (Read-cases (read_payload c len)) [
      | inl (payload, read) ↦
          rw (fits, read, handle_header)
            (let answer = due c (parse_request_payload digest payload expected) in
              inr
                (answer.0, answer.1, handle_payload-answers digest print_float c expected payload))
      | inr (inl slow) ↦ inl (inl slow, rw (fits, slow, handle_header) refl)
      | inr (inr broken) ↦ elim (failed_read c.stopping_at_payload) [
        | inl (stops, silent) ↦ inl (inr (broken, stops), rw (fits, broken, handle_header) silent)
        | inr answer ↦ rw (fits, broken, handle_header) (inr answer)
      ]
    ]
  ]

  -- Every connection gets one answer, whatever it sends, or no byte at all; and it gets none only if the
  -- header or the payload did not come in time, or broke off while the server stops.
  pub handle_connection-answers :
      (c : Connection) (expected : TokenDigest)
      → (StaysSilent c × (handle_connection digest print_float c expected ≡ []))
        ⊎ IsAnswered (handle_connection digest print_float c expected)
  unfolding handle_connection
  handle_connection-answers c expected = elim (Read-cases c.header) [
    | inr (inl slow) ↦ inl (inl (inl slow), rw (slow, handle_connection) refl)
    | inr (inr broken) ↦ elim (failed_read c.stopping_at_header) [
      | inl (stops, silent) ↦ inl (inl (inr (broken, stops)), rw (broken, handle_connection) silent)
      | inr answer ↦ rw (broken, handle_connection) (inr answer)
    ]
    | inl (h, read) ↦ elim (header-answers c expected (header_length h.0 h.1 h.2 h.3)) [
      | inl (unanswered, silent) ↦
          inl (inr (h, read, unanswered), rw (read, handle_connection) silent)
      | inr answer ↦ rw (read, handle_connection) (inr answer)
    ]
  ]
