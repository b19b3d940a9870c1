-- ===== src/WorldThread/Json/Served.antt =====
-- The whole server: whatever is sent, this module's own parser reads it.
use mod_playerbots_mcp.Base.{
  ℕ, ◌≤◌, ◌≡◌, List, [], ◌∷◌, ◌++◌, some, Bytes, bytes, if◌then◌else◌, value_or, Option-cases, inl,
  inr,
}
use mod_playerbots_mcp.Handoff.{executed_response}
use mod_playerbots_mcp.Handoff.Dispatch.{Calls}
use mod_playerbots_mcp.Protocol.Frame.{decode_frame}
use mod_playerbots_mcp.Protocol.Json.Objects.{parse_strict}
use mod_playerbots_mcp.Protocol.Requests.Payload.{parse_request_payload}
use mod_playerbots_mcp.Protocol.Requests.Payload.WellFormed.{parse_request_payload-request_id}
use mod_playerbots_mcp.Protocol.Responses.{Response, failure, serialize_response}
use mod_playerbots_mcp.Protocol.Responses.Rendered.{answered}
use mod_playerbots_mcp.Protocol.Responses.Envelopes.{
  IsResult, sends_result, serialize_response-read,
}
use mod_playerbots_mcp.Protocol.Types.{
  Request, RequestParseResult, TokenDigest, max_uint64, shutdown, internal_error,
}
use mod_playerbots_mcp.Server.{Connection, Effect, written, handle_payload}
use mod_playerbots_mcp.Server.Answers.{due, handle_payload-answers, refused_id_fits}
use mod_playerbots_mcp.WorldThread.Core.{Core}
use mod_playerbots_mcp.WorldThread.Json.{WritesJson, failure-IsResult}
use mod_playerbots_mcp.WorldThread.Json.Responses.{
  execute_verification-IsResult, recovery_or_failure-IsResult,
  dispatch_verification_request-IsResult,
}
use mod_playerbots_mcp.WorldThread.Rules.{if-holds}
use mod_playerbots_mcp.WorldThread.Served.{default_handler, IsExecuted, WaitsForExecute}

-- The last effect is one frame, whose payload `Parse` reads as the envelope of this answer.
pub record ReadsBack (effects : List Effect) (answer : ℕ × Response) : Type 0 where
  pub log : List Effect
  pub frame : Bytes
  pub payload : Bytes
  pub order : effects ≡ log ++ written frame ∷ []
  pub unframed : (decode_frame frame).payload ≡ some payload
  pub is_read :
      parse_strict payload
      ≡ some (
          answered
            (if sends_result answer.0 answer.1 then bytes "result" else bytes "error")
            answer.0)

-- What is due satisfies what holds of failures and of the handler's answers, and its id is a uint64.
due-IsResult :
    (c : Connection) (parsed : RequestParseResult)
    → ((request : Request) → IsResult (value_or (failure internal_error []) (c.handler request)))
    → IsResult (due c parsed).1
due-IsResult c parsed h = elim (Option-cases parsed.request) [
  | inl refused ↦ rw refused (failure-IsResult parsed.error.code [])
  | inr (request, taken) ↦
      rw taken
        (if-holds IsResult c.stopping_at_dispatch _ _ (failure-IsResult shutdown []) (h request))
]

due-fits :
    (c : Connection) (parsed : RequestParseResult)
    → parsed.response_request_id ≤ max_uint64
    → ((r : Request) → parsed.request ≡ some r → r.request_id ≤ max_uint64)
    → (due c parsed).0 ≤ max_uint64
due-fits c parsed refused_fits fits = elim (Option-cases parsed.request) [
  | inl refused ↦ rw refused refused_fits
  | inr (request, taken) ↦ rw taken (fits request taken)
]

module _ (core : Core) (print_float : ℕ → Bytes) (j : WritesJson core print_float) where
  executed-IsResult :
      (request : Request) (r : Response) → IsExecuted core print_float request r → IsResult r
  unfolding executed_response
  executed-IsResult request r (inl (now, w, e)) =
      rw e (execute_verification-IsResult core print_float j w request)
  executed-IsResult request r (inr (now, e)) =
      rw e (recovery_or_failure-IsResult core print_float j now request _ _ _ _)

  default_handler-IsResult :
      (now : ℕ) (calls : Request → Calls)
      → WaitsForExecute core print_float calls
      → (request : Request)
      → IsResult
          (value_or (failure internal_error []) (default_handler print_float now calls request))
  unfolding default_handler
  default_handler-IsResult now calls waits request =
      dispatch_verification_request-IsResult core print_float j now (calls request) request
        (λ r e. executed-IsResult request r (waits.first request r e))
        (λ r e. executed-IsResult request r (waits.second request r e))

  -- Every payload that reaches the server, well formed or not, is answered by one frame whose payload
  -- the strict `Parse` reads: an object of the schema version, the request id that is due, `ok`, and
  -- either a result or an error. That holds whichever of the fourteen operations it asks for, in
  -- whatever world it runs, and whether it is refused, is given up, or throws. It is assumed that the
  -- waits give what `Execute` completed the result with, that the texts of the core and the names of
  -- bots are of bytes, that the progress of anomalies and every float that is neither infinite nor NaN
  -- are printed by JSON's grammar of numbers, that the distances of spawns and the places of
  -- connected players are such floats, and that inspections are JSON objects nested at most 31 deep.
  pub handle_payload-default_handler_read :
      (digest : Bytes → TokenDigest) (c : Connection) (now : ℕ) (calls : Request → Calls)
      (expected : TokenDigest) (payload : Bytes)
      → WaitsForExecute core print_float calls
      → ReadsBack
          (handle_payload digest print_float
            (record c { handler = default_handler print_float now calls })
            expected
            payload)
          (due
            (record c { handler = default_handler print_float now calls })
            (parse_request_payload digest payload expected))
  handle_payload-default_handler_read digest c now calls expected payload waits =
      let served = record c { handler = default_handler print_float now calls } in
      let parsed = parse_request_payload digest payload expected in
      let answers = handle_payload-answers digest print_float served expected payload in
      record {
        log = answers.log;
        frame = answers.frame;
        payload = serialize_response (due served parsed).0 (due served parsed).1;
        order = answers.order;
        unframed = answers.read_back;
        is_read =
            serialize_response-read (due served parsed).0 (due served parsed).1
              (due-fits served parsed (refused_id_fits digest payload expected)
                (parse_request_payload-request_id digest payload expected))
              (due-IsResult served parsed (default_handler-IsResult now calls waits));
      }
