-- ===== src/WorldThread/Served.antt =====
-- The server with the handler that its constructor in src/Bot/MCP/PlayerbotVerificationServer.cpp
-- installs: requests go to the world thread through `DispatchVerificationRequest`.
use mod_playerbots_mcp.Base.{
  ℕ, ◌≡◌, refl, sym, ◌∙◌, ◌⊎◌, inl, inr, true, Option, none, some, Bytes, is_some, ap, some-eq_inv,
}
use mod_playerbots_mcp.Handoff.{executed_response}
use mod_playerbots_mcp.Handoff.Dispatch.{
  Calls, RecordsRecovery, dispatch_verification_request, dispatch_verification_request-records,
  recovery_or_failure-records,
}
use mod_playerbots_mcp.Protocol.Requests.Payload.{parse_request_payload}
use mod_playerbots_mcp.Protocol.Responses.{Response}
use mod_playerbots_mcp.Protocol.Types.{Request, Operation, TokenDigest}
use mod_playerbots_mcp.Server.{Connection, handle_payload, is_recover_operation}
use mod_playerbots_mcp.Server.Audits.{lines, lines_due, AuditsRecoveriesOnly, handle_payload-audits}
use mod_playerbots_mcp.WorldThread.Audited.{execute_verification-records}
use mod_playerbots_mcp.WorldThread.Core.{Core}
use mod_playerbots_mcp.WorldThread.Execute.{execute_verification}

-- The handler of a server that is given none, by what the calls in it return for each request.
unfoldable pub default_handler : (ℕ → Bytes) → ℕ → (Request → Calls) → Request → Option Response
default_handler print_float now calls request =
    some (dispatch_verification_request print_float now (calls request) request)

is_recover_operation-recover :
    (op : Operation) → is_recover_operation op ≡ true → op ≡ Operation.recover
unfolding is_recover_operation
is_recover_operation-recover Operation.recover h = refl
is_recover_operation-recover _ h = cc

module _ (core : Core) (print_float : ℕ → Bytes) where
  -- A response that `Execute` completes a result with: that of some world, or of an exception.
  abbrev pub IsExecuted : Request → Response → Type 0
  IsExecuted request r =
      ((now : ℕ) × (w : core.World) × (r
          ≡ executed_response print_float now request
              (some (execute_verification core print_float w request).1)))
      ⊎ ((now : ℕ) × (r ≡ executed_response print_float now request none))

  -- The waits give nothing but what `Execute` completes a result with.
  pub record WaitsForExecute (calls : Request → Calls) : Type 0 where
    pub first :
        (request : Request) (r : Response)
        → (calls request).first_wait ≡ some r
        → IsExecuted request r
    pub second :
        (request : Request) (r : Response)
        → (calls request).second_wait ≡ some r
        → IsExecuted request r

  executed-records :
      (request : Request) (r : Response) → IsExecuted request r → RecordsRecovery request r
  unfolding executed_response
  executed-records request r (inl (now, w, e)) =
      rw e (execute_verification-records core w print_float request)
  executed-records request r (inr (now, e)) =
      rw e (recovery_or_failure-records print_float now request _ _ _ _)

  default_handler-audits :
      (now : ℕ) (calls : Request → Calls)
      → WaitsForExecute calls
      → AuditsRecoveriesOnly (default_handler print_float now calls)
  unfolding default_handler
  default_handler-audits now calls waits request r a answered present =
      let records =
        dispatch_verification_request-records print_float now (calls request) request
          (λ s e. executed-records request s (waits.first request s e))
          (λ s e. executed-records request s (waits.second request s e)) in
      let same = some-eq_inv answered in
      let kept : is_some r.recovery_audit ≡ true = ap is_some present in
      is_recover_operation-recover request.operation (sym (rw same at records) ∙ kept)

  -- The whole way of an accepted payload, from the connection through the hand-over to the handlers of
  -- the world thread and back: exactly one line is logged of a recovery request, and none of any other,
  -- whether the queue is full, the caller gives up, the operation throws, or it runs in any world. All
  -- that is assumed is that the waits give what `Execute` completed the result with.
  pub handle_payload-default_handler_audits :
      (digest : Bytes → TokenDigest) (c : Connection) (now : ℕ) (calls : Request → Calls)
      (expected : TokenDigest) (payload : Bytes) (r : Request)
      → WaitsForExecute calls
      → (parse_request_payload digest payload expected).request ≡ some r
      → lines (
          handle_payload digest print_float
            (record c { handler = default_handler print_float now calls })
            expected
            payload)
        ≡ lines_due r.operation
  handle_payload-default_handler_audits digest c now calls expected payload r waits taken =
      handle_payload-audits digest print_float
        (record c { handler = default_handler print_float now calls }) expected payload r
        (default_handler-audits now calls waits) taken
