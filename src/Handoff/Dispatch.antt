-- ===== src/Handoff/Dispatch.antt =====
-- `DispatchVerificationRequest`, by what it finds at each of its calls, and what its answers tell the
-- audit log.
use mod_playerbots_mcp.Base.{
  ℕ, ◌≡◌, refl, Bool, true, false, Option, none, some, Bytes, if◌then◌else◌, value_or, is_some,
  Bool-cases, inl, inr,
}
use mod_playerbots_mcp.Handoff.{
  recovery_response, recovery_or_failure, shutting_down, queue_is_full, timed_out_before_claim,
  timed_out_after_claim,
}
use mod_playerbots_mcp.Protocol.Responses.{Response, success, failure}
use mod_playerbots_mcp.Protocol.Types.{Request, ErrorCode}
use mod_playerbots_mcp.Recovery.Types.{RecoveryOutcome, RecoveryReason, RecoveryMutationState}
use mod_playerbots_mcp.Server.{is_recover_operation}

-- What each call of `DispatchVerificationRequest` returns, where it is made.
pub record Calls : Type 0 where
  pub is_accepting : Bool
  pub queue_operation : Bool
  pub first_wait : Option Response
  pub abandon_wins : Bool
  pub second_wait : Option Response

-- A record is attached to an answer if and only if it answers a recovery request.
abbrev pub RecordsRecovery : Request → Response → Type 0
RecordsRecovery request r = is_some r.recovery_audit ≡ is_recover_operation request.operation

module _ (print_float : ℕ → Bytes) (now : ℕ) where
  -- `DispatchVerificationRequest`.
  unfoldable pub dispatch_verification_request : Calls → Request → Response
  dispatch_verification_request calls request =
      if calls.is_accepting
      then (if calls.queue_operation
          then elim calls.first_wait [
            | some response ↦ response
            | none ↦
                if calls.abandon_wins
                then timed_out_before_claim print_float now request
                else value_or (timed_out_after_claim print_float now request) calls.second_wait
          ]
          else queue_is_full print_float now request)
      else shutting_down print_float now request

  if-records :
      (request : Request) (test : Bool) (a b : Response)
      → RecordsRecovery request a
      → RecordsRecovery request b
      → RecordsRecovery request (if test then a else b)
  if-records request true a b h k = h
  if-records request false a b h k = k

  value_or-records :
      (request : Request) (o : Option Response) (d : Response)
      → ((r : Response) → o ≡ some r → RecordsRecovery request r)
      → RecordsRecovery request d
      → RecordsRecovery request (value_or d o)
  value_or-records request none d h k = k
  value_or-records request (some r) d h k = h r refl

  pub recovery_or_failure-records :
      (request : Request) (code : ErrorCode) (outcome : RecoveryOutcome) (reason : RecoveryReason)
      (mutation : RecoveryMutationState)
      → RecordsRecovery request
          (recovery_or_failure print_float now request code outcome reason mutation)
  unfolding recovery_or_failure recovery_response failure success
  recovery_or_failure-records request code outcome reason mutation =
      elim (Bool-cases (is_recover_operation request.operation)) [
        | inl recovers ↦ rw (recovers, recovery_or_failure) refl
        | inr other ↦ rw (other, recovery_or_failure) refl
      ]

  -- Every answer of `DispatchVerificationRequest` carries a record if the request is a recovery, and
  -- none otherwise, on each of its branches. Of the responses that the waits give this is assumed.
  pub dispatch_verification_request-records :
      (calls : Calls) (request : Request)
      → ((r : Response) → calls.first_wait ≡ some r → RecordsRecovery request r)
      → ((r : Response) → calls.second_wait ≡ some r → RecordsRecovery request r)
      → RecordsRecovery request (dispatch_verification_request calls request)
  unfolding dispatch_verification_request shutting_down queue_is_full timed_out_before_claim
      timed_out_after_claim
  dispatch_verification_request-records calls request first second =
      let failing = recovery_or_failure-records request in
      if-records request calls.is_accepting _ _
        (if-records request calls.queue_operation _ _
          (value_or-records request calls.first_wait _ first (
            if-records request calls.abandon_wins _ _ (failing _ _ _ _)
              (value_or-records request calls.second_wait _ second (failing _ _ _ _))))
          (failing _ _ _ _))
        (failing _ _ _ _)
