-- ===== src/Handoff.antt =====
-- `PlayerbotVerificationResult`, `Execute` and `DispatchVerificationRequest` of
-- src/Bot/MCP/PlayerbotVerificationOperation.cpp: how the socket thread hands a request to the world
-- thread, and what it answers when that takes too long. Each method of the result holds its lock
-- throughout, so it is one step on the shared state.
pub mod Steps
pub mod Invariant
pub mod Safety
pub mod Dispatch
pub mod Records
pub mod Progress
use mod_playerbots_mcp.Base.{
  ℕ, Bool, true, false, ◌||◌, not, [], Option, none, some, Bytes, if◌then◌else◌, value_or,
}
use mod_playerbots_mcp.Protocol.Responses.{Response, success, failure}
use mod_playerbots_mcp.Protocol.Types.{
  Request, ErrorCode, internal_error, shutdown, queue_full, timeout,
}
use mod_playerbots_mcp.Recovery.Serialize.{serialize_recovery_audit_record}
use mod_playerbots_mcp.Recovery.Types.{
  RecoveryAuditRecord, RecoveryDestination, RecoveryOutcome, RecoveryReason, RecoveryMutationState,
  new_record,
}
use mod_playerbots_mcp.Server.{is_recover_operation}

pub record Result : Type 0 where
  pub completed : Bool
  pub abandoned : Bool
  pub claimed : Bool
  pub response : Response

-- A fresh result; its response is not read before it is completed.
abbrev pub new_result : Result
new_result = record {
  completed = false;
  abandoned = false;
  claimed = false;
  response = failure internal_error [];
}

-- `TryClaim`.
unfoldable pub try_claim : Result → Bool × Result
try_claim r = if r.abandoned || r.claimed then (false, r) else (true, record r { claimed = true })

-- `Abandon`.
unfoldable pub abandon : Result → Bool × Result
abandon r = if r.claimed || r.completed then (false, r) else (true, record r { abandoned = true })

-- `Complete`.
unfoldable pub complete : Response → Result → Result
complete response r = if r.completed then r else record r { completed = true; response = response }

-- `Wait`, as it finds the result when it returns: `wait_for` tells whether the predicate holds then.
unfoldable pub wait : Result → Option Response
wait r = if r.completed then some r.response else none

module _ (print_float : ℕ → Bytes) (now : ℕ) where
  -- `NewRecoveryRecord`.
  unfoldable pub new_recovery_record : Request → RecoveryAuditRecord
  new_recovery_record request = record new_record {
    timestamp_ms = now;
    request_id = some request.request_id;
    bot_guid = some request.bot_guid;
    destination = RecoveryDestination.homebind;
  }

  -- `RecoveryResponse`.
  unfoldable pub recovery_response :
      Request → RecoveryOutcome → RecoveryReason → RecoveryMutationState → Response
  recovery_response request outcome reason mutation =
      let r = record (new_recovery_record request) {
        outcome = outcome;
        reason = reason;
        mutation_state = mutation;
      } in
      record (success (serialize_recovery_audit_record print_float r)) { recovery_audit = some r }

  -- A recovery request is told of a failure by a record, any other by an error.
  unfoldable pub recovery_or_failure :
      Request → ErrorCode → RecoveryOutcome → RecoveryReason → RecoveryMutationState → Response
  recovery_or_failure request code outcome reason mutation =
      if is_recover_operation request.operation
      then recovery_response request outcome reason mutation
      else failure code []

  -- What `Execute` completes the result with: the world thread's response, or that it threw.
  unfoldable pub executed_response : Request → Option Response → Response
  executed_response request outcome = elim outcome [
    | some response ↦ response
    | none ↦
        recovery_or_failure request internal_error RecoveryOutcome.recovery_failed
          RecoveryReason.internal_error RecoveryMutationState.unknown_after_execution_started
  ]

  -- `Execute`, uninterrupted.
  unfoldable pub execute : Request → Option Response → Result → Bool × Result
  execute request outcome r =
      let (won, r₁) = try_claim r in
      let response = executed_response request outcome in
      if won then (response.ok, complete response r₁) else (false, r₁)

  unfoldable pub shutting_down : Request → Response
  shutting_down request =
      recovery_or_failure request shutdown RecoveryOutcome.recovery_failed
        RecoveryReason.shutting_down RecoveryMutationState.not_started

  unfoldable pub queue_is_full : Request → Response
  queue_is_full request =
      recovery_or_failure request queue_full RecoveryOutcome.recovery_failed
        RecoveryReason.queue_full RecoveryMutationState.not_started

  unfoldable pub timed_out_before_claim : Request → Response
  timed_out_before_claim request =
      recovery_or_failure request timeout RecoveryOutcome.recovery_timed_out
        RecoveryReason.queue_timeout_before_claim RecoveryMutationState.not_started

  unfoldable pub timed_out_after_claim : Request → Response
  timed_out_after_claim request =
      recovery_or_failure request timeout RecoveryOutcome.recovery_timed_out
        RecoveryReason.execution_timeout_after_claim
        RecoveryMutationState.unknown_after_execution_started
