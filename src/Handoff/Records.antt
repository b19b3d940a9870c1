-- ===== src/Handoff/Records.antt =====
-- What `DispatchVerificationRequest` answers, by what its caller learnt, and what the records in its
-- answers say of the operation.
use mod_playerbots_mcp.Base.{
  ◌⊎◌, false, ◌&&◌, Option, ℕ, ◌≡◌, ◌≢◌, some-eq_inv, refl, true, [], none, some, Bytes,
  if◌then◌else◌, Bool-cases, Option-cases, inl, inr,
}
use mod_playerbots_mcp.Handoff.{
  queue_is_full, shutting_down, ErrorCode, timed_out_before_claim, timed_out_after_claim,
  recovery_or_failure, recovery_response,
}
use mod_playerbots_mcp.Handoff.Dispatch.{Calls, dispatch_verification_request}
use mod_playerbots_mcp.Handoff.Safety.{after_claim-stays_claimed, before_claim-never_runs}
use mod_playerbots_mcp.Handoff.Steps.{
  Answer, reported, before_claim, after_claim, answered, System, start, Steps,
}
use mod_playerbots_mcp.Protocol.Responses.{Response, failure}
use mod_playerbots_mcp.Protocol.Types.{Request, ErrorCode}
use mod_playerbots_mcp.Recovery.Types.{
  RecoveryReason, RecoveryOutcome, RecoveryMutationState, RecoveryAuditRecord, not_started,
  unknown_after_execution_started,
}
use mod_playerbots_mcp.Server.{is_recover_operation}

-- What the calls from the first wait on tell the caller.
abbrev pub answer_of : Calls → Answer
answer_of calls = elim calls.first_wait [
  | some response ↦ reported response
  | none ↦
      if calls.abandon_wins
      then before_claim
      else elim calls.second_wait [ some response ↦ reported response | none ↦ after_claim ]
]

-- The response that a wait gives, if the operation is queued and one does.
abbrev pub given_response : Calls → Option Response
given_response calls =
    if calls.is_accepting && calls.queue_operation
    then elim calls.first_wait [
      | some response ↦ some response
      | none ↦ if calls.abandon_wins then none else calls.second_wait
    ]
    else none

-- The calls of one `DispatchVerificationRequest`, and a state of the threads behind it: nothing happens
-- to an operation that is not queued, and else the calls are those of a run, and the run goes on.
pub data TookPlace (calls : Calls) : System → Type 0 where
  not_queued : (calls.is_accepting && calls.queue_operation) ≡ false → TookPlace calls start
  queued_and_ran :
      {t : System} (m n : ℕ) (s : System)
      → calls.is_accepting ≡ true
      → calls.queue_operation ≡ true
      → Steps m start s
      → s.caller ≡ answered (answer_of calls)
      → Steps n s t
      → TookPlace calls t

own-answer_of :
    (calls : Calls)
    → calls.is_accepting ≡ true
    → calls.queue_operation ≡ true
    → given_response calls ≡ none
    → (response : Response) → answer_of calls ≢ reported response
own-answer_of calls accepting queue own response told = elim (Option-cases calls.first_wait) [
  | inr (a, first) ↦ cc (rw (accepting, queue, first) at own)
  | inl waited ↦ elim (Bool-cases calls.abandon_wins) [
    | inl won ↦ cc (rw (waited, won) at told)
    | inr lost ↦ elim (Option-cases calls.second_wait) [
      | inr (a, second) ↦ cc (rw (accepting, queue, waited, lost, second) at own)
      | inl late ↦ cc (rw (waited, lost, late) at told)
    ]
  ]
]

module _ (print_float : ℕ → Bytes) (now : ℕ) where
  -- How each answer is worded.
  abbrev pub response_to : Request → Answer → Response
  response_to request (reported response) = response
  response_to request before_claim = timed_out_before_claim print_float now request
  response_to request after_claim = timed_out_after_claim print_float now request

  -- Once the request is queued, `DispatchVerificationRequest` words the answer that its waits and its
  -- abandonment have given.
  pub dispatch_verification_request-response_to :
      (calls : Calls) (request : Request)
      → calls.is_accepting ≡ true
      → calls.queue_operation ≡ true
      → dispatch_verification_request print_float now calls request
        ≡ response_to request (answer_of calls)
  unfolding dispatch_verification_request
  dispatch_verification_request-response_to calls request accepting queue =
      elim (Option-cases calls.first_wait) [
        | inr (a, first) ↦ rw (accepting, queue, first, dispatch_verification_request) refl
        | inl waited ↦ elim (Bool-cases calls.abandon_wins) [
          | inl won ↦ rw (accepting, queue, waited, won, dispatch_verification_request) refl
          | inr lost ↦ elim (Option-cases calls.second_wait) [
            | inr (a, second) ↦
                rw (accepting, queue, waited, lost, second, dispatch_verification_request) refl
            | inl late ↦
                rw (accepting, queue, waited, lost, late, dispatch_verification_request) refl
          ]
        ]
      ]

  -- A record that is made in place of a response says of the mutation what it is made to say.
  recovery_or_failure-mutation :
      (request : Request) (code : ErrorCode) (outcome : RecoveryOutcome) (reason : RecoveryReason)
      (mutation : RecoveryMutationState) (r : RecoveryAuditRecord)
      → (recovery_or_failure print_float now request code outcome reason mutation).recovery_audit
        ≡ some r
      → r.mutation_state ≡ mutation
  unfolding recovery_or_failure recovery_response failure
  recovery_or_failure-mutation request code outcome reason mutation r h =
      elim (Bool-cases (is_recover_operation request.operation)) [
        | inl recovers ↦
            let same = some-eq_inv (rw (recovers, recovery_or_failure) at h) in rw⁻¹ same refl
        | inr other ↦ cc (rw (other, recovery_or_failure) at h)
      ]

  not_queued-not_started :
      (calls : Calls) (request : Request) (r : RecoveryAuditRecord)
      → (calls.is_accepting && calls.queue_operation) ≡ false
      → (dispatch_verification_request print_float now calls request).recovery_audit ≡ some r
      → r.mutation_state ≡ not_started
  unfolding dispatch_verification_request shutting_down queue_is_full
  not_queued-not_started calls request r dropped kept = elim (Bool-cases calls.is_accepting) [
    | inr closed ↦
        recovery_or_failure-mutation request _ _ _ _ r
          (rw (closed, dispatch_verification_request) at kept)
    | inl accepting ↦
        let full : calls.queue_operation ≡ false = rw accepting at dropped in
        recovery_or_failure-mutation request _ _ _ _ r
          (rw (accepting, full, dispatch_verification_request) at kept)
  ]

  -- What a record in an answer of the dispatcher's own says for good of the runs of its request.
  abbrev pub TellsTruth : RecoveryMutationState → System → Type 0
  TellsTruth mutation t =
      ((mutation ≡ not_started) × (t.runs ≡ []))
      ⊎ ((mutation ≡ unknown_after_execution_started) × (t.result.claimed ≡ true))

  response_to-TellsTruth :
      (m n : ℕ) (s t : System) (a : Answer) (request : Request) (r : RecoveryAuditRecord)
      → Steps m start s
      → s.caller ≡ answered a
      → ((response : Response) → a ≢ reported response)
      → (response_to request a).recovery_audit ≡ some r
      → Steps n s t
      → TellsTruth r.mutation_state t
  unfolding timed_out_before_claim timed_out_after_claim
  response_to-TellsTruth m n s t (reported response) request r begun told own kept later =
      absurd (own response refl)
  response_to-TellsTruth m n s t before_claim request r begun told own kept later = inl (
    recovery_or_failure-mutation request _ _ _ _ r kept,
    before_claim-never_runs m n s t begun told later,
  )
  response_to-TellsTruth m n s t after_claim request r begun told own kept later = inr (
    recovery_or_failure-mutation request _ _ _ _ r kept,
    after_claim-stays_claimed m n s t begun told later,
  )

  -- A record that `DispatchVerificationRequest` makes itself, in place of a response of the world
  -- thread, is true for good, however the threads go on. If it says that nothing was started, the
  -- request has not run and never does; that is all it says of an operation that was never queued. Or
  -- it says that it is not known what was done, and then the world thread has claimed the request.
  pub dispatch_verification_request-TellsTruth :
      (calls : Calls) (t : System) (request : Request) (r : RecoveryAuditRecord)
      → TookPlace calls t
      → given_response calls ≡ none
      → (dispatch_verification_request print_float now calls request).recovery_audit ≡ some r
      → TellsTruth r.mutation_state t
  dispatch_verification_request-TellsTruth calls t request r (not_queued dropped) own kept =
      inl (not_queued-not_started calls request r dropped kept, refl)
  dispatch_verification_request-TellsTruth calls t request r
        (queued_and_ran m n s accepting queue begun told later) own kept =
      let words = dispatch_verification_request-response_to calls request accepting queue in
      response_to-TellsTruth m n s t (answer_of calls) request r begun told
        (own-answer_of calls accepting queue own) (rw words at kept) later
