-- ===== src/Tests/Handovers.antt =====
-- Orders of the steps of the two threads.
use mod_playerbots_mcp.Base.{
  ℕ, ◌≡◌, ◌≤◌, ◌&&◌, refl, true, false, [], ◌∷◌, none, some, bytes, length, if◌then◌else◌,
}
use mod_playerbots_mcp.Handoff.{
  new_result, try_claim, abandon, complete, wait, execute, executed_response,
}
use mod_playerbots_mcp.Handoff.Dispatch.{Calls, dispatch_verification_request}
use mod_playerbots_mcp.Handoff.Progress.{execute-Steps}
use mod_playerbots_mcp.Handoff.Safety.{before_claim-never_runs, reported-runs_once, Steps-exclusive}
use mod_playerbots_mcp.Handoff.Steps.{
  System, queued, returned, waiting, answered, before_claim, reported, start, after_claiming,
  after_waiting, after_abandoning, claims, runs_request, completes, waits, abandons, Steps, done,
  after,
}
use mod_playerbots_mcp.Handoff.{
  timed_out_before_claim, recovery_or_failure, recovery_response, new_recovery_record,
}
use mod_playerbots_mcp.Handoff.Records.{
  TellsTruth, queued_and_ran, dispatch_verification_request-TellsTruth,
}
use mod_playerbots_mcp.Recovery.Types.{
  RecoveryAuditRecord, RecoveryDestination, RecoveryOutcome, RecoveryReason, new_record,
}
use mod_playerbots_mcp.Server.{is_recover_operation}
use mod_playerbots_mcp.Protocol.Print.{to_string}
use mod_playerbots_mcp.Protocol.Responses.{Response, success}
use mod_playerbots_mcp.Tests.Payloads.{recover_request}

-- The caller gives up before the world thread looks.
abbrev given_up : System
given_up = record {
  result = record new_result { abandoned = true };
  worker = queued;
  caller = answered before_claim;
  runs = [];
}

give_up : Steps 2 start given_up
unfolding wait abandon after_waiting after_abandoning
give_up = after (after done waits) abandons

-- The world thread looks then.
abbrev looked_late : System
looked_late = record given_up { worker = returned }

look_late : Steps 1 given_up looked_late
unfolding try_claim after_claiming
look_late = after done claims

abbrev answer : Response
answer = success (bytes "{}")

abbrev served : System
served = record {
  result = record { completed = true; abandoned = false; claimed = true; response = answer };
  worker = returned;
  caller = answered (reported answer);
  runs = answer ∷ [];
}

serve : Steps 4 start served
unfolding try_claim complete wait after_claiming after_waiting
serve = after (after (after (after done claims) (runs_request answer)) completes) waits

before_claim-never_runs_example : looked_late.runs ≡ []
before_claim-never_runs_example =
    before_claim-never_runs 2 1 given_up looked_late give_up refl look_late

reported-runs_once_example : served.runs ≡ answer ∷ []
reported-runs_once_example = reported-runs_once 4 served answer serve refl

Steps-exclusive_example :
    ((served.result.claimed && served.result.abandoned) ≡ false) × (length served.runs ≤ 1)
Steps-exclusive_example = Steps-exclusive 4 served serve

execute-Steps_example :
    (n : ℕ) × Steps n start (record {
      result = (execute to_string 1000 recover_request (some answer) new_result).1;
      worker = returned;
      caller = waiting;
      runs =
          if (try_claim new_result).0
          then executed_response to_string 1000 recover_request (some answer) ∷ []
          else [];
    })
execute-Steps_example =
    execute-Steps to_string 1000 recover_request (some answer) new_result waiting

-- The wait ends without a response, and the abandonment wins.
abbrev abandoned_calls : Calls
abandoned_calls = record {
  is_accepting = true;
  queue_operation = true;
  first_wait = none;
  abandon_wins = true;
  second_wait = none;
}

abbrev never_started : RecoveryAuditRecord
never_started = record new_record {
  timestamp_ms = 1000;
  request_id = some 7;
  bot_guid = some 42;
  destination = RecoveryDestination.homebind;
  outcome = RecoveryOutcome.recovery_timed_out;
  reason = RecoveryReason.queue_timeout_before_claim;
}

abandoned_calls-never_started :
    (dispatch_verification_request to_string 1000 abandoned_calls recover_request).recovery_audit
    ≡ some never_started
unfolding dispatch_verification_request timed_out_before_claim recovery_or_failure recovery_response
    new_recovery_record is_recover_operation success
abandoned_calls-never_started = refl

dispatch_verification_request-TellsTruth_example :
    TellsTruth to_string 1000 never_started.mutation_state looked_late
dispatch_verification_request-TellsTruth_example =
    dispatch_verification_request-TellsTruth to_string 1000 abandoned_calls looked_late
      recover_request never_started (queued_and_ran 2 1 given_up refl refl give_up refl look_late)
      refl abandoned_calls-never_started
