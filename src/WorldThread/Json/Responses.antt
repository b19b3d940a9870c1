-- ===== src/WorldThread/Json/Responses.antt =====
-- Every response of the world thread, and every answer of `DispatchVerificationRequest`, is JSON.
use mod_playerbots_mcp.Base.{
  ℕ, subst, [], ◌≡◌, refl, Bool, Option, none, some, Bytes, All, value_or, Option-cases, inl, inr,
  some-eq_inv,
}
use mod_playerbots_mcp.Handoff.{
  recovery_response, recovery_or_failure, shutting_down, queue_is_full, timed_out_before_claim,
  timed_out_after_claim, new_recovery_record,
}
use mod_playerbots_mcp.Handoff.Dispatch.{Calls, dispatch_verification_request}
use mod_playerbots_mcp.Protocol.Frame.RoundTrip.{IsByte}
use mod_playerbots_mcp.Protocol.Responses.{Response, success}
use mod_playerbots_mcp.Protocol.Responses.Envelopes.{IsResult}
use mod_playerbots_mcp.Protocol.Types.{Request, Operation, ErrorCode}
use mod_playerbots_mcp.Recovery.Json.Sane.{IsPrinted, IsWritable, record_members-Sane}
use mod_playerbots_mcp.Recovery.Json.Text.{serialize-render}
use mod_playerbots_mcp.Recovery.Recover.{
  Bot, HomebindResult, Recovery, after_recovery, recover_bot, build_recover_record,
}
use mod_playerbots_mcp.Recovery.Positions.{
  Location, current_recovery_position, homebind_position, homebind_recovery_position, Connected,
  bot_of, recovery_positions_match,
}
use mod_playerbots_mcp.Recovery.Serialize.{serialize_recovery_audit_record}
use mod_playerbots_mcp.Recovery.Types.{
  RecoveryAuditRecord, RecoveryPosition, RecoveryOutcome, RecoveryReason, RecoveryMutationState,
}
use mod_playerbots_mcp.Server.{is_recover_operation}
use mod_playerbots_mcp.WorldThread.Core.{Core}
use mod_playerbots_mcp.WorldThread.Execute.{run_operation, execute_verification}
use mod_playerbots_mcp.WorldThread.Json.{
  WritesJson, IsFinite, shallow_object-IsResult, failure-IsResult,
}
use mod_playerbots_mcp.WorldThread.Json.Lists.{list-IsResult}
use mod_playerbots_mcp.WorldThread.Json.Anomalies.{anomalies-IsResult}
use mod_playerbots_mcp.WorldThread.Json.Objects.{
  status-IsResult, inspect-IsResult, check-IsResult, command-GivesResult, set_skill-GivesResult,
  teleport-GivesResult, gm_command-GivesResult, reload-GivesResult,
}
use mod_playerbots_mcp.WorldThread.Json.Leases.{
  hold-GivesResult, inspect_lease-GivesResult, release-GivesResult,
}
use mod_playerbots_mcp.WorldThread.Recovery.{
  connected_bot, record_response, recovery_of, build_recover_response,
}
use mod_playerbots_mcp.WorldThread.Rules.{if-holds}

after_recovery-IsWritable :
    (print_float : ℕ → Bytes) (positions_match : RecoveryPosition → RecoveryPosition → Bool)
    (bot : Bot) (r : RecoveryAuditRecord) (result : HomebindResult)
    → IsPrinted print_float bot.homebind
    → IsPrinted print_float bot.teleport_destination
    → IsWritable print_float r
    → IsWritable print_float (after_recovery positions_match bot r result).0
unfolding after_recovery
after_recovery-IsWritable print_float m bot r HomebindResult.recovered home there
      (named, before, accepted, observed) =
    (named, before, (λ p e. subst (IsPrinted print_float) (some-eq_inv e) home), observed)
after_recovery-IsWritable print_float m bot r HomebindResult.already_pending_homebind home there
      (named, before, accepted, observed) =
    (named, before, (λ p e. subst (IsPrinted print_float) (some-eq_inv e) there), observed)
after_recovery-IsWritable print_float m bot r _ home there h = h

value_or-IsResult :
    (o : Option Response) (d : Response)
    → ((r : Response) → o ≡ some r → IsResult r)
    → IsResult d
    → IsResult (value_or d o)
value_or-IsResult none d h k = k
value_or-IsResult (some r) d h k = h r refl

module _ (core : Core) (print_float : ℕ → Bytes) (j : WritesJson core print_float) where
  record-IsResult :
      (r : RecoveryAuditRecord)
      → IsWritable print_float r
      → IsResult (success (serialize_recovery_audit_record print_float r))
  record-IsResult r h =
      shallow_object-IsResult _ (record_members-Sane print_float 29 r h)
        (serialize-render print_float r)

  -- What a recovery gives can be written.
  abbrev GivesWritable : Recovery → Type 0
  GivesWritable (r, saves) = IsWritable print_float r

  printed :
      (l : Location)
      → IsFinite l
      → (zone area : ℕ)
      → IsPrinted print_float
          (current_recovery_position (record { location = l; zone_id = zone; area_id = area }))
  unfolding current_recovery_position
  printed l (x, y, z, o) zone area = (
    j.printed_floats l.x x,
    j.printed_floats l.y y,
    j.printed_floats l.z z,
    j.printed_floats l.orientation o,
  )

  recover_bot-GivesWritable :
      (w : core.World) (guid : ℕ) (c : Connected) (r : RecoveryAuditRecord)
      → core.connected w guid ≡ some c
      → IsWritable print_float r
      → GivesWritable
          (recover_bot (recovery_positions_match core.floats.fuzzy_eq) (bot_of core.area_zone c) r)
  unfolding recover_bot bot_of current_recovery_position homebind_position
      homebind_recovery_position
  recover_bot-GivesWritable w guid c r e (_, before, accepted, observed) =
      let named : (t : Bytes) → ◌≡◌ {A = Option Bytes} (some c.name) (some t) → All IsByte t =
        λ t same. subst (All IsByte) (some-eq_inv same) (j.names w guid c e) in
      let (here, after, x, y, z, there) = j.finite_places w guid c e in
      let p = printed c.placement.location here 0 0 in
      let q = printed c.placement_after.location after 0 0 in
      let d = printed c.teleport_dest there 0 0 in
      let at : RecoveryPosition = (bot_of core.area_zone c).position in
      let stands : (p' : RecoveryPosition)
          → ◌≡◌ {A = Option RecoveryPosition} (some at) (some p')
          → IsPrinted print_float p' =
        λ p' same. subst (IsPrinted print_float) (some-eq_inv same) p in
      if-holds GivesWritable c.is_in_world _ _
        (if-holds GivesWritable c.is_managed _ _
          (after_recovery-IsWritable print_float _ _ _ c.result
            (
              j.printed_floats c.homebind_x x,
              j.printed_floats c.homebind_y y,
              j.printed_floats c.homebind_z z,
              q.3,
            )
            d
            (
              named,
              stands,
              accepted,
              λ p' same. subst (IsPrinted print_float) (some-eq_inv same) q,
            ))
          (named, stands, accepted, stands))
        (named, before, accepted, observed)

  recovery_of-GivesWritable :
      (w : core.World) (request : Request) → GivesWritable (recovery_of core print_float w request)
  unfolding recovery_of connected_bot build_recover_record new_recovery_record
  recovery_of-GivesWritable w request =
      let empty : IsWritable print_float
          (new_recovery_record print_float (core.timestamp_ms w) request) =
        (λ t h. cc h, λ p h. cc h, λ p h. cc h, λ p h. cc h) in
      elim (Option-cases (core.connected w request.bot_guid)) [
        | inr (c, e) ↦
            rw (e, recovery_of, connected_bot, build_recover_record)
              (recover_bot-GivesWritable w request.bot_guid c _ e empty)
        | inl e ↦
            rw (e, recovery_of, connected_bot, build_recover_record)
              (if-holds GivesWritable (core.has_cache_entry w request.bot_guid) _ _ empty empty)
      ]

  recover-IsResult :
      (w : core.World) (request : Request)
      → IsResult (build_recover_response core print_float w request).1
  unfolding build_recover_response record_response success
  recover-IsResult w request =
      record-IsResult (recovery_of core print_float w request).0
        (recovery_of-GivesWritable w request)

  run_operation-IsResult :
      (op : Operation) (w : core.World) (request : Request)
      → IsResult (run_operation core print_float op w request).1
  unfolding run_operation
  run_operation-IsResult Operation.status w request = status-IsResult core print_float j w
  run_operation-IsResult Operation.list w request = list-IsResult core print_float j w request
  run_operation-IsResult Operation.inspect w request = inspect-IsResult core print_float j w request
  run_operation-IsResult Operation.anomalies w request =
      anomalies-IsResult core print_float j w request
  run_operation-IsResult Operation.check w request = check-IsResult core print_float j w request
  run_operation-IsResult Operation.command w request =
      command-GivesResult core print_float j w request
  run_operation-IsResult Operation.recover w request = recover-IsResult w request
  run_operation-IsResult Operation.set_skill w request =
      set_skill-GivesResult core print_float j w request
  run_operation-IsResult Operation.teleport_to_game_object w request =
      teleport-GivesResult core print_float j w request
  run_operation-IsResult Operation.hold_activity w request =
      hold-GivesResult core print_float j w request
  run_operation-IsResult Operation.inspect_activity_lease w request =
      inspect_lease-GivesResult core print_float j w request
  run_operation-IsResult Operation.release_activity w request =
      release-GivesResult core print_float j w request
  run_operation-IsResult Operation.gm_command w request =
      gm_command-GivesResult core print_float j w request
  run_operation-IsResult Operation.reload_config w request = reload-GivesResult core print_float j w

  pub execute_verification-IsResult :
      (w : core.World) (request : Request)
      → IsResult (execute_verification core print_float w request).1
  unfolding execute_verification
  execute_verification-IsResult w request = run_operation-IsResult request.operation w request

  pub recovery_or_failure-IsResult :
      (now : ℕ) (request : Request) (code : ErrorCode) (outcome : RecoveryOutcome)
      (reason : RecoveryReason) (mutation : RecoveryMutationState)
      → IsResult (recovery_or_failure print_float now request code outcome reason mutation)
  unfolding recovery_or_failure recovery_response new_recovery_record success
  recovery_or_failure-IsResult now request code outcome reason mutation =
      if-holds IsResult (is_recover_operation request.operation) _ _
        (record-IsResult _ (λ t h. cc h, λ p h. cc h, λ p h. cc h, λ p h. cc h))
        (failure-IsResult code [])

  pub dispatch_verification_request-IsResult :
      (now : ℕ) (calls : Calls) (request : Request)
      → ((r : Response) → calls.first_wait ≡ some r → IsResult r)
      → ((r : Response) → calls.second_wait ≡ some r → IsResult r)
      → IsResult (dispatch_verification_request print_float now calls request)
  unfolding dispatch_verification_request shutting_down queue_is_full timed_out_before_claim
      timed_out_after_claim
  dispatch_verification_request-IsResult now calls request first second =
      let failing = recovery_or_failure-IsResult now request in
      if-holds IsResult calls.is_accepting _ _
        (if-holds IsResult calls.queue_operation _ _
          (value_or-IsResult calls.first_wait _ first (
            if-holds IsResult calls.abandon_wins _ _ (failing _ _ _ _)
              (value_or-IsResult calls.second_wait _ second (failing _ _ _ _))))
          (failing _ _ _ _))
        (failing _ _ _ _)
