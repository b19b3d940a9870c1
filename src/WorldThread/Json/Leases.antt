-- ===== src/WorldThread/Json/Leases.antt =====
-- The responses of the lease handlers.
use mod_playerbots_mcp.Base.{ℕ, refl, ap, append-nil, true, false, [], ◌++◌, Bytes, bytes, concat}
use mod_playerbots_mcp.Protocol.Json.Trees.{render, render_members, more_members, ends_object}
use mod_playerbots_mcp.Protocol.Print.{append_escaped_json_string, escape_loop, escape_byte}
use mod_playerbots_mcp.Protocol.Responses.Envelopes.{IsResult}
use mod_playerbots_mcp.Protocol.Types.{Request, activity_lease_conflict, invalid_activity_lease}
use mod_playerbots_mcp.WorldThread.Core.{
  Core, Player, acquire_conflict, acquire_invalid, release_conflict, release_invalid, LeaseState,
  AcquireOutcome, acquired, renewed, ReleaseOutcome, released, already_inactive,
}
use mod_playerbots_mcp.WorldThread.Json.{
  WritesJson, number_at, truth_at, object-IsResult, failure-IsResult,
}
use mod_playerbots_mcp.WorldThread.Leases.{
  resolve_activity_lease_target, held_text, held_response, hold_bot, build_hold_activity_response,
  state_text, inspect_bot_lease, build_inspect_activity_lease_response, released_response,
  after_release, release_bot, build_release_activity_response,
}
use mod_playerbots_mcp.WorldThread.Names.{release_outcome_name}
use mod_playerbots_mcp.WorldThread.Rules.{target-holds}
use mod_playerbots_mcp.WorldThread.Text.{json_string, bool_text}
use mod_playerbots_mcp.WorldThread.Json.Objects.{GivesResult, text_at}

module _ (core : Core) (print_float : ℕ → Bytes) (j : WritesJson core print_float) where
  module _ (w : core.World) where
    held_response-IsResult :
        (bot : Player) (now : ℕ) (state : LeaseState) (outcome : AcquireOutcome)
        → IsResult (held_response core w bot now state outcome)
    unfolding held_response held_text bool_text concat render render_members more_members
        append_escaped_json_string escape_loop escape_byte json_string
    held_response-IsResult bot now state acquired =
        object-IsResult _
          (text_at core print_float j (bytes "botGuid") refl _ (
            text_at core print_float j (bytes "outcome") refl _ (
              text_at core print_float j (bytes "leaseToken") refl _ (
                truth_at (bytes "active") refl true (
                  number_at (bytes "expiresAt") refl _
                    (number_at (bytes "remainingSeconds") refl _ ends_object))))))
          refl
    held_response-IsResult bot now state renewed =
        object-IsResult _
          (text_at core print_float j (bytes "botGuid") refl _ (
            text_at core print_float j (bytes "outcome") refl _ (
              text_at core print_float j (bytes "leaseToken") refl _ (
                truth_at (bytes "active") refl true (
                  number_at (bytes "expiresAt") refl _
                    (number_at (bytes "remainingSeconds") refl _ ends_object))))))
          refl
    held_response-IsResult bot now state acquire_conflict =
        failure-IsResult activity_lease_conflict []
    held_response-IsResult bot now state acquire_invalid =
        failure-IsResult invalid_activity_lease []

    released_response-GivesResult :
        (bot : Player) (now : ℕ) (outcome : ReleaseOutcome)
        → GivesResult core print_float j w (released_response core w bot now outcome)
    unfolding released_response state_text concat render render_members more_members
        append_escaped_json_string escape_loop escape_byte json_string
    released_response-GivesResult bot now outcome =
        let after = core.inspect_lease w bot now in
        object-IsResult _
          (text_at core print_float j (bytes "botGuid") refl _ (
            text_at core print_float j (bytes "outcome") refl _ (
              truth_at (bytes "active") refl _ (
                number_at (bytes "expiresAt") refl _
                  (number_at (bytes "remainingSeconds") refl _ ends_object)))))
          (ap
            (λ x.
              bytes "{\"botGuid\":"
              ++ (json_string core (core.guid_text after.0 bot)
                  ++ (bytes ",\"outcome\":"
                      ++ (json_string core (release_outcome_name outcome) ++ x))))
            (append-nil (state_text core now after.1)))

    after_release-GivesResult :
        (bot : Player) (now : ℕ) (outcome : ReleaseOutcome)
        → GivesResult core print_float j w (after_release core w bot now outcome)
    unfolding after_release
    after_release-GivesResult bot now released = released_response-GivesResult bot now released
    after_release-GivesResult bot now already_inactive =
        released_response-GivesResult bot now already_inactive
    after_release-GivesResult bot now release_conflict = failure-IsResult activity_lease_conflict []
    after_release-GivesResult bot now release_invalid = failure-IsResult invalid_activity_lease []

    inspect_bot_lease-GivesResult :
        (bot : Player) → GivesResult core print_float j w (inspect_bot_lease core w bot)
    unfolding inspect_bot_lease state_text concat render render_members more_members
        append_escaped_json_string escape_loop escape_byte json_string
    inspect_bot_lease-GivesResult bot =
        let now = core.game_time w in
        let after = core.inspect_lease w bot now in
        object-IsResult _
          (text_at core print_float j (bytes "botGuid") refl _ (
            truth_at (bytes "active") refl _ (
              number_at (bytes "expiresAt") refl _
                (number_at (bytes "remainingSeconds") refl _ ends_object))))
          (ap (λ x. bytes "{\"botGuid\":" ++ (json_string core (core.guid_text after.0 bot) ++ x))
            (append-nil (state_text core now after.1)))

  module _ (w : core.World) where
    pub hold-GivesResult :
        (request : Request)
        → GivesResult core print_float j w (build_hold_activity_response core w request)
    unfolding build_hold_activity_response hold_bot
    hold-GivesResult request =
        target-holds (GivesResult core print_float j w)
          (resolve_activity_lease_target core w true request) _ _ (λ code. failure-IsResult code [])
          (λ bot. held_response-IsResult _ bot _ _ _)

    pub inspect_lease-GivesResult :
        (request : Request)
        → GivesResult core print_float j w (build_inspect_activity_lease_response core w request)
    unfolding build_inspect_activity_lease_response
    inspect_lease-GivesResult request =
        target-holds (GivesResult core print_float j w)
          (resolve_activity_lease_target core w false request) _ _
          (λ code. failure-IsResult code []) (λ bot. inspect_bot_lease-GivesResult w bot)

    pub release-GivesResult :
        (request : Request)
        → GivesResult core print_float j w (build_release_activity_response core w request)
    unfolding build_release_activity_response release_bot
    release-GivesResult request =
        target-holds (GivesResult core print_float j w)
          (resolve_activity_lease_target core w false request) _ _
          (λ code. failure-IsResult code []) (λ bot. after_release-GivesResult _ bot _ _)
