-- ===== src/WorldThread/Leases.antt =====
-- The handlers of activity leases in src/Bot/MCP/PlayerbotVerificationOperation.cpp.
pub mod Tokens
use mod_playerbots_mcp.Base.{
  ℕ, zero, suc, ◌-◌, ◌/◌, ◌%◌, ◌^◌, min, Bool, true, false, ◌||◌, not, [], ◌∷◌, ◌++◌, none, some,
  Bytes, bytes, concat, leb, if◌then◌else◌, is_empty,
}
use mod_playerbots_mcp.Conditions.{request_number, request_string}
use mod_playerbots_mcp.Protocol.Print.{to_string, hex_digit}
use mod_playerbots_mcp.Protocol.Responses.{Response, success, failure}
use mod_playerbots_mcp.Protocol.Types.{
  Request, ErrorCode, bot_not_found, bot_unavailable, not_managed_playerbot, not_random_bot,
  invalid_relationship, activity_lease_conflict, invalid_activity_lease, max_uint32,
}
use mod_playerbots_mcp.WorldThread.Core.{
  Core, Player, LeaseState, AcquireOutcome, acquired, renewed, acquire_conflict, acquire_invalid,
  ReleaseOutcome, released, already_inactive, release_conflict, release_invalid,
}
use mod_playerbots_mcp.WorldThread.Names.{acquire_outcome_name, release_outcome_name}
use mod_playerbots_mcp.WorldThread.Text.{json_string, bool_text}

-- `ActivityLeaseRemaining`.
unfoldable pub activity_lease_remaining : LeaseState → ℕ → ℕ
activity_lease_remaining state now =
    if not state.active || leb state.expires_at now
    then 0
    else min (state.expires_at - now) max_uint32 % 2 ^ 32

-- `{:08x}` of a uint32: its last `n` digits to the base of 16.
unfoldable pub hex_digits : ℕ → ℕ → Bytes
hex_digits zero value = []
hex_digits (suc n) value = hex_digits n (value / 16) ++ hex_digit (value % 16) ∷ []

-- `NewActivityLeaseToken`, of four random numbers.
unfoldable pub new_activity_lease_token : ℕ × ℕ × ℕ × ℕ → Bytes
new_activity_lease_token (a, b, c, d) =
    hex_digits 8 a ++ (hex_digits 8 b ++ (hex_digits 8 c ++ hex_digits 8 d))

-- A target, or why there is none.
pub data Target : Type 0 where
  target : Player → Target
  refused : ErrorCode → Target

module _ (core : Core) (w : core.World) where
  unfoldable pub check_random : Player → Target
  check_random bot =
      if core.is_random_account w bot
      then elim (core.master w bot) [ none ↦ target bot | some _ ↦ refused invalid_relationship ]
      else refused not_random_bot

  unfoldable pub check_target : Bool → Player → Target
  check_target require_random_masterless bot =
      if core.has_ai w bot
      then (if not (core.has_session w bot)
            || not (core.is_in_world w bot)
            || core.is_during_remove w bot
            || core.is_logging_out w bot
          then refused bot_unavailable
          else if require_random_masterless
          then check_random bot
          else target bot)
      else refused not_managed_playerbot

  -- `ResolveActivityLeaseTarget`.
  unfoldable pub resolve_activity_lease_target : Bool → Request → Target
  resolve_activity_lease_target require_random_masterless request =
      elim (core.find_player w request.bot_guid) [
        | none ↦ refused bot_not_found
        | some bot ↦ check_target require_random_masterless bot
      ]

module _ (core : Core) where
  -- The token of the request, or else a new one, which takes four random numbers.
  unfoldable pub lease_token : core.World → Request → core.World × Bytes
  lease_token w request =
      let token = request_string request (bytes "leaseToken") in
      let drawn = core.random w in
      if is_empty token then (drawn.0, new_activity_lease_token drawn.1) else (w, token)

  unfoldable pub held_text : core.World → Player → ℕ → AcquireOutcome → LeaseState → Bytes
  held_text w bot now outcome state = concat (
      bytes "{\"botGuid\":"
      ∷ json_string core (core.guid_text w bot)
      ∷ bytes ",\"outcome\":"
      ∷ json_string core (acquire_outcome_name outcome)
      ∷ bytes ",\"leaseToken\":"
      ∷ json_string core state.token
      ∷ bytes ",\"active\":true,\"expiresAt\":"
      ∷ to_string state.expires_at
      ∷ bytes ",\"remainingSeconds\":"
      ∷ to_string (activity_lease_remaining state now)
      ∷ bytes "}"
      ∷ [])

  -- How an outcome is answered.
  unfoldable pub held_response : core.World → Player → ℕ → LeaseState → AcquireOutcome → Response
  held_response w bot now state acquire_conflict = failure activity_lease_conflict []
  held_response w bot now state acquire_invalid = failure invalid_activity_lease []
  held_response w bot now state acquired = success (held_text w bot now acquired state)
  held_response w bot now state renewed = success (held_text w bot now renewed state)

  unfoldable pub hold_bot : core.World → Request → Player → core.World × Response
  hold_bot w request bot =
      let (w₁, token) = lease_token w request in
      let now = core.game_time w₁ in
      let seconds = request_number request (bytes "durationSeconds") % 2 ^ 32 in
      let (w₂, outcome, state) = core.hold_lease w₁ bot token seconds now in
      (w₂, held_response w₂ bot now state outcome)

  unfoldable pub build_hold_activity_response : core.World → Request → core.World × Response
  build_hold_activity_response w request =
      elim (resolve_activity_lease_target core w true request) [
        | refused code ↦ (w, failure code [])
        | target bot ↦ hold_bot w request bot
      ]

  -- The members that tell of a lease.
  unfoldable pub state_text : ℕ → LeaseState → Bytes
  state_text now state = concat (
      bytes ",\"active\":"
      ∷ bool_text state.active
      ∷ bytes ",\"expiresAt\":"
      ∷ to_string state.expires_at
      ∷ bytes ",\"remainingSeconds\":"
      ∷ to_string (activity_lease_remaining state now)
      ∷ bytes "}"
      ∷ [])

  unfoldable pub inspect_bot_lease : core.World → Player → core.World × Response
  inspect_bot_lease w bot =
      let now = core.game_time w in
      let (w₁, state) = core.inspect_lease w bot now in
      (
        w₁,
        success (
            concat (
              bytes "{\"botGuid\":"
              ∷ json_string core (core.guid_text w₁ bot)
              ∷ state_text now state
              ∷ [])),
      )

  unfoldable pub build_inspect_activity_lease_response :
      core.World → Request → core.World × Response
  build_inspect_activity_lease_response w request =
      elim (resolve_activity_lease_target core w false request) [
        | refused code ↦ (w, failure code [])
        | target bot ↦ inspect_bot_lease w bot
      ]

  unfoldable pub released_response :
      core.World → Player → ℕ → ReleaseOutcome → core.World × Response
  released_response w bot now outcome =
      let (w₁, state) = core.inspect_lease w bot now in
      (
        w₁,
        success (
            concat (
              bytes "{\"botGuid\":"
              ∷ json_string core (core.guid_text w₁ bot)
              ∷ bytes ",\"outcome\":"
              ∷ json_string core (release_outcome_name outcome)
              ∷ state_text now state
              ∷ [])),
      )

  -- How an outcome is answered.
  unfoldable pub after_release : core.World → Player → ℕ → ReleaseOutcome → core.World × Response
  after_release w bot now release_conflict = (w, failure activity_lease_conflict [])
  after_release w bot now release_invalid = (w, failure invalid_activity_lease [])
  after_release w bot now released = released_response w bot now released
  after_release w bot now already_inactive = released_response w bot now already_inactive

  unfoldable pub release_bot : core.World → Request → Player → core.World × Response
  release_bot w request bot =
      let now = core.game_time w in
      let (w₁, outcome) =
        core.release_lease w bot (request_string request (bytes "leaseToken")) now in
      after_release w₁ bot now outcome

  unfoldable pub build_release_activity_response : core.World → Request → core.World × Response
  build_release_activity_response w request =
      elim (resolve_activity_lease_target core w false request) [
        | refused code ↦ (w, failure code [])
        | target bot ↦ release_bot w request bot
      ]
