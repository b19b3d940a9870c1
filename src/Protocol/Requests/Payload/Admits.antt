-- ===== src/Protocol/Requests/Payload/Admits.antt =====
-- What each operation may rely on in a request of its own.
use Prim.Native.String.{String}
use mod_playerbots_mcp.Base.{
  ℕ, ◌%◌, ◌≤◌, ◌<◌, ◌≡◌, ◌⊎◌, true, false, [], Bytes, bytes, is_empty, lookup, value_or, is_some,
}
use mod_playerbots_mcp.Protocol.GmPolicy.{is_refused_gm_command}
use mod_playerbots_mcp.Protocol.Requests.Check.{condition_fields}
use mod_playerbots_mcp.Protocol.Requests.Fields.{is_activity_lease_token}
use mod_playerbots_mcp.Protocol.Types.{
  Request, Operation, max_uint32, max_list_limit, max_anomaly_limit, max_skill_maximum,
  skill_rank_step, max_activity_lease_seconds,
}

abbrev pub IsGuid : ℕ → Type 0
IsGuid g = (0 < g) × (g ≤ max_uint32)

abbrev pub number_of : Request → String → ℕ
number_of r name = value_or 0 (lookup (bytes name) r.numbers)

abbrev pub string_of : Request → String → Bytes
string_of r name = value_or [] (lookup (bytes name) r.strings)

-- The bounds that each operation may rely on.
abbrev pub Admits : Operation → Request → Type 0
Admits Operation.status r = Unit
Admits Operation.list r = (r.after_guid ≤ max_uint32) × (0 < r.limit) × (r.limit ≤ max_list_limit)
Admits Operation.inspect r = IsGuid r.bot_guid
Admits Operation.anomalies r = (0 < r.limit) × (r.limit ≤ max_anomaly_limit)
Admits Operation.check r = IsGuid r.bot_guid × (is_some (condition_fields r.condition) ≡ true)
Admits Operation.command r = IsGuid r.bot_guid × IsGuid r.master_guid × (is_empty r.command ≡ false)
Admits Operation.recover r = IsGuid r.bot_guid × (r.destination ≡ bytes "homebind")
Admits Operation.set_skill r =
    IsGuid r.bot_guid
    × IsGuid (number_of r "skillId")
    × (0 < number_of r "value")
    × (number_of r "value" ≤ number_of r "maximum")
    × (number_of r "maximum" ≤ max_skill_maximum)
    × (number_of r "maximum" % skill_rank_step ≡ 0)
Admits Operation.teleport_to_game_object r =
    IsGuid r.bot_guid × IsGuid (number_of r "gameObjectEntry")
Admits Operation.hold_activity r =
    IsGuid r.bot_guid
    × (0 < number_of r "durationSeconds")
    × (number_of r "durationSeconds" ≤ max_activity_lease_seconds)
    × ((string_of r "leaseToken" ≡ [])
        ⊎ (is_activity_lease_token (string_of r "leaseToken") ≡ true))
Admits Operation.inspect_activity_lease r = IsGuid r.bot_guid
Admits Operation.release_activity r =
    IsGuid r.bot_guid × (is_activity_lease_token (string_of r "leaseToken") ≡ true)
Admits Operation.gm_command r =
    (is_empty r.command ≡ false) × (is_refused_gm_command r.command ≡ false)
Admits Operation.reload_config r = Unit

abbrev pub IsAdmitted : Request → Type 0
IsAdmitted r = Admits r.operation r

-- The name of an operation in a payload.
unfoldable pub operation_name : Operation → Bytes
operation_name Operation.status = bytes "status"
operation_name Operation.list = bytes "list"
operation_name Operation.inspect = bytes "inspect"
operation_name Operation.anomalies = bytes "anomalies"
operation_name Operation.check = bytes "check"
operation_name Operation.command = bytes "command"
operation_name Operation.recover = bytes "recover"
operation_name Operation.set_skill = bytes "set_skill"
operation_name Operation.teleport_to_game_object = bytes "teleport_to_gameobject"
operation_name Operation.hold_activity = bytes "hold_activity"
operation_name Operation.inspect_activity_lease = bytes "inspect_activity_lease"
operation_name Operation.release_activity = bytes "release_activity"
operation_name Operation.gm_command = bytes "gm_command"
operation_name Operation.reload_config = bytes "reload_config"

-- An accepted request is admitted, keeps the id that was read, and is of the branch's operation.
abbrev pub Serves : Operation → Request → Request → Type 0
Serves op q r = IsAdmitted r × (r.request_id ≡ q.request_id) × (r.operation ≡ op)
