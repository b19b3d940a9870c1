-- ===== src/Tests/Payloads.antt =====
-- Payloads through the parser. The digest of a token is its length, 32 times.
use mod_playerbots_mcp.Base.{
  ap, ◌∙◌, some-eq_inv, ℕ, zero, suc, ◌<◌, lookup, str_eq, ◌∷◌, ◌≡◌, ◌≢◌, ◌%◌, refl, [], none, some,
  Bytes, bytes, length, All, contains, value_or, true, arith,
}
use mod_playerbots_mcp.Protocol.Errors.{make_error}
use mod_playerbots_mcp.Protocol.Json.Objects.{
  FlatJsonFields, unsigned_value, string_value, parse_strict, parse, object_body, member_loop,
  parse_member, parse_value, emplace, finish, member_end,
}
use mod_playerbots_mcp.Protocol.Json.Text.{
  consume, skip_whitespace, is_space, parse_string, string_loop, string_step, is_digit,
}
use mod_playerbots_mcp.Protocol.Json.Numbers.{parse_unsigned, unsigned_loop}
use mod_playerbots_mcp.Protocol.Requests.Outcome.{accepted, rejected, ◌>>=◌, require, or_reject}
use mod_playerbots_mcp.Protocol.Frame.RoundTrip.{IsByte}
use mod_playerbots_mcp.Protocol.Requests.Fields.{
  unsigned_field, string_field, has_exact_fields, common_fields, guid_field, is_valid_guid,
}
use mod_playerbots_mcp.Protocol.Requests.Payload.{
  parse_request_payload, parse_authenticated, is_authenticated, parse_operation,
}
use mod_playerbots_mcp.Protocol.Requests.Operations.{parse_recover, parse_gm_command}
use mod_playerbots_mcp.Protocol.Auth.{token_digest_equals, digest_verification_token}
use mod_playerbots_mcp.Protocol.Requests.Payload.Admits.{IsAdmitted}
use mod_playerbots_mcp.Protocol.Requests.Payload.Authenticated.{
  IsDigest, parse_request_payload-authentic, parse_request_payload-unauthenticated,
  parse_request_payload-forgets_id,
}
use mod_playerbots_mcp.Protocol.Requests.Payload.WellFormed.{parse_request_payload-admits}
use mod_playerbots_mcp.Protocol.Types.{
  ProtocolError, Request, TokenDigest, new_request, authentication_failed, command_refused,
  Operation,
}
use mod_playerbots_mcp.Protocol.GmPolicy.{
  is_refused_gm_command, skip_lead, is_lead, matches_lower, first_word, to_lower,
}

abbrev copies : ℕ → ℕ → Bytes
copies zero n = []
copies (suc k) n = n ∷ copies k n

abbrev pub digest : Bytes → TokenDigest
digest token = copies 32 (length token % 256)

abbrev pub recover_payload : Bytes
recover_payload =
    bytes
      "{\"schemaVersion\":2,\"requestId\":7,\"token\":\"secret\",\"operation\":\"recover\",\"botGuid\":42,\"destination\":\"homebind\"}"

abbrev pub recover_fields : FlatJsonFields
recover_fields =
    (bytes "destination", string_value (bytes "homebind"))
    ∷ (bytes "botGuid", unsigned_value 42)
    ∷ (bytes "operation", string_value (bytes "recover"))
    ∷ (bytes "token", string_value (bytes "secret"))
    ∷ (bytes "requestId", unsigned_value 7)
    ∷ (bytes "schemaVersion", unsigned_value 2)
    ∷ []

pub parse-recover_payload : parse_strict recover_payload ≡ some recover_fields
unfolding parse_strict parse object_body member_loop parse_member parse_value emplace finish
    member_end consume skip_whitespace is_space parse_string string_loop string_step is_digit
    parse_unsigned unsigned_loop lookup str_eq
parse-recover_payload = refl

abbrev pub recover_request : Request
recover_request = record new_request {
  request_id = 7;
  operation = Operation.recover;
  bot_guid = 42;
  destination = bytes "homebind";
}

parse_authenticated-recover : parse_authenticated recover_fields ≡ accepted recover_request
unfolding parse_authenticated ◌>>=◌ or_reject unsigned_field lookup str_eq require string_field
    parse_operation parse_recover has_exact_fields common_fields contains guid_field is_valid_guid
parse_authenticated-recover = refl

abbrev pub secret : TokenDigest
secret = digest (bytes "secret")

is_authenticated-recover : is_authenticated digest secret recover_fields ≡ true
unfolding is_authenticated string_field lookup str_eq token_digest_equals digest_verification_token
is_authenticated-recover = refl

pub parse_request_payload-recover :
    (parse_request_payload digest recover_payload secret).request ≡ some recover_request
unfolding parse_request_payload
parse_request_payload-recover =
    rw
      (
        parse-recover_payload, is_authenticated-recover, parse_authenticated-recover,
        parse_request_payload,
      )
      refl

copies-bytes : (k n : ℕ) → n < 256 → All IsByte (copies k n)
copies-bytes zero n h = tt
copies-bytes (suc k) n h = (h, copies-bytes k n h)

pub digest-IsDigest : (token : Bytes) → IsDigest (digest token)
digest-IsDigest token = (copies-bytes 32 (length token % 256) (omega arith), refl)

-- `recover_fields` under another token.
pub wrong_token :
    (token : Bytes)
    → string_field recover_fields (bytes "token") ≡ some token
    → digest token ≢ digest (bytes "guess")
unfolding string_field lookup str_eq
wrong_token token h e =
    let same : bytes "secret" ≡ token = some-eq_inv h in
    let equal : digest (bytes "secret") ≡ digest (bytes "guess") = ap digest same ∙ e in cc

parse_request_payload-admits_example : IsAdmitted recover_request
parse_request_payload-admits_example =
    parse_request_payload-admits digest recover_payload secret recover_request
      parse_request_payload-recover

parse_request_payload-authentic_example :
    (fields : FlatJsonFields) × (parse_strict recover_payload ≡ some fields)
    × ((token : Bytes) × (string_field fields (bytes "token") ≡ some token)
        × (digest token ≡ secret))
parse_request_payload-authentic_example =
    parse_request_payload-authentic digest recover_payload secret recover_request digest-IsDigest
      (digest-IsDigest (bytes "secret")) parse_request_payload-recover

parse_request_payload-unauthenticated_example :
    parse_request_payload digest recover_payload (digest (bytes "guess")) ≡ record {
      request = none;
      response_request_id = value_or 0 (unsigned_field recover_fields (bytes "requestId"));
      error = make_error authentication_failed;
    }
parse_request_payload-unauthenticated_example =
    parse_request_payload-unauthenticated digest recover_payload (digest (bytes "guess"))
      recover_fields digest-IsDigest (digest-IsDigest (bytes "guess")) parse-recover_payload
      wrong_token

abbrev gm_payload : Bytes
gm_payload =
    bytes
      "{\"requestId\":9,\"schemaVersion\":2,\"token\":\"secret\",\"operation\":\"gm_command\",\"command\":\".server exit\"}"

abbrev gm_fields : FlatJsonFields
gm_fields =
    (bytes "command", string_value (bytes ".server exit"))
    ∷ (bytes "operation", string_value (bytes "gm_command"))
    ∷ (bytes "token", string_value (bytes "secret"))
    ∷ (bytes "schemaVersion", unsigned_value 2)
    ∷ (bytes "requestId", unsigned_value 9)
    ∷ []

parse-gm_payload : parse_strict gm_payload ≡ some gm_fields
unfolding parse_strict parse object_body member_loop parse_member parse_value emplace finish
    member_end consume skip_whitespace is_space parse_string string_loop string_step is_digit
    parse_unsigned unsigned_loop lookup str_eq
parse-gm_payload = refl

is_authenticated-gm : is_authenticated digest secret gm_fields ≡ true
unfolding is_authenticated string_field lookup str_eq token_digest_equals digest_verification_token
is_authenticated-gm = refl

parse_authenticated-gm : parse_authenticated gm_fields ≡ rejected (make_error command_refused)
unfolding parse_authenticated ◌>>=◌ or_reject unsigned_field lookup str_eq require string_field
    parse_operation parse_gm_command has_exact_fields common_fields contains is_refused_gm_command
    skip_lead is_lead matches_lower first_word to_lower
parse_authenticated-gm = refl

parse_request_payload-gm : (parse_request_payload digest gm_payload secret).request ≡ none
unfolding parse_request_payload
parse_request_payload-gm =
    rw (parse-gm_payload, is_authenticated-gm, parse_authenticated-gm, parse_request_payload) refl

parse_request_payload-forgets_id_example :
    (e : ProtocolError) × (parse_authenticated gm_fields ≡ rejected e)
    × (parse_request_payload digest gm_payload secret
        ≡ record { request = none; response_request_id = 0; error = e })
parse_request_payload-forgets_id_example =
    parse_request_payload-forgets_id digest gm_payload secret gm_fields parse-gm_payload
      is_authenticated-gm parse_request_payload-gm
