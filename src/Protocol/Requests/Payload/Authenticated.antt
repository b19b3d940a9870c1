-- ===== src/Protocol/Requests/Payload/Authenticated.antt =====
-- Who gets past the parser, and what the others are told.
use mod_playerbots_mcp.Base.{
  refl, ◌≡◌, ◌∙◌, sym, true, none, some, Bytes, bytes, length, All, value_or, Bool-cases,
  Option-cases, inl, inr, ◌≢◌,
}
use mod_playerbots_mcp.Protocol.Auth.{digest_verification_token, token_digest_equals}
use mod_playerbots_mcp.Protocol.Auth.Compare.{token_digest_equals_iff}
use mod_playerbots_mcp.Protocol.Errors.{make_error}
use mod_playerbots_mcp.Protocol.Frame.RoundTrip.{IsByte}
use mod_playerbots_mcp.Protocol.Json.Objects.{FlatJsonFields, parse_strict}
use mod_playerbots_mcp.Protocol.Requests.Fields.{unsigned_field, string_field}
use mod_playerbots_mcp.Protocol.Requests.Payload.{
  to_result, parse_authenticated, is_authenticated, parse_request_payload,
}
use mod_playerbots_mcp.Protocol.Requests.Payload.WellFormed.{parse_request_payload-accepts}
use mod_playerbots_mcp.Protocol.Requests.Outcome.{Outcome, accepted, rejected}
use mod_playerbots_mcp.Protocol.Types.{
  ProtocolError, Request, TokenDigest, authentication_failed, token_digest_bytes,
}

-- A SHA-256 digest: 32 bytes.
abbrev pub IsDigest : TokenDigest → Type 0
IsDigest d = All IsByte d × (length d ≡ token_digest_bytes)

to_result-none :
    (o : Outcome Request) → (to_result o).request ≡ none → (e : ProtocolError) × (o ≡ rejected e)
to_result-none (accepted q) h = cc
to_result-none (rejected e) h = (e, refl)

module _ (digest : Bytes → TokenDigest) where
  is_authenticated-digest :
      (expected : TokenDigest) (fields : FlatJsonFields)
      → ((t : Bytes) → IsDigest (digest t))
      → IsDigest expected
      → is_authenticated digest expected fields ≡ true
      → (token : Bytes) × (string_field fields (bytes "token") ≡ some token)
        × (digest token ≡ expected)
  unfolding is_authenticated digest_verification_token
  is_authenticated-digest expected fields sha known h =
      elim (Option-cases (string_field fields (bytes "token"))) [
        | inl missing ↦ cc (rw (missing, is_authenticated) at h)
        | inr (token, found) ↦
            let passed : token_digest_equals (digest token) expected ≡ true =
              rw (found, is_authenticated) at h in
            (
              token,
              found,
              (token_digest_equals_iff (digest token) expected (sha token).0 known.0
                    ((sha token).1 ∙ sym known.1)).0
                  passed,
            )
      ]

  -- A request is accepted only from a payload whose `token` has the expected digest. SHA-256 is
  -- assumed to give 32 bytes.
  pub parse_request_payload-authentic :
      (payload : Bytes) (expected : TokenDigest) (r : Request)
      → ((t : Bytes) → IsDigest (digest t))
      → IsDigest expected
      → (parse_request_payload digest payload expected).request ≡ some r
      → (fields : FlatJsonFields) × (parse_strict payload ≡ some fields)
        × ((token : Bytes) × (string_field fields (bytes "token") ≡ some token)
            × (digest token ≡ expected))
  parse_request_payload-authentic payload expected r sha known h =
      let (fields, parsed, passed, _) = parse_request_payload-accepts digest payload expected r h in
      (fields, parsed, is_authenticated-digest expected fields sha known passed)

  -- Without the token nothing else about the payload shows: any flat object whose `token` is missing
  -- or has another digest gets the authentication error and its own request id back, whatever
  -- version, operation or fields it has. SHA-256 is assumed to give 32 bytes.
  pub parse_request_payload-unauthenticated :
      (payload : Bytes) (expected : TokenDigest) (fields : FlatJsonFields)
      → ((t : Bytes) → IsDigest (digest t))
      → IsDigest expected
      → parse_strict payload ≡ some fields
      → ((token : Bytes)
          → string_field fields (bytes "token") ≡ some token
          → digest token ≢ expected)
      → parse_request_payload digest payload expected ≡ record {
        request = none;
        response_request_id = value_or 0 (unsigned_field fields (bytes "requestId"));
        error = make_error authentication_failed;
      }
  unfolding parse_request_payload
  parse_request_payload-unauthenticated payload expected fields sha known parsed wrong =
      elim (Bool-cases (is_authenticated digest expected fields)) [
        | inl passed ↦
            let (token, found, same) = is_authenticated-digest expected fields sha known passed in
            absurd (wrong token found same)
        | inr failed ↦ rw (parsed, failed, parse_request_payload)
      ]

  -- Once the token is accepted, a refusal loses the request id: whatever error an authenticated
  -- payload gets, it is answered under id 0, though its own id may be there to read.
  pub parse_request_payload-forgets_id :
      (payload : Bytes) (expected : TokenDigest) (fields : FlatJsonFields)
      → parse_strict payload ≡ some fields
      → is_authenticated digest expected fields ≡ true
      → (parse_request_payload digest payload expected).request ≡ none
      → (e : ProtocolError) × (parse_authenticated fields ≡ rejected e)
        × (parse_request_payload digest payload expected
            ≡ record { request = none; response_request_id = 0; error = e })
  unfolding parse_request_payload
  parse_request_payload-forgets_id payload expected fields parsed passed h =
      let (e, refused) =
        to_result-none (parse_authenticated fields)
          (rw (parsed, passed, parse_request_payload) at h) in
      (e, refused, rw (parsed, passed, refused, parse_request_payload))
