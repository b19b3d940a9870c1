-- ===== src/Protocol/Responses/Rendered.antt =====
-- The envelopes that `SerializeResponse` writes are objects of trees.
use mod_playerbots_mcp.Base.{
  ℕ, ◌≡◌, refl, ap, ◌∙◌, sym, Bool, true, false, [], ◌∷◌, ◌++◌, append_assoc, all, ltb, Bytes,
  bytes, concat, is_empty,
}
use mod_playerbots_mcp.Protocol.Errors.{error_code_name, error_message, make_error}
use mod_playerbots_mcp.Protocol.Json.Objects.{FlatJsonFields, unsigned_value, other_value}
use mod_playerbots_mcp.Protocol.Json.Trees.{
  Json, quoted, number, word, truth_text, object, Members, no_members, member, render,
  render_members, more_members,
}
use mod_playerbots_mcp.Protocol.Json.Trees.Given.{render-append}
use mod_playerbots_mcp.Protocol.Print.{
  to_string, append_escaped_json_string, escape_loop, escape_byte,
}
use mod_playerbots_mcp.Protocol.Print.ReadStrings.{append_escaped-append}
use mod_playerbots_mcp.Protocol.Responses.{envelope_start, serialize_error, success_envelope}
use mod_playerbots_mcp.Protocol.Types.{ErrorCode, schema_version}

-- What every envelope is, around its last member.
abbrev pub envelope : ℕ → Bool → Bytes → Json → Json
envelope id ok key part = object (
    member (bytes "schemaVersion") (number schema_version) (
      member (bytes "requestId") (number id)
        (member (bytes "ok") (word (truth_text ok)) (member key part no_members))))

-- The fields that are read of it.
abbrev pub answered : Bytes → ℕ → FlatJsonFields
answered key id =
    (key, other_value)
    ∷ (bytes "ok", other_value)
    ∷ (bytes "requestId", unsigned_value id)
    ∷ (bytes "schemaVersion", unsigned_value schema_version)
    ∷ []

pub envelope_start-append :
    (id : ℕ) (rest : Bytes)
    → envelope_start id ++ rest
      ≡ bytes "{\"schemaVersion\":"
        ++ (to_string schema_version ++ (bytes ",\"requestId\":" ++ (to_string id ++ rest)))
unfolding envelope_start concat
envelope_start-append id rest =
    ap (λ t. bytes "{\"schemaVersion\":" ++ t)
      (append_assoc (to_string schema_version) (bytes ",\"requestId\":" ++ (to_string id ++ []))
          rest
        ∙ ap (λ t. to_string schema_version ++ (bytes ",\"requestId\":" ++ t))
            (append_assoc (to_string id) [] rest))

pub success_envelope-render :
    (id : ℕ) (v : Json)
    → is_empty (render v []) ≡ false
    → success_envelope id (render v []) ≡ render (envelope id true (bytes "result") v) []
unfolding success_envelope render_members more_members append_escaped_json_string escape_loop
    escape_byte concat
success_envelope-render id v full =
    envelope_start-append id _
    ∙ rw full (
        ap
          (λ t.
            bytes "{\"schemaVersion\":"
            ++ (to_string schema_version
                ++ (bytes ",\"requestId\":"
                    ++ (to_string id ++ (bytes ",\"ok\":true,\"result\":" ++ t)))))
          (sym (render-append v [] (bytes "}"))))

pub empty_envelope-render :
    (id : ℕ)
    → success_envelope id [] ≡ render (envelope id true (bytes "result") (object no_members)) []
unfolding success_envelope render render_members more_members append_escaped_json_string escape_loop
    escape_byte concat
empty_envelope-render id = envelope_start-append id _

-- The names of the codes need no escape.
pub quoted-error_code_name :
    (code : ErrorCode) (rest : Bytes)
    → append_escaped_json_string [] (error_code_name code) ++ rest
      ≡ b'"' ∷ (error_code_name code ++ b'"' ∷ rest)
unfolding append_escaped_json_string escape_loop escape_byte error_code_name
quoted-error_code_name ErrorCode.no_error rest = refl
quoted-error_code_name _ rest = refl

pub all-error_code_name : (code : ErrorCode) → all (λ x. ltb x 256) (error_code_name code) ≡ true
unfolding error_code_name
all-error_code_name ErrorCode.no_error = refl
all-error_code_name _ = refl

pub all-error_message : (code : ErrorCode) → all (λ x. ltb x 256) (error_message code) ≡ true
unfolding error_message
all-error_message ErrorCode.no_error = refl
all-error_message _ = refl

abbrev pub error_members : ErrorCode → Members
error_members code =
    member (bytes "code") (quoted (error_code_name code))
      (member (bytes "message") (quoted (error_message code)) no_members)

pub serialize_error-pieces :
    (id : ℕ) (code : ErrorCode)
    → serialize_error id code
      ≡ envelope_start id
        ++ (bytes ",\"ok\":false,\"error\":{\"code\":"
            ++ (append_escaped_json_string [] (error_code_name code)
                ++ (bytes ",\"message\":"
                    ++ (append_escaped_json_string [] (error_message code) ++ bytes "}}"))))
unfolding serialize_error make_error concat
serialize_error-pieces id code =
    let name = error_code_name code in
    let message = append_escaped_json_string [] (error_message code) in
    let behind = bytes "\",\"message\":" in
    let middle = bytes ",\"ok\":false,\"error\":{\"code\":\"" ++ (name ++ (behind ++ [])) in
    ap (λ t. t ++ bytes "}}")
      (append_escaped-append (envelope_start id ++ middle) (error_message code))
    ∙ append_assoc (envelope_start id ++ middle) message (bytes "}}")
    ∙ append_assoc (envelope_start id) middle (message ++ bytes "}}")
    ∙ ap (λ t. envelope_start id ++ (bytes ",\"ok\":false,\"error\":{\"code\":" ++ t))
        (ap (λ t. b'"' ∷ t) (append_assoc name (behind ++ []) (message ++ bytes "}}"))
          ∙ sym (quoted-error_code_name code (bytes ",\"message\":" ++ (message ++ bytes "}}"))))

pub serialize_error-render :
    (id : ℕ) (code : ErrorCode)
    → serialize_error id code
      ≡ render (envelope id false (bytes "error") (object (error_members code))) []
unfolding render render_members more_members append_escaped_json_string escape_loop escape_byte
serialize_error-render id code = serialize_error-pieces id code ∙ envelope_start-append id _
