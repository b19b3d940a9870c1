-- ===== src/Protocol/Responses/Envelopes.antt =====
-- Every answer is read by the parser of this module, under the id of its request.
use mod_playerbots_mcp.Base.{
  ℕ, ◌≤◌, ◌≡◌, refl, ap, ◌∙◌, ◌⊎◌, inl, inr, Bool, true, false, ◌&&◌, [], ◌∷◌, some, none, Bytes,
  bytes, All, leb, length, lookup, str_eq, is_empty, if◌then◌else◌, Bool-cases, arith,
}
use mod_playerbots_mcp.Protocol.Errors.{error_code_name, error_message}
use mod_playerbots_mcp.Protocol.Frame.RoundTrip.{IsByte, are_bytes}
use mod_playerbots_mcp.Protocol.Json.Objects.{unsigned_value, other_value, parse_strict}
use mod_playerbots_mcp.Protocol.Json.Nested.{max_nested_depth}
use mod_playerbots_mcp.Protocol.Json.Trees.{
  Json, render, Sane, sane_quoted, sane_number, sane_word, IsWord, true_word, false_word,
  truth_text, sane_object, ends_object, with_member,
}
use mod_playerbots_mcp.Protocol.Json.Trees.Read.{
  ReadsAs, as_unsigned, as_word, as_object, read_all, read_next,
}
use mod_playerbots_mcp.Protocol.Json.Trees.Begins.{render-Begins}
use mod_playerbots_mcp.Protocol.Json.Trees.RoundTrip.{parse_strict-render}
use mod_playerbots_mcp.Protocol.Responses.{
  Response, serialize_error, success_envelope, serialize_response,
}
use mod_playerbots_mcp.Protocol.Types.{
  ErrorCode, response_too_large, max_response_payload_bytes, max_uint64, schema_version,
}
use mod_playerbots_mcp.Protocol.Responses.Rendered.{
  envelope, success_envelope-render, empty_envelope-render, all-error_code_name, all-error_message,
  serialize_error-render, answered,
}

truth-IsWord : (b : Bool) → IsWord (truth_text b)
truth-IsWord true = true_word
truth-IsWord false = false_word

-- An envelope is read if its last member is.
read_envelope :
    {h : ℕ} {v : Json} (id : ℕ) (ok : Bool) (key : Bytes)
    → id ≤ max_uint64
    → All IsByte key
    → lookup key (
        (bytes "ok", other_value)
        ∷ (bytes "requestId", unsigned_value id)
        ∷ (bytes "schemaVersion", unsigned_value schema_version)
        ∷ [])
      ≡ none
    → Sane h v
    → h ≤ max_nested_depth
    → ReadsAs v other_value
    → parse_strict (render (envelope id ok key v) []) ≡ some (answered key id)
unfolding lookup str_eq
read_envelope id ok key fits named new s deep other = parse_strict-render (
    read_next {h = 0} (are_bytes (bytes "schemaVersion") refl) sane_number (omega arith)
      (as_unsigned (omega arith)) refl
      (read_next {h = 0} (are_bytes (bytes "requestId") refl) sane_number (omega arith)
        (as_unsigned fits) refl
        (read_next {h = 0} (are_bytes (bytes "ok") refl) (sane_word (truth-IsWord ok)) (omega arith)
          as_word refl (read_next named s deep other new read_all))))

-- The text of a tree that a result may be: what is neither a string nor a uint64, and not too deep.
pub record IsResultText (t : Bytes) : Type 0 where
  pub height : ℕ
  pub tree : Json
  pub sane : Sane height tree
  pub shallow : height ≤ max_nested_depth
  pub reads_other : ReadsAs tree other_value
  pub same : t ≡ render tree []

-- The result that a handler gives is one, or empty.
abbrev pub IsResult : Response → Type 0
IsResult r = r.ok ≡ true → (r.result_json ≡ []) ⊎ IsResultText r.result_json

serialize_error-read :
    (id : ℕ) (code : ErrorCode)
    → id ≤ max_uint64
    → parse_strict (serialize_error id code) ≡ some (answered (bytes "error") id)
unfolding lookup str_eq
serialize_error-read id code fits =
    ap parse_strict (serialize_error-render id code)
    ∙ read_envelope {h = 1} id false (bytes "error") fits (are_bytes (bytes "error") refl) refl
        (sane_object (
          with_member {h = 0} (are_bytes (bytes "code") refl)
            (sane_quoted (are_bytes (error_code_name code) (all-error_code_name code)))
            (with_member (are_bytes (bytes "message") refl)
              (sane_quoted (are_bytes (error_message code) (all-error_message code))) ends_object)))
        (omega arith) as_object

success_envelope-read :
    (id : ℕ) (t : Bytes)
    → id ≤ max_uint64
    → (t ≡ []) ⊎ IsResultText t
    → parse_strict (success_envelope id t) ≡ some (answered (bytes "result") id)
unfolding lookup str_eq
success_envelope-read id t fits (inl empty) =
    ap (λ t. parse_strict (success_envelope id t)) empty
    ∙ ap parse_strict (empty_envelope-render id)
    ∙ read_envelope {h = 1} id true (bytes "result") fits (are_bytes (bytes "result") refl) refl
        (sane_object (ends_object {h = 0})) (omega arith) as_object
success_envelope-read id t fits (inr g) =
    let full : is_empty (render g.tree []) ≡ false = ap is_empty (render-Begins [] g.sane).same in
    ap (λ t. parse_strict (success_envelope id t)) g.same
    ∙ ap parse_strict (success_envelope-render id g.tree full)
    ∙ read_envelope id true (bytes "result") fits (are_bytes (bytes "result") refl) refl g.sane
        g.shallow g.reads_other

-- Is a result sent, and not an error?
abbrev pub sends_result : ℕ → Response → Bool
sends_result id r =
    r.ok && leb (length (success_envelope id r.result_json)) max_response_payload_bytes

-- Whatever a response says, as long as its result is a JSON value that is no string or uint64 and
-- nests at most 32 deep, what is sent for it is read by the strict `Parse`: as an object of the
-- schema version, the request id as it was, `ok`, and the result, or the error if the response is
-- one or its result does not fit the budget.
pub serialize_response-read :
    (id : ℕ) (r : Response)
    → id ≤ max_uint64
    → IsResult r
    → parse_strict (serialize_response id r)
      ≡ some (answered (if sends_result id r then bytes "result" else bytes "error") id)
unfolding serialize_response
serialize_response-read id r fits h = elim (Bool-cases r.ok) [
  | inr failed ↦ rw (serialize_response, failed) (serialize_error-read id r.error.code fits)
  | inl fine ↦
      elim (Bool-cases
        (leb (length (success_envelope id r.result_json)) max_response_payload_bytes)) [
          | inl short ↦
              rw (serialize_response, fine, short)
                (success_envelope-read id r.result_json fits (h fine))
          | inr long ↦
              rw (serialize_response, fine, long) (serialize_error-read id response_too_large fits)
        ]
]
