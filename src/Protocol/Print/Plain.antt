-- ===== src/Protocol/Print/Plain.antt =====
-- Texts that are written as JSON strings without an escape.
use mod_playerbots_mcp.Base.{
  ℕ, ◌≡◌, ap, ◌∙◌, sym, Bool, true, ◌&&◌, not, all, [], ◌∷◌, ◌++◌, append_assoc, append-nil, Bytes,
  All, ltb, leb, ◌==◌, arith,
}
use mod_playerbots_mcp.Protocol.Frame.RoundTrip.{IsByte}
use mod_playerbots_mcp.Protocol.Print.{escape_byte, escape_loop, append_escaped_json_string}

abbrev plain_byte : ℕ → Bool
plain_byte c = leb 32 c && ltb c 128 && not (c == b'"') && not (c == b'\\')

abbrev pub is_plain : Bytes → Bool
is_plain s = all plain_byte s

pub is_plain-bytes : (s : Bytes) → is_plain s ≡ true → All IsByte s
is_plain-bytes [] h = tt
is_plain-bytes (c ∷ cs) h = (ground arith, is_plain-bytes cs (ground arith))

escape_byte-plain : (c : ℕ) → plain_byte c ≡ true → escape_byte c ≡ c ∷ []
unfolding escape_byte
escape_byte-plain c h = ground arith

escape_loop-plain : (output s : Bytes) → is_plain s ≡ true → escape_loop output s ≡ output ++ s
unfolding escape_loop
escape_loop-plain output [] h = sym (append-nil output)
escape_loop-plain output (c ∷ cs) h =
    ap (λ t. escape_loop (output ++ t) cs) (escape_byte-plain c (ground arith))
    ∙ escape_loop-plain (output ++ c ∷ []) cs (ground arith)
    ∙ append_assoc output (c ∷ []) cs

-- The text in quotes.
pub append_escaped-plain :
    (s rest : Bytes)
    → is_plain s ≡ true
    → append_escaped_json_string [] s ++ rest ≡ b'"' ∷ (s ++ b'"' ∷ rest)
unfolding append_escaped_json_string
append_escaped-plain s rest h =
    ap (λ t. (t ++ b'"' ∷ []) ++ rest) (escape_loop-plain (b'"' ∷ []) s h)
    ∙ ap (λ t. b'"' ∷ t) (append_assoc s (b'"' ∷ []) rest)
