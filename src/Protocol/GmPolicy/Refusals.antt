-- ===== src/Protocol/GmPolicy/Refusals.antt =====
-- The refusals do not depend on leading dots and blanks, on letter case, or on the arguments.
use mod_playerbots_mcp.Base.{
  ℕ, ◌≡◌, refl, ap, ◌∙◌, ◌⊎◌, Bool, true, false, ◌&&◌, ◌||◌, [], ◌∷◌, ◌++◌, map, Bytes, bytes, any,
  all, ◌==◌, arith, str_eq, str_eq_sym, contains,
}
use mod_playerbots_mcp.Protocol.GmPolicy.{
  to_lower, is_lead, skip_lead, first_word, matches_lower, refused_words, is_refused_gm_command,
}

-- Lower case letters are left as they are.
abbrev pub IsLower : ℕ → Type 0
IsLower c = to_lower c ≡ c

matches_lower-str_eq : (w e : Bytes) → matches_lower w e ≡ str_eq (map to_lower w) e
unfolding matches_lower str_eq
matches_lower-str_eq [] [] = refl
matches_lower-str_eq [] (e ∷ es) = refl
matches_lower-str_eq (c ∷ cs) [] = refl
matches_lower-str_eq (c ∷ cs) (e ∷ es) = ap (◌&&◌ (to_lower c == e)) (matches_lower-str_eq cs es)

skip_lead-append :
    (lead command : Bytes)
    → all is_lead lead ≡ true
    → skip_lead (lead ++ command) ≡ skip_lead command
unfolding skip_lead
skip_lead-append [] command h = refl
skip_lead-append (c ∷ cs) command h = ground (arith, skip_lead-append cs command)

-- A blank.
abbrev pub is_blank : ℕ → Bool
is_blank c = c == b' ' || c == b'\t'

-- The end of the command, or a blank and the arguments.
abbrev pub ends_word : Bytes → Bool
ends_word [] = true
ends_word (c ∷ cs) = is_blank c

first_word-append :
    (word tail : Bytes)
    → any is_blank word ≡ false
    → ends_word tail ≡ true
    → first_word (word ++ tail) ≡ word
unfolding first_word
first_word-append [] [] h b = refl
first_word-append [] (c ∷ cs) h b = ground arith
first_word-append (c ∷ cs) tail h b = ground (arith, first_word-append cs tail)

-- A command whose first word is `c ∷ word`, behind any dots and blanks, is refused exactly when that
-- word, in lower case, is one of the four refused ones. The word has no blank and does not begin
-- with a dot; what stands behind it, after a blank, does not matter.
pub is_refused_gm_command_word :
    (lead : Bytes) (c : ℕ) (word tail : Bytes)
    → all is_lead lead ≡ true
    → is_lead c ≡ false
    → any is_blank (c ∷ word) ≡ false
    → ends_word tail ≡ true
    → is_refused_gm_command (lead ++ c ∷ (word ++ tail))
      ≡ contains (map to_lower (c ∷ word)) refused_words
unfolding is_refused_gm_command contains
is_refused_gm_command_word lead c word tail hl hc hw ht =
    let first = first_word-append (c ∷ word) tail hw ht in
    let start : skip_lead (c ∷ (word ++ tail)) ≡ c ∷ (word ++ tail) = unfold skip_lead in rw hc in
    let lower = λ (e : Bytes). matches_lower-str_eq (c ∷ word) e ∙ str_eq_sym _ e in
    rw (skip_lead-append lead (c ∷ (word ++ tail)) hl, start)
      (rw (
        first,
        lower (bytes "server"),
        lower (bytes "account"),
        lower (bytes "quit"),
        lower (bytes "exit"),
      ))

skip_lead-all : (lead : Bytes) → all is_lead lead ≡ true → skip_lead lead ≡ []
unfolding skip_lead
skip_lead-all [] h = refl
skip_lead-all (c ∷ cs) h = ground (arith, skip_lead-all cs)

-- A command of dots and blanks only is refused.
pub is_refused_gm_command_lead :
    (lead : Bytes) → all is_lead lead ≡ true → is_refused_gm_command lead ≡ true
unfolding is_refused_gm_command
is_refused_gm_command_lead lead h = rw (skip_lead-all lead h)

-- Other whitespace in front is taken for the first letter of the word: behind a line feed or a
-- carriage return no command is refused, whatever it is.
pub is_refused_gm_command_newline :
    (c : ℕ) (rest : Bytes) → (c ≡ b'\n') ⊎ (c ≡ b'\r') → is_refused_gm_command (c ∷ rest) ≡ false
unfolding is_refused_gm_command skip_lead is_lead first_word matches_lower to_lower
is_refused_gm_command_newline c rest h = ground arith
