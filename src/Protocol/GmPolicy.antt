-- ===== src/Protocol/GmPolicy.antt =====
-- `IsRefusedGmCommand` of src/Bot/MCP/PlayerbotVerificationProtocol.cpp.
pub mod Refusals
use mod_playerbots_mcp.Base.{
  ℕ, ◌+◌, Bool, true, false, ◌&&◌, ◌||◌, List, [], ◌∷◌, Bytes, bytes, any, leb, ◌==◌, if◌then◌else◌,
}

-- `std::tolower` in the C locale.
unfoldable pub to_lower : ℕ → ℕ
to_lower c = if leb b'A' c && leb c b'Z' then c + 32 else c

-- The characters of `" \t."`.
unfoldable pub is_lead : ℕ → Bool
is_lead c = c == b' ' || c == b'\t' || c == b'.'

-- From `find_first_not_of(" \t.")` to the end.
unfoldable pub skip_lead : Bytes → Bytes
skip_lead [] = []
skip_lead (c ∷ cs) = let rest = skip_lead cs in if is_lead c then rest else c ∷ cs

-- Up to `find_first_of(" \t")`.
unfoldable pub first_word : Bytes → Bytes
first_word [] = []
first_word (c ∷ cs) = let rest = first_word cs in if c == b' ' || c == b'\t' then [] else c ∷ rest

-- Equal sizes, and `std::equal` with the left side in lower case.
unfoldable pub matches_lower : Bytes → Bytes → Bool
matches_lower [] [] = true
matches_lower [] (e ∷ es) = false
matches_lower (c ∷ cs) [] = false
matches_lower (c ∷ cs) (e ∷ es) = to_lower c == e && matches_lower cs es

abbrev pub refused_words : List Bytes
refused_words = bytes "server" ∷ bytes "account" ∷ bytes "quit" ∷ bytes "exit" ∷ []

refused_at : Bytes → Bool
refused_at [] = true
refused_at (c ∷ cs) = any (λ entry. matches_lower (first_word (c ∷ cs)) entry) refused_words

unfoldable pub is_refused_gm_command : Bytes → Bool
unfolding refused_at
is_refused_gm_command command = refused_at (skip_lead command)
