-- ===== src/Protocol/Auth.antt =====
-- The token of src/Bot/MCP/PlayerbotVerificationProtocol.cpp: its digest, where it comes from, and
-- the comparison of digests. SHA-256 is the server core's: it is the parameter `digest`.
pub mod Compare
use mod_playerbots_mcp.Base.{
  ℕ, ◌%◌, bit_or, bit_xor, Bool, true, false, List, [], ◌∷◌, Option, none, some, Bytes, length, ltb,
  ◌==◌, if◌then◌else◌,
}
use mod_playerbots_mcp.Protocol.Types.{TokenDigest, min_token_bytes}

-- `difference` after the loop; the arrays have one length, so neither runs out before the other.
unfoldable pub digest_difference : ℕ → TokenDigest → TokenDigest → ℕ
digest_difference difference [] _ = difference
digest_difference difference (c ∷ candidate) [] = difference
digest_difference difference (c ∷ candidate) (e ∷ expected) =
    digest_difference (bit_or difference (bit_xor c e % 256) % 256) candidate expected

unfoldable pub token_digest_equals : TokenDigest → TokenDigest → Bool
unfolding digest_difference
token_digest_equals candidate expected = digest_difference 0 candidate expected == 0

module _ (digest : Bytes → TokenDigest) where
  -- `DigestVerificationToken`.
  unfoldable pub digest_verification_token : Bytes → TokenDigest
  digest_verification_token token = digest token

  -- `VerificationTokenDigestFromEnvironment`, given what `std::getenv` returns.
  unfoldable pub token_digest_from_environment : Option Bytes → Option TokenDigest
  unfolding digest_verification_token
  token_digest_from_environment none = none
  token_digest_from_environment (some token) =
      if ltb (length token) min_token_bytes then none else some (digest_verification_token token)
