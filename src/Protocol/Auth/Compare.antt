-- ===== src/Protocol/Auth/Compare.antt =====
-- The comparison that looks at every byte decides equality.
use mod_playerbots_mcp.Base.{
  ℕ, ◌%◌, ◌≡◌, refl, ap₂, ◌↔◌, bit_or, bit_xor, true, [], ◌∷◌, All, length, arith, bit_or-eq-zero,
  bit_xor_self, bit_xor-eq-zero, bit_xor-lt, bit_or-lt, ==→eq,
}
use mod_playerbots_mcp.Protocol.Frame.RoundTrip.{IsByte}
use mod_playerbots_mcp.Protocol.Types.{TokenDigest}
use mod_playerbots_mcp.Protocol.Auth.{digest_difference, token_digest_equals}

digest_difference-same : (d : TokenDigest) → digest_difference 0 d d ≡ 0
unfolding digest_difference
digest_difference-same [] = refl
digest_difference-same (c ∷ d) = rw (bit_xor_self c c (omega arith)) (digest_difference-same d)

digest_difference-eq-zero :
    (difference : ℕ) (c e : TokenDigest)
    → IsByte difference
    → All IsByte c
    → All IsByte e
    → length c ≡ length e
    → digest_difference difference c e ≡ 0
    → (difference ≡ 0) × (c ≡ e)
unfolding digest_difference
digest_difference-eq-zero difference [] [] hd hc he l z = (z, refl)
digest_difference-eq-zero difference [] (y ∷ e) hd hc he l z = absurd (omega arith)
digest_difference-eq-zero difference (x ∷ c) [] hd hc he l z = absurd (omega arith)
digest_difference-eq-zero difference (x ∷ c) (y ∷ e) hd hc he l z =
    let byte = bit_xor-lt 8 x y hc.0 he.0 in
    let wide = bit_or-lt 8 difference (bit_xor x y % 256) hd (omega arith) in
    let (joined, rest) =
      digest_difference-eq-zero (bit_or difference (bit_xor x y % 256) % 256) c e (omega arith) hc.1
        he.1 (omega arith) z in
    let both =
      bit_or-eq-zero difference difference (bit_xor x y % 256) (omega arith) (omega arith) in
    (both.0, ap₂ ◌∷◌ (bit_xor-eq-zero x x y (omega arith) (omega (arith, both.1))) rest)

-- Two digests of one length pass the comparison exactly when they are equal.
pub token_digest_equals_iff :
    (candidate expected : TokenDigest)
    → All IsByte candidate
    → All IsByte expected
    → length candidate ≡ length expected
    → (token_digest_equals candidate expected ≡ true) ↔ (candidate ≡ expected)
unfolding token_digest_equals
token_digest_equals_iff candidate expected hc he l = (
  λ h. (digest_difference-eq-zero 0 candidate expected (omega arith) hc he l (==→eq _ _ h)).1,
  λ e. rw e (rw (digest_difference-same expected)),
)
