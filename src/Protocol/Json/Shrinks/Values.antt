-- ===== src/Protocol/Json/Shrinks/Values.antt =====
-- The same of numbers, literals and the beginnings of nested values.
use mod_playerbots_mcp.Base.{
  ℕ, ◌+◌, ◌-◌, ◌%◌, ◌^◌, ◌*◌, ◌≤◌, ◌<◌, ◌≡◌, [], ◌∷◌, some, Bytes, length, arith, ◌>>=◌,
  Option-cases, inl, inr, bind-eq-some, value_or,
}
use mod_playerbots_mcp.Protocol.Json.Nested.{
  consume_literal, skip_string, member_key, ended, again, after_item,
}
use mod_playerbots_mcp.Protocol.Json.Numbers.{
  unsigned_loop, parse_unsigned, skip_digits, skip_integer, skip_fraction, skip_exponent,
  skip_number, skip_sign,
}
use mod_playerbots_mcp.Protocol.Json.Shrinks.{
  length-skip_whitespace-le, consume_next-shorter, parse_string-shorter,
}
use mod_playerbots_mcp.Protocol.Json.Text.{skip_whitespace, consume, parse_string}

unsigned_loop-le :
    (result digits : ℕ) (s : Bytes) (v n : ℕ) (rest : Bytes)
    → unsigned_loop result digits s ≡ some (v, n, rest)
    → length rest ≤ length s
unfolding unsigned_loop
unsigned_loop-le result digits [] v n rest h = ground arith
unsigned_loop-le result digits (c ∷ cs) v n rest h =
    ground (arith, unsigned_loop-le ((result * 10 + (c - b'0')) % 2 ^ 64) (digits + 1) cs v n rest)

pub parse_unsigned-le :
    (s : Bytes) (v : ℕ) (rest : Bytes) → parse_unsigned s ≡ some (v, rest) → length rest ≤ length s
unfolding parse_unsigned
parse_unsigned-le s v rest h = elim (Option-cases (unsigned_loop 0 0 s)) [
  | inl bad ↦ cc (rw (bad, parse_unsigned) at h)
  | inr ((w, n, r), read) ↦
      let checked = rw (read, parse_unsigned) at h in
      let bound = unsigned_loop-le 0 0 s w n r read in ground arith
]

length-skip_digits-le : (s : Bytes) → length (skip_digits s) ≤ length s
unfolding skip_digits
length-skip_digits-le [] = omega arith
length-skip_digits-le (c ∷ cs) = ground (arith, length-skip_digits-le cs)

length-skip_sign-le : (s : Bytes) → length (skip_sign s) ≤ length s
unfolding skip_sign
length-skip_sign-le [] = omega arith
length-skip_sign-le (c ∷ cs) = ground arith

skip_integer-le : (s rest : Bytes) → skip_integer s ≡ some rest → length rest ≤ length s
unfolding skip_integer
skip_integer-le [] rest h = cc
skip_integer-le (c ∷ cs) rest h = ground (arith, length-skip_digits-le (c ∷ cs))

skip_fraction-le : (s rest : Bytes) → skip_fraction s ≡ some rest → length rest ≤ length s
unfolding skip_fraction
skip_fraction-le [] rest h = ground arith
skip_fraction-le (c ∷ cs) rest h = ground (arith, length-skip_digits-le cs)

skip_exponent-le : (s rest : Bytes) → skip_exponent s ≡ some rest → length rest ≤ length s
unfolding skip_exponent
skip_exponent-le [] rest h = ground arith
skip_exponent-le (c ∷ cs) rest h =
    ground (arith, length-skip_digits-le (skip_sign cs), length-skip_sign-le cs)

value_or-consume-le : (s : Bytes) → length (value_or s (consume b'-' s)) ≤ length s
unfolding consume
value_or-consume-le [] = omega arith
value_or-consume-le (c ∷ cs) = ground arith

pub skip_number-le : (s rest : Bytes) → skip_number s ≡ some rest → length rest ≤ length s
unfolding skip_number
skip_number-le s rest h =
    let (whole, e₁, h₁) =
      bind-eq-some (skip_integer (value_or s (consume b'-' s)))
        (λ whole. skip_fraction whole >>= skip_exponent) h in
    let (point, e₂, h₂) = bind-eq-some (skip_fraction whole) skip_exponent h₁ in
    omega (
      arith,
      value_or-consume-le s,
      skip_integer-le (value_or s (consume b'-' s)) whole e₁,
      skip_fraction-le whole point e₂,
      skip_exponent-le point rest h₂,
    )

pub consume_literal-le :
    (literal s rest : Bytes) → consume_literal literal s ≡ some rest → length rest ≤ length s
unfolding consume_literal
consume_literal-le [] s rest h = ground arith
consume_literal-le (x ∷ xs) [] rest h = cc
consume_literal-le (x ∷ xs) (c ∷ cs) rest h = ground (arith, consume_literal-le xs cs rest)

pub skip_string-shorter : (s rest : Bytes) → skip_string s ≡ some rest → length rest < length s
unfolding skip_string
skip_string-shorter s rest h = elim (Option-cases (parse_string s)) [
  | inl bad ↦ cc (rw (bad, skip_string) at h)
  | inr ((t, r), read) ↦
      let same : some r ≡ some rest = rw (read, skip_string) at h in
      let end : r ≡ rest = cc same in rw⁻¹ end (parse_string-shorter s t r read)
]

pub member_key-shorter : (s rest : Bytes) → member_key s ≡ some rest → length rest < length s
unfolding member_key
member_key-shorter s rest h = elim (Option-cases (skip_string s)) [
  | inl bad ↦ cc (rw (bad, member_key) at h)
  | inr (named, e₁) ↦ elim (Option-cases (consume b':' (skip_whitespace named))) [
    | inl bad ↦ cc (rw (e₁, bad, member_key) at h)
    | inr (colon, e₂) ↦
        let same : some (skip_whitespace colon) ≡ some rest = rw (e₁, e₂, member_key) at h in
        let end : skip_whitespace colon ≡ rest = cc same in
        rw⁻¹ end (
          omega (
            arith,
            skip_string-shorter s named e₁,
            consume_next-shorter b':' named colon e₂,
            length-skip_whitespace-le colon,
          ))
  ]
]

pub after_item-again :
    (close : ℕ) (s rest : Bytes) → after_item close s ≡ again rest → length rest < length s
unfolding after_item
after_item-again close s rest h = elim (Option-cases (consume b',' (skip_whitespace s))) [
  | inr (r, e) ↦
      let same : again (skip_whitespace r) ≡ again rest = rw (e, after_item) at h in
      let end : skip_whitespace r ≡ rest = cc same in
      rw⁻¹ end (omega (arith, consume_next-shorter b',' s r e, length-skip_whitespace-le r))
  | inl e ↦ elim (Option-cases (consume close (skip_whitespace s))) [
    | inr (r, e') ↦ cc (rw (e, e', after_item) at h)
    | inl e' ↦ cc (rw (e, e', after_item) at h)
  ]
]

pub after_item-ended :
    (close : ℕ) (s rest : Bytes) → after_item close s ≡ ended rest → length rest < length s
unfolding after_item
after_item-ended close s rest h = elim (Option-cases (consume b',' (skip_whitespace s))) [
  | inr (r, e) ↦ cc (rw (e, after_item) at h)
  | inl e ↦ elim (Option-cases (consume close (skip_whitespace s))) [
    | inr (r, e') ↦
        let same : ended r ≡ ended rest = rw (e, e', after_item) at h in
        let end : r ≡ rest = cc same in rw⁻¹ end (consume_next-shorter close s r e')
    | inl e' ↦ cc (rw (e, e', after_item) at h)
  ]
]
