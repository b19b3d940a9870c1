-- ===== src/Protocol/Json/Trees/Overflow.antt =====
-- `ParseUnsigned` refuses every number that is no uint64.
use mod_playerbots_mcp.Base.{
  ℕ, zero, suc, ◌+◌, ◌-◌, ◌*◌, ◌/◌, ◌%◌, ◌^◌, ◌<◌, ◌≡◌, refl, ◌∙◌, ◌⊎◌, inl, inr, true, false, ◌&&◌,
  ◌||◌, not, [], ◌∷◌, ◌++◌, append_assoc, some, none, Bytes, All, length, ltb, leb, ◌==◌, arith,
  Bool-cases, is_empty, ltb→lt,
}
use mod_playerbots_mcp.Protocol.Json.Numbers.{next_is, unsigned_loop, parse_unsigned}
use mod_playerbots_mcp.Protocol.Json.Text.{is_digit}
use mod_playerbots_mcp.Protocol.Json.Trees.{
  IsDigit, IsWhole, zero_digit, digits, IsFraction, no_fraction, fraction, IsExponent, no_exponent,
  exponent, IsNumber,
}
use mod_playerbots_mcp.Protocol.Print.{decimal, to_string}
use mod_playerbots_mcp.Protocol.Print.ReadNumbers.{unsigned_loop-decimal}
use mod_playerbots_mcp.Protocol.Types.{max_uint64}

-- One digit too many.
unsigned_loop_over :
    (r d count : ℕ) (rest : Bytes)
    → d < 10
    → max_uint64 < r * 10 + d
    → unsigned_loop r count ((d + b'0') ∷ rest) ≡ none
unfolding unsigned_loop is_digit
unsigned_loop_over r d count rest hd h =
    let shown : d + b'0' - b'0' ≡ d = omega arith in
    let digit : (leb b'0' (d + b'0') && leb (d + b'0') b'9') ≡ true = ground arith in
    let full : ltb ((max_uint64 - d) / 10) r ≡ true = ground arith in rw (shown, digit, full) refl

unsigned_loop-decimal_over :
    (fuel n count : ℕ) (rest : Bytes)
    → n < fuel
    → max_uint64 < n
    → unsigned_loop 0 count (decimal fuel n ++ rest) ≡ none
unfolding decimal
unsigned_loop-decimal_over zero n count rest lt h = absurd (omega arith)
unsigned_loop-decimal_over (suc fuel) n count rest lt h =
    let large : ltb n 10 ≡ false = ground arith in
    let front = decimal fuel (n / 10) in
    let last : ℕ = n % 10 in
    let value : n / 10 * 10 + last ≡ n = omega arith in
    rw (large, append_assoc front ((last + b'0') ∷ []) rest)
      (elim (Bool-cases (ltb max_uint64 (n / 10))) [
        | inl over ↦
            unsigned_loop-decimal_over fuel (n / 10) count ((last + b'0') ∷ rest) (omega arith)
              (ltb→lt max_uint64 (n / 10) over)
        | inr fits ↦
            unsigned_loop-decimal fuel (n / 10) count ((last + b'0') ∷ rest) (omega arith)
              (ground arith)
            ∙ unsigned_loop_over (n / 10) last (count + length front) rest (omega arith)
                (omega arith)
      ])

-- A number above uint64 is not read.
pub parse_unsigned-over :
    (n : ℕ) (rest : Bytes) → max_uint64 < n → parse_unsigned (to_string n ++ rest) ≡ none
unfolding parse_unsigned to_string
parse_unsigned-over n rest h = rw (unsigned_loop-decimal_over (suc n) n 0 rest (omega arith) h) refl

-- A point or an exponent.
abbrev IsTail : Bytes → Type 0
IsTail rest = next_is (λ c. c == b'.' || c == b'e' || c == b'E') rest ≡ true

tail_stops :
    (r count : ℕ) (rest : Bytes) → IsTail rest → unsigned_loop r count rest ≡ some (r, count, rest)
unfolding unsigned_loop
tail_stops r count [] h = refl
tail_stops r count (c ∷ cs) h = ground arith

-- Digits are read up to it, or overflow on the way.
unsigned_loop-tail :
    (cs : Bytes) (r count : ℕ) (rest : Bytes)
    → All IsDigit cs
    → IsTail rest
    → (unsigned_loop r count (cs ++ rest) ≡ none)
      ⊎ ((v n : ℕ) × (unsigned_loop r count (cs ++ rest) ≡ some (v, n, rest)))
unfolding unsigned_loop is_digit
unsigned_loop-tail [] r count rest h tail = inr (r, count, tail_stops r count rest tail)
unsigned_loop-tail (c ∷ cs) r count rest h tail =
    let digit : (leb b'0' c && leb c b'9') ≡ true = ground arith in
    elim (Bool-cases (ltb ((max_uint64 - (c - b'0')) / 10) r)) [
      | inl full ↦ inl (rw (digit, full) refl)
      | inr room ↦
          rw (digit, room)
            (unsigned_loop-tail cs ((r * 10 + (c - b'0')) % 2 ^ 64) (count + 1) rest h.1 tail)
    ]

parse_unsigned-tail :
    (cs rest : Bytes) → All IsDigit cs → IsTail rest → parse_unsigned (cs ++ rest) ≡ none
unfolding parse_unsigned
parse_unsigned-tail cs rest h tail = elim (unsigned_loop-tail cs 0 0 rest h tail) [
  | inl over ↦ rw over refl
  | inr (v, n, read) ↦ elim (Bool-cases (n == 0 || ltb 20 n)) [
    | inl bad ↦ rw (read, bad) refl
    | inr good ↦ rw (read, good, tail) refl
  ]
]

IsWhole-digits : {s : Bytes} → IsWhole s → All IsDigit s
IsWhole-digits zero_digit = ((omega arith, omega arith), tt)
IsWhole-digits (digits low high h) = ((omega arith, high), h)

-- A number that is not just its digits.
abbrev pub IsSpecial : {t : Bytes} → IsNumber t → Type 0
IsSpecial n = (n.negative || not (is_empty (n.behind_point ++ n.power))) ≡ true

IsTail-of :
    {f p : Bytes} (rest : Bytes)
    → IsFraction f
    → IsExponent p
    → not (is_empty (f ++ p)) ≡ true
    → IsTail (f ++ (p ++ rest))
IsTail-of rest (fraction d h) power some_tail = refl
IsTail-of rest no_fraction no_exponent some_tail = cc
IsTail-of rest no_fraction (exponent e s c cs letter sign d h) some_tail = ground arith

-- A number with a fraction or an exponent is not read.
pub parse_unsigned-special :
    {w f p : Bytes} (rest : Bytes)
    → IsWhole w
    → IsFraction f
    → IsExponent p
    → not (is_empty (f ++ p)) ≡ true
    → parse_unsigned (w ++ (f ++ (p ++ rest))) ≡ none
parse_unsigned-special rest whole point power some_tail =
    parse_unsigned-tail _ _ (IsWhole-digits whole) (IsTail-of rest point power some_tail)
