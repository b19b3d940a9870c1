-- ===== src/Protocol/Print/ReadNumbers.antt =====
-- `ParseUnsigned` reads back what `std::to_string` prints.
use mod_playerbots_mcp.Base.{
  ℕ, zero, suc, ◌+◌, ◌-◌, ◌*◌, ◌/◌, ◌%◌, ◌^◌, ◌≤◌, ◌<◌, ◌≡◌, refl, ap, ap₂, ◌∙◌, Bool, true, false,
  ◌||◌, ◌&&◌, inl, inr, [], ◌∷◌, ◌++◌, append_assoc, some, Bytes, length, length-append, ltb, leb,
  ◌==◌, arith, Bool-cases, ltb→lt,
}
use native.Mathlib.Nat.{pow-suc}
use mod_playerbots_mcp.Protocol.Json.Text.{is_digit}
use mod_playerbots_mcp.Protocol.Json.Numbers.{next_is, unsigned_loop, parse_unsigned}
use mod_playerbots_mcp.Protocol.Print.{decimal, to_string}
use mod_playerbots_mcp.Protocol.Types.{max_uint64}

pub length-decimal-le : (k fuel n : ℕ) → n < 10 ^ suc k → length (decimal fuel n) ≤ suc k
unfolding decimal
length-decimal-le k zero n h = omega arith
length-decimal-le zero (suc fuel) n h = ground arith
length-decimal-le (suc k) (suc fuel) n h =
    let e : 10 ^ suc (suc k) ≡ 10 ^ suc k * 10 = pow-suc 10 (suc k) in
    let ih = length-decimal-le k fuel (n / 10) (omega arith) in
    ground (arith, length-append (decimal fuel (n / 10)) ((n % 10 + b'0') ∷ []))

-- A uint64 has at most twenty digits.
pub length-to_string-le : (n : ℕ) → n ≤ max_uint64 → length (to_string n) ≤ 20
unfolding to_string
length-to_string-le n h = length-decimal-le 19 (suc n) n (omega arith)

length-decimal-pos : (fuel n : ℕ) → 0 < length (decimal (suc fuel) n)
unfolding decimal
length-decimal-pos fuel n =
    ground (arith, length-append (decimal fuel (n / 10)) ((n % 10 + b'0') ∷ []))

-- One more digit, with no overflow as long as the number fits.
unsigned_loop_digit :
    (r d digits : ℕ) (rest : Bytes)
    → d < 10
    → r * 10 + d ≤ max_uint64
    → unsigned_loop r digits ((d + b'0') ∷ rest) ≡ unsigned_loop (r * 10 + d) (digits + 1) rest
unfolding unsigned_loop is_digit
unsigned_loop_digit r d digits rest hd h =
    let shown : d + b'0' - b'0' ≡ d = omega arith in
    let digit : (leb b'0' (d + b'0') && leb (d + b'0') b'9') ≡ true = ground arith in
    let room : ltb ((max_uint64 - d) / 10) r ≡ false = ground arith in
    let fits : (r * 10 + d) % 2 ^ 64 ≡ r * 10 + d = omega arith in rw (shown, digit, room, fits)

pub unsigned_loop-decimal :
    (fuel n digits : ℕ) (rest : Bytes)
    → n < fuel
    → n ≤ max_uint64
    → unsigned_loop 0 digits (decimal fuel n ++ rest)
      ≡ unsigned_loop n (digits + length (decimal fuel n)) rest
unfolding decimal
unsigned_loop-decimal zero n digits rest lt h = absurd (omega arith)
unsigned_loop-decimal (suc fuel) n digits rest lt h = elim (Bool-cases (ltb n 10)) [
  | inl small ↦ rw small (
      unsigned_loop_digit 0 n digits rest (ltb→lt n 10 small) (omega arith)
      ∙ ap (λ v. unsigned_loop v (digits + 1) rest) (omega arith))
  | inr large ↦
      let front = decimal fuel (n / 10) in
      let last : ℕ = n % 10 in
      let value : n / 10 * 10 + last ≡ n = omega arith in
      let count : digits + length front + 1 ≡ digits + length (front ++ (last + b'0') ∷ []) =
        omega (arith, length-append front ((last + b'0') ∷ [])) in
      rw (large, append_assoc front ((last + b'0') ∷ []) rest)
        (unsigned_loop-decimal fuel (n / 10) digits ((last + b'0') ∷ rest) (ground arith)
            (omega arith)
          ∙ unsigned_loop_digit (n / 10) last (digits + length front) rest (omega arith)
              (omega arith)
          ∙ ap₂ (λ v c. unsigned_loop v c rest) value count)
]

-- The characters that would make a longer number, or no unsigned number, of what stands before.
abbrev pub continues : ℕ → Bool
continues c = is_digit c || (c == b'.' || c == b'e' || c == b'E')

unsigned_loop_end :
    (n digits : ℕ) (rest : Bytes)
    → next_is continues rest ≡ false
    → unsigned_loop n digits rest ≡ some (n, digits, rest)
unfolding unsigned_loop
unsigned_loop_end n digits [] h = refl
unsigned_loop_end n digits (c ∷ cs) h = ground arith

next_is_point :
    (rest : Bytes)
    → next_is continues rest ≡ false
    → next_is (λ c. c == b'.' || c == b'e' || c == b'E') rest ≡ false
next_is_point [] h = refl
next_is_point (c ∷ cs) h = ground arith

-- Every uint64 that is printed is read back, with no overflow on the way, whatever follows it but a
-- digit, a point or an exponent.
pub parse_unsigned-to_string :
    (n : ℕ) (rest : Bytes)
    → n ≤ max_uint64
    → next_is continues rest ≡ false
    → parse_unsigned (to_string n ++ rest) ≡ some (n, rest)
unfolding parse_unsigned to_string
parse_unsigned-to_string n rest h stop =
    let printed = decimal (suc n) n in
    let run =
      unsigned_loop-decimal (suc n) n 0 rest (omega arith) h
      ∙ unsigned_loop_end n (0 + length printed) rest stop in
    let some_digits : (0 + length printed == 0) ≡ false = ground (arith, length-decimal-pos n n) in
    let few_digits : ltb 20 (0 + length printed) ≡ false =
      ground (arith, length-decimal-le 19 (suc n) n (omega arith)) in
    rw (run, some_digits, few_digits, next_is_point rest stop)
