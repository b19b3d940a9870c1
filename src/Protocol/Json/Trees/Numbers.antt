-- ===== src/Protocol/Json/Trees/Numbers.antt =====
-- `SkipNumber` skips every JSON number, and so what `std::to_string` prints.
use mod_playerbots_mcp.Base.{
  ℕ, zero, suc, ◌+◌, ◌/◌, ◌%◌, ◌≤◌, ◌<◌, ◌≡◌, refl, ap, ◌∙◌, sym, subst, Bool, true, false, ◌||◌,
  [], ◌∷◌, ◌++◌, append_assoc, append-nil, some, none, ◌>>=◌, Bytes, All, All-append, ltb, ◌==◌,
  if◌then◌else◌, arith, Bool-cases, inl, inr,
}
use mod_playerbots_mcp.Protocol.Json.Numbers.{
  next_is, skip_digits, skip_integer, skip_fraction, skip_exponent, skip_number,
}
use mod_playerbots_mcp.Protocol.Json.Text.{is_digit, consume}
use mod_playerbots_mcp.Protocol.Print.{decimal, to_string}
use mod_playerbots_mcp.Protocol.Print.ReadNumbers.{continues}
use mod_playerbots_mcp.Protocol.Json.Numbers.{skip_sign}
use mod_playerbots_mcp.Protocol.Json.Trees.{
  IsDigit, IsWhole, zero_digit, digits, IsFraction, no_fraction, fraction, IsSign, no_sign, plus,
  minus, IsExponent, no_exponent, exponent, IsNumber, minus_text,
}

-- Digits of which the first is not zero.
abbrev Printed : Bytes → Type 0
Printed s = (c : ℕ) × (cs : Bytes) × (s ≡ c ∷ cs) × (b'1' ≤ c) × (c ≤ b'9') × All IsDigit cs

decimal-Printed : (fuel n : ℕ) → n < fuel → 0 < n → Printed (decimal fuel n)
unfolding decimal
decimal-Printed zero n h p = absurd (omega arith)
decimal-Printed (suc fuel) n h p = elim (Bool-cases (ltb n 10)) [
  | inl small ↦ rw small (n + b'0', [], refl, omega arith, ground arith, tt)
  | inr large ↦
      let (c, cs, e, low, high, rest) =
        decimal-Printed fuel (n / 10) (ground arith) (ground arith) in
      let last : ℕ = n % 10 in
      rw large (
        c,
        cs ++ (last + b'0') ∷ [],
        ap (λ t. t ++ (last + b'0') ∷ []) e,
        low,
        high,
        All-append IsDigit cs ((last + b'0') ∷ []) rest ((omega arith, omega arith), tt),
      )
]

-- What is printed is a whole number.
pub to_string-IsWhole : (n : ℕ) → IsWhole (to_string n)
unfolding to_string decimal
to_string-IsWhole zero = zero_digit
to_string-IsWhole (suc n) =
    let (c, cs, e, low, high, rest) =
      decimal-Printed (suc (suc n)) (suc n) (omega arith) (omega arith) in
    subst IsWhole (sym e) (digits low high rest)

is_digit-IsDigit : (c : ℕ) → IsDigit c → is_digit c ≡ true
unfolding is_digit
is_digit-IsDigit c h = ground arith

abbrev NotDigit : Bytes → Type 0
NotDigit rest = next_is is_digit rest ≡ false

skip_digits-append :
    (cs rest : Bytes) → All IsDigit cs → NotDigit rest → skip_digits (cs ++ rest) ≡ rest
unfolding skip_digits is_digit
skip_digits-append [] [] h over = refl
skip_digits-append [] (c ∷ rest) h over = ground arith
skip_digits-append (c ∷ cs) rest h over =
    rw (is_digit-IsDigit c h.0) (skip_digits-append cs rest h.1 over)

-- Digits, at least one, are skipped.
skip_digits-some :
    (c : ℕ) (cs rest : Bytes)
    → IsDigit c
    → All IsDigit cs
    → NotDigit rest
    → (if next_is is_digit (c ∷ (cs ++ rest)) then some (skip_digits (c ∷ (cs ++ rest))) else none)
      ≡ some rest
skip_digits-some c cs rest d h over =
    rw (is_digit-IsDigit c d) (ap some (skip_digits-append (c ∷ cs) rest (d, h) over))

skip_integer-IsWhole :
    {s : Bytes} (rest : Bytes) → IsWhole s → NotDigit rest → skip_integer (s ++ rest) ≡ some rest
unfolding skip_integer
skip_integer-IsWhole rest zero_digit over = rw over refl
skip_integer-IsWhole rest (digits {c = c} {cs = cs} low high h) over =
    let all : skip_digits (c ∷ (cs ++ rest)) ≡ rest =
      skip_digits-append (c ∷ cs) rest ((omega arith, high), h) over in
    ground (arith, all)

-- Neither a digit nor a point.
abbrev NoPoint : Bytes → Type 0
NoPoint rest = next_is (λ c. is_digit c || c == b'.') rest ≡ false

NoPoint-NotDigit : (rest : Bytes) → NoPoint rest → NotDigit rest
NoPoint-NotDigit [] h = refl
NoPoint-NotDigit (c ∷ rest) h = ground arith

skip_fraction-IsFraction :
    {s : Bytes} (rest : Bytes) → IsFraction s → NoPoint rest → skip_fraction (s ++ rest) ≡ some rest
unfolding skip_fraction
skip_fraction-IsFraction [] no_fraction over = refl
skip_fraction-IsFraction (c ∷ rest) no_fraction over = ground arith
skip_fraction-IsFraction rest (fraction {c = c} {cs = cs} d h) over =
    skip_digits-some c cs rest d h (NoPoint-NotDigit rest over)

continues-NoPoint : (rest : Bytes) → next_is continues rest ≡ false → NoPoint rest
continues-NoPoint [] h = refl
continues-NoPoint (c ∷ rest) h = ground arith

skip_sign-IsSign :
    {s : Bytes} (c : ℕ) (rest : Bytes)
    → IsSign s
    → IsDigit c
    → skip_sign (s ++ (c ∷ rest)) ≡ c ∷ rest
unfolding skip_sign
skip_sign-IsSign c rest no_sign d = ground arith
skip_sign-IsSign c rest plus d = refl
skip_sign-IsSign c rest minus d = refl

skip_exponent-IsExponent :
    {s : Bytes} (rest : Bytes)
    → IsExponent s
    → next_is continues rest ≡ false
    → skip_exponent (s ++ rest) ≡ some rest
unfolding skip_exponent
skip_exponent-IsExponent [] no_exponent over = refl
skip_exponent-IsExponent (c ∷ rest) no_exponent over = ground arith
skip_exponent-IsExponent rest (exponent e s c cs letter sign d h) over =
    rw (letter, append_assoc s (c ∷ cs) rest, skip_sign-IsSign c (cs ++ rest) sign d)
      (skip_digits-some c cs rest d h (NoPoint-NotDigit rest (continues-NoPoint rest over)))

-- What may follow the parts of a number.
power-NoPoint :
    {s : Bytes} (rest : Bytes) → IsExponent s → next_is continues rest ≡ false → NoPoint (s ++ rest)
unfolding is_digit
power-NoPoint rest no_exponent over = continues-NoPoint rest over
power-NoPoint rest (exponent e s c cs letter sign d h) over = ground arith

behind_whole : {f : Bytes} (rest : Bytes) → IsFraction f → NoPoint rest → NotDigit (f ++ rest)
unfolding is_digit
behind_whole rest no_fraction over = NoPoint-NotDigit rest over
behind_whole rest (fraction d h) over = refl

whole_unsigned : {s : Bytes} (rest : Bytes) → IsWhole s → consume b'-' (s ++ rest) ≡ none
unfolding consume
whole_unsigned rest zero_digit = refl
whole_unsigned rest (digits low high h) = ground arith

unsigned_parts :
    {w f p : Bytes} (rest : Bytes)
    → IsWhole w
    → IsFraction f
    → IsExponent p
    → next_is continues rest ≡ false
    → (skip_integer (w ++ (f ++ (p ++ rest))) >>= λ whole. skip_fraction whole >>= skip_exponent)
      ≡ some rest
unsigned_parts rest whole point power over =
    let tail = power-NoPoint rest power over in
    rw
      (
        skip_integer-IsWhole _ whole (behind_whole _ point tail),
        ◌>>=◌,
        skip_fraction-IsFraction _ point tail,
      )
      (skip_exponent-IsExponent rest power over)

-- A number, in front of what follows it.
pub number_in_parts :
    (negative : Bool) (w f p rest : Bytes)
    → (minus_text negative ++ (w ++ (f ++ p))) ++ rest
      ≡ minus_text negative ++ (w ++ (f ++ (p ++ rest)))
number_in_parts negative w f p rest =
    append_assoc (minus_text negative) (w ++ (f ++ p)) rest
    ∙ ap (λ t. minus_text negative ++ t)
        (append_assoc w (f ++ p) rest ∙ ap (λ t. w ++ t) (append_assoc f p rest))

skip_parts :
    (negative : Bool) {w f p : Bytes} (rest : Bytes)
    → IsWhole w
    → IsFraction f
    → IsExponent p
    → next_is continues rest ≡ false
    → skip_number (minus_text negative ++ (w ++ (f ++ (p ++ rest)))) ≡ some rest
unfolding skip_number consume
skip_parts true rest whole point power over = unsigned_parts rest whole point power over
skip_parts false rest whole point power over =
    rw (skip_number, whole_unsigned _ whole) (unsigned_parts rest whole point power over)

-- Every JSON number is skipped, whatever follows it but a digit, a point or an exponent.
pub skip_number-IsNumber :
    {t : Bytes} (rest : Bytes)
    → IsNumber t
    → next_is continues rest ≡ false
    → skip_number (t ++ rest) ≡ some rest
skip_number-IsNumber rest n over =
    ap (λ x. skip_number (x ++ rest)) n.same
    ∙ ap skip_number (number_in_parts n.negative n.whole n.behind_point n.power rest)
    ∙ skip_parts n.negative rest n.is_whole n.is_fraction n.is_exponent over

pub to_string-IsNumber : (n : ℕ) → IsNumber (to_string n)
to_string-IsNumber n = record {
  negative = false;
  whole = to_string n;
  behind_point = [];
  power = [];
  is_whole = to_string-IsWhole n;
  is_fraction = no_fraction;
  is_exponent = no_exponent;
  same = sym (append-nil (to_string n));
}

pub skip_number-to_string :
    (n : ℕ) (rest : Bytes)
    → next_is continues rest ≡ false
    → skip_number (to_string n ++ rest) ≡ some rest
skip_number-to_string n rest over = skip_number-IsNumber rest (to_string-IsNumber n) over

pub IsWhole-begins :
    {s : Bytes} → IsWhole s → (c : ℕ) × (cs : Bytes) × (s ≡ c ∷ cs) × (is_digit c ≡ true)
unfolding is_digit
IsWhole-begins zero_digit = (b'0', [], refl, refl)
IsWhole-begins (digits {c = c} {cs = cs} low high h) = (c, cs, refl, ground arith)

-- It begins with a digit, and any number with a digit or a minus.
pub to_string-begins :
    (n : ℕ) → (c : ℕ) × (cs : Bytes) × (to_string n ≡ c ∷ cs) × (is_digit c ≡ true)
to_string-begins n = IsWhole-begins (to_string-IsWhole n)

parts-begin :
    (negative : Bool) {w : Bytes} (rest : Bytes)
    → IsWhole w
    → (c : ℕ) × (cs : Bytes) × (minus_text negative ++ (w ++ rest) ≡ c ∷ cs)
      × ((c == b'-' || is_digit c) ≡ true)
parts-begin true {w = w} rest whole = (b'-', w ++ rest, refl, refl)
parts-begin false rest whole =
    let (c, cs, e, d) = IsWhole-begins whole in (c, cs ++ rest, ap (λ t. t ++ rest) e, ground arith)

pub IsNumber-begins :
    {t : Bytes}
    → IsNumber t
    → (c : ℕ) × (cs : Bytes) × (t ≡ c ∷ cs) × ((c == b'-' || is_digit c) ≡ true)
IsNumber-begins n =
    let (c, cs, e, d) = parts-begin n.negative (n.behind_point ++ n.power) n.is_whole in
    (c, cs, n.same ∙ e, d)
