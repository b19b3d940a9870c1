-- ===== src/Settings/Read.antt =====
-- Which values of the configuration count.
use mod_playerbots_mcp.Base.{
  ℕ, zero, suc, ◌+◌, ◌-◌, ◌*◌, ◌/◌, ◌%◌, ◌≤◌, ◌<◌, ◌≡◌, refl, sym, ap, ◌∙◌, true, false, not, ◌&&◌,
  all, [], ◌∷◌, ◌++◌, Option, none, some, Bytes, bytes, append_assoc, append-nil, leb, ltb, ltb→lt,
  ◌==◌, arith, Bool-cases, Option-cases, some-eq_inv, ◌⊎◌, inl, inr,
}
use mod_playerbots_mcp.Protocol.Json.Text.{is_digit}
use mod_playerbots_mcp.Protocol.Print.{decimal, to_string}
use mod_playerbots_mcp.Protocol.Types.{max_uint32}
use mod_playerbots_mcp.Settings.{leading_digits, from_chars, whole_number, load_settings}

leading_digits_step :
    (r d : ℕ) (rest : Bytes)
    → d < 10
    → leading_digits r ((d + b'0') ∷ rest) ≡ leading_digits (r * 10 + d) rest
unfolding leading_digits is_digit
leading_digits_step r d rest h =
    let shown : d + b'0' - b'0' ≡ d = omega arith in
    let digit : (leb b'0' (d + b'0') && leb (d + b'0') b'9') ≡ true = ground arith in
    rw (shown, digit)

leading_digits-decimal :
    (fuel n : ℕ) (rest : Bytes)
    → n < fuel
    → leading_digits 0 (decimal fuel n ++ rest) ≡ leading_digits n rest
unfolding decimal
leading_digits-decimal zero n rest lt = absurd (omega arith)
leading_digits-decimal (suc fuel) n rest lt = elim (Bool-cases (ltb n 10)) [
  | inl small ↦ rw small (
      leading_digits_step 0 n rest (ltb→lt n 10 small)
      ∙ ap (λ v. leading_digits v rest) (omega arith))
  | inr large ↦
      let front = decimal fuel (n / 10) in
      let last : ℕ = n % 10 in
      let value : n / 10 * 10 + last ≡ n = omega arith in
      rw (large, append_assoc front ((last + b'0') ∷ []) rest)
        (leading_digits-decimal fuel (n / 10) ((last + b'0') ∷ rest) (ground arith)
          ∙ leading_digits_step (n / 10) last rest (omega arith)
          ∙ ap (λ v. leading_digits v rest) value)
]

-- A decimal number begins with a digit.
decimal-digit :
    (fuel n : ℕ) → (c : ℕ) × (cs : Bytes) × (decimal (suc fuel) n ≡ c ∷ cs) × (is_digit c ≡ true)
unfolding decimal is_digit
decimal-digit zero n = elim (Bool-cases (ltb n 10)) [
  | inl small ↦ (n + b'0', [], rw small refl, ground arith)
  | inr large ↦ (n % 10 + b'0', [], rw large refl, ground arith)
]
decimal-digit (suc fuel) n = elim (Bool-cases (ltb n 10)) [
  | inl small ↦ (n + b'0', [], rw small refl, ground arith)
  | inr large ↦
      let (c, cs, front, digit) = decimal-digit fuel (n / 10) in
      (c, cs ++ (n % 10 + b'0') ∷ [], rw (large, front) refl, digit)
]

whole_number-read :
    (c : ℕ) (cs : Bytes) (n : ℕ)
    → is_digit c ≡ true
    → leading_digits 0 (c ∷ cs) ≡ (n, [])
    → n ≤ max_uint32
    → whole_number (c ∷ cs) ≡ some n
unfolding whole_number from_chars
whole_number-read c cs n digit read fits =
    let small : ltb max_uint32 n ≡ false = ground arith in
    rw (read, digit, small, whole_number, from_chars) refl

whole_number-to_string : (n : ℕ) → n ≤ max_uint32 → whole_number (to_string n) ≡ some n
unfolding to_string leading_digits
whole_number-to_string n h =
    let (c, cs, shown, digit) = decimal-digit n n in
    let read : leading_digits 0 (decimal (suc n) n) ≡ (n, []) =
      ap (leading_digits 0) (sym (append-nil (decimal (suc n) n)))
      ∙ leading_digits-decimal (suc n) n [] (omega arith) in
    rw shown (whole_number-read c cs n digit (rw shown at read) h)

-- The number and what follows it stand in the text: if all of it is read, all of it was digits.
leading_digits-all : (r : ℕ) (s : Bytes) → (leading_digits r s).1 ≡ [] → all is_digit s ≡ true
unfolding leading_digits
leading_digits-all r [] h = refl
leading_digits-all r (c ∷ cs) h = elim (Bool-cases (is_digit c)) [
  | inl digit ↦
      rw digit (leading_digits-all (r * 10 + (c - b'0')) cs (rw (digit, leading_digits) at h))
  | inr other ↦ cc (rw (other, leading_digits) at h)
]

Bytes-cases : (s : Bytes) → (s ≡ []) ⊎ ((x : ℕ) × (xs : Bytes) × (s ≡ x ∷ xs))
Bytes-cases [] = inl refl
Bytes-cases (x ∷ xs) = inr (x, xs, refl)

-- Only digits are a number, and only of 32 bits.
whole_number-digits :
    (s : Bytes) (n : ℕ) → whole_number s ≡ some n → (all is_digit s ≡ true) × (n ≤ max_uint32)
unfolding whole_number from_chars
whole_number-digits [] n h = cc
whole_number-digits (c ∷ cs) n h = elim (Bool-cases (is_digit c)) [
  | inr other ↦ cc (rw (other, whole_number, from_chars) at h)
  | inl digit ↦ elim (Bool-cases (ltb max_uint32 (leading_digits 0 (c ∷ cs)).0)) [
    | inl large ↦ cc (rw (digit, large, whole_number, from_chars) at h)
    | inr small ↦
        let read = rw (digit, small, whole_number, from_chars) at h in
        elim (Bytes-cases (leading_digits 0 (c ∷ cs)).1) [
          | inl end ↦
              let value : (leading_digits 0 (c ∷ cs)).0 ≡ n = some-eq_inv (rw end at read) in
              (leading_digits-all 0 (c ∷ cs) end, rw⁻¹ value (ground arith))
          | inr (x, xs, more) ↦ cc (rw more at read)
        ]
  ]
]

-- Settings that are written as numbers of 32 bits are read as these numbers; an enable of 0 disables.
pub load_settings-to_string :
    (lookup : Bytes → Option Bytes) (enable port : ℕ)
    → enable ≤ max_uint32
    → port ≤ max_uint32
    → lookup (bytes "PlayerbotsMCP.Enable") ≡ some (to_string enable)
    → lookup (bytes "PlayerbotsMCP.Port") ≡ some (to_string port)
    → load_settings lookup ≡ record { enable = not (enable == 0); port = port }
unfolding load_settings
load_settings-to_string lookup enable port he hp e p =
    rw (e, p, whole_number-to_string enable he, whole_number-to_string port hp, load_settings) refl

whole_number-malformed : (s : Bytes) → all is_digit s ≡ false → whole_number s ≡ none
whole_number-malformed s h = elim (Option-cases (whole_number s)) [
  | inl bad ↦ bad
  | inr (n, read) ↦ cc ((whole_number-digits s n read).0, h)
]

-- A value with any character but digits is as if it were not given: the server is enabled and has no
-- port.
pub load_settings-malformed :
    (lookup : Bytes → Option Bytes) (enable port : Bytes)
    → all is_digit enable ≡ false
    → all is_digit port ≡ false
    → lookup (bytes "PlayerbotsMCP.Enable") ≡ some enable
    → lookup (bytes "PlayerbotsMCP.Port") ≡ some port
    → load_settings lookup ≡ load_settings (λ key. none)
unfolding load_settings
load_settings-malformed lookup enable port he hp e p =
    rw (e, p, whole_number-malformed enable he, whole_number-malformed port hp, load_settings) refl
