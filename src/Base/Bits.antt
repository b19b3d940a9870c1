-- ===== src/Base/Bits.antt =====
-- Laws of `|`, `^`, `<<` and `>>` on unsigned words, for every width.
use Prim.Native.Nat.{
  ℕ, zero, suc, ◌+◌, ◌*◌, ◌/◌, ◌%◌, ◌^◌, ◌≤◌, ◌<◌, max, bit_or, bit_xor, digits, differ,
  bit_or-bitwise, bit_xor-bitwise,
}
use mathlib.Core.Path.{◌≡◌, refl, ap, ◌∙◌, sym}
use native.Mathlib.Omega.{arith}
use native.Mathlib.Nat.{pow-suc}

abbrev or_digits : ℕ → ℕ → ℕ → ℕ
or_digits n a b = digits (λ b. b) max n a b

or_digits_fuel : (n m a b : ℕ) → a ≤ n → a ≤ m → or_digits n a b ≡ or_digits m a b
or_digits_fuel zero zero a b p q = refl
or_digits_fuel zero (suc m) zero b p q = refl
or_digits_fuel zero (suc m) (suc a) b p q = absurd (omega arith)
or_digits_fuel (suc n) zero zero b p q = refl
or_digits_fuel (suc n) zero (suc a) b p q = absurd (omega arith)
or_digits_fuel (suc n) (suc m) zero b p q = refl
or_digits_fuel (suc n) (suc m) (suc a) b p q =
    omega (arith, or_digits_fuel n m (suc a / 2) (b / 2) (omega arith) (omega arith))

pub zero-bit_or : (b : ℕ) → bit_or 0 b ≡ b
zero-bit_or b = bit_or-bitwise 0 b

pub bit_or_step : (a b : ℕ) → bit_or a b ≡ bit_or (a / 2) (b / 2) * 2 + max (a % 2) (b % 2)
bit_or_step zero b = omega (arith, zero-bit_or b, zero-bit_or (b / 2))
bit_or_step (suc a) b = omega (
  arith,
  bit_or-bitwise (suc a) b,
  bit_or-bitwise (suc a / 2) (b / 2),
  or_digits_fuel a (suc a / 2) (suc a / 2) (b / 2) (omega arith) (omega arith),
)

pub bit_or-zero : (n a : ℕ) → a ≤ n → bit_or a 0 ≡ a
bit_or-zero n zero h = refl
bit_or-zero zero (suc a) h = absurd (omega arith)
bit_or-zero (suc n) (suc a) h =
    omega (arith, bit_or_step (suc a) 0, bit_or-zero n (suc a / 2) (omega arith))

zero_of : (b : ℕ) → b < 1 → b ≡ 0
zero_of b h = omega arith

half_below : (k b : ℕ) → b < 2 ^ suc k → b / 2 < 2 ^ k
half_below k b h = let e : 2 ^ suc k ≡ 2 ^ k * 2 = pow-suc 2 k in omega arith

-- A high part shifted past a low part shares no bit with it.
pub bit_or_shift : (k a b : ℕ) → b < 2 ^ k → bit_or (a * 2 ^ k) b ≡ a * 2 ^ k + b
bit_or_shift zero a b h =
    omega (arith, bit_or-zero (a * 1) (a * 1) (omega arith), ap (bit_or (a * 1)) (zero_of b h))
bit_or_shift (suc k) a b h =
    let x = a * 2 ^ k in
    let twice : a * 2 ^ suc k ≡ x * 2 = rw pow-suc (omega arith) in
    let half : x * 2 / 2 ≡ x = omega arith in
    let ih = bit_or_shift k a (b / 2) (half_below k b h) in
    rw twice (omega (arith, bit_or_step (x * 2) b, ap (λ t. bit_or t (b / 2)) half, ih))

pub bit_or-eq-zero : (n a b : ℕ) → a ≤ n → bit_or a b ≡ 0 → (a ≡ 0) × (b ≡ 0)
bit_or-eq-zero n zero b h e = (refl, sym (zero-bit_or b) ∙ e)
bit_or-eq-zero zero (suc a) b h e = absurd (omega arith)
bit_or-eq-zero (suc n) (suc a) b h e =
    let s = bit_or_step (suc a) b in
    let ih = bit_or-eq-zero n (suc a / 2) (b / 2) (omega arith) (omega arith) in
    (omega arith, omega arith)

abbrev xor_digits : ℕ → ℕ → ℕ → ℕ
xor_digits n a b = digits (λ b. b) differ n a b

xor_digits_fuel : (n m a b : ℕ) → a ≤ n → a ≤ m → xor_digits n a b ≡ xor_digits m a b
xor_digits_fuel zero zero a b p q = refl
xor_digits_fuel zero (suc m) zero b p q = refl
xor_digits_fuel zero (suc m) (suc a) b p q = absurd (omega arith)
xor_digits_fuel (suc n) zero zero b p q = refl
xor_digits_fuel (suc n) zero (suc a) b p q = absurd (omega arith)
xor_digits_fuel (suc n) (suc m) zero b p q = refl
xor_digits_fuel (suc n) (suc m) (suc a) b p q =
    omega (arith, xor_digits_fuel n m (suc a / 2) (b / 2) (omega arith) (omega arith))

pub zero-bit_xor : (b : ℕ) → bit_xor 0 b ≡ b
zero-bit_xor b = bit_xor-bitwise 0 b

pub bit_xor_step : (a b : ℕ) → bit_xor a b ≡ bit_xor (a / 2) (b / 2) * 2 + differ (a % 2) (b % 2)
bit_xor_step zero b = omega (arith, zero-bit_xor b, zero-bit_xor (b / 2))
bit_xor_step (suc a) b = omega (
  arith,
  bit_xor-bitwise (suc a) b,
  bit_xor-bitwise (suc a / 2) (b / 2),
  xor_digits_fuel a (suc a / 2) (suc a / 2) (b / 2) (omega arith) (omega arith),
)

differ_digit : (p q : ℕ) → p < 2 → q < 2 → differ p q < 2
differ_digit zero q h k = k
differ_digit (suc zero) zero h k = omega arith
differ_digit (suc zero) (suc zero) h k = omega arith
differ_digit (suc zero) (suc (suc q)) h k = absurd (omega arith)
differ_digit (suc (suc p)) q h k = absurd (omega arith)

differ-eq-zero : (p q : ℕ) → p < 2 → q < 2 → differ p q ≡ 0 → p ≡ q
differ-eq-zero zero q h k e = sym e
differ-eq-zero (suc zero) zero h k e = absurd (omega arith)
differ-eq-zero (suc zero) (suc zero) h k e = refl
differ-eq-zero (suc zero) (suc (suc q)) h k e = absurd (omega arith)
differ-eq-zero (suc (suc p)) q h k e = absurd (omega arith)

pub bit_xor_self : (n a : ℕ) → a ≤ n → bit_xor a a ≡ 0
bit_xor_self n zero h = refl
bit_xor_self zero (suc a) h = absurd (omega arith)
bit_xor_self (suc n) (suc a) h = omega (
  arith,
  bit_xor_step (suc a) (suc a),
  bit_xor_self n (suc a / 2) (omega arith),
  differ_self (suc a % 2),
)
  where
    differ_self : (p : ℕ) → differ p p ≡ 0
    differ_self zero = refl
    differ_self (suc p) = differ_self p

pub bit_xor-eq-zero : (n a b : ℕ) → a ≤ n → bit_xor a b ≡ 0 → a ≡ b
bit_xor-eq-zero n zero b h e = sym (sym (zero-bit_xor b) ∙ e)
bit_xor-eq-zero zero (suc a) b h e = absurd (omega arith)
bit_xor-eq-zero (suc n) (suc a) b h e =
    let s = bit_xor_step (suc a) b in
    let low = differ-eq-zero (suc a % 2) (b % 2) (omega arith) (omega arith) (omega arith) in
    let high = bit_xor-eq-zero n (suc a / 2) (b / 2) (omega arith) (omega arith) in omega arith

pub bit_xor-lt : (k a b : ℕ) → a < 2 ^ k → b < 2 ^ k → bit_xor a b < 2 ^ k
bit_xor-lt zero a b p q = rw (zero_of a p) (rw (zero-bit_xor b) q)
bit_xor-lt (suc k) a b p q =
    let e : 2 ^ suc k ≡ 2 ^ k * 2 = pow-suc 2 k in
    let ih = bit_xor-lt k (a / 2) (b / 2) (omega arith) (omega arith) in
    let low = differ_digit (a % 2) (b % 2) (omega arith) (omega arith) in
    omega (arith, bit_xor_step a b)

max_digit : (p q : ℕ) → p < 2 → q < 2 → max p q < 2
max_digit p q h k = omega arith

pub bit_or-lt : (k a b : ℕ) → a < 2 ^ k → b < 2 ^ k → bit_or a b < 2 ^ k
bit_or-lt zero a b p q = rw (zero_of a p) (rw (zero-bit_or b) q)
bit_or-lt (suc k) a b p q =
    let e : 2 ^ suc k ≡ 2 ^ k * 2 = pow-suc 2 k in
    let ih = bit_or-lt k (a / 2) (b / 2) (omega arith) (omega arith) in
    let low = max_digit (a % 2) (b % 2) (omega arith) (omega arith) in
    omega (arith, bit_or_step a b)
