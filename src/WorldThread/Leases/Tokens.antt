-- ===== src/WorldThread/Leases/Tokens.antt =====
-- The tokens that leases are held under, and the time that is left of a lease.
use mod_playerbots_mcp.Base.{
  ℕ, zero, suc, ◌-◌, ◌/◌, ◌%◌, ◌<◌, ◌≡◌, refl, ap, min, inl, inr, Bool, true, ◌&&◌, ◌||◌, [], ◌∷◌,
  ◌++◌, Bytes, bytes, length, length-append, all, leb, if◌then◌else◌, is_empty, arith, Bool-cases,
}
use mod_playerbots_mcp.Conditions.{request_string}
use mod_playerbots_mcp.Protocol.Json.Text.{is_digit}
use mod_playerbots_mcp.Protocol.Print.{hex_digit}
use mod_playerbots_mcp.Protocol.Requests.Fields.{is_activity_lease_token}
use mod_playerbots_mcp.Protocol.Requests.Payload.Admits.{Admits}
use mod_playerbots_mcp.Protocol.Types.{Request, Operation, max_uint32}
use mod_playerbots_mcp.WorldThread.Core.{Core, LeaseState}
use mod_playerbots_mcp.WorldThread.Leases.{
  activity_lease_remaining, hex_digits, new_activity_lease_token, lease_token,
}

abbrev is_hex : ℕ → Bool
is_hex c = is_digit c || (leb b'a' c && leb c b'f')

hex_digit-is_hex : (d : ℕ) → d < 16 → is_hex (hex_digit d) ≡ true
unfolding hex_digit is_digit
hex_digit-is_hex d h = ground arith

all-append :
    (p : ℕ → Bool) (xs ys : Bytes) → all p xs ≡ true → all p ys ≡ true → all p (xs ++ ys) ≡ true
all-append p [] ys h k = k
all-append p (x ∷ xs) ys h k = ground (arith, all-append p xs ys)

hex_digits_lem :
    (n value : ℕ) → (length (hex_digits n value) ≡ n) × (all is_hex (hex_digits n value) ≡ true)
unfolding hex_digits
hex_digits_lem zero value = (refl, refl)
hex_digits_lem (suc n) value =
    let ih = hex_digits_lem n (value / 16) in
    let last = hex_digit (value % 16) in
    (
      omega (arith, length-append (hex_digits n (value / 16)) (last ∷ []), ih.0),
      all-append is_hex (hex_digits n (value / 16)) (last ∷ []) ih.1
          (ap (λ b. b && true) (hex_digit-is_hex (value % 16) (omega arith))),
    )

-- A new token is one that the parser admits when it comes back.
pub new_activity_lease_token-admitted :
    (r : ℕ × ℕ × ℕ × ℕ) → is_activity_lease_token (new_activity_lease_token r) ≡ true
unfolding is_activity_lease_token new_activity_lease_token
new_activity_lease_token-admitted (a, b, c, d) =
    let x = hex_digits_lem 8 a in
    let y = hex_digits_lem 8 b in
    let z = hex_digits_lem 8 c in
    let t = hex_digits_lem 8 d in
    let cd = hex_digits 8 c ++ hex_digits 8 d in
    let bcd = hex_digits 8 b ++ cd in
    let long : length (hex_digits 8 a ++ bcd) ≡ 32 = omega (
      arith,
      length-append (hex_digits 8 a) bcd,
      length-append (hex_digits 8 b) cd,
      length-append (hex_digits 8 c) (hex_digits 8 d),
      x.0,
      y.0,
      z.0,
      t.0,
    ) in
    let hex : all is_hex (hex_digits 8 a ++ bcd) ≡ true =
      all-append is_hex (hex_digits 8 a) bcd x.1 (
        all-append is_hex (hex_digits 8 b) cd y.1
          (all-append is_hex (hex_digits 8 c) (hex_digits 8 d) z.1 t.1)) in
    rw hex (rw long refl)

-- The token under which an admitted request holds a lease is one that the parser admits, whether the
-- request names it or it is drawn at random.
pub lease_token-admitted :
    (core : Core) (w : core.World) (request : Request)
    → Admits Operation.hold_activity request
    → is_activity_lease_token (lease_token core w request).1 ≡ true
unfolding lease_token request_string
lease_token-admitted core w request admitted =
    elim (Bool-cases (is_empty (request_string request (bytes "leaseToken")))) [
      | inl fresh ↦ rw (fresh, lease_token) (new_activity_lease_token-admitted (core.random w).1)
      | inr given ↦
          rw (given, lease_token)
            (elim admitted.3 [ inl missing ↦ cc (rw missing at given) | inr named ↦ named ])
    ]

-- The seconds that are left of a lease are those up to its end, cut off at the largest uint32, and none of
-- a lease that is not active or has ended: the cast loses nothing.
pub activity_lease_remaining_lem :
    (state : LeaseState) (now : ℕ)
    → activity_lease_remaining state now
      ≡ (if state.active then min (state.expires_at - now) max_uint32 else 0)
unfolding activity_lease_remaining
activity_lease_remaining_lem state now = elim (Bool-cases state.active) [
  | inl active ↦ rw (active, activity_lease_remaining) (ground arith)
  | inr idle ↦ rw (idle, activity_lease_remaining) refl
]
