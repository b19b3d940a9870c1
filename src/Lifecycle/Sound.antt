-- ===== src/Lifecycle/Sound.antt =====
-- A server that listens has a token, a server that does not holds none, and a start that is refused
-- changes nothing.
use mod_playerbots_mcp.Base.{
  ℕ, ◌%◌, ◌^◌, ◌≤◌, ◌<◌, ◌≡◌, ◌↔◌, ◌⊎◌, refl, sym, ◌∙◌, Bool, true, false, ◌||◌, Option, none, some,
  Bytes, ltb, ◌==◌, length, arith, Bool-cases, Option-cases, inl, inr,
}
use mod_playerbots_mcp.Lifecycle.{
  Impl, no_digest, stop, run_ends, listen, start, Reachable, fresh, started, stopped, ended,
}
use mod_playerbots_mcp.Protocol.Auth.{token_digest_from_environment, digest_verification_token}
use mod_playerbots_mcp.Protocol.Types.{TokenDigest, max_uint16, min_token_bytes}

module _ (digest : Bytes → TokenDigest) (binds : ℕ → Bool) where
  -- A worker serves, or its loop has ended by itself and nobody has stopped the server yet, or there is
  -- nothing left of one.
  abbrev pub Serving : Impl → Type 0
  Serving s =
      (s.running ≡ true)
      × (s.joinable ≡ true)
      × (s.stopping ≡ false)
      × (s.acceptor ≡ true)
      × (s.accepting ≡ true)
      × ((token : Bytes) × (min_token_bytes ≤ length token) × (s.token_digest ≡ digest token))

  abbrev pub Ended : Impl → Type 0
  Ended s =
      (s.running ≡ false)
      × (s.joinable ≡ true)
      × (s.stopping ≡ false)
      × (s.acceptor ≡ true)
      × (s.accepting ≡ true)
      × ((token : Bytes) × (min_token_bytes ≤ length token) × (s.token_digest ≡ digest token))

  abbrev pub Idle : Impl → Type 0
  Idle s =
      (s.joinable ≡ false)
      × (s.running ≡ false)
      × (s.acceptor ≡ false)
      × (s.accepting ≡ false)
      × (s.token_digest ≡ no_digest)

  abbrev pub Sound : Impl → Type 0
  Sound s = Serving s ⊎ Ended s ⊎ Idle s

  environment_token :
      (value : Option Bytes) (d : TokenDigest)
      → token_digest_from_environment digest value ≡ some d
      → (token : Bytes) × (value ≡ some token)
        × (min_token_bytes ≤ length token)
        × (d ≡ digest token)
  unfolding token_digest_from_environment digest_verification_token
  environment_token none d h = cc
  environment_token (some token) d h = (token, refl, ground arith, ground arith)

  environment_given :
      (token : Bytes)
      → min_token_bytes ≤ length token
      → token_digest_from_environment digest (some token) ≡ some (digest token)
  unfolding token_digest_from_environment digest_verification_token
  environment_given token h = ground arith

  -- A start is refused at once, or it comes to listening.
  start-cases :
      (port : ℕ) (value : Option Bytes) (s : Impl)
      → (start digest binds port value s ≡ (false, s))
        ⊎ ((token : Bytes) × (value ≡ some token)
            × (min_token_bytes ≤ length token)
            × (0 < port)
            × (port ≤ max_uint16)
            × ((s.running || s.joinable) ≡ false)
            × (start digest binds port value s ≡ listen (binds port) (digest token) s))
  unfolding start
  start-cases port value s = elim (Bool-cases (port == 0 || ltb max_uint16 port)) [
    | inl bad ↦ inl (rw (bad, start) refl)
    | inr good ↦ elim (Option-cases (token_digest_from_environment digest value)) [
      | inl missing ↦ inl (rw (good, missing, start) refl)
      | inr (d, given) ↦ elim (Bool-cases (s.running || s.joinable)) [
        | inl busy ↦ inl (rw (good, given, busy, start) refl)
        | inr free ↦
            let (token, named, long, same) = environment_token value d given in
            let fits : port % 2 ^ 16 ≡ port = ground arith in
            inr (
              token,
              named,
              long,
              ground arith,
              ground arith,
              free,
              rw (good, given, free, fits, same, start) refl,
            )
      ]
    ]
  ]

  listen-Sound :
      (b : Bool) (token : Bytes) (s : Impl)
      → min_token_bytes ≤ length token
      → Idle s
      → Sound (listen b (digest token) s).1
  unfolding listen
  listen-Sound true token s long idle = inl (refl, refl, refl, refl, refl, (token, long, refl))
  listen-Sound false token s long idle = inr (inr (idle.0, idle.1, refl, idle.3, idle.4))

  free-Idle : (s : Impl) → (s.running || s.joinable) ≡ false → Sound s → Idle s
  free-Idle s free (inl serving) = absurd (ground arith)
  free-Idle s free (inr (inl over)) = absurd (ground arith)
  free-Idle s free (inr (inr idle)) = idle

  start-Sound :
      (port : ℕ) (value : Option Bytes) (s : Impl)
      → Sound s
      → Sound (start digest binds port value s).1
  start-Sound port value s h = elim (start-cases port value s) [
    | inl refused ↦ rw refused h
    | inr (token, _, long, _, _, free, listens) ↦
        rw listens (listen-Sound (binds port) token s long (free-Idle s free h))
  ]

  -- Whatever is started, stopped and ended in whatever order, a server runs, accepting requests with the
  -- digest of a token of at least 32 bytes; or its loop has ended by itself, and it does not run but
  -- still holds that digest and its acceptor; or it is idle: it does not run, has nothing to
  -- join, accepts no request, and holds no digest.
  pub Reachable-Sound : (s : Impl) → Reachable digest binds s → Sound s
  unfolding stop run_ends
  Reachable-Sound s fresh = inr (inr (refl, refl, refl, refl, refl))
  Reachable-Sound s (started {s = t} port token h) = start-Sound port token t (Reachable-Sound t h)
  Reachable-Sound s (stopped h) = inr (inr (refl, refl, refl, refl, refl))
  Reachable-Sound s (ended {s = t} joinable h) = elim (Reachable-Sound t h) [
    | inl (_, kept, going, listens, accepts, held) ↦
        inr (inl (refl, kept, going, listens, accepts, held))
    | inr (inl (_, kept, going, listens, accepts, held)) ↦
        inr (inl (refl, kept, going, listens, accepts, held))
    | inr (inr idle) ↦ cc
  ]

  listen-succeeds : (b : Bool) (d : TokenDigest) (s : Impl) → (listen b d s).0 ≡ b
  unfolding listen
  listen-succeeds true d s = refl
  listen-succeeds false d s = refl

  listen-refused :
      (b : Bool) (d : TokenDigest) (s : Impl)
      → s.acceptor ≡ false
      → (listen b d s).0 ≡ false
      → (listen b d s).1 ≡ s
  unfolding listen
  listen-refused true d s h k = cc
  listen-refused false d s h k = rw⁻¹ h refl

  -- On an idle server a start succeeds if and only if the port is from 1 to 65535, the environment
  -- has a token of at least 32 bytes, and the port can be bound.
  pub start-succeeds_iff :
      (port : ℕ) (value : Option Bytes) (s : Impl)
      → Idle s
      → ((start digest binds port value s).0 ≡ true) ↔ (
          (0 < port)
          × (port ≤ max_uint16)
          × ((token : Bytes) × (value ≡ some token) × (min_token_bytes ≤ length token))
          × (binds port ≡ true))
  unfolding start
  start-succeeds_iff port value s idle = (
    (λ h. elim (start-cases port value s) [
      | inl refused ↦ cc (rw refused at h)
      | inr (token, named, long, low, high, _, listens) ↦
          let bound : (listen (binds port) (digest token) s).0 ≡ true = rw listens at h in
          (
            low,
            high,
            (token, named, long),
            sym (listen-succeeds (binds port) (digest token) s) ∙ bound,
          )
    ]),
    (λ h.
        let (low, high, (token, named, long), bound) = h in
        let good : (port == 0 || ltb max_uint16 port) ≡ false = ground arith in
        let free : (s.running || s.joinable) ≡ false = rw (idle.0, idle.1) refl in
        let fits : port % 2 ^ 16 ≡ port = omega arith in
        rw (good, named, environment_given token long, free, fits, bound, start)
          (listen-succeeds true (digest token) s)),
  )

  -- A start that is refused leaves the server as it was, in every state that can be reached.
  pub start-refused :
      (port : ℕ) (value : Option Bytes) (s : Impl)
      → Reachable digest binds s
      → (start digest binds port value s).0 ≡ false
      → (start digest binds port value s).1 ≡ s
  start-refused port value s h refused = elim (start-cases port value s) [
    | inl at_once ↦ rw at_once refl
    | inr (token, _, _, _, _, free, listens) ↦
        let idle = free-Idle s free (Reachable-Sound s h) in
        rw listens (listen-refused (binds port) (digest token) s idle.2 (rw listens at refused))
  ]
