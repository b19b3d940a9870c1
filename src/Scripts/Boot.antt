-- ===== src/Scripts/Boot.antt =====
-- When the world script has its server listen.
use mod_playerbots_mcp.Base.{
  ℕ, ◌≤◌, ◌<◌, ◌≡◌, ◌↔◌, ◌⊎◌, inl, inr, refl, ap, sym, ◌∙◌, Bool, true, false, Option, some, Bytes,
  length, ◌==◌, if◌then◌else◌, Bool-cases, arith,
}
use mod_playerbots_mcp.Lifecycle.{start, stop, Reachable, fresh, started, stopped, ended}
use mod_playerbots_mcp.Lifecycle.Sound.{Idle, Sound, Reachable-Sound, start-succeeds_iff}
use mod_playerbots_mcp.Protocol.Types.{TokenDigest, min_token_bytes, max_uint16}
use mod_playerbots_mcp.Scripts.{
  Script, disabled, silent, listening, stayed_disabled, on_after_config_load, on_shutdown,
  on_before_world_initialized, Called, constructed, configured, initialized, shut_down,
  worker_ended,
}

module _ (digest : Bytes → TokenDigest) (binds : ℕ → Bool) where
  init-cases :
      (token : Option Bytes) (s : Script)
      → ((s.settings.enable ≡ false)
          × (on_before_world_initialized digest binds token s ≡ (s, disabled)))
        ⊎ ((s.settings.enable ≡ true)
            × (s.settings.port ≡ 0)
            × (on_before_world_initialized digest binds token s ≡ (s, silent)))
        ⊎ ((s.settings.enable ≡ true)
            × (on_before_world_initialized digest binds token s ≡ (
              record s { server = (start digest binds s.settings.port token s.server).1 },
              if (start digest binds s.settings.port token s.server).0
                  then listening s.settings.port
                  else stayed_disabled s.settings.port,
            )))
  unfolding on_before_world_initialized
  init-cases token s = elim (Bool-cases s.settings.enable) [
    | inr off ↦ inl (off, rw (off, on_before_world_initialized) refl)
    | inl on ↦ elim (Bool-cases (s.settings.port == 0)) [
      | inl unset ↦ inr (inl (on, ground arith, rw (on, unset, on_before_world_initialized) refl))
      | inr set ↦ inr (inr (on, rw (on, set, on_before_world_initialized) refl))
    ]
  ]

  -- Whatever hooks the core calls in whatever order, the script's server is in a state that starts and stops
  -- reach.
  Called-Reachable : (s : Script) → Called digest binds s → Reachable digest binds s.server
  unfolding on_after_config_load on_shutdown
  Called-Reachable s constructed = fresh
  Called-Reachable s (configured {s = t} get h) = Called-Reachable t h
  Called-Reachable s (initialized {s = t} token h) =
      let reached = Called-Reachable t h in
      elim (init-cases token t) [
        | inl (_, e) ↦ rw e reached
        | inr (inl (_, _, e)) ↦ rw e reached
        | inr (inr (_, e)) ↦ rw e (started t.settings.port token reached)
      ]
  Called-Reachable s (shut_down {s = t} h) = stopped (Called-Reachable t h)
  Called-Reachable s (worker_ended {s = t} joinable h) = ended joinable (Called-Reachable t h)

  -- Whatever hooks the core calls in whatever order, and whenever the worker's loop ends, the script's
  -- server runs, accepting requests with the digest of a token of at least 32 bytes; or its loop has
  -- ended by itself, and it does not run but still holds that digest and its acceptor; or
  -- it is idle: it does not run, has nothing to join, accepts no request and holds no digest. Behind the
  -- shutdown it is idle.
  pub Called-Sound :
      (s : Script)
      → Called digest binds s
      → Sound digest binds s.server × Idle digest binds (on_shutdown s).server
  unfolding on_shutdown stop
  Called-Sound s h =
      (Reachable-Sound digest binds s.server (Called-Reachable s h), (refl, refl, refl, refl, refl))

  listening_inv :
      (ok : Bool) (port told : ℕ)
      → (if ok then listening port else stayed_disabled port) ≡ listening told
      → (ok ≡ true) × (told ≡ port)
  listening_inv true port told h = (refl, cc h)
  listening_inv false port told h = cc h

  -- With an idle server, the world's initialization reports that the server listens on a port
  -- if and only if the server is enabled, that is the port of the settings, it is from 1 to 65535, the
  -- environment has a token of at least 32 bytes, and the port can be bound.
  pub on_before_world_initialized-listening_iff :
      (token : Option Bytes) (s : Script) (port : ℕ)
      → Idle digest binds s.server
      → ((on_before_world_initialized digest binds token s).1 ≡ listening port) ↔ (
          (s.settings.enable ≡ true)
          × (port ≡ s.settings.port)
          × (0 < port)
          × (port ≤ max_uint16)
          × ((t : Bytes) × (token ≡ some t) × (min_token_bytes ≤ length t))
          × (binds port ≡ true))
  on_before_world_initialized-listening_iff token s port idle =
      let (ok_if, ok_then) = start-succeeds_iff digest binds s.settings.port token s.server idle in
      (
        (λ told. elim (init-cases token s) [
          | inl (_, e) ↦ cc (told, ap (λ p. p.1) e)
          | inr (inl (_, _, e)) ↦ cc (told, ap (λ p. p.1) e)
          | inr (inr (on, e)) ↦
              let (ok, same) =
                listening_inv _ s.settings.port port (sym (ap (λ p. p.1) e) ∙ told) in
              let (low, high, long, bound) = ok_if ok in
              (on, same, rw same low, rw same high, long, rw same bound)
        ]),
        (λ (on, same, low, high, long, bound).
            let ok = ok_then (rw (← same) low, rw (← same) high, long, rw (← same) bound) in
            elim (init-cases token s) [
              | inl (off, _) ↦ cc (on, off)
              | inr (inl (_, unset, _)) ↦ absurd (omega arith)
              | inr (inr (_, e)) ↦
                  ap (λ p. p.1) e
                  ∙ ap
                      (λ b.
                        if b then listening s.settings.port else stayed_disabled s.settings.port)
                      ok
                  ∙ ap listening (sym same)
            ]),
      )
