-- ===== src/Lifecycle.antt =====
-- `Start`, `Stop` and the end of `Run` of src/Bot/MCP/PlayerbotVerificationServer.cpp: when a server
-- listens, and with which token. The environment and the network are given.
pub mod Sound
use mod_playerbots_mcp.Base.{
  ℕ, ◌%◌, ◌^◌, ◌≡◌, Bool, true, false, ◌||◌, ◌∷◌, [], Option, none, some, Bytes, ltb, ◌==◌,
  if◌then◌else◌,
}
use mod_playerbots_mcp.Protocol.Auth.{token_digest_from_environment}
use mod_playerbots_mcp.Protocol.Types.{TokenDigest, max_uint16}

pub record Impl : Type 0 where
  pub running : Bool
  pub stopping : Bool
  -- `worker.joinable()`.
  pub joinable : Bool
  -- Is there an acceptor?
  pub acceptor : Bool
  pub token_digest : TokenDigest
  -- `acceptingRequests`, which the module shares.
  pub accepting : Bool

-- `tokenDigest.fill(0)`.
abbrev pub no_digest : TokenDigest
no_digest =
    0 ∷ 0 ∷ 0 ∷ 0 ∷ 0 ∷ 0 ∷ 0 ∷ 0 ∷ 0 ∷ 0 ∷ 0 ∷ 0 ∷ 0 ∷ 0 ∷ 0 ∷ 0 ∷ 0 ∷ 0 ∷ 0 ∷ 0 ∷ 0 ∷ 0 ∷ 0 ∷ 0
    ∷ 0 ∷ 0 ∷ 0 ∷ 0 ∷ 0 ∷ 0 ∷ 0 ∷ 0 ∷ []

abbrev pub new_impl : Impl
new_impl = record {
  running = false;
  stopping = false;
  joinable = false;
  acceptor = false;
  token_digest = no_digest;
  accepting = false;
}

-- `Stop`: the worker is joined if there is one.
unfoldable pub stop : Impl → Impl
stop s = record {
  running = false;
  stopping = true;
  joinable = false;
  acceptor = false;
  token_digest = no_digest;
  accepting = false;
}

-- The end of `Run`, which a failed accept or a stop brings about.
unfoldable pub run_ends : Impl → Impl
run_ends s = record s { running = false }

-- Behind the checks: the acceptor is opened, bound and told to listen, and the worker is started.
unfoldable pub listen : Bool → TokenDigest → Impl → Bool × Impl
listen binds digest s =
    if binds
    then (
      true,
      record {
        running = true;
        stopping = false;
        joinable = true;
        acceptor = true;
        token_digest = digest;
        accepting = true;
      },
    )
    else (false, record s { acceptor = false })

module _ (digest : Bytes → TokenDigest) (binds : ℕ → Bool) where
  -- `Start`, given the value of the environment variable.
  unfoldable pub start : ℕ → Option Bytes → Impl → Bool × Impl
  start port token s =
      if port == 0 || ltb max_uint16 port
      then (false, s)
      else elim (token_digest_from_environment digest token) [
        | none ↦ (false, s)
        | some d ↦
            if s.running || s.joinable then (false, s) else listen (binds (port % 2 ^ 16)) d s
      ]

  -- What may happen to a server.
  pub data Reachable : Impl → Type 0 where
    fresh : Reachable new_impl
    started :
        {s : Impl} (port : ℕ) (token : Option Bytes)
        → Reachable s
        → Reachable (start port token s).1
    stopped : {s : Impl} → Reachable s → Reachable (stop s)
    ended : {s : Impl} → s.joinable ≡ true → Reachable s → Reachable (run_ends s)
