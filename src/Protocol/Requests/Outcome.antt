-- ===== src/Protocol/Requests/Outcome.antt =====
-- A chain of early returns: `return {.error = ...}` rejects, and nothing behind it runs.
use mod_playerbots_mcp.Base.{Bool, true, false, Option, none, some}
use mod_playerbots_mcp.Protocol.Errors.{make_error}
use mod_playerbots_mcp.Protocol.Types.{ErrorCode, ProtocolError}

pub data Outcome {ℓ} (A : Type ℓ) : Type ℓ where
  accepted : A → Outcome A
  rejected : ProtocolError → Outcome A

infixl 5 ◌>>=◌ ◌>>◌
unfoldable pub ◌>>=◌ {ℓ κ} : {A : Type ℓ} {B : Type κ} → Outcome A → (A → Outcome B) → Outcome B
accepted a >>= f = f a
rejected e >>= f = rejected e

abbrev pub ◌>>◌ {ℓ} : {B : Type ℓ} → Outcome (Unit {0}) → Outcome B → Outcome B
m >> k = m >>= λ _. k

-- `if (!condition) return {.error = MakeError(code)};`
unfoldable pub require : Bool → ErrorCode → Outcome (Unit {0})
require true code = accepted tt
require false code = rejected (make_error code)

-- `if (!value) return {.error = MakeError(code)};`, and `*value` from there on.
unfoldable pub or_reject {ℓ} : {A : Type ℓ} → Option A → ErrorCode → Outcome A
or_reject none code = rejected (make_error code)
or_reject (some a) code = accepted a
