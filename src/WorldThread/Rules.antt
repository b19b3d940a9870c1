-- ===== src/WorldThread/Rules.antt =====
-- Rules for what holds of a result on every branch.
use mod_playerbots_mcp.Base.{Bool, true, false, Option, none, some, ◌≡◌, refl, if◌then◌else◌}
use mod_playerbots_mcp.Protocol.Types.{ErrorCode}
use mod_playerbots_mcp.WorldThread.Core.{Player}
use mod_playerbots_mcp.WorldThread.Leases.{Target, target, refused}

module _ {A : Type 0} (P : A → Type 0) where
  pub if-holds : (b : Bool) (p q : A) → P p → P q → P (if b then p else q)
  if-holds true p q h k = h
  if-holds false p q h k = k

  pub option-holds :
      {B : Type 0} (o : Option B) (p : A) (f : B → A)
      → P p
      → ((b : B) → P (f b))
      → P (elim o [ none ↦ p | some b ↦ f b ])
  option-holds none p f h k = h
  option-holds (some b) p f h k = k b

  pub target-holds :
      (t : Target) (f : ErrorCode → A) (g : Player → A)
      → ((code : ErrorCode) → P (f code))
      → ((bot : Player) → P (g bot))
      → P (elim t [ refused code ↦ f code | target bot ↦ g bot ])
  target-holds (refused code) f g h k = h code
  target-holds (target bot) f g h k = k bot

  -- The same, where it matters which value is given.
  pub option-holds_at :
      {B : Type 0} (o : Option B) (p : A) (f : B → A)
      → P p
      → ((b : B) → o ≡ some b → P (f b))
      → P (elim o [ none ↦ p | some b ↦ f b ])
  option-holds_at none p f h k = h
  option-holds_at (some b) p f h k = k b refl

  pub target-holds_at :
      (t : Target) (f : ErrorCode → A) (g : Player → A)
      → ((code : ErrorCode) → P (f code))
      → ((bot : Player) → t ≡ target bot → P (g bot))
      → P (elim t [ refused code ↦ f code | target bot ↦ g bot ])
  target-holds_at (refused code) f g h k = h code
  target-holds_at (target bot) f g h k = k bot refl
