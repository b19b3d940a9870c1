-- ===== src/WorldThread/Command/Relation.antt =====
-- Whom `BuildCommandResponse` lets command a bot.
use mod_playerbots_mcp.Base.{
  ◌≡◌, ◌↔◌, refl, ap, sym, ◌∙◌, true, false, Option, none, some, Bytes, ==→eq, eq→==, Bool-cases,
  Option-cases, inl, inr,
}
use mod_playerbots_mcp.Protocol.Responses.{success, failure}
use mod_playerbots_mcp.Protocol.Types.{Request}
use mod_playerbots_mcp.WorldThread.Command.{
  is_pointer, dispatched, command_bot, build_command_response,
}
use mod_playerbots_mcp.WorldThread.Core.{Core, Player}
use mod_playerbots_mcp.WorldThread.Status.{find_bot}

is_pointer→eq : (o : Option Player) (p : Player) → is_pointer o p ≡ true → o ≡ some p
is_pointer→eq none p h = cc
is_pointer→eq (some q) p h = ap some (==→eq q p h)

module _ (core : Core) (w : core.World) where
  -- The request is of a bot and of the master whom it has, who is no bot.
  abbrev pub MayCommand : Request → Player → Player → Type 0
  MayCommand request bot master =
      (find_bot core w request.bot_guid ≡ some bot)
      × (core.find_player w request.master_guid ≡ some master)
      × (core.has_ai w master ≡ false)
      × (core.master w bot ≡ some master)

  command_bot-allowed :
      (command : Bytes) (bot master : Player)
      → core.has_ai w master ≡ false
      → core.master w bot ≡ some master
      → command_bot core w command bot master ≡ (
          let w' = core.handle_command w bot command master in
          (w', success (dispatched core w w' bot master command)))
  unfolding command_bot
  command_bot-allowed command bot master human mastered =
      let pointed : is_pointer (core.master w bot) master ≡ true =
        rw mastered (eq→== master master refl) in
      rw (human, pointed, command_bot) refl

  command_bot-ok :
      (command : Bytes) (bot master : Player)
      → (command_bot core w command bot master).1.ok ≡ true
      → (core.has_ai w master ≡ false) × (core.master w bot ≡ some master)
  unfolding command_bot failure
  command_bot-ok command bot master h = elim (Bool-cases (core.has_ai w master)) [
    | inl managed ↦ cc (rw (managed, command_bot) at h)
    | inr human ↦ elim (Bool-cases (is_pointer (core.master w bot) master)) [
      | inl pointed ↦ (human, is_pointer→eq (core.master w bot) master pointed)
      | inr other ↦ cc (rw (human, other, command_bot) at h)
    ]
  ]

  build_command_response-allowed :
      (request : Request) (bot master : Player)
      → find_bot core w request.bot_guid ≡ some bot
      → core.find_player w request.master_guid ≡ some master
      → build_command_response core w request ≡ command_bot core w request.command bot master
  unfolding build_command_response
  build_command_response-allowed request bot master found there =
      rw (found, there, build_command_response) refl

  build_command_response-found :
      (request : Request)
      → (build_command_response core w request).1.ok ≡ true
      → (bot : Player) × (master : Player) × (find_bot core w request.bot_guid ≡ some bot)
        × (core.find_player w request.master_guid ≡ some master)
  unfolding build_command_response failure
  build_command_response-found request h = elim (Option-cases (find_bot core w request.bot_guid)) [
    | inl missing ↦ cc (rw (missing, build_command_response) at h)
    | inr (bot, found) ↦ elim (Option-cases (core.find_player w request.master_guid)) [
      | inl away ↦ cc (rw (found, away, build_command_response) at h)
      | inr (master, there) ↦ (bot, master, found, there)
    ]
  ]

  -- A command is dispatched if and only if it comes for a bot from its own master, who is a player and no
  -- bot; and then it is given to that bot, once, as that master's.
  pub build_command_response-ok_iff :
      (request : Request)
      → ((build_command_response core w request).1.ok ≡ true) ↔ (
          (bot : Player) × (master : Player) × MayCommand request bot master
          × ((build_command_response core w request).0
              ≡ core.handle_command w bot request.command master))
  unfolding success
  build_command_response-ok_iff request = (
    (λ h.
        let (bot, master, found, there) = build_command_response-found request h in
        let same = build_command_response-allowed request bot master found there in
        let (human, mastered) =
          command_bot-ok request.command bot master (sym (ap (λ p. p.1.ok) same) ∙ h) in
        let done = command_bot-allowed request.command bot master human mastered in
        (bot, master, (found, there, human, mastered), ap (λ p. p.0) (same ∙ done))),
    (λ (bot, master, (found, there, human, mastered), world).
        let done = command_bot-allowed request.command bot master human mastered in
        ap (λ p. p.1.ok) (build_command_response-allowed request bot master found there ∙ done)),
  )
