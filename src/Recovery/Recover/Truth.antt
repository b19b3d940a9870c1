-- ===== src/Recovery/Recover/Truth.antt =====
-- The record of a recovery says what was done to the bot.
use mod_playerbots_mcp.Base.{
  Bytes, ◌&&◌, ◌≡◌, refl, Bool, true, false, Option, none, some, if◌then◌else◌,
}
use mod_playerbots_mcp.Recovery.Recover.{
  HomebindResult, Bot, Recovery, refuse, after_recovery, recover_bot, build_recover_record,
}
use mod_playerbots_mcp.Recovery.Types.{
  RecoveryPosition, RecoveryAuditRecord, RecoveryOutcome, RecoveryReason, completed, not_started,
  deferred, not_requested,
}

abbrev is_recovered : RecoveryOutcome → Bool
is_recovered RecoveryOutcome.recovered = true
is_recovered _ = false

-- A record that nothing has been done for.
pub record IsNew (r : RecoveryAuditRecord) : Type 0 where
  pub no_movement_reset : r.movement_reset ≡ false
  pub no_travel_reset : r.travel_reset ≡ false
  pub no_taxi_reset : r.taxi_reset ≡ false
  pub nothing_started : r.mutation_state ≡ not_started
  pub nothing_requested : r.persistence_state ≡ not_requested

-- After which results the bot's movement, travel and taxi have been reset, and after which it is on its
-- way home.
abbrev resets : HomebindResult → Bool
resets HomebindResult.recovered = true
resets HomebindResult.teleport_rejected = true
resets _ = false

abbrev recovers : HomebindResult → Bool
recovers HomebindResult.recovered = true
recovers _ = false

-- What was done to a bot: nothing, unless it is connected, in the world and managed.
abbrev pub was_reset : Option Bot → Bool
was_reset none = false
was_reset (some bot) = bot.is_in_world && (bot.is_managed && resets bot.result)

abbrev pub was_recovered : Option Bot → Bool
was_recovered none = false
was_recovered (some bot) = bot.is_in_world && (bot.is_managed && recovers bot.result)

-- The record of a bot that was reset or not, and recovered or not: it is about the request that was
-- made, it says of the three resets and of the mutation whether they were made, and of the outcome and
-- the persistence whether the bot was recovered, which is when it is saved.
pub record Says (reset recovered : Bool) (r : RecoveryAuditRecord) (done : Recovery) : Type 0 where
  pub same_request : done.0.request_id ≡ r.request_id
  pub same_bot : done.0.bot_guid ≡ r.bot_guid
  pub movement : done.0.movement_reset ≡ reset
  pub travel : done.0.travel_reset ≡ reset
  pub taxi : done.0.taxi_reset ≡ reset
  pub mutation : done.0.mutation_state ≡ (if reset then completed else not_started)
  pub outcome : is_recovered done.0.outcome ≡ recovered
  pub saved : done.1 ≡ recovered
  pub persistence : done.0.persistence_state ≡ (if recovered then deferred else not_requested)

abbrev pub IsTruthful : Option Bot → RecoveryAuditRecord → Recovery → Type 0
IsTruthful bot r done = Says (was_reset bot) (was_recovered bot) r done

module _ (positions_match : RecoveryPosition → RecoveryPosition → Bool) where
  after_recovery-Says :
      (bot : Bot) (r : RecoveryAuditRecord) (result : HomebindResult)
      → IsNew r
      → Says (resets result) (recovers result) r (after_recovery positions_match bot r result)
  unfolding after_recovery
  after_recovery-Says bot r HomebindResult.recovered new = record {
    same_request = refl;
    same_bot = refl;
    movement = refl;
    travel = refl;
    taxi = refl;
    mutation = refl;
    outcome = refl;
    saved = refl;
    persistence = refl;
  }
  after_recovery-Says bot r HomebindResult.teleport_rejected new = record {
    same_request = refl;
    same_bot = refl;
    movement = refl;
    travel = refl;
    taxi = refl;
    mutation = refl;
    outcome = refl;
    saved = refl;
    persistence = new.nothing_requested;
  }
  after_recovery-Says bot r _ new = record {
    same_request = refl;
    same_bot = refl;
    movement = new.no_movement_reset;
    travel = new.no_travel_reset;
    taxi = new.no_taxi_reset;
    mutation = new.nothing_started;
    outcome = refl;
    saved = refl;
    persistence = new.nothing_requested;
  }

  refuse-Says :
      (r : RecoveryAuditRecord) (outcome : RecoveryOutcome) (reason : RecoveryReason)
      → is_recovered outcome ≡ false
      → IsNew r
      → Says false false r (refuse outcome reason r)
  refuse-Says r outcome reason other new = record {
    same_request = refl;
    same_bot = refl;
    movement = new.no_movement_reset;
    travel = new.no_travel_reset;
    taxi = new.no_taxi_reset;
    mutation = new.nothing_started;
    outcome = other;
    saved = refl;
    persistence = new.nothing_requested;
  }

  -- Where the bot is does not matter to that.
  abbrev located :
      (r : RecoveryAuditRecord) (name : Option Bytes) (before observed : Option RecoveryPosition)
      → RecoveryAuditRecord
  located r name before observed = record r {
    bot_name = name;
    before_position = before;
    observed_position = observed;
  }

  located-IsNew :
      (r : RecoveryAuditRecord) (name : Option Bytes) (before observed : Option RecoveryPosition)
      → IsNew r
      → IsNew (located r name before observed)
  located-IsNew r name before observed new = record {
    no_movement_reset = new.no_movement_reset;
    no_travel_reset = new.no_travel_reset;
    no_taxi_reset = new.no_taxi_reset;
    nothing_started = new.nothing_started;
    nothing_requested = new.nothing_requested;
  }

  located-Says :
      (reset recovered : Bool) (r : RecoveryAuditRecord) (name : Option Bytes)
      (before observed : Option RecoveryPosition) (done : Recovery)
      → Says reset recovered (located r name before observed) done
      → Says reset recovered r done
  located-Says reset recovered r name before observed done h = record {
    same_request = h.same_request;
    same_bot = h.same_bot;
    movement = h.movement;
    travel = h.travel;
    taxi = h.taxi;
    mutation = h.mutation;
    outcome = h.outcome;
    saved = h.saved;
    persistence = h.persistence;
  }

  if-Says :
      (reset recovered : Bool) (r : RecoveryAuditRecord) (test : Bool) (a b : Recovery)
      → Says reset recovered r a
      → Says false false r b
      → Says (test && reset) (test && recovered) r (if test then a else b)
  if-Says reset recovered r true a b h k = h
  if-Says reset recovered r false a b h k = k

  -- The record of a recovery is truthful for every bot and every result: it is about the bot and the
  -- request that were given; it says that movement, travel and taxi were reset and that the mutation
  -- is completed if and only if the bot is connected, in the world and managed, and was recovered or had
  -- its teleport rejected; and it says that the bot was recovered and that saving is deferred, and
  -- the bot is saved, if and only if it was recovered. Assumed is that the record is a new one.
  pub build_recover_record-IsTruthful :
      (bot : Option Bot) (cached : Bool) (r : RecoveryAuditRecord)
      → IsNew r
      → IsTruthful bot r (build_recover_record positions_match bot cached r)
  unfolding build_recover_record recover_bot
  build_recover_record-IsTruthful none true r new = refuse-Says r _ _ refl new
  build_recover_record-IsTruthful none false r new = refuse-Says r _ _ refl new
  build_recover_record-IsTruthful (some b) cached r new =
      let name = some b.name in
      let here = some b.position in
      let after = some b.position_after in
      let old = r.before_position in
      let seen = r.observed_position in
      if-Says _ _ r b.is_in_world _ _
        (if-Says _ _ r b.is_managed _ _
          (located-Says _ _ r name here after _ (
            after_recovery-Says b (located r name here after) b.result
              (located-IsNew r name here after new)))
          (located-Says _ _ r name here here _
            (refuse-Says (located r name here here) _ _ refl (located-IsNew r name here here new))))
        (located-Says _ _ r name old seen _
          (refuse-Says (located r name old seen) _ _ refl (located-IsNew r name old seen new)))
