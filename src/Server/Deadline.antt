-- ===== src/Server/Deadline.antt =====
-- `CompleteWithDeadline` of src/Bot/MCP/PlayerbotVerificationServer.cpp: an operation on the socket and
-- a timer, whose handlers `io.run` calls, each once, in one order or the other.
use mod_playerbots_mcp.Base.{◌≡◌, refl, Bool, true, false, ◌&&◌, ◌||◌, List, [], ◌∷◌, if◌then◌else◌}
use mod_playerbots_mcp.Server.{Read, received, timed_out, failed}

-- `boost::system::error_code`, as far as it is told apart.
pub data IoError : Type 0 where
  success expired other : IoError

unfoldable pub is_success : IoError → Bool
is_success success = true
is_success _ = false

unfoldable pub is_expired : IoError → Bool
is_expired expired = true
is_expired _ = false

-- A handler that is called: the operation's with its error, or the timer's, which is told whether the timer
-- was cancelled.
pub data Handler : Type 0 where
  operation : IoError → Handler
  timer : Bool → Handler

-- What the two handlers share, and what they have cancelled.
pub record Waiting : Type 0 where
  pub error : IoError
  pub completed : Bool
  pub past_deadline : Bool
  pub timer_cancelled : Bool
  pub socket_cancelled : Bool

-- The caller's error as it was before.
abbrev pub start_waiting : IoError → Waiting
start_waiting error = record {
  error = error;
  completed = false;
  past_deadline = false;
  timer_cancelled = false;
  socket_cancelled = false;
}

unfoldable pub call : Handler → Waiting → Waiting
call (operation e) s = record s { error = e; completed = true; timer_cancelled = true }
call (timer cancelled) s =
    if cancelled || s.completed
    then s
    else record s { past_deadline = true; socket_cancelled = true }

unfoldable pub run_handlers : List Handler → Waiting → Waiting
run_handlers [] s = s
run_handlers (h ∷ handlers) s = run_handlers handlers (call h s)

-- Whether it completed, and the error that the caller is left with.
unfoldable pub finish_waiting : Waiting → Bool × IoError
finish_waiting s =
    let error = if s.past_deadline then expired else s.error in
    (s.completed && is_success error, error)

unfoldable pub complete_with_deadline : IoError → List Handler → Bool × IoError
complete_with_deadline error handlers = finish_waiting (run_handlers handlers (start_waiting error))

-- What a read is for `HandleConnection`: received, too slow, or broken off.
unfoldable pub read_outcome {ℓ} : {A : Type ℓ} → A → Bool × IoError → Read A
read_outcome buffer (ok, error) =
    if ok then received buffer else if is_expired error then timed_out else failed

-- The runs of `io.run`, which returns when both handlers were called.
pub data Order : Type 0 where
  operation_first : IoError → Bool → Order
  timer_first : Bool → IoError → Order

abbrev pub handlers_of : Order → List Handler
handlers_of (operation_first e cancelled) = operation e ∷ timer cancelled ∷ []
handlers_of (timer_first cancelled e) = timer cancelled ∷ operation e ∷ []

-- Does the deadline come before the operation?
abbrev pub is_late : Order → Bool
is_late (operation_first e cancelled) = false
is_late (timer_first cancelled e) = if cancelled then false else true

abbrev pub operation_error : Order → IoError
operation_error (operation_first e cancelled) = e
operation_error (timer_first cancelled e) = e

-- If the deadline comes first, the operation does not count as completed, whatever its own handler is
-- told, the caller's error is that of a deadline, and what is pending on the socket is cancelled. If
-- the operation comes first, the caller is given its error, also where the timer has run out meanwhile,
-- and the socket is left alone.
pub complete_with_deadline_lem :
    (before : IoError) (o : Order)
    → (complete_with_deadline before (handlers_of o) ≡ (
        if is_late o
        then (false, expired)
        else (is_success (operation_error o), operation_error o)))
      × ((run_handlers (handlers_of o) (start_waiting before)).socket_cancelled ≡ is_late o)
unfolding complete_with_deadline finish_waiting run_handlers call is_success
complete_with_deadline_lem before (operation_first e true) = (refl, refl)
complete_with_deadline_lem before (operation_first e false) = (refl, refl)
complete_with_deadline_lem before (timer_first true e) = (refl, refl)
complete_with_deadline_lem before (timer_first false e) = (refl, refl)
