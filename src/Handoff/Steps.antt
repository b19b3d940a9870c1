-- ===== src/Handoff/Steps.antt =====
-- The two threads as one system. The socket thread waits, abandons, and waits again; the world thread
-- claims, runs and completes; they share only the result, and take their steps in any order. Once
-- queued, an operation may also never be reached, and whoever holds it may execute it again.
use mod_playerbots_mcp.Base.{ℕ, ◌+◌, Bool, true, false, List, [], ◌∷◌, Option, none, some}
use mod_playerbots_mcp.Handoff.{Result, new_result, try_claim, abandon, complete, wait}
use mod_playerbots_mcp.Protocol.Responses.{Response}

-- Where `Execute` stands: not begun, past its claim, with a response, or back. It may begin once more.
pub data Worker : Type 0 where
  queued claimed returned : Worker
  ran : Response → Worker

-- What `DispatchVerificationRequest` has learnt of an operation that was queued.
pub data Answer : Type 0 where
  reported : Response → Answer
  before_claim after_claim : Answer

-- Where `DispatchVerificationRequest` stands, from its first wait on.
pub data Caller : Type 0 where
  waiting abandoning grace : Caller
  answered : Answer → Caller

pub record System : Type 0 where
  pub result : Result
  pub worker : Worker
  pub caller : Caller
  -- What the world thread's runs of the request gave, the last one first.
  pub runs : List Response

abbrev pub start : System
start = record { result = new_result; worker = queued; caller = waiting; runs = [] }

unfoldable pub after_claiming : Bool → Worker
after_claiming true = claimed
after_claiming false = returned

-- The first wait.
unfoldable pub after_waiting : Option Response → Caller
after_waiting (some r) = answered (reported r)
after_waiting none = abandoning

unfoldable pub after_abandoning : Bool → Caller
after_abandoning true = answered before_claim
after_abandoning false = grace

-- The second wait.
unfoldable pub after_grace : Option Response → Caller
after_grace (some r) = answered (reported r)
after_grace none = answered after_claim

-- One step of either thread.
pub data Step : System → System → Type 0 where
  claims :
      {r : Result} {c : Caller} {past : List Response}
      → Step
          (record { result = r; worker = queued; caller = c; runs = past })
          (record {
            result = (try_claim r).1;
            worker = after_claiming (try_claim r).0;
            caller = c;
            runs = past;
          })
  runs_request :
      {r : Result} {c : Caller} {past : List Response} (response : Response)
      → Step
          (record { result = r; worker = claimed; caller = c; runs = past })
          (record { result = r; worker = ran response; caller = c; runs = response ∷ past })
  completes :
      {r : Result} {c : Caller} {past : List Response} {response : Response}
      → Step
          (record { result = r; worker = ran response; caller = c; runs = past })
          (record { result = complete response r; worker = returned; caller = c; runs = past })
  executes_again :
      {r : Result} {c : Caller} {past : List Response}
      → Step
          (record { result = r; worker = returned; caller = c; runs = past })
          (record { result = r; worker = queued; caller = c; runs = past })
  waits :
      {r : Result} {w : Worker} {past : List Response}
      → Step
          (record { result = r; worker = w; caller = waiting; runs = past })
          (record { result = r; worker = w; caller = after_waiting (wait r); runs = past })
  abandons :
      {r : Result} {w : Worker} {past : List Response}
      → Step
          (record { result = r; worker = w; caller = abandoning; runs = past })
          (record {
            result = (abandon r).1;
            worker = w;
            caller = after_abandoning (abandon r).0;
            runs = past;
          })
  waits_again :
      {r : Result} {w : Worker} {past : List Response}
      → Step
          (record { result = r; worker = w; caller = grace; runs = past })
          (record { result = r; worker = w; caller = after_grace (wait r); runs = past })

-- A run of a number of steps.
pub data Steps : ℕ → System → System → Type 0 where
  done : {s : System} → Steps 0 s s
  after : {n : ℕ} {s t u : System} → Steps n s t → Step t u → Steps (n + 1) s u
