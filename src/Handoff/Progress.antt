-- ===== src/Handoff/Progress.antt =====
-- `Execute` as a run of the world thread's steps.
use mod_playerbots_mcp.Base.{ℕ, ◌+◌, Bytes, [], ◌∷◌, Option, Bool, true, false, if◌then◌else◌}
use mod_playerbots_mcp.Handoff.{Result, try_claim, complete, execute, executed_response}
use mod_playerbots_mcp.Handoff.Steps.{
  Caller, queued, returned, System, after_claiming, Step, claims, runs_request, completes, Steps,
  done, after,
}
use mod_playerbots_mcp.Protocol.Responses.{Response}
use mod_playerbots_mcp.Protocol.Types.{Request}

prepend : {n : ℕ} (s t u : System) → Step s t → Steps n t u → Steps (n + 1) s u
prepend s t u step done = after done step
prepend s t u step (after {t = v} before last) = after (prepend s t v step before) last

-- Behind the claim.
executes :
    (won : Bool) (r : Result) (c : Caller) (response : Response)
    → (n : ℕ) × Steps n
        (record { result = r; worker = after_claiming won; caller = c; runs = [] })
        (record {
          result =
              (if◌then◌else◌ {A = Bool × Result} won
                (response.ok, complete response r)
                (false, r)).1;
          worker = returned;
          caller = c;
          runs = if won then response ∷ [] else [];
        })
unfolding after_claiming
executes true r c response = (0 + 1 + 1, after (after done (runs_request response)) completes)
executes false r c response = (0, done)

-- `Execute` without an interruption is a run of the world thread's steps: it leaves the same result,
-- runs the request if and only if its claim wins, and then completes with that run's response.
pub execute-Steps :
    (print_float : ℕ → Bytes) (now : ℕ) (request : Request) (outcome : Option Response) (r : Result)
    (c : Caller)
    → (n : ℕ) × Steps n
        (record { result = r; worker = queued; caller = c; runs = [] })
        (record {
          result = (execute print_float now request outcome r).1;
          worker = returned;
          caller = c;
          runs =
              if (try_claim r).0
              then executed_response print_float now request outcome ∷ []
              else [];
        })
unfolding execute after_claiming
execute-Steps print_float now request outcome r c =
    let (n, run) =
      executes (try_claim r).0 (try_claim r).1 c
        (executed_response print_float now request outcome) in
    (n + 1, prepend _ _ _ claims run)
