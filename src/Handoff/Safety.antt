-- ===== src/Handoff/Safety.antt =====
-- Nothing runs behind the caller's back: what an answer says of the operation is so, and stays so.
use mod_playerbots_mcp.Base.{
  ℕ, ◌≤◌, ◌≡◌, refl, ◌∙◌, subst, length, ◌&&◌, ap, true, false, List, [], ◌∷◌, arith, inl, inr,
}
use mod_playerbots_mcp.Handoff.{Result}
use mod_playerbots_mcp.Handoff.Steps.{
  Worker, Answer, queued, claimed, returned, ran, reported, before_claim, after_claim, answered,
  System, start, Step, claims, runs_request, completes, executes_again, waits, abandons,
  waits_again, Steps, done, after,
}
use mod_playerbots_mcp.Protocol.Responses.{Response}
use mod_playerbots_mcp.Handoff.Invariant.{WorkerFits, CallerFits, Steps-Coherent, Coherent}

-- What an answered caller was told does not change.
answer_kept : (s t : System) (a : Answer) → Step s t → s.caller ≡ answered a → t.caller ≡ answered a
answer_kept s t a claims h = h
answer_kept s t a (runs_request response) h = h
answer_kept s t a completes h = h
answer_kept s t a executes_again h = h
answer_kept s t a waits h = cc
answer_kept s t a abandons h = cc
answer_kept s t a waits_again h = cc

answer_stays :
    {n : ℕ} (s t : System) (a : Answer)
    → Steps n s t
    → s.caller ≡ answered a
    → t.caller ≡ answered a
answer_stays s t a done h = h
answer_stays s t a (after {t = u} before step) h =
    answer_kept u t a step (answer_stays s u a before h)

start-Coherent : Coherent start
start-Coherent = (inl (refl, refl, refl), refl)

not_abandoned_runs :
    (r : Result) (past : List Response) (w : Worker)
    → WorkerFits r past w
    → r.abandoned ≡ true
    → past ≡ []
not_abandoned_runs r past queued (inl w) h = w.2
not_abandoned_runs r past queued (inr w) h = cc
not_abandoned_runs r past claimed w h = w.3
not_abandoned_runs r past (ran a) w h = cc
not_abandoned_runs r past returned (inl w) h = w.2
not_abandoned_runs r past returned (inr w) h = cc

-- A caller that was told that its request timed out before it was claimed was told the truth, for
-- good: however the threads go on, the world thread never runs the request.
pub before_claim-never_runs :
    (m n : ℕ) (s t : System)
    → Steps m start s
    → s.caller ≡ answered before_claim
    → Steps n s t
    → t.runs ≡ []
before_claim-never_runs m n s t begun told later =
    let (w, h) = Steps-Coherent s t later (Steps-Coherent start s begun start-Coherent) in
    let kept = answer_stays s t before_claim later told in
    not_abandoned_runs t.result t.runs t.worker w (subst (CallerFits t.result) kept h)

-- What was claimed when the caller gave up on it stays claimed.
pub after_claim-stays_claimed :
    (m n : ℕ) (s t : System)
    → Steps m start s
    → s.caller ≡ answered after_claim
    → Steps n s t
    → t.result.claimed ≡ true
after_claim-stays_claimed m n s t begun told later =
    let (_, h) = Steps-Coherent s t later (Steps-Coherent start s begun start-Coherent) in
    let kept = answer_stays s t after_claim later told in (subst (CallerFits t.result) kept h).1

completed_runs :
    (r : Result) (past : List Response) (w : Worker)
    → WorkerFits r past w
    → r.completed ≡ true
    → past ≡ r.response ∷ []
completed_runs r past queued (inl w) h = cc
completed_runs r past queued (inr w) h = w.3
completed_runs r past claimed w h = cc
completed_runs r past (ran a) w h = cc
completed_runs r past returned (inl w) h = cc
completed_runs r past returned (inr w) h = w.3

-- A caller that is given a response is given that of the one run of its request.
pub reported-runs_once :
    (n : ℕ) (s : System) (response : Response)
    → Steps n start s
    → s.caller ≡ answered (reported response)
    → s.runs ≡ response ∷ []
reported-runs_once n s response begun told =
    let (w, h) = Steps-Coherent start s begun start-Coherent in
    let (_, ready, same) = subst (CallerFits s.result) told h in
    completed_runs s.result s.runs s.worker w ready ∙ ap (λ r. r ∷ []) same

runs_at_most_once :
    (r : Result) (past : List Response) (w : Worker) → WorkerFits r past w → length past ≤ 1
runs_at_most_once r past queued (inl w) = rw w.2 (omega arith)
runs_at_most_once r past queued (inr w) = rw w.3 (omega arith)
runs_at_most_once r past claimed w = rw w.3 (omega arith)
runs_at_most_once r past (ran a) w = rw w.3 (omega arith)
runs_at_most_once r past returned (inl w) = rw w.2 (omega arith)
runs_at_most_once r past returned (inr w) = rw w.3 (omega arith)

not_both :
    (r : Result) (past : List Response) (w : Worker)
    → WorkerFits r past w
    → (r.claimed && r.abandoned) ≡ false
not_both r past queued (inl w) = rw w.0 refl
not_both r past queued (inr w) = rw (w.0, w.1) refl
not_both r past claimed w = rw (w.0, w.1) refl
not_both r past (ran a) w = rw (w.0, w.1) refl
not_both r past returned (inl w) = rw w.0 refl
not_both r past returned (inr w) = rw (w.0, w.1) refl

-- Whatever the order of the steps, and however often the operation is executed, at most one of the claim
-- and the abandonment wins, and the request is run at most once.
pub Steps-exclusive :
    (n : ℕ) (s : System)
    → Steps n start s
    → ((s.result.claimed && s.result.abandoned) ≡ false) × (length s.runs ≤ 1)
Steps-exclusive n s begun =
    let (w, _) = Steps-Coherent start s begun start-Coherent in
    (not_both s.result s.runs s.worker w, runs_at_most_once s.result s.runs s.worker w)
