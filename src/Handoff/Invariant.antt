-- ===== src/Handoff/Invariant.antt =====
-- What the flags of the result say of the two threads, in every state that they can reach.
use mod_playerbots_mcp.Base.{
  ℕ, ◌≡◌, refl, ap, true, false, List, [], ◌∷◌, none, some, Bool-cases, ◌⊎◌, inl, inr,
}
use mod_playerbots_mcp.Handoff.{Result, try_claim, abandon, complete, wait}
use mod_playerbots_mcp.Handoff.Steps.{
  Worker, Caller, queued, claimed, returned, ran, reported, before_claim, after_claim, waiting,
  abandoning, grace, answered, System, after_claiming, after_waiting, after_abandoning, after_grace,
  Step, claims, runs_request, completes, executes_again, waits, abandons, waits_again, Steps, done,
  after,
}
use mod_playerbots_mcp.Protocol.Responses.{Response}

-- What the flags say between the calls of `Execute`: nothing was claimed yet, or one run is over.
abbrev pub AtRest : Result → List Response → Type 0
AtRest r past =
    ((r.claimed ≡ false) × (r.completed ≡ false) × (past ≡ []))
    ⊎ ((r.abandoned ≡ false) × (r.claimed ≡ true) × (r.completed ≡ true) × (past ≡ r.response ∷ []))

-- What the flags say of the world thread, and what it has run.
abbrev pub WorkerFits : Result → List Response → Worker → Type 0
WorkerFits r past queued = AtRest r past
WorkerFits r past claimed =
    (r.claimed ≡ true) × (r.abandoned ≡ false) × (r.completed ≡ false) × (past ≡ [])
WorkerFits r past (ran response) =
    (r.claimed ≡ true) × (r.abandoned ≡ false) × (r.completed ≡ false) × (past ≡ response ∷ [])
WorkerFits r past returned = AtRest r past

-- What the caller has told the result, and been told.
abbrev pub CallerFits : Result → Caller → Type 0
CallerFits r waiting = r.abandoned ≡ false
CallerFits r abandoning = r.abandoned ≡ false
CallerFits r grace = (r.abandoned ≡ false) × (r.claimed ≡ true)
CallerFits r (answered before_claim) = r.abandoned ≡ true
CallerFits r (answered after_claim) = (r.abandoned ≡ false) × (r.claimed ≡ true)
CallerFits r (answered (reported response)) =
    (r.abandoned ≡ false) × (r.completed ≡ true) × (r.response ≡ response)

abbrev pub Coherent : System → Type 0
Coherent s = WorkerFits s.result s.runs s.worker × CallerFits s.result s.caller

module _ (r : Result) where
  try_claim-won :
      r.abandoned ≡ false → r.claimed ≡ false → try_claim r ≡ (true, record r { claimed = true })
  unfolding try_claim
  try_claim-won h k = rw (h, k, try_claim) refl

  try_claim-lost : r.abandoned ≡ true → try_claim r ≡ (false, r)
  unfolding try_claim
  try_claim-lost h = rw (h, try_claim) refl

  try_claim-taken : r.claimed ≡ true → try_claim r ≡ (false, r)
  unfolding try_claim
  try_claim-taken h = elim (Bool-cases r.abandoned) [
    | inl gone ↦ rw (gone, try_claim) refl
    | inr kept ↦ rw (kept, h, try_claim) refl
  ]

  abandon-won :
      r.claimed ≡ false → r.completed ≡ false → abandon r ≡ (true, record r { abandoned = true })
  unfolding abandon
  abandon-won h k = rw (h, k, abandon) refl

  abandon-lost : r.claimed ≡ true → abandon r ≡ (false, r)
  unfolding abandon
  abandon-lost h = rw (h, abandon) refl

  complete-first :
      (response : Response)
      → r.completed ≡ false
      → complete response r ≡ record r { completed = true; response = response }
  unfolding complete
  complete-first response h = rw (h, complete) refl

  wait-cases :
      ((wait r ≡ none) × (r.completed ≡ false))
      ⊎ ((wait r ≡ some r.response) × (r.completed ≡ true))
  unfolding wait
  wait-cases = elim (Bool-cases r.completed) [
    | inl ready ↦ inr (rw (ready, wait) refl, ready)
    | inr pending ↦ inl (rw (pending, wait) refl, pending)
  ]

-- A caller's knowledge outlives the claim of a result that was not abandoned.
CallerFits-claim :
    (r : Result) (c : Caller)
    → r.completed ≡ false
    → CallerFits r c
    → CallerFits (record r { claimed = true }) c
CallerFits-claim r waiting k h = h
CallerFits-claim r abandoning k h = h
CallerFits-claim r grace k h = (h.0, refl)
CallerFits-claim r (answered before_claim) k h = h
CallerFits-claim r (answered after_claim) k h = (h.0, refl)
CallerFits-claim r (answered (reported a)) k h = cc

CallerFits-complete :
    (r : Result) (c : Caller) (response : Response)
    → r.completed ≡ false
    → CallerFits r c
    → CallerFits (record r { completed = true; response = response }) c
CallerFits-complete r waiting a k h = h
CallerFits-complete r abandoning a k h = h
CallerFits-complete r grace a k h = h
CallerFits-complete r (answered before_claim) a k h = h
CallerFits-complete r (answered after_claim) a k h = h
CallerFits-complete r (answered (reported b)) a k h = cc

claims-Coherent :
    (r : Result) (past : List Response) (c : Caller)
    → WorkerFits r past queued
    → CallerFits r c
    → WorkerFits (try_claim r).1 past (after_claiming (try_claim r).0)
      × CallerFits (try_claim r).1 c
unfolding after_claiming
claims-Coherent r past c (inr over) h = rw (try_claim-taken r over.1) (inr over, h)
claims-Coherent r past c (inl (free, unset, zero)) h = elim (Bool-cases r.abandoned) [
  | inl gone ↦ rw (try_claim-lost r gone) (inl (free, unset, zero), h)
  | inr kept ↦
      rw (try_claim-won r kept free) ((refl, kept, unset, zero), CallerFits-claim r c unset h)
]

AtRest-Coherent :
    (r : Result) (past : List Response)
    → AtRest r past
    → CallerFits r abandoning
    → AtRest (abandon r).1 past × CallerFits (abandon r).1 (after_abandoning (abandon r).0)
unfolding after_abandoning
AtRest-Coherent r past (inl w) h = rw (abandon-won r w.0 w.1) (inl w, refl)
AtRest-Coherent r past (inr w) h = rw (abandon-lost r w.1) (inr w, (h, w.1))

-- Abandoning a result whose flags allow it, and else the grace.
abandons-Coherent :
    (r : Result) (past : List Response) (w : Worker)
    → WorkerFits r past w
    → CallerFits r abandoning
    → WorkerFits (abandon r).1 past w × CallerFits (abandon r).1 (after_abandoning (abandon r).0)
unfolding after_abandoning
abandons-Coherent r past queued w h = AtRest-Coherent r past w h
abandons-Coherent r past claimed w h = rw (abandon-lost r w.0) (w, (h, w.0))
abandons-Coherent r past (ran a) w h = rw (abandon-lost r w.0) (w, (h, w.0))
abandons-Coherent r past returned w h = AtRest-Coherent r past w h

Step-Coherent : (s t : System) → Step s t → Coherent s → Coherent t
unfolding after_waiting after_grace
Step-Coherent s t (claims {r} {c} {past}) (w, h) = claims-Coherent r past c w h
Step-Coherent s t (runs_request response) ((a, b, d, zero), h) =
    ((a, b, d, ap (λ l. response ∷ l) zero), h)
Step-Coherent s t (completes {r} {c} {past} {response = a}) ((taken, kept, unset, one), h) =
    rw (complete-first r a unset) (inr (kept, taken, refl, one), CallerFits-complete r c a unset h)
Step-Coherent s t executes_again h = h
Step-Coherent s t (waits {r}) (w, h) = elim (wait-cases r) [
  | inl (none_yet, _) ↦ rw none_yet (w, h)
  | inr (given, ready) ↦ rw given (w, (h, ready, refl))
]
Step-Coherent s t (abandons {r} {w} {past}) (fits, h) = abandons-Coherent r past w fits h
Step-Coherent s t (waits_again {r}) (w, h) = elim (wait-cases r) [
  | inl (none_yet, _) ↦ rw none_yet (w, h)
  | inr (given, ready) ↦ rw given (w, (h.0, ready, refl))
]

pub Steps-Coherent : {n : ℕ} (s t : System) → Steps n s t → Coherent s → Coherent t
Steps-Coherent s t done h = h
Steps-Coherent s t (after {t = u} before step) h =
    Step-Coherent u t step (Steps-Coherent s u before h)
