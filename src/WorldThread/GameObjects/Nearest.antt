-- ===== src/WorldThread/GameObjects/Nearest.antt =====
-- The loop of `BuildTeleportToGameObjectResponse` finds a nearest spawn.
use mod_playerbots_mcp.Base.{
  ℕ, ◌≡◌, refl, sym, ap, ◌∙◌, ◌⊎◌, inl, inr, Bool, true, false, List, [], ◌∷◌, Option, none, some,
  All, Bool-cases,
}
use mod_playerbots_mcp.WorldThread.Core.{Core, Player, Spawn}
use mod_playerbots_mcp.WorldThread.GameObjects.{is_candidate, distance_to, closer, nearest_loop}

-- What `<` of floats is on floats that are ordinary, that is, not NaN: a strict order whose
-- incomparable elements are equal.
pub record IsOrder (less : ℕ → ℕ → Bool) (IsOrdinary : ℕ → Type 0) : Type 0 where
  pub irreflexive : (a : ℕ) → IsOrdinary a → less a a ≡ false
  pub asymmetric : (a b : ℕ) → less a b ≡ true → less b a ≡ false
  pub not_less_trans :
      (a b c : ℕ)
      → IsOrdinary a
      → IsOrdinary b
      → IsOrdinary c
      → less b a ≡ false
      → less c b ≡ false
      → less c a ≡ false

abbrev pub Listed : Spawn → List Spawn → Type 0
Listed s [] = ⊥
Listed s (t ∷ spawns) = (s ≡ t) ⊎ Listed s spawns

module _ (core : Core) (w : core.World) (bot : Player) (entry : ℕ) where
  -- No candidate among the spawns is nearer than the distance.
  abbrev pub NoneNearer : ℕ → List Spawn → Type 0
  NoneNearer d = All λ t.
      is_candidate core w bot entry t ≡ true → core.floats.less (distance_to core w bot t) d ≡ false

  -- What was found, at its distance, is a candidate of the list and no candidate is nearer; or there
  -- is none.
  abbrev pub IsNearest : List Spawn → Option (Spawn × ℕ) → Type 0
  IsNearest spawns none = All (λ t. is_candidate core w bot entry t ≡ false) spawns
  IsNearest spawns (some (s, d)) =
      Listed s spawns
      × (is_candidate core w bot entry s ≡ true)
      × (d ≡ distance_to core w bot s)
      × NoneNearer d spawns

  module _ (IsOrdinary : ℕ → Type 0) (order : IsOrder core.floats.less IsOrdinary)
      (ordinary : (s : Spawn) → IsOrdinary (distance_to core w bot s)) where
    -- What the loop ends with, from a spawn that it has found.
    abbrev EndsNear : Spawn → ℕ → List Spawn → Option (Spawn × ℕ) → Type 0
    EndsNear s d spawns none = ⊥
    EndsNear s d spawns (some (s', d')) =
        IsOrdinary d'
        × (core.floats.less d d' ≡ false)
        × NoneNearer d' spawns
        × (((s' ≡ s) × (d' ≡ d))
            ⊎ (Listed s' spawns
                × (is_candidate core w bot entry s' ≡ true)
                × (d' ≡ distance_to core w bot s')))

    ends-nearer :
        (s x : Spawn) (d : ℕ) (spawns : List Spawn) (o : Option (Spawn × ℕ))
        → IsOrdinary d
        → is_candidate core w bot entry x ≡ true
        → core.floats.less (distance_to core w bot x) d ≡ true
        → EndsNear x (distance_to core w bot x) spawns o
        → EndsNear s d (x ∷ spawns) o
    ends-nearer s x d spawns none od cand near h = h
    ends-nearer s x d spawns (some (s', d')) od cand near (od', back, nearer, from) =
        let dx = distance_to core w bot x in
        (
          od',
          order.not_less_trans d' dx d od' (ordinary x) od back (order.asymmetric dx d near),
          ((λ c. back), nearer),
          elim from [
            | inl (e, f) ↦ inr (inl e, rw e cand, f ∙ sym (ap (distance_to core w bot) e))
            | inr (l, c, f) ↦ inr (inr l, c, f)
          ],
        )

    ends-kept :
        (s x : Spawn) (d : ℕ) (spawns : List Spawn) (o : Option (Spawn × ℕ))
        → IsOrdinary d
        → (is_candidate core w bot entry x ≡ true
            → core.floats.less (distance_to core w bot x) d ≡ false)
        → EndsNear s d spawns o
        → EndsNear s d (x ∷ spawns) o
    ends-kept s x d spawns none od far h = h
    ends-kept s x d spawns (some (s', d')) od far (od', back, nearer, from) = (
      od',
      back,
      ((λ c. order.not_less_trans d' d _ od' od (ordinary x) back (far c)), nearer),
      elim from [ inl same ↦ inl same | inr (l, c, f) ↦ inr (inr l, c, f) ],
    )

    loop-EndsNear :
        (spawns : List Spawn) (s : Spawn) (d : ℕ)
        → IsOrdinary d
        → EndsNear s d spawns (nearest_loop core w bot entry spawns (some (s, d)))
    unfolding nearest_loop closer
    loop-EndsNear [] s d od = (od, order.irreflexive d od, tt, inl (refl, refl))
    loop-EndsNear (x ∷ spawns) s d od =
        let dx = distance_to core w bot x in
        elim (Bool-cases (is_candidate core w bot entry x)) [
          | inr other ↦
              rw (other, nearest_loop)
                (ends-kept s x d spawns _ od (λ c. cc (other, c)) (loop-EndsNear spawns s d od))
          | inl cand ↦ elim (Bool-cases (core.floats.less dx d)) [
            | inl near ↦
                rw (cand, near, nearest_loop)
                  (ends-nearer s x d spawns _ od cand near (loop-EndsNear spawns x dx (ordinary x)))
            | inr far ↦
                rw (cand, far, nearest_loop)
                  (ends-kept s x d spawns _ od (λ c. far) (loop-EndsNear spawns s d od))
          ]
        ]

    ends-IsNearest :
        (x : Spawn) (spawns : List Spawn) (o : Option (Spawn × ℕ))
        → is_candidate core w bot entry x ≡ true
        → EndsNear x (distance_to core w bot x) spawns o
        → IsNearest (x ∷ spawns) o
    ends-IsNearest x spawns none cand h = absurd h
    ends-IsNearest x spawns (some (s', d')) cand (od', back, nearer, inl (e, f)) =
        (inl e, rw e cand, f ∙ sym (ap (distance_to core w bot) e), ((λ c. back), nearer))
    ends-IsNearest x spawns (some (s', d')) cand (od', back, nearer, inr (l, c, f)) =
        (inr l, c, f, ((λ c'. back), nearer))

    skips-IsNearest :
        (x : Spawn) (spawns : List Spawn) (o : Option (Spawn × ℕ))
        → is_candidate core w bot entry x ≡ false
        → IsNearest spawns o
        → IsNearest (x ∷ spawns) o
    skips-IsNearest x spawns none other h = (other, h)
    skips-IsNearest x spawns (some (s', d')) other (l, c, f, nearer) =
        (inr l, c, f, ((λ c'. cc (other, c')), nearer))

    -- The loop over the spawns finds a candidate to which no other is nearer, and finds none only if no spawn
    -- is a candidate: of the entry, on the bot's map, and not inactive in a pool. The distances
    -- are assumed not to be NaN.
    pub nearest_loop-IsNearest :
        (spawns : List Spawn) → IsNearest spawns (nearest_loop core w bot entry spawns none)
    unfolding nearest_loop closer
    nearest_loop-IsNearest [] = tt
    nearest_loop-IsNearest (x ∷ spawns) = elim (Bool-cases (is_candidate core w bot entry x)) [
      | inl cand ↦
          rw (cand, nearest_loop)
            (ends-IsNearest x spawns _ cand
              (loop-EndsNear spawns x (distance_to core w bot x) (ordinary x)))
      | inr other ↦
          rw (other, nearest_loop)
            (skips-IsNearest x spawns _ other (nearest_loop-IsNearest spawns))
    ]
