-- ===== src/Conditions/History.antt =====
-- When a check of the action history is met.
use mod_playerbots_mcp.Base.{
  ℕ, ◌<◌, ◌≡◌, ◌≢◌, ◌∙◌, sym, ap, refl, ◌↔◌, ◌⊎◌, inl, inr, Bool, true, false, ◌&&◌, ◌||◌, not,
  List, [], ◌∷◌, ◌++◌, Bytes, bytes, any, take, leb, str_eq, str_eq_iff, arith, Bool-cases,
}
use mod_playerbots_mcp.Conditions.{
  Attempt, Inspection, request_number, request_string, up_to_zero, action_attempt_name_matches,
  same_bool, some_attempt, evaluate_action, evaluate_verification_condition,
}
use mod_playerbots_mcp.Protocol.Types.{Request}

module _ (after_sequence : ℕ) (name result : Bytes) where
  -- An attempt that meets the check: a later one, whose name was kept whole and is the one asked for, with
  -- the result asked for.
  abbrev pub Meets : Attempt → Type 0
  Meets a =
      (after_sequence < a.sequence)
      × (a.name_truncated ≡ false)
      × (up_to_zero a.action_name ≡ name)
      × ((result ≡ bytes "either")
          ⊎ ((result ≡ bytes "success") × (a.success ≡ true))
          ⊎ ((result ≢ bytes "success") × (a.success ≡ false)))

  meets : Attempt → Bool
  meets a =
      not (leb a.sequence after_sequence || not (action_attempt_name_matches a name))
      && (str_eq result (bytes "either") || same_bool (str_eq result (bytes "success")) a.success)

  some_attempt-any : (l : List Attempt) → some_attempt after_sequence name result l ≡ any meets l
  unfolding some_attempt meets
  some_attempt-any [] = refl
  some_attempt-any (a ∷ l) = ground (arith, some_attempt-any l)

  meets_iff : (a : Attempt) → (meets a ≡ true) ↔ Meets a
  unfolding meets action_attempt_name_matches
  meets_iff a = ground (
    arith,
    str_eq_iff (up_to_zero a.action_name) name,
    str_eq_iff result (bytes "either"),
    str_eq_iff result (bytes "success"),
  )

module _ {A : Type 0} (p : A → Bool) where
  -- Somewhere in a list.
  abbrev pub Somewhere : (A → Type 0) → List A → Type 0
  Somewhere P l = (before : List A) × (a : A) × (after : List A) × (l ≡ before ++ a ∷ after) × P a

  any-here :
      (before : List A) (a : A) (after : List A) → p a ≡ true → any p (before ++ a ∷ after) ≡ true
  any-here [] a after h = ground arith
  any-here (x ∷ before) a after h = ground (arith, any-here before a after h)

  any-Somewhere : (l : List A) → any p l ≡ true → Somewhere (λ a. p a ≡ true) l
  any-Somewhere [] h = cc
  any-Somewhere (x ∷ l) h = elim (Bool-cases (p x)) [
    | inl here ↦ ([], x, l, refl, here)
    | inr other ↦
        let (before, a, after, e, found) = any-Somewhere l (rw other at h) in
        (x ∷ before, a, after, ap (λ t. x ∷ t) e, found)
  ]

-- A check of the action history is met if and only if one of the attempts that are kept meets it: it is
-- later than the sequence given, its name was kept whole and is the one asked for, and it went as was
-- asked.
pub evaluate-action_iff :
    (i : Inspection) (request : Request)
    → request.condition ≡ bytes "action"
    → (evaluate_verification_condition i request ≡ true) ↔ (
        (before : List Attempt) × (a : Attempt) × (after : List Attempt) × (take i.history_count
            i.attempts
          ≡ before ++ a ∷ after)
        × Meets
            (request_number request (bytes "afterSequence"))
            (request_string request (bytes "actionName"))
            (request_string request (bytes "actionResult"))
            a)
unfolding evaluate_verification_condition str_eq evaluate_action
evaluate-action_iff i request h =
    let sequence = request_number request (bytes "afterSequence") in
    let name = request_string request (bytes "actionName") in
    let result = request_string request (bytes "actionResult") in
    let kept = take i.history_count i.attempts in
    let looped : evaluate_verification_condition i request
        ≡ some_attempt sequence name result kept =
      rw (h, evaluate_verification_condition) refl in
    let same = looped ∙ some_attempt-any sequence name result kept in
    (
      (λ met.
          let (before, a, after, e, found) =
            any-Somewhere (meets sequence name result) kept (sym same ∙ met) in
          (before, a, after, e, (meets_iff sequence name result a).0 found)),
      (λ (before, a, after, e, found).
          same
          ∙ ap (any (meets sequence name result)) e
          ∙ any-here (meets sequence name result) before a after
              ((meets_iff sequence name result a).1 found)),
    )
