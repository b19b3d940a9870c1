-- ===== src/Protocol/Json/Shrinks/Nesting.antt =====
-- The same of nested values, which are skipped.
use mod_playerbots_mcp.Base.{
  ℕ, zero, suc, ◌+◌, ◌≤◌, ◌<◌, ◌≡◌, refl, ◌⊎◌, Bool, true, false, [], ◌∷◌, ◌||◌, Option, none, some,
  Bytes, bytes, length, arith, Option-cases, some-eq_inv, inl, inr, if◌then◌else◌, ltb, ◌==◌,
}
use mod_playerbots_mcp.Protocol.Json.Nested.{
  ValueStep, finished, items, fields, array_start, object_start, value_start, member_key, ListStep,
  ended, again, broken, after_item, max_nested_depth, Nest, value, elements, members, skip,
}
use mod_playerbots_mcp.Protocol.Json.Shrinks.{length-skip_whitespace-le, consume_next-shorter}
use mod_playerbots_mcp.Protocol.Json.Shrinks.Values.{
  skip_number-le, consume_literal-le, skip_string-shorter, member_key-shorter, after_item-again,
  after_item-ended,
}
use mod_playerbots_mcp.Protocol.Json.Text.{is_digit, skip_whitespace, consume}

-- What the beginning of a value leaves.
pub data StartLeaves (n : ℕ) : ValueStep → Type 0 where
  leaves_rest :
      {o : Option Bytes}
      → ((rest : Bytes) → o ≡ some rest → length rest ≤ n)
      → StartLeaves n (finished o)
  leaves_items : {rest : Bytes} → length rest < n → StartLeaves n (items rest)
  leaves_fields : {rest : Bytes} → length rest < n → StartLeaves n (fields rest)

if-StartLeaves :
    (n : ℕ) (test : Bool) (a b : ValueStep)
    → StartLeaves n a
    → StartLeaves n b
    → StartLeaves n (if test then a else b)
if-StartLeaves n true a b h k = h
if-StartLeaves n false a b h k = k

array_start-Leaves : (cs : Bytes) → StartLeaves (suc (length cs)) (array_start cs)
unfolding array_start
array_start-Leaves cs = elim (Option-cases (consume b']' (skip_whitespace cs))) [
  | inl e ↦ rw (e, array_start) (leaves_items (omega (arith, length-skip_whitespace-le cs)))
  | inr (r, e) ↦
      rw (e, array_start)
        (leaves_rest (λ rest k.
          let end : r ≡ rest = some-eq_inv k in
          rw⁻¹ end (omega (arith, consume_next-shorter b']' cs r e))))
]

object_start-Leaves : (cs : Bytes) → StartLeaves (suc (length cs)) (object_start cs)
unfolding object_start
object_start-Leaves cs = elim (Option-cases (consume b'}' (skip_whitespace cs))) [
  | inl e ↦ rw (e, object_start) (leaves_fields (omega (arith, length-skip_whitespace-le cs)))
  | inr (r, e) ↦
      rw (e, object_start)
        (leaves_rest (λ rest k.
          let end : r ≡ rest = some-eq_inv k in
          rw⁻¹ end (omega (arith, consume_next-shorter b'}' cs r e))))
]

nothing-Leaves : (n : ℕ) → StartLeaves n (finished none)
nothing-Leaves n = leaves_rest (λ rest k. cc)

pub value_start-Leaves : (depth : ℕ) (s : Bytes) → StartLeaves (length s) (value_start depth s)
unfolding value_start
value_start-Leaves depth [] = nothing-Leaves _
value_start-Leaves depth (c ∷ cs) =
    let n = length (c ∷ cs) in
    if-StartLeaves n (ltb max_nested_depth depth) _ _ (nothing-Leaves n) (
      if-StartLeaves n (c == b'"') _ _
        (leaves_rest (λ rest k. omega (arith, skip_string-shorter (c ∷ cs) rest k)))
        (if-StartLeaves n (c == b'-' || is_digit c) _ _ (leaves_rest (skip_number-le (c ∷ cs))) (
          if-StartLeaves n (c == b't') _ _
            (leaves_rest (consume_literal-le (bytes "true") (c ∷ cs)))
            (if-StartLeaves n (c == b'f') _ _
              (leaves_rest (consume_literal-le (bytes "false") (c ∷ cs)))
              (if-StartLeaves n (c == b'n') _ _
                (leaves_rest (consume_literal-le (bytes "null") (c ∷ cs)))
                (if-StartLeaves n (c == b'[') _ _ (array_start-Leaves cs) (
                  if-StartLeaves n (c == b'{') _ _ (object_start-Leaves cs)
                    (nothing-Leaves n))))))))

-- How a value begins, as an equation.
pub start_cases :
    (n : ℕ) (step : ValueStep)
    → StartLeaves n step
    → ((o : Option Bytes) × (step ≡ finished o)
        × ((rest : Bytes) → o ≡ some rest → length rest ≤ n))
      ⊎ ((rest : Bytes) × (step ≡ items rest) × (length rest < n))
      ⊎ ((rest : Bytes) × (step ≡ fields rest) × (length rest < n))
start_cases n (finished o) (leaves_rest h) = inl (o, refl, h)
start_cases n (items rest) (leaves_items h) = inr (inl (rest, refl, h))
start_cases n (fields rest) (leaves_fields h) = inr (inr (rest, refl, h))

pub ListStep-cases :
    (step : ListStep)
    → ((rest : Bytes) × (step ≡ ended rest))
      ⊎ ((rest : Bytes) × (step ≡ again rest))
      ⊎ (step ≡ broken)
ListStep-cases (ended rest) = inl (rest, refl)
ListStep-cases (again rest) = inr (inl (rest, refl))
ListStep-cases broken = inr (inr refl)

-- A skipped value leaves no more than there was.
pub skip-le :
    (fuel : ℕ) (nest : Nest) (depth : ℕ) (s rest : Bytes)
    → skip fuel nest depth s ≡ some rest
    → length rest ≤ length s
unfolding skip
skip-le zero nest depth s rest h = cc
skip-le (suc fuel) value depth s rest h =
    elim (start_cases (length s) (value_start depth s) (value_start-Leaves depth s)) [
      | inl (o, e, bound) ↦ bound rest (rw (e, skip) at h)
      | inr (inl (inside, e, less)) ↦
          omega (arith, skip-le fuel elements depth inside rest (rw (e, skip) at h))
      | inr (inr (inside, e, less)) ↦
          omega (arith, skip-le fuel members depth inside rest (rw (e, skip) at h))
    ]
skip-le (suc fuel) elements depth s rest h = elim (Option-cases (skip fuel value (depth + 1) s)) [
  | inl bad ↦ cc (rw (bad, skip) at h)
  | inr (r, read) ↦
      let first = skip-le fuel value (depth + 1) s r read in
      elim (ListStep-cases (after_item b']' r)) [
        | inl (e, done) ↦
            let end : e ≡ rest = some-eq_inv (rw (read, done, skip) at h) in
            rw⁻¹ end (omega (arith, after_item-ended b']' r e done))
        | inr (inl (next, more)) ↦ omega (
          arith,
          after_item-again b']' r next more,
          skip-le fuel elements depth next rest (rw (read, more, skip) at h),
        )
        | inr (inr bad) ↦ cc (rw (read, bad, skip) at h)
      ]
]
skip-le (suc fuel) members depth s rest h = elim (Option-cases (member_key s)) [
  | inl bad ↦ cc (rw (bad, skip) at h)
  | inr (v, key) ↦
      let before = member_key-shorter s v key in
      elim (Option-cases (skip fuel value (depth + 1) v)) [
        | inl bad ↦ cc (rw (key, bad, skip) at h)
        | inr (r, read) ↦
            let first = skip-le fuel value (depth + 1) v r read in
            elim (ListStep-cases (after_item b'}' r)) [
              | inl (e, done) ↦
                  let end : e ≡ rest = some-eq_inv (rw (key, read, done, skip) at h) in
                  rw⁻¹ end (omega (arith, after_item-ended b'}' r e done))
              | inr (inl (next, more)) ↦ omega (
                arith,
                after_item-again b'}' r next more,
                skip-le fuel members depth next rest (rw (key, read, more, skip) at h),
              )
              | inr (inr bad) ↦ cc (rw (key, read, bad, skip) at h)
            ]
      ]
]
