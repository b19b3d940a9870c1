-- ===== src/Protocol/Json/Fuel.antt =====
-- The loops of the parser run on fuel, and what they are started with is enough: more fuel gives no
-- other result.
pub mod Members
pub mod Ends
use mod_playerbots_mcp.Base.{
  ℕ, zero, suc, ◌+◌, ◌*◌, ◌≤◌, ◌<◌, ◌≡◌, refl, ◌⊎◌, sym, ◌∙◌, Bool, [], ◌∷◌, Option, none, some,
  Bytes, length, arith, Option-cases, Bool-cases, inl, inr, ◌==◌,
}
use mod_playerbots_mcp.Protocol.Json.Nested.{
  value_start, member_key, after_item, Nest, value, elements, members, skip, skip_json_value,
}
use mod_playerbots_mcp.Protocol.Json.Shrinks.{
  length-skip_whitespace-le, consume_next-shorter, parse_string-shorter, StringStep-cases,
  string_step-piece,
}
use mod_playerbots_mcp.Protocol.Json.Shrinks.Values.{
  parse_unsigned-le, member_key-shorter, after_item-again,
}
use mod_playerbots_mcp.Protocol.Json.Objects.{
  string_value, unsigned_value, other_value, FlatJsonValue, Fields, parse_value, parse_member,
  MemberEnd, comma, stop, member_end, member_loop, emplace,
}
use mod_playerbots_mcp.Protocol.Json.Numbers.{parse_unsigned}
use mod_playerbots_mcp.Protocol.Json.Text.{
  parse_string, is_digit, skip_whitespace, consume, string_step, string_loop,
}
use mod_playerbots_mcp.Protocol.Json.Shrinks.Nesting.{
  value_start-Leaves, start_cases, ListStep-cases, skip-le,
}

-- The loop of `ParseString` reads the same on any two amounts of fuel above the length of the text.
pub string_loop-fuel :
    (m n : ℕ) (result s : Bytes)
    → length s < m
    → length s < n
    → string_loop m result s ≡ string_loop n result s
unfolding string_loop
string_loop-fuel zero n result s h k = absurd (omega arith)
string_loop-fuel (suc m) zero result s h k = absurd (omega arith)
string_loop-fuel (suc m) (suc n) result s h k = elim (StringStep-cases (string_step result s)) [
  | inl (rest, e) ↦ rw (e, string_loop) refl
  | inr (inl (more, rest, e)) ↦
      let shorter = string_step-piece result s more rest e in
      rw (e, string_loop) (string_loop-fuel m n more rest (omega arith) (omega arith))
  | inr (inr e) ↦ rw (e, string_loop) refl
]

-- The fuel that skipping a value, or items, from a text takes at most.
abbrev pub needed : Nest → Bytes → ℕ
needed value s = 2 * length s + 2
needed _ s = 2 * length s + 3

-- Skipping gives the same on any two amounts of fuel that are enough for the text.
pub skip-fuel :
    (m n : ℕ) (nest : Nest) (depth : ℕ) (s : Bytes)
    → needed nest s ≤ m
    → needed nest s ≤ n
    → skip m nest depth s ≡ skip n nest depth s
unfolding skip
skip-fuel zero n value depth s h k = absurd (omega arith)
skip-fuel zero n elements depth s h k = absurd (omega arith)
skip-fuel zero n members depth s h k = absurd (omega arith)
skip-fuel (suc m) zero value depth s h k = absurd (omega arith)
skip-fuel (suc m) zero elements depth s h k = absurd (omega arith)
skip-fuel (suc m) zero members depth s h k = absurd (omega arith)
skip-fuel (suc m) (suc n) value depth s h k =
    elim (start_cases (length s) (value_start depth s) (value_start-Leaves depth s)) [
      | inl (o, e, bound) ↦ rw (e, skip) refl
      | inr (inl (inside, e, less)) ↦
          rw (e, skip) (skip-fuel m n elements depth inside (omega arith) (omega arith))
      | inr (inr (inside, e, less)) ↦
          rw (e, skip) (skip-fuel m n members depth inside (omega arith) (omega arith))
    ]
skip-fuel (suc m) (suc n) elements depth s h k =
    let same = skip-fuel m n value (depth + 1) s (omega arith) (omega arith) in
    elim (Option-cases (skip m value (depth + 1) s)) [
      | inl bad ↦ rw (bad, sym same ∙ bad, skip) refl
      | inr (r, read) ↦
          let first = skip-le m value (depth + 1) s r read in
          let too = sym same ∙ read in
          elim (ListStep-cases (after_item b']' r)) [
            | inl (e, done) ↦ rw (read, too, done, skip) refl
            | inr (inl (next, more)) ↦
                let less = after_item-again b']' r next more in
                rw (read, too, more, skip)
                  (skip-fuel m n elements depth next (omega arith) (omega arith))
            | inr (inr bad) ↦ rw (read, too, bad, skip) refl
          ]
    ]
skip-fuel (suc m) (suc n) members depth s h k = elim (Option-cases (member_key s)) [
  | inl bad ↦ rw (bad, skip) refl
  | inr (v, key) ↦
      let before = member_key-shorter s v key in
      let same = skip-fuel m n value (depth + 1) v (omega arith) (omega arith) in
      elim (Option-cases (skip m value (depth + 1) v)) [
        | inl bad ↦ rw (key, bad, sym same ∙ bad, skip) refl
        | inr (r, read) ↦
            let first = skip-le m value (depth + 1) v r read in
            let too = sym same ∙ read in
            elim (ListStep-cases (after_item b'}' r)) [
              | inl (e, done) ↦ rw (key, read, too, done, skip) refl
              | inr (inl (next, more)) ↦
                  let less = after_item-again b'}' r next more in
                  rw (key, read, too, more, skip)
                    (skip-fuel m n members depth next (omega arith) (omega arith))
              | inr (inr bad) ↦ rw (key, read, too, bad, skip) refl
            ]
      ]
]

-- Skipping a value, arrays and objects in it included, is not cut short: on more fuel than it is
-- started with, `SkipJsonValue` gives the same.
pub skip_json_value-fuel :
    (n : ℕ) (s : Bytes) → 2 * length s + 2 ≤ n → skip n value 0 s ≡ skip_json_value s
unfolding skip_json_value
skip_json_value-fuel n s h = skip-fuel n (2 * length s + 2) value 0 s h (omega arith)

pub skip_json_value-le : (s rest : Bytes) → skip_json_value s ≡ some rest → length rest ≤ length s
unfolding skip_json_value
skip_json_value-le s rest h = skip-le (2 * length s + 2) value 0 s rest h
