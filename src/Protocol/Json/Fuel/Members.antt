-- ===== src/Protocol/Json/Fuel/Members.antt =====
-- Each member of an object takes a character of the text at least.
use mod_playerbots_mcp.Base.{
  ◌≤◌, ◌<◌, ◌≡◌, refl, ◌⊎◌, [], ◌∷◌, Option, none, some, Bytes, length, arith, Option-cases,
  Bool-cases, inl, inr, ◌==◌,
}
use mod_playerbots_mcp.Protocol.Json.Nested.{skip_json_value}
use mod_playerbots_mcp.Protocol.Json.Shrinks.{
  length-skip_whitespace-le, consume_next-shorter, parse_string-shorter,
}
use mod_playerbots_mcp.Protocol.Json.Shrinks.Values.{parse_unsigned-le}
use mod_playerbots_mcp.Protocol.Json.Objects.{
  string_value, unsigned_value, other_value, FlatJsonValue, Fields, parse_value, parse_member,
  MemberEnd, comma, stop, member_end,
}
use mod_playerbots_mcp.Protocol.Json.Numbers.{parse_unsigned}
use mod_playerbots_mcp.Protocol.Json.Text.{parse_string, is_digit, skip_whitespace, consume}
use mod_playerbots_mcp.Protocol.Json.Fuel.{skip_json_value-le}

-- A value that is only recognised.
other-le :
    (s : Bytes) (v : FlatJsonValue) (rest : Bytes)
    → ◌≡◌ {A = Option (FlatJsonValue × Bytes)}
        (elim (skip_json_value s) as (λ o. Option (FlatJsonValue × Bytes)) [
          | none ↦ none
          | some r ↦ some (other_value, r)
        ])
        (some (v, rest))
    → length rest ≤ length s
other-le s v rest h = elim (Option-cases (skip_json_value s)) [
  | inl bad ↦ cc (rw bad at h)
  | inr (r, read) ↦
      let same : some (other_value, r) ≡ some (v, rest) = rw read at h in
      let end : r ≡ rest = cc same in rw⁻¹ end (skip_json_value-le s r read)
]

parse_value-le :
    (s : Bytes) (v : FlatJsonValue) (rest : Bytes)
    → parse_value s ≡ some (v, rest)
    → length rest ≤ length s
unfolding parse_value
parse_value-le [] v rest h = cc
parse_value-le (c ∷ cs) v rest h = elim (Bool-cases (c == b'"')) [
  | inl quoted ↦ elim (Option-cases (parse_string (c ∷ cs))) [
    | inl bad ↦ cc (rw (quoted, bad, parse_value) at h)
    | inr ((t, r), read) ↦
        let same : some (string_value t, r) ≡ some (v, rest) =
          rw (quoted, read, parse_value) at h in
        let end : r ≡ rest = cc same in
        rw⁻¹ end (omega (arith, parse_string-shorter (c ∷ cs) t r read))
  ]
  | inr bare ↦ elim (Bool-cases (is_digit c)) [
    | inr other ↦ other-le (c ∷ cs) v rest (rw (bare, other, parse_value) at h)
    | inl number ↦ elim (Option-cases (parse_unsigned (c ∷ cs))) [
      | inl long ↦ other-le (c ∷ cs) v rest (rw (bare, number, long, parse_value) at h)
      | inr ((n, r), read) ↦
          let same : some (unsigned_value n, r) ≡ some (v, rest) =
            rw (bare, number, read, parse_value) at h in
          let end : r ≡ rest = cc same in rw⁻¹ end (parse_unsigned-le (c ∷ cs) n r read)
    ]
  ]
]

pub parse_member-shorter :
    (s key : Bytes) (v : FlatJsonValue) (rest : Bytes)
    → parse_member s ≡ some (key, v, rest)
    → length rest < length s
unfolding parse_member
parse_member-shorter s key v rest h = elim (Option-cases (parse_string (skip_whitespace s))) [
  | inl bad ↦ cc (rw (bad, parse_member) at h)
  | inr ((named, r₁), e₁) ↦ elim (Option-cases (consume b':' (skip_whitespace r₁))) [
    | inl bad ↦ cc (rw (e₁, bad, parse_member) at h)
    | inr (r₂, e₂) ↦ elim (Option-cases (parse_value (skip_whitespace r₂))) [
      | inl bad ↦ cc (rw (e₁, e₂, bad, parse_member) at h)
      | inr ((w, r₃), e₃) ↦
          let same : some (named, w, r₃) ≡ some (key, v, rest) =
            rw (e₁, e₂, e₃, parse_member) at h in
          let end : r₃ ≡ rest = cc same in
          rw⁻¹ end (
            omega (
              arith,
              length-skip_whitespace-le s,
              parse_string-shorter (skip_whitespace s) named r₁ e₁,
              consume_next-shorter b':' r₁ r₂ e₂,
              length-skip_whitespace-le r₂,
              parse_value-le (skip_whitespace r₂) w r₃ e₃,
            ))
    ]
  ]
]

pub member_end-shorter :
    (f : Fields) (s rest : Bytes) → member_end f s ≡ comma rest → length rest < length s
unfolding member_end
member_end-shorter f s rest h = elim (Option-cases (consume b',' (skip_whitespace s))) [
  | inr (r, e) ↦
      let same : comma r ≡ comma rest = rw (e, member_end) at h in
      let end : r ≡ rest = cc same in rw⁻¹ end (consume_next-shorter b',' s r e)
  | inl e ↦ elim (Option-cases (consume b'}' (skip_whitespace s))) [
    | inr (r, e') ↦ cc (rw (e, e', member_end) at h)
    | inl e' ↦ cc (rw (e, e', member_end) at h)
  ]
]

pub MemberEnd-cases :
    (step : MemberEnd)
    → ((rest : Bytes) × (step ≡ comma rest)) ⊎ ((o : Option Fields) × (step ≡ stop o))
MemberEnd-cases (comma rest) = inl (rest, refl)
MemberEnd-cases (stop o) = inr (o, refl)
