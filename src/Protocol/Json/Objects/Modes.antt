-- ===== src/Protocol/Json/Objects/Modes.antt =====
-- The two modes of `Parse` agree where the strict one succeeds, and its numbers are uint64 values.
use mod_playerbots_mcp.Base.{
  ℕ, zero, suc, ◌+◌, ◌-◌, ◌*◌, ◌%◌, ◌^◌, ◌≤◌, ◌≡◌, refl, ap, ◌∙◌, sym, subst, Bool, true, false,
  List, [], ◌∷◌, Option, some, Bytes, All, length, arith, Option-cases, some-eq_inv, inl, inr,
  bind-eq-some,
}
use mod_playerbots_mcp.Protocol.Json.Numbers.{unsigned_loop, parse_unsigned}
use mod_playerbots_mcp.Protocol.Json.Objects.{
  FlatJsonValue, FlatJsonFields, Fields, parse_value, parse_member, emplace, finish, MemberEnd,
  comma, stop, member_end, member_loop, no_fields, object_body, parse, parse_strict, parse_lenient,
}
use mod_playerbots_mcp.Protocol.Json.Text.{skip_whitespace, consume, parse_string}
use mod_playerbots_mcp.Protocol.Types.{max_uint64}

finish-same : (f g : Fields) (s : Bytes) → finish f s ≡ some g → f ≡ g
unfolding finish
finish-same f g s h = ground arith

abbrev Stops : Fields → MemberEnd → Type 0
Stops f (comma rest) = Unit
Stops f (stop result) = (g : Fields) → result ≡ some g → f ≡ g

member_end-Stops : (f : Fields) (s : Bytes) → Stops f (member_end f s)
unfolding member_end
member_end-Stops f s = elim (Option-cases (consume b',' (skip_whitespace s))) [
  | inr (rest, e) ↦ rw (e, member_end) tt
  | inl e ↦ elim (Option-cases (consume b'}' (skip_whitespace s))) [
    | inl e' ↦ rw (e, e', member_end) (λ g h. cc)
    | inr (rest, e') ↦ rw (e, e', member_end) (λ g h. finish-same f g rest h)
  ]
]

-- `emplace` on a key that is new does not look at the mode.
emplace-strict :
    (key : Bytes) (v : FlatJsonValue) (f g : Fields)
    → emplace false key v f ≡ some g
    → (emplace true key v f ≡ some g) × (g ≡ record f { fields = (key, v) ∷ f.fields })
unfolding emplace
emplace-strict key v f g h = (ground arith, ground arith)

-- The loop behind a member.
abbrev after_member : Bool → ℕ → Fields → MemberEnd → Option Fields
after_member keep fuel f (comma r) = member_loop keep fuel f r
after_member keep fuel f (stop result) = result

member_loop-eq-after_member :
    (keep : Bool) (fuel : ℕ) (f f' : Fields) (s : Bytes) (key : Bytes) (v : FlatJsonValue)
    (rest : Bytes)
    → parse_member s ≡ some (key, v, rest)
    → emplace keep key v f ≡ some f'
    → member_loop keep (suc fuel) f s ≡ after_member keep fuel f' (member_end f' rest)
unfolding member_loop
member_loop-eq-after_member keep fuel f f' s key v rest read added =
    rw (read, added, member_loop) (same (member_end f' rest))
  where
    same :
        (e : MemberEnd)
        → elim e [ comma r ↦ member_loop keep fuel f' r | stop result ↦ result ]
          ≡ after_member keep fuel f' e
    same (comma r) = refl
    same (stop result) = refl

-- What a successful strict run says of the lenient one, and a property of fields that each member
-- keeps.
module _ (P : FlatJsonFields → Type 0)
    (member : (key : Bytes) (v : FlatJsonValue) (s rest : Bytes) (fs : FlatJsonFields)
      → parse_member s ≡ some (key, v, rest)
      → P fs
      → P ((key, v) ∷ fs)) where
  record Agrees (keep_result : Option Fields) (duplicates : List Bytes) (g : Fields) : Type 0 where
    pub lenient : keep_result ≡ some g
    pub same_duplicates : g.duplicates ≡ duplicates
    pub kept : P g.fields

  member_end-Agrees :
      (fuel : ℕ) (f g : Fields) (e : MemberEnd)
      → P f.fields
      → Stops f e
      → ((s : Bytes)
          → member_loop false fuel f s ≡ some g
          → Agrees (member_loop true fuel f s) f.duplicates g)
      → after_member false fuel f e ≡ some g
      → Agrees (after_member true fuel f e) f.duplicates g
  member_end-Agrees fuel f g (comma r) p s later h = later r h
  member_end-Agrees fuel f g (stop result) p s later h =
      let same = s g h in
      record {
        lenient = h;
        same_duplicates = ap (λ (x : Fields). x.duplicates) (sym same);
        kept = subst (λ (x : Fields). P x.fields) same p;
      }

  member_loop-Agrees :
      (fuel : ℕ) (f g : Fields) (s : Bytes)
      → P f.fields
      → member_loop false fuel f s ≡ some g
      → Agrees (member_loop true fuel f s) f.duplicates g
  unfolding member_loop
  member_loop-Agrees zero f g s p h = cc
  member_loop-Agrees (suc fuel) f g s p h = elim (Option-cases (parse_member s)) [
    | inl bad ↦ cc (rw (bad, member_loop) at h)
    | inr ((key, v, rest), read) ↦ elim (Option-cases (emplace false key v f)) [
      | inl twice ↦ cc (rw (read, twice, member_loop) at h)
      | inr (f', added) ↦
          let (again, same) = emplace-strict key v f f' added in
          let p' : P f'.fields = rw same (member key v s rest f.fields read p) in
          let strict =
            sym (member_loop-eq-after_member false fuel f f' s key v rest read added) ∙ h in
          let agrees =
            member_end-Agrees fuel f' g (member_end f' rest) p' (member_end-Stops f' rest)
              (λ r. member_loop-Agrees fuel f' g r p') strict in
          record {
            lenient =
                member_loop-eq-after_member true fuel f f' s key v rest read again ∙ agrees.lenient;
            same_duplicates = agrees.same_duplicates ∙ ap (λ (x : Fields). x.duplicates) same;
            kept = agrees.kept;
          }
    ]
  ]

  object_body-Agrees :
      (s : Bytes) (g : Fields)
      → P []
      → object_body false s ≡ some g
      → Agrees (object_body true s) [] g
  unfolding object_body
  object_body-Agrees s g p h = elim (Option-cases (consume b'}' (skip_whitespace s))) [
    | inl more ↦
        rw (more, object_body)
          (member_loop-Agrees (suc (length s)) no_fields g (skip_whitespace s) p
            (rw (more, object_body) at h))
    | inr (rest, closed) ↦
        let ended : finish no_fields rest ≡ some g = rw (closed, object_body) at h in
        let same = finish-same no_fields g rest ended in
        rw (closed, object_body)
          (record {
            lenient = ended;
            same_duplicates = ap (λ (x : Fields). x.duplicates) (sym same);
            kept = subst (λ (x : Fields). P x.fields) same p;
          })
  ]

  parse-Agrees :
      (s : Bytes) (g : Fields) → P [] → parse false s ≡ some g → Agrees (parse true s) [] g
  unfolding parse
  parse-Agrees s g p h = elim (Option-cases (consume b'{' (skip_whitespace s))) [
    | inl bad ↦ cc (rw (bad, parse) at h)
    | inr (inside, opened) ↦
        rw (opened, parse) (object_body-Agrees inside g p (rw (opened, parse) at h))
  ]

-- A payload that the strict parse takes, the lenient one takes with the same fields and no key that
-- came twice.
pub parse_lenient-parse_strict :
    (s : Bytes) (fields : FlatJsonFields)
    → parse_strict s ≡ some fields
    → parse_lenient s ≡ some (record { fields = fields; duplicates = [] })
unfolding parse_strict parse_lenient
parse_lenient-parse_strict s fields h = elim (Option-cases (parse false s)) [
  | inl bad ↦ cc (rw (bad, parse_strict) at h)
  | inr (g, good) ↦
      let agrees = parse-Agrees (λ _. Unit) (λ _ _ _ _ _ _ _. tt) s g tt good in
      let same : g.fields ≡ fields = some-eq_inv (rw (good, parse_strict) at h) in
      agrees.lenient
      ∙ ap some (λ i. record { fields = same i; duplicates = agrees.same_duplicates i })
]

unsigned_loop-le :
    (s : Bytes) (r d n k : ℕ) (rest : Bytes)
    → r ≤ max_uint64
    → unsigned_loop r d s ≡ some (n, k, rest)
    → n ≤ max_uint64
unfolding unsigned_loop
unsigned_loop-le [] r d n k rest h e = ground arith
unsigned_loop-le (c ∷ cs) r d n k rest h e =
    ground (arith, unsigned_loop-le cs ((r * 10 + (c - b'0')) % 2 ^ 64) (d + 1) n k rest)

parse_unsigned-le :
    (s : Bytes) (n : ℕ) (rest : Bytes) → parse_unsigned s ≡ some (n, rest) → n ≤ max_uint64
unfolding parse_unsigned
parse_unsigned-le s n rest h = elim (Option-cases (unsigned_loop 0 0 s)) [
  | inl bad ↦ cc (rw (bad, parse_unsigned) at h)
  | inr ((m, k, r), read) ↦
      let bound = unsigned_loop-le s 0 0 m k r (omega arith) read in
      let h' = rw (read, parse_unsigned) at h in ground (arith)
]

abbrev pub IsUint64 : FlatJsonValue → Type 0
IsUint64 v = v.number ≤ max_uint64

parse_value-IsUint64 :
    (s : Bytes) (v : FlatJsonValue) (rest : Bytes) → parse_value s ≡ some (v, rest) → IsUint64 v
unfolding parse_value
parse_value-IsUint64 [] v rest h = cc
parse_value-IsUint64 (c ∷ cs) v rest h = elim (Option-cases (parse_unsigned (c ∷ cs))) [
  | inl other ↦ ground arith
  | inr ((n, r), e) ↦ ground (arith, parse_unsigned-le (c ∷ cs) n r e)
]

parse_member-IsUint64 :
    (s key : Bytes) (v : FlatJsonValue) (rest : Bytes)
    → parse_member s ≡ some (key, v, rest)
    → IsUint64 v
unfolding parse_member
parse_member-IsUint64 s key v rest h =
    let (one, _, h₁) = bind-eq-some (parse_string (skip_whitespace s)) _ h in
    let (two, _, h₂) = bind-eq-some (consume b':' (skip_whitespace one.1)) _ h₁ in
    let (three, e, h₃) = bind-eq-some (parse_value (skip_whitespace two)) _ h₂ in
    ground (arith, parse_value-IsUint64 (skip_whitespace two) three.0 three.1)

abbrev pub AreUint64 : FlatJsonFields → Type 0
AreUint64 = All (λ (entry : Bytes × FlatJsonValue). IsUint64 entry.1)

-- The unsigned fields of a parsed object are uint64 values.
pub parse_strict-AreUint64 :
    (s : Bytes) (fields : FlatJsonFields) → parse_strict s ≡ some fields → AreUint64 fields
unfolding parse_strict
parse_strict-AreUint64 s fields h = elim (Option-cases (parse false s)) [
  | inl bad ↦ cc (rw (bad, parse_strict) at h)
  | inr (g, good) ↦
      let agrees =
        parse-Agrees AreUint64 (λ key v t rest fs e p. (parse_member-IsUint64 t key v rest e, p)) s
          g tt good in
      subst AreUint64 (some-eq_inv (rw (good, parse_strict) at h)) agrees.kept
]
