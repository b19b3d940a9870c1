-- ===== src/Protocol/Json/Shrinks.antt =====
-- What the parser's routines leave of the text is shorter than what they were given.
pub mod Values
pub mod Nesting
use mod_playerbots_mcp.Base.{
  ℕ, zero, suc, ◌+◌, ◌≤◌, ◌<◌, ◌≡◌, refl, ◌⊎◌, subst, Bool, true, false, [], ◌∷◌, ◌++◌, some, Bytes,
  length, arith, Option-cases, inl, inr, if◌then◌else◌, ◌==◌,
}
use mod_playerbots_mcp.Protocol.Json.Text.{
  skip_whitespace, consume, parse_hex4, StringStep, closed, piece, bad, unicode_step, escape_step,
  string_step, string_loop, parse_string,
}

pub length-skip_whitespace-le : (s : Bytes) → length (skip_whitespace s) ≤ length s
unfolding skip_whitespace
length-skip_whitespace-le [] = omega arith
length-skip_whitespace-le (c ∷ cs) = ground (arith, length-skip_whitespace-le cs)

pub consume-shorter :
    (expected : ℕ) (s rest : Bytes) → consume expected s ≡ some rest → length rest + 1 ≡ length s
unfolding consume
consume-shorter expected [] rest h = cc
consume-shorter expected (c ∷ cs) rest h = ground arith

-- The same, behind whitespace.
pub consume_next-shorter :
    (expected : ℕ) (s rest : Bytes)
    → consume expected (skip_whitespace s) ≡ some rest
    → length rest < length s
consume_next-shorter expected s rest h =
    omega (arith, consume-shorter expected (skip_whitespace s) rest h, length-skip_whitespace-le s)

-- What a step of a string leaves.
pub data StepLeaves (n : ℕ) : StringStep → Type 0 where
  leaves_closed : {rest : Bytes} → length rest ≤ n → StepLeaves n (closed rest)
  leaves_piece : {result rest : Bytes} → length rest ≤ n → StepLeaves n (piece result rest)
  leaves_bad : StepLeaves n bad

parse_hex4-shorter :
    (s rest : Bytes) (v : ℕ) → parse_hex4 s ≡ some (v, rest) → length rest ≤ length s
unfolding parse_hex4
parse_hex4-shorter (a ∷ b ∷ c ∷ d ∷ left) rest v h = ground arith
parse_hex4-shorter _ rest v h = cc

if-StepLeaves :
    (n : ℕ) (test : Bool) (a b : StringStep)
    → StepLeaves n a
    → StepLeaves n b
    → StepLeaves n (if test then a else b)
if-StepLeaves n true a b h k = h
if-StepLeaves n false a b h k = k

StepLeaves-more : (m n : ℕ) (step : StringStep) → m ≤ n → StepLeaves m step → StepLeaves n step
StepLeaves-more m n step h (leaves_closed k) = leaves_closed (omega arith)
StepLeaves-more m n step h (leaves_piece k) = leaves_piece (omega arith)
StepLeaves-more m n step h leaves_bad = leaves_bad

unicode_step-Leaves : (result s : Bytes) → StepLeaves (length s) (unicode_step result s)
unfolding unicode_step
unicode_step-Leaves result s = elim (Option-cases (parse_hex4 s)) [
  | inl none_read ↦ rw (none_read, unicode_step) leaves_bad
  | inr ((v, rest), read) ↦
      rw (read, unicode_step)
        (if-StepLeaves _ _ _ _ leaves_bad (leaves_piece (parse_hex4-shorter s rest v read)))
]

escape-Leaves :
    (test : Bool) (output cs : Bytes) (other : StringStep)
    → StepLeaves (suc (length cs)) other
    → StepLeaves (suc (length cs)) (if test then piece output cs else other)
escape-Leaves true output cs other h = leaves_piece (omega arith)
escape-Leaves false output cs other h = h

escape_step-Leaves : (result s : Bytes) → StepLeaves (length s) (escape_step result s)
unfolding escape_step
escape_step-Leaves result [] = leaves_bad
escape_step-Leaves result (e ∷ cs) =
    let next : length cs ≤ length (e ∷ cs) = omega arith in
    escape-Leaves (e == b'"') (result ++ b'"' ∷ []) cs _ (
      escape-Leaves (e == b'\\') (result ++ b'\\' ∷ []) cs _ (
        escape-Leaves (e == b'/') (result ++ b'/' ∷ []) cs _ (
          escape-Leaves (e == b'n') (result ++ b'\n' ∷ []) cs _ (
            escape-Leaves (e == b'r') (result ++ b'\r' ∷ []) cs _ (
              escape-Leaves (e == b't') (result ++ b'\t' ∷ []) cs _ (
                escape-Leaves (e == b'b') (result ++ 0x08 ∷ []) cs _ (
                  escape-Leaves (e == b'f') (result ++ 0x0C ∷ []) cs _ (
                    if-StepLeaves _ (e == b'u') _ _
                      (StepLeaves-more (length cs) _ _ next (unicode_step-Leaves result cs))
                      leaves_bad))))))))

string_step-Leaves : (result s : Bytes) (c : ℕ) → StepLeaves (length s) (string_step result (c ∷ s))
unfolding string_step
string_step-Leaves result s c = if-StepLeaves _ _ _ _ (leaves_closed (omega arith)) (
    if-StepLeaves _ _ _ _ (escape_step-Leaves result s)
      (if-StepLeaves _ _ _ _ leaves_bad (leaves_piece (omega arith))))

pub StringStep-cases :
    (step : StringStep)
    → ((rest : Bytes) × (step ≡ closed rest))
      ⊎ ((result : Bytes) × (rest : Bytes) × (step ≡ piece result rest))
      ⊎ (step ≡ bad)
StringStep-cases (closed rest) = inl (rest, refl)
StringStep-cases (piece result rest) = inr (inl (result, rest, refl))
StringStep-cases bad = inr (inr refl)

leaves_of-closed : (n : ℕ) (rest : Bytes) → StepLeaves n (closed rest) → length rest ≤ n
leaves_of-closed n rest (leaves_closed h) = h

leaves_of-piece : (n : ℕ) (result rest : Bytes) → StepLeaves n (piece result rest) → length rest ≤ n
leaves_of-piece n result rest (leaves_piece h) = h

string_step-nothing : (result : Bytes) → string_step result [] ≡ bad
unfolding string_step
string_step-nothing result = refl

pub string_step-closed :
    (result s rest : Bytes) → string_step result s ≡ closed rest → length rest < length s
string_step-closed result [] rest h = cc (string_step-nothing result)
string_step-closed result (c ∷ cs) rest h = omega (
  arith,
  leaves_of-closed (length cs) rest
      (subst (StepLeaves (length cs)) h (string_step-Leaves result cs c)),
)

pub string_step-piece :
    (result s more rest : Bytes) → string_step result s ≡ piece more rest → length rest < length s
string_step-piece result [] more rest h = cc (string_step-nothing result)
string_step-piece result (c ∷ cs) more rest h = omega (
  arith,
  leaves_of-piece (length cs) more rest
      (subst (StepLeaves (length cs)) h (string_step-Leaves result cs c)),
)

-- A string that is read takes its closing quote at least, on whatever fuel.
pub string_loop-shorter :
    (fuel : ℕ) (result s t rest : Bytes)
    → string_loop fuel result s ≡ some (t, rest)
    → length rest < length s
unfolding string_loop
string_loop-shorter zero result s t rest h = cc
string_loop-shorter (suc fuel) result s t rest h = elim (StringStep-cases (string_step result s)) [
  | inl (r, e) ↦
      let same : some (result, r) ≡ some (t, rest) = rw (e, string_loop) at h in
      let end : r ≡ rest = cc same in rw⁻¹ end (string_step-closed result s r e)
  | inr (inl (more, r, e)) ↦
      let later : string_loop fuel more r ≡ some (t, rest) = rw (e, string_loop) at h in
      omega
        (arith, string_step-piece result s more r e, string_loop-shorter fuel more r t rest later)
  | inr (inr e) ↦ cc (rw (e, string_loop) at h)
]

pub parse_string-shorter :
    (s t rest : Bytes) → parse_string s ≡ some (t, rest) → length rest < length s
unfolding parse_string
parse_string-shorter s t rest h = elim (Option-cases (consume b'"' s)) [
  | inl missing ↦ cc (rw (missing, parse_string) at h)
  | inr (inside, e) ↦ omega (
    arith,
    consume-shorter b'"' s inside e,
    string_loop-shorter (suc (length inside)) [] inside t rest (rw (e, parse_string) at h),
  )
]
