-- ===== src/Protocol/Json/Trees/Starts.antt =====
-- How the text of each kind of tree begins the skipping of a value.
use mod_playerbots_mcp.Base.{
  ℕ, subst, ◌≤◌, ◌≡◌, refl, ap, ◌∙◌, sym, true, false, ◌||◌, [], ◌∷◌, ◌++◌, some, Option, ◌>>=◌,
  Bytes, All, ltb, ◌==◌, arith,
}
use mod_playerbots_mcp.Protocol.Frame.RoundTrip.{IsByte}
use mod_playerbots_mcp.Protocol.Json.Nested.{
  value_start, array_start, object_start, member_key, skip_string, consume_literal,
  max_nested_depth, finished,
}
use mod_playerbots_mcp.Protocol.Json.Numbers.{next_is, skip_number}
use mod_playerbots_mcp.Protocol.Json.Text.{is_space, is_digit, consume, skip_whitespace}
use mod_playerbots_mcp.Protocol.Json.Trees.{
  Elements, Members, more_elements, more_members, no_elements, element, no_members, member, IsWord,
  true_word, false_word, null_word, IsNumber, SaneElements, SaneMembers,
}
use mod_playerbots_mcp.Protocol.Json.Trees.Numbers.{IsNumber-begins, skip_number-IsNumber}
use mod_playerbots_mcp.Protocol.Print.{append_escaped_json_string}
use mod_playerbots_mcp.Protocol.Print.ReadNumbers.{continues}
use mod_playerbots_mcp.Protocol.Print.ReadStrings.{
  parse_string-append_escaped, append_escaped-begins,
}
use mod_playerbots_mcp.Protocol.Json.Trees.Begins.{Begins, skip_whitespace-Begins}

-- The next item, or the end, stands where an item is skipped to.
pub after_elements :
    {h : ℕ} (es : Elements) (rest : Bytes)
    → SaneElements h es
    → next_is continues (more_elements es (b']' ∷ rest)) ≡ false
unfolding more_elements is_digit
after_elements no_elements rest s = refl
after_elements (element v es) rest s = refl

pub after_members :
    {h : ℕ} (ms : Members) (rest : Bytes)
    → SaneMembers h ms
    → next_is continues (more_members ms (b'}' ∷ rest)) ≡ false
unfolding more_members is_digit
after_members no_members rest s = refl
after_members (member k v ms) rest s = refl

skip_string-quoted :
    (s rest : Bytes)
    → All IsByte s
    → skip_string (append_escaped_json_string [] s ++ rest) ≡ some rest
unfolding skip_string
skip_string-quoted s rest h = rw (skip_string, parse_string-append_escaped s rest h) refl

-- A key, the colon and what begins a value.
pub member_key-quoted :
    (k text : Bytes)
    → All IsByte k
    → Begins text
    → member_key (append_escaped_json_string [] k ++ (b':' ∷ text)) ≡ some text
unfolding member_key skip_whitespace consume is_space
member_key-quoted k text h b =
    rw (member_key, skip_string-quoted k (b':' ∷ text) h, ◌>>=◌)
      (ap some (skip_whitespace-Begins text b))

-- How a quoted string and a number begin the skipping of a value.
start_quote :
    (depth : ℕ) (t : Bytes) (o : Option Bytes)
    → depth ≤ max_nested_depth
    → skip_string (b'"' ∷ t) ≡ o
    → value_start depth (b'"' ∷ t) ≡ finished o
unfolding value_start
start_quote depth t o d h =
    let deep : ltb max_nested_depth depth ≡ false = ground arith in
    rw (value_start, deep) (ap finished h)

pub start-quoted :
    (depth : ℕ) (s rest : Bytes)
    → depth ≤ max_nested_depth
    → All IsByte s
    → value_start depth (append_escaped_json_string [] s ++ rest) ≡ finished (some rest)
start-quoted depth s rest d h =
    let (t, e) = append_escaped-begins s rest in
    subst (λ x. value_start depth x ≡ finished (some rest)) (sym e)
      (start_quote depth t (some rest) d (ap skip_string (sym e) ∙ skip_string-quoted s rest h))

start_digit :
    (depth c : ℕ) (t : Bytes)
    → depth ≤ max_nested_depth
    → (c == b'-' || is_digit c) ≡ true
    → value_start depth (c ∷ t) ≡ finished (skip_number (c ∷ t))
unfolding value_start is_digit
start_digit depth c t d h =
    let deep : ltb max_nested_depth depth ≡ false = ground arith in
    let unquoted : (c == b'"') ≡ false = ground arith in rw (value_start, deep, unquoted, h) refl

pub start-numeral :
    {t : Bytes} (depth : ℕ) (rest : Bytes)
    → depth ≤ max_nested_depth
    → IsNumber t
    → next_is continues rest ≡ false
    → value_start depth (t ++ rest) ≡ finished (some rest)
start-numeral {t = t} depth rest d n stop =
    let (c, cs, e, digit) = IsNumber-begins n in
    let same : t ++ rest ≡ c ∷ (cs ++ rest) = ap (λ x. x ++ rest) e in
    subst (λ x. value_start depth x ≡ finished (some rest)) (sym same)
      (start_digit depth c (cs ++ rest) d digit
        ∙ ap finished (ap skip_number (sym same) ∙ skip_number-IsNumber rest n stop))

pub start-word :
    {t : Bytes} (depth : ℕ) (rest : Bytes)
    → depth ≤ max_nested_depth
    → IsWord t
    → value_start depth (t ++ rest) ≡ finished (some rest)
unfolding value_start consume_literal is_digit
start-word depth rest d true_word =
    let deep : ltb max_nested_depth depth ≡ false = ground arith in rw (value_start, deep) refl
start-word depth rest d false_word =
    let deep : ltb max_nested_depth depth ≡ false = ground arith in rw (value_start, deep) refl
start-word depth rest d null_word =
    let deep : ltb max_nested_depth depth ≡ false = ground arith in rw (value_start, deep) refl

pub start_bracket :
    (depth : ℕ) (t : Bytes)
    → depth ≤ max_nested_depth
    → value_start depth (b'[' ∷ t) ≡ array_start t
unfolding value_start is_digit
start_bracket depth t d =
    let deep : ltb max_nested_depth depth ≡ false = ground arith in rw (value_start, deep) refl

pub start_brace :
    (depth : ℕ) (t : Bytes)
    → depth ≤ max_nested_depth
    → value_start depth (b'{' ∷ t) ≡ object_start t
unfolding value_start is_digit
start_brace depth t d =
    let deep : ltb max_nested_depth depth ≡ false = ground arith in rw (value_start, deep) refl
