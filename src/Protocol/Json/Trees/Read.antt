-- ===== src/Protocol/Json/Trees/Read.antt =====
-- `Parse` reads an object of trees as it is written.
use mod_playerbots_mcp.Base.{
  ℕ, ◌||◌, ◌<◌, not, is_empty, ◌+◌, ◌*◌, ◌≤◌, ◌≡◌, refl, ap, ◌∙◌, sym, subst, Bool, true, false,
  List, [], ◌∷◌, ◌++◌, some, none, Option, ◌>>=◌, lookup, Bytes, bytes, All, length, ◌==◌, arith,
}
use mod_playerbots_mcp.Protocol.Frame.RoundTrip.{IsByte}
use mod_playerbots_mcp.Protocol.Json.Nested.{skip_json_value, max_nested_depth}
use mod_playerbots_mcp.Protocol.Json.Numbers.{next_is, parse_unsigned}
use mod_playerbots_mcp.Protocol.Json.Objects.{
  FlatJsonValue, string_value, unsigned_value, other_value, FlatJsonFields, parse_value,
  parse_member, emplace,
}
use mod_playerbots_mcp.Protocol.Json.Text.{
  is_space, is_digit, consume, skip_whitespace, parse_string,
}
use mod_playerbots_mcp.Protocol.Json.Trees.{
  Json, Members, quoted, number, numeral, word, IsNumber, IsWhole, IsFraction, IsExponent,
  minus_text, sane_word, true_word, false_word, null_word, list, object, no_members, member, render,
  render_elements, render_members, Sane,
}
use mod_playerbots_mcp.Protocol.Json.Trees.Begins.{
  quoted-Begins, render-Begins, skip_whitespace-Begins,
}
use mod_playerbots_mcp.Protocol.Json.Trees.Numbers.{
  to_string-begins, to_string-IsWhole, IsWhole-begins, number_in_parts,
}
use mod_playerbots_mcp.Protocol.Json.Trees.Overflow.{
  IsSpecial, parse_unsigned-over, parse_unsigned-special,
}
use mod_playerbots_mcp.Protocol.Json.Trees.Skipped.{skip-render}
use mod_playerbots_mcp.Protocol.Print.{to_string, append_escaped_json_string}
use mod_playerbots_mcp.Protocol.Print.ReadNumbers.{continues, parse_unsigned-to_string}
use mod_playerbots_mcp.Protocol.Print.ReadStrings.{
  parse_string-append_escaped, append_escaped-begins,
}
use mod_playerbots_mcp.Protocol.Types.{max_uint64}

abbrev Bare : Bytes → Type 0
Bare t = (c : ℕ) × (cs : Bytes) × (t ≡ c ∷ cs) × ((c == b'"') ≡ false) × (is_digit c ≡ false)

-- What the flat parser makes of a tree: strings and uint64 numbers are kept. A number in
-- other words has a sign, a fraction or an exponent.
pub data ReadsAs : Json → FlatJsonValue → Type 0 where
  as_string : {s : Bytes} → All IsByte s → ReadsAs (quoted s) (string_value s)
  as_unsigned : {n : ℕ} → n ≤ max_uint64 → ReadsAs (number n) (unsigned_value n)
  as_large : {n : ℕ} → max_uint64 < n → ReadsAs (number n) other_value
  as_numeral : {t : Bytes} (n : IsNumber t) → IsSpecial n → ReadsAs (numeral t) other_value
  as_word : {t : Bytes} → ReadsAs (word t) other_value
  as_list : {es : _} → ReadsAs (list es) other_value
  as_object : {ms : Members} → ReadsAs (object ms) other_value

skip_json_value-render :
    {h : ℕ} {v : Json} (rest : Bytes)
    → Sane h v
    → h ≤ max_nested_depth
    → next_is continues rest ≡ false
    → skip_json_value (render v rest) ≡ some rest
unfolding skip_json_value
skip_json_value-render {v = v} rest s deep over =
    skip-render (2 * length (render v rest) + 2) 0 rest s (omega arith) (omega arith) over

-- What is skipped is kept as another value.
kept_as_other :
    (s rest : Bytes)
    → skip_json_value s ≡ some rest
    → ◌≡◌ {A = Option (FlatJsonValue × Bytes)}
        (elim (skip_json_value s) as (λ _. Option (FlatJsonValue × Bytes)) [
          | none ↦ none
          | some r ↦ some (other_value, r)
        ])
        (some (other_value, rest))
kept_as_other s rest h = rw h refl

other_value-read :
    (s rest : Bytes)
    → Bare s
    → skip_json_value s ≡ some rest
    → parse_value s ≡ some (other_value, rest)
unfolding parse_value
other_value-read s rest (c, cs, e, unquoted, bare) skipped =
    subst (λ x. parse_value x ≡ some (other_value, rest)) (sym e)
      (rw (parse_value, unquoted, bare)
        (kept_as_other (c ∷ cs) rest (ap skip_json_value (sym e) ∙ skipped)))

string_value-read :
    (s rest : Bytes)
    → All IsByte s
    → parse_value (append_escaped_json_string [] s ++ rest) ≡ some (string_value s, rest)
unfolding parse_value
string_value-read s rest h =
    let (t, e) = append_escaped-begins s rest in
    let here = ap parse_string (sym e) ∙ parse_string-append_escaped s rest h in
    subst (λ x. parse_value x ≡ some (string_value s, rest)) (sym e) (rw (parse_value, here) refl)

unsigned_value-read :
    (c n : ℕ) (cs rest : Bytes)
    → is_digit c ≡ true
    → parse_unsigned (c ∷ cs) ≡ some (n, rest)
    → parse_value (c ∷ cs) ≡ some (unsigned_value n, rest)
unfolding parse_value is_digit
unsigned_value-read c n cs rest d h =
    let unquoted : (c == b'"') ≡ false = ground arith in rw (parse_value, unquoted, d, h) refl

-- A number that is no uint64.
other_number-read :
    (c : ℕ) (cs rest : Bytes)
    → is_digit c ≡ true
    → parse_unsigned (c ∷ cs) ≡ none
    → skip_json_value (c ∷ cs) ≡ some rest
    → parse_value (c ∷ cs) ≡ some (other_value, rest)
unfolding parse_value
other_number-read c cs rest d unread skipped =
    let unquoted : (c == b'"') ≡ false = unfold is_digit in ground arith in
    rw (parse_value, unquoted, d, unread) (kept_as_other _ rest skipped)

-- A whole number in front of what keeps it from being read.
other_whole-read :
    {w : Bytes} (behind rest : Bytes)
    → IsWhole w
    → parse_unsigned (w ++ behind) ≡ none
    → skip_json_value (w ++ behind) ≡ some rest
    → parse_value (w ++ behind) ≡ some (other_value, rest)
other_whole-read {w = w} behind rest whole unread skipped =
    let (c, cs, e, d) = IsWhole-begins whole in
    let same : w ++ behind ≡ c ∷ (cs ++ behind) = ap (λ t. t ++ behind) e in
    subst (λ t. parse_value t ≡ some (other_value, rest)) (sym same)
      (other_number-read c (cs ++ behind) rest d (ap parse_unsigned (sym same) ∙ unread)
        (ap skip_json_value (sym same) ∙ skipped))

special-read :
    (negative : Bool) {w f p : Bytes} (rest : Bytes)
    → IsWhole w
    → IsFraction f
    → IsExponent p
    → (negative || not (is_empty (f ++ p))) ≡ true
    → skip_json_value (minus_text negative ++ (w ++ (f ++ (p ++ rest)))) ≡ some rest
    → parse_value (minus_text negative ++ (w ++ (f ++ (p ++ rest)))) ≡ some (other_value, rest)
special-read true rest whole point power special skipped =
    other_value-read _ rest (b'-', _, refl, refl, unfold is_digit in refl) skipped
special-read false rest whole point power special skipped =
    other_whole-read _ rest whole (parse_unsigned-special rest whole point power special) skipped

pub parse_value-render :
    {h : ℕ} {v : Json} {f : FlatJsonValue} (rest : Bytes)
    → Sane h v
    → h ≤ max_nested_depth
    → ReadsAs v f
    → next_is continues rest ≡ false
    → parse_value (render v rest) ≡ some (f, rest)
unfolding render is_digit
parse_value-render rest s deep (as_string {s = t} b) over = string_value-read t rest b
parse_value-render rest s deep (as_unsigned {n = n} fits) over =
    let (c, cs, e, d) = to_string-begins n in
    let same : to_string n ++ rest ≡ c ∷ (cs ++ rest) = ap (λ t. t ++ rest) e in
    subst (λ t. parse_value t ≡ some (unsigned_value n, rest)) (sym same)
      (unsigned_value-read c n (cs ++ rest) rest d
        (ap parse_unsigned (sym same) ∙ parse_unsigned-to_string n rest fits over))
parse_value-render rest s deep (as_large {n = n} large) over =
    other_whole-read rest rest (to_string-IsWhole n) (parse_unsigned-over n rest large)
      (skip_json_value-render rest s deep over)
parse_value-render rest s deep (as_numeral {t = t} n special) over =
    let same : t ++ rest
        ≡ minus_text n.negative ++ (n.whole ++ (n.behind_point ++ (n.power ++ rest))) =
      ap (λ x. x ++ rest) n.same ∙ number_in_parts n.negative n.whole n.behind_point n.power rest in
    subst (λ x. parse_value x ≡ some (other_value, rest)) (sym same)
      (special-read n.negative rest n.is_whole n.is_fraction n.is_exponent special
        (ap skip_json_value (sym same) ∙ skip_json_value-render rest s deep over))
parse_value-render rest (sane_word true_word) deep as_word over =
    other_value-read _ rest (b't', bytes "rue" ++ rest, refl, refl, refl)
      (skip_json_value-render rest (sane_word true_word) deep over)
parse_value-render rest (sane_word false_word) deep as_word over =
    other_value-read _ rest (b'f', bytes "alse" ++ rest, refl, refl, refl)
      (skip_json_value-render rest (sane_word false_word) deep over)
parse_value-render rest (sane_word null_word) deep as_word over =
    other_value-read _ rest (b'n', bytes "ull" ++ rest, refl, refl, refl)
      (skip_json_value-render rest (sane_word null_word) deep over)
parse_value-render rest s deep (as_list {es = es}) over =
    other_value-read _ rest (b'[', render_elements es (b']' ∷ rest), refl, refl, refl)
      (skip_json_value-render rest s deep over)
parse_value-render rest s deep (as_object {ms = ms}) over =
    other_value-read _ rest (b'{', render_members ms (b'}' ∷ rest), refl, refl, refl)
      (skip_json_value-render rest s deep over)

-- A member in front of what follows it.
abbrev pub render_member : Bytes → Json → Bytes → Bytes
render_member k v rest = append_escaped_json_string [] k ++ (b':' ∷ render v rest)

-- What the members of an object add to the fields that stand before them: every key is new.
pub data ReadMembers : FlatJsonFields → Members → FlatJsonFields → Type 0 where
  read_all : {acc : FlatJsonFields} → ReadMembers acc no_members acc
  read_next :
      {h : ℕ} {k : Bytes} {v : Json} {ms : Members} {f : FlatJsonValue} {acc out : FlatJsonFields}
      → All IsByte k
      → Sane h v
      → h ≤ max_nested_depth
      → ReadsAs v f
      → lookup k acc ≡ none
      → ReadMembers ((k, f) ∷ acc) ms out
      → ReadMembers acc (member k v ms) out

pub parse_member-render :
    {h : ℕ} {v : Json} {f : FlatJsonValue} (k rest : Bytes)
    → All IsByte k
    → Sane h v
    → h ≤ max_nested_depth
    → ReadsAs v f
    → next_is continues rest ≡ false
    → parse_member (render_member k v rest) ≡ some (k, f, rest)
unfolding parse_member consume skip_whitespace is_space
parse_member-render {v = v} {f = f} k rest b s deep r over =
    rw
      (
        parse_member,
        skip_whitespace-Begins _ (quoted-Begins k (b':' ∷ render v rest)),
        parse_string-append_escaped k (b':' ∷ render v rest) b,
        skip_whitespace-Begins _ (render-Begins rest s),
        parse_value-render rest s deep r over,
        ◌>>=◌,
      )
      refl

pub emplace_new :
    (k : Bytes) (f : FlatJsonValue) (acc : FlatJsonFields) (dup : List Bytes)
    → lookup k acc ≡ none
    → emplace false k f (record { fields = acc; duplicates = dup })
      ≡ some (record { fields = (k, f) ∷ acc; duplicates = dup })
unfolding emplace
emplace_new k f acc dup h = rw (emplace, h) refl
