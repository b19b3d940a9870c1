-- ===== src/Protocol/Json/Trees/Begins.antt =====
-- What the text of a tree begins with.
use mod_playerbots_mcp.Base.{
  ℕ, ◌≡◌, refl, ap, true, false, [], ◌∷◌, ◌++◌, ◌||◌, none, Bytes, bytes, ◌==◌, arith,
}
use mod_playerbots_mcp.Protocol.Json.Text.{is_space, is_digit, consume, skip_whitespace}
use mod_playerbots_mcp.Protocol.Json.Trees.{
  Json, render, render_elements, render_members, sane_quoted, sane_number, sane_numeral, sane_word,
  IsNumber, IsWord, true_word, false_word, null_word, sane_list, sane_object, Sane,
}
use mod_playerbots_mcp.Protocol.Json.Trees.Numbers.{IsNumber-begins, to_string-IsNumber}
use mod_playerbots_mcp.Protocol.Print.{append_escaped_json_string}
use mod_playerbots_mcp.Protocol.Print.ReadStrings.{append_escaped-begins}

-- A text whose first character is neither whitespace nor a closing bracket.
pub record Begins (s : Bytes) : Type 0 where
  pub first : ℕ
  pub tail : Bytes
  pub same : s ≡ first ∷ tail
  pub no_space : is_space first ≡ false
  pub no_close : (first == b']') ≡ false

digit_begins :
    (c : ℕ) → (c == b'-' || is_digit c) ≡ true → (is_space c ≡ false) × ((c == b']') ≡ false)
unfolding is_digit is_space
digit_begins c h = (ground arith, ground arith)

pub quoted-Begins : (s rest : Bytes) → Begins (append_escaped_json_string [] s ++ rest)
unfolding is_space
quoted-Begins s rest =
    let (t, e) = append_escaped-begins s rest in
    record { first = b'"'; tail = t; same = e; no_space = refl; no_close = refl }

numeral-Begins : {t : Bytes} (rest : Bytes) → IsNumber t → Begins (t ++ rest)
numeral-Begins rest n =
    let (c, cs, e, d) = IsNumber-begins n in
    let (space, close) = digit_begins c d in
    record {
      first = c;
      tail = cs ++ rest;
      same = ap (λ t. t ++ rest) e;
      no_space = space;
      no_close = close;
    }

word-Begins : {t : Bytes} (rest : Bytes) → IsWord t → Begins (t ++ rest)
unfolding is_space
word-Begins rest true_word = record {
  first = b't';
  tail = bytes "rue" ++ rest;
  same = refl;
  no_space = refl;
  no_close = refl;
}
word-Begins rest false_word = record {
  first = b'f';
  tail = bytes "alse" ++ rest;
  same = refl;
  no_space = refl;
  no_close = refl;
}
word-Begins rest null_word = record {
  first = b'n';
  tail = bytes "ull" ++ rest;
  same = refl;
  no_space = refl;
  no_close = refl;
}

pub render-Begins : {h : ℕ} {v : Json} (rest : Bytes) → Sane h v → Begins (render v rest)
unfolding render is_space
render-Begins rest (sane_quoted {s = s} h) = quoted-Begins s rest
render-Begins rest (sane_number {n = n}) = numeral-Begins rest (to_string-IsNumber n)
render-Begins rest (sane_numeral n) = numeral-Begins rest n
render-Begins rest (sane_word w) = word-Begins rest w
render-Begins rest (sane_list {es = es} h) = record {
  first = b'[';
  tail = render_elements es (b']' ∷ rest);
  same = refl;
  no_space = refl;
  no_close = refl;
}
render-Begins rest (sane_object {ms = ms} h) = record {
  first = b'{';
  tail = render_members ms (b'}' ∷ rest);
  same = refl;
  no_space = refl;
  no_close = refl;
}

-- Nothing is skipped in front of it, and it closes nothing.
pub skip_whitespace-Begins : (s : Bytes) → Begins s → skip_whitespace s ≡ s
unfolding skip_whitespace
skip_whitespace-Begins s b = rw (b.same, skip_whitespace, b.no_space) refl

pub consume-Begins : (s : Bytes) → Begins s → consume b']' s ≡ none
unfolding consume
consume-Begins s b = rw (b.same, consume, b.no_close) refl
