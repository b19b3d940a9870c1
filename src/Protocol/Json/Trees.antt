-- ===== src/Protocol/Json/Trees.antt =====
-- JSON as an independent description: trees, and the one way in which the module writes them.
pub mod Numbers
pub mod Begins
pub mod Starts
pub mod Rounds
pub mod Skipped
pub mod Read
pub mod RoundTrip
pub mod Overflow
pub mod Given
use mod_playerbots_mcp.Base.{
  ℕ, suc, ◌+◌, ◌*◌, ◌≤◌, ◌≡◌, max, Bool, true, false, [], ◌∷◌, ◌++◌, ◌||◌, some, Bytes, bytes, All,
  length, ◌==◌,
}
use mod_playerbots_mcp.Protocol.Frame.RoundTrip.{IsByte}
use mod_playerbots_mcp.Protocol.Json.Nested.{skip, value, max_nested_depth}
use mod_playerbots_mcp.Protocol.Json.Numbers.{next_is}
use mod_playerbots_mcp.Protocol.Json.Text.{is_space}
use mod_playerbots_mcp.Protocol.Print.{to_string, append_escaped_json_string}
use mod_playerbots_mcp.Protocol.Print.ReadNumbers.{continues}

abbrev pub IsDigit : ℕ → Type 0
IsDigit c = (b'0' ≤ c) × (c ≤ b'9')

-- The grammar of JSON numbers: a sign, a whole number with no leading zero, a fraction and an
-- exponent, the last two and the sign only if they are there.
pub data IsWhole : Bytes → Type 0 where
  zero_digit : IsWhole (b'0' ∷ [])
  digits : {c : ℕ} {cs : Bytes} → b'1' ≤ c → c ≤ b'9' → All IsDigit cs → IsWhole (c ∷ cs)

pub data IsFraction : Bytes → Type 0 where
  no_fraction : IsFraction []
  fraction : {c : ℕ} {cs : Bytes} → IsDigit c → All IsDigit cs → IsFraction (b'.' ∷ c ∷ cs)

pub data IsSign : Bytes → Type 0 where
  no_sign : IsSign []
  plus : IsSign (b'+' ∷ [])
  minus : IsSign (b'-' ∷ [])

pub data IsExponent : Bytes → Type 0 where
  no_exponent : IsExponent []
  exponent :
      (e : ℕ) (s : Bytes) (c : ℕ) (cs : Bytes)
      → (e == b'e' || e == b'E') ≡ true
      → IsSign s
      → IsDigit c
      → All IsDigit cs
      → IsExponent (e ∷ (s ++ (c ∷ cs)))

abbrev pub minus_text : Bool → Bytes
minus_text true = b'-' ∷ []
minus_text false = []

pub record IsNumber (t : Bytes) : Type 0 where
  pub negative : Bool
  pub whole : Bytes
  pub behind_point : Bytes
  pub power : Bytes
  pub is_whole : IsWhole whole
  pub is_fraction : IsFraction behind_point
  pub is_exponent : IsExponent power
  pub same : t ≡ minus_text negative ++ (whole ++ (behind_point ++ power))

pub data IsWord : Bytes → Type 0 where
  true_word : IsWord (bytes "true")
  false_word : IsWord (bytes "false")
  null_word : IsWord (bytes "null")

-- A natural number, or any number in the words of another component; and a word.
mutual
  pub data Json : Type 0 where
    quoted : Bytes → Json
    number : ℕ → Json
    numeral : Bytes → Json
    word : Bytes → Json
    list : Elements → Json
    object : Members → Json

  pub data Elements : Type 0 where
    no_elements : Elements
    element : Json → Elements → Elements

  pub data Members : Type 0 where
    no_members : Members
    member : Bytes → Json → Members → Members

abbrev pub truth_text : Bool → Bytes
truth_text true = bytes "true"
truth_text false = bytes "false"

-- The text of a tree, in front of what follows it.
unfoldable mutual
  pub render : Json → Bytes → Bytes
  render (quoted s) rest = append_escaped_json_string [] s ++ rest
  render (number n) rest = to_string n ++ rest
  render (numeral t) rest = t ++ rest
  render (word t) rest = t ++ rest
  render (list es) rest = b'[' ∷ render_elements es (b']' ∷ rest)
  render (object ms) rest = b'{' ∷ render_members ms (b'}' ∷ rest)

  pub render_elements : Elements → Bytes → Bytes
  render_elements no_elements rest = rest
  render_elements (element v es) rest = render v (more_elements es rest)

  pub more_elements : Elements → Bytes → Bytes
  more_elements no_elements rest = rest
  more_elements (element v es) rest = b',' ∷ render v (more_elements es rest)

  pub render_members : Members → Bytes → Bytes
  render_members no_members rest = rest
  render_members (member k v ms) rest =
      append_escaped_json_string [] k ++ (b':' ∷ render v (more_members ms rest))

  pub more_members : Members → Bytes → Bytes
  more_members no_members rest = rest
  more_members (member k v ms) rest =
      b',' ∷ append_escaped_json_string [] k ++ (b':' ∷ render v (more_members ms rest))

-- Strings are of bytes, numbers are JSON numbers, words are JSON words, and the tree is nested at most so deep.
mutual
  pub data Sane : ℕ → Json → Type 0 where
    sane_quoted : {h : ℕ} {s : Bytes} → All IsByte s → Sane h (quoted s)
    sane_number : {h n : ℕ} → Sane h (number n)
    sane_numeral : {h : ℕ} {t : Bytes} → IsNumber t → Sane h (numeral t)
    sane_word : {h : ℕ} {t : Bytes} → IsWord t → Sane h (word t)
    sane_list : {h : ℕ} {es : Elements} → SaneElements h es → Sane (suc h) (list es)
    sane_object : {h : ℕ} {ms : Members} → SaneMembers h ms → Sane (suc h) (object ms)

  pub data SaneElements : ℕ → Elements → Type 0 where
    ends_list : {h : ℕ} → SaneElements h no_elements
    with_element :
        {h : ℕ} {v : Json} {es : Elements}
        → Sane h v
        → SaneElements h es
        → SaneElements h (element v es)

  pub data SaneMembers : ℕ → Members → Type 0 where
    ends_object : {h : ℕ} → SaneMembers h no_members
    with_member :
        {h : ℕ} {k : Bytes} {v : Json} {ms : Members}
        → All IsByte k
        → Sane h v
        → SaneMembers h ms
        → SaneMembers h (member k v ms)
