-- ===== src/WorldThread/Json.antt =====
-- What the JSON that the handlers write takes from the server core, and how their objects are seen
-- as trees.
pub mod Objects
pub mod Leases
pub mod Lists
pub mod Anomalies
pub mod Responses
pub mod Served
use mod_playerbots_mcp.Base.{
  ℕ, suc, not, ◌/◌, ◌%◌, ◌^◌, ◌+◌, ◌≤◌, ◌≡◌, refl, subst, sym, ◌⊎◌, inr, Bool, true, false, [],
  ◌++◌, some, Bytes, bytes, All, all, ltb, ◌==◌, arith,
}
use mod_playerbots_mcp.Protocol.Frame.RoundTrip.{IsByte, are_bytes}
use mod_playerbots_mcp.Protocol.Json.Nested.{max_nested_depth}
use mod_playerbots_mcp.Protocol.Json.Text.{is_digit}
use mod_playerbots_mcp.Protocol.Json.Trees.{
  Json, quoted, word, object, Members, member, render, render_members, Sane, SaneMembers, number,
  sane_number, sane_quoted, sane_word, true_word, false_word, IsNumber, sane_object, with_member,
}
use mod_playerbots_mcp.Protocol.Json.Trees.Read.{as_object}
use mod_playerbots_mcp.Protocol.Responses.{Response, success, failure}
use mod_playerbots_mcp.Protocol.Responses.Envelopes.{IsResultText, IsResult}
use mod_playerbots_mcp.Recovery.Positions.{Location, Connected}
use mod_playerbots_mcp.Protocol.Types.{ErrorCode}
use mod_playerbots_mcp.WorldThread.Core.{Core, Player}
use mod_playerbots_mcp.WorldThread.Text.{bool_text}

-- A float, by its bit pattern, is neither infinite nor NaN.
abbrev pub is_finite : ℕ → Bool
is_finite f = not (f / 2 ^ 23 % 256 == 255)

abbrev pub IsFinite : Location → Type 0
IsFinite l =
    (is_finite l.x ≡ true)
    × (is_finite l.y ≡ true)
    × (is_finite l.z ≡ true)
    × (is_finite l.orientation ≡ true)

-- What is said of the core: the texts that are replaced where they are not UTF-8 are of bytes, and so
-- are the names of bots; a finite float, and the progress of an anomaly, is printed as the grammar of
-- JSON has numbers; the distances of spawns and the places of connected players are finite; and an
-- inspection is written as a JSON object that nests at most 31 deep.
pub record WritesJson (core : Core) (print_float : ℕ → Bytes) : Type 0 where
  pub texts : (text : Bytes) → All IsByte (core.replace_invalid text)
  pub names :
      (w : core.World) (guid : ℕ) (c : Connected)
      → core.connected w guid ≡ some c
      → All IsByte c.name
  pub floats : (f : ℕ) → is_finite f ≡ true → IsNumber (core.floats.stream f)
  pub printed_floats : (f : ℕ) → is_finite f ≡ true → IsNumber (print_float f)
  pub finite_distances :
      (w : core.World) (bot : Player)
      → All (λ s. is_finite (core.exact_distance w bot s.x s.y s.z) ≡ true) (core.game_objects w)
  pub finite_places :
      (w : core.World) (guid : ℕ) (c : Connected)
      → core.connected w guid ≡ some c
      → IsFinite c.placement.location
        × IsFinite c.placement_after.location
        × (is_finite c.homebind_x ≡ true)
        × (is_finite c.homebind_y ≡ true)
        × (is_finite c.homebind_z ≡ true)
        × IsFinite c.teleport_dest
  pub deltas :
      (w : core.World) (bot : Player) (now : ℕ)
      → All (λ a. IsNumber a.progress_delta) (core.copy_anomalies w bot now).anomalies
  pub inspections :
      (w : core.World) (bot : Player)
      → (ms : Members) × SaneMembers 30 ms
        × (core.serialize_verification w bot ≡ render (object ms) [])

-- A truth value in the words of `bool_text`.
abbrev pub truth_value : Bool → Json
truth_value b = word (bool_text b)

pub truth_value-Sane : {h : ℕ} (b : Bool) → Sane h (truth_value b)
unfolding bool_text
truth_value-Sane true = sane_word true_word
truth_value-Sane false = sane_word false_word

-- Members under literal keys, in front of others.
abbrev pub IsKey : Bytes → Type 0
IsKey k = all (λ x. ltb x 256) k ≡ true

module _ {h : ℕ} {ms : Members} (k : Bytes) (key : IsKey k) where
  pub number_at : (n : ℕ) → SaneMembers h ms → SaneMembers h (member k (number n) ms)
  number_at n s = with_member (are_bytes k key) sane_number s

  pub truth_at : (b : Bool) → SaneMembers h ms → SaneMembers h (member k (truth_value b) ms)
  truth_at b s = with_member (are_bytes k key) (truth_value-Sane b) s

  pub quoted_at :
      (t : Bytes) → All IsByte t → SaneMembers h ms → SaneMembers h (member k (quoted t) ms)
  quoted_at t b s = with_member (are_bytes k key) (sane_quoted b) s

  pub value_at : {v : Json} → Sane h v → SaneMembers h ms → SaneMembers h (member k v ms)
  value_at v s = with_member (are_bytes k key) v s

-- Responses by what is known of their results.
object-IsResult_at :
    (h : ℕ) {ms : Members} (t : Bytes)
    → h ≤ 31
    → SaneMembers h ms
    → t ≡ render (object ms) []
    → IsResult (success t)
unfolding success
object-IsResult_at h {ms = ms} t shallow s e = λ fine. inr (record {
  height = suc h;
  tree = object ms;
  sane = sane_object s;
  shallow = omega arith;
  reads_other = as_object;
  same = e;
})

pub object-IsResult :
    {ms : Members} (t : Bytes)
    → SaneMembers 31 ms
    → t ≡ render (object ms) []
    → IsResult (success t)
object-IsResult t s e = object-IsResult_at 31 t (omega arith) s e

-- The same, of an object with room for one level more around it.
pub shallow_object-IsResult :
    {ms : Members} (t : Bytes)
    → SaneMembers 30 ms
    → t ≡ render (object ms) []
    → IsResult (success t)
shallow_object-IsResult t s e = object-IsResult_at 30 t (omega arith) s e

pub failure-IsResult : (code : ErrorCode) (message : Bytes) → IsResult (failure code message)
unfolding failure
failure-IsResult code message = λ fine. cc
