-- ===== src/Protocol/Json/Trees/Rounds.antt =====
-- The calls of `SkipJsonValue`, `SkipArray` and `SkipObject`, one by one.
use mod_playerbots_mcp.Base.{
  ℕ, subst, zero, suc, ◌+◌, ◌<◌, ◌≡◌, refl, ap, sym, [], ◌∷◌, ◌++◌, some, Bytes, arith,
}
use mod_playerbots_mcp.Protocol.Json.Nested.{
  skip, value, elements, members, value_start, array_start, object_start, member_key, after_item,
  finished, items, fields, ended, again,
}
use mod_playerbots_mcp.Protocol.Json.Text.{is_space, consume, skip_whitespace}
use mod_playerbots_mcp.Protocol.Print.{append_escaped_json_string}
use mod_playerbots_mcp.Protocol.Print.ReadStrings.{append_escaped-begins}
use mod_playerbots_mcp.Protocol.Json.Trees.Begins.{Begins, skip_whitespace-Begins, consume-Begins}

-- The three ways to begin a value, with fuel for it.
pub skip_finished :
    (fuel depth : ℕ) (s rest : Bytes)
    → 0 < fuel
    → value_start depth s ≡ finished (some rest)
    → skip fuel value depth s ≡ some rest
unfolding skip
skip_finished zero depth s rest h e = absurd (omega arith)
skip_finished (suc fuel) depth s rest h e = rw (skip, e) refl

pub skip_items :
    (fuel depth : ℕ) (s inside : Bytes)
    → value_start depth s ≡ items inside
    → skip (suc fuel) value depth s ≡ skip fuel elements depth inside
unfolding skip
skip_items fuel depth s inside e = rw (skip, e) refl

pub skip_fields :
    (fuel depth : ℕ) (s inside : Bytes)
    → value_start depth s ≡ fields inside
    → skip (suc fuel) value depth s ≡ skip fuel members depth inside
unfolding skip
skip_fields fuel depth s inside e = rw (skip, e) refl

pub skip_element :
    (fuel depth : ℕ) (s r : Bytes)
    → skip fuel value (depth + 1) s ≡ some r
    → ((rest : Bytes)
        → after_item b']' r ≡ ended rest
        → skip (suc fuel) elements depth s ≡ some rest)
      × ((next : Bytes)
          → after_item b']' r ≡ again next
          → skip (suc fuel) elements depth s ≡ skip fuel elements depth next)
unfolding skip
skip_element fuel depth s r e =
    (λ rest done. rw (skip, e, done) refl, λ next more. rw (skip, e, more) refl)

pub skip_member :
    (fuel depth : ℕ) (s v r : Bytes)
    → member_key s ≡ some v
    → skip fuel value (depth + 1) v ≡ some r
    → ((rest : Bytes)
        → after_item b'}' r ≡ ended rest
        → skip (suc fuel) members depth s ≡ some rest)
      × ((next : Bytes)
          → after_item b'}' r ≡ again next
          → skip (suc fuel) members depth s ≡ skip fuel members depth next)
unfolding skip
skip_member fuel depth s v r key e =
    (λ rest done. rw (skip, key, e, done) refl, λ next more. rw (skip, key, e, more) refl)

pub after_comma : (close : ℕ) (s : Bytes) → Begins s → after_item close (b',' ∷ s) ≡ again s
unfolding after_item skip_whitespace consume is_space
after_comma close s b = ap again (skip_whitespace-Begins s b)

pub array_start-Begins : (s : Bytes) → Begins s → array_start s ≡ items s
unfolding array_start
array_start-Begins s b =
    rw (array_start, skip_whitespace-Begins s b, consume-Begins s b)
      (ap items (skip_whitespace-Begins s b))

pub empty_array : (rest : Bytes) → array_start (b']' ∷ rest) ≡ finished (some rest)
unfolding array_start skip_whitespace consume is_space
empty_array rest = refl

pub empty_object : (rest : Bytes) → object_start (b'}' ∷ rest) ≡ finished (some rest)
unfolding object_start skip_whitespace consume is_space
empty_object rest = refl

pub object_start-quoted :
    (k rest : Bytes)
    → object_start (append_escaped_json_string [] k ++ rest)
      ≡ fields (append_escaped_json_string [] k ++ rest)
unfolding object_start skip_whitespace consume is_space
object_start-quoted k rest =
    let (t, e) = append_escaped-begins k rest in subst (λ x. object_start x ≡ fields x) (sym e) refl

pub after_bracket : (rest : Bytes) → after_item b']' (b']' ∷ rest) ≡ ended rest
unfolding after_item skip_whitespace consume is_space
after_bracket rest = refl

pub after_brace : (rest : Bytes) → after_item b'}' (b'}' ∷ rest) ≡ ended rest
unfolding after_item skip_whitespace consume is_space
after_brace rest = refl
