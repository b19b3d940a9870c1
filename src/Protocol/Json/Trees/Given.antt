-- ===== src/Protocol/Json/Trees/Given.antt =====
-- A tree that is written by itself, and then put into another one.
use mod_playerbots_mcp.Base.{◌≡◌, refl, ap, ◌∙◌, sym, [], ◌∷◌, ◌++◌, append_assoc, Bytes}
use mod_playerbots_mcp.Protocol.Json.Trees.{
  Json, quoted, number, numeral, word, list, object, Elements, no_elements, element, Members,
  no_members, member, render, render_elements, more_elements, render_members, more_members,
}
use mod_playerbots_mcp.Protocol.Print.{to_string, append_escaped_json_string}

-- What follows a tree can be put behind it later.
mutual
  unfolding render render_elements more_elements render_members more_members

  pub render-append : (v : Json) (a b : Bytes) → render v (a ++ b) ≡ render v a ++ b
  render-append (quoted s) a b = sym (append_assoc (append_escaped_json_string [] s) a b)
  render-append (number n) a b = sym (append_assoc (to_string n) a b)
  render-append (numeral t) a b = sym (append_assoc t a b)
  render-append (word t) a b = sym (append_assoc t a b)
  render-append (list es) a b = ap (λ t. b'[' ∷ t) (render_elements-append es (b']' ∷ a) b)
  render-append (object ms) a b = ap (λ t. b'{' ∷ t) (render_members-append ms (b'}' ∷ a) b)

  render_elements-append :
      (es : Elements) (a b : Bytes) → render_elements es (a ++ b) ≡ render_elements es a ++ b
  render_elements-append no_elements a b = refl
  render_elements-append (element v es) a b =
      ap (render v) (more_elements-append es a b) ∙ render-append v (more_elements es a) b

  pub more_elements-append :
      (es : Elements) (a b : Bytes) → more_elements es (a ++ b) ≡ more_elements es a ++ b
  more_elements-append no_elements a b = refl
  more_elements-append (element v es) a b =
      ap (λ t. b',' ∷ t)
        (ap (render v) (more_elements-append es a b) ∙ render-append v (more_elements es a) b)

  render_members-append :
      (ms : Members) (a b : Bytes) → render_members ms (a ++ b) ≡ render_members ms a ++ b
  render_members-append no_members a b = refl
  render_members-append (member k v ms) a b =
      ap (λ t. append_escaped_json_string [] k ++ (b':' ∷ t))
        (ap (render v) (more_members-append ms a b) ∙ render-append v (more_members ms a) b)
      ∙ sym (append_assoc (append_escaped_json_string [] k) (b':' ∷ render v (more_members ms a)) b)

  pub more_members-append :
      (ms : Members) (a b : Bytes) → more_members ms (a ++ b) ≡ more_members ms a ++ b
  more_members-append no_members a b = refl
  more_members-append (member k v ms) a b =
      ap (λ t. b',' ∷ (append_escaped_json_string [] k ++ (b':' ∷ t)))
        (ap (render v) (more_members-append ms a b) ∙ render-append v (more_members ms a) b)
      ∙ ap (λ t. b',' ∷ t)
          (sym (
            append_assoc (append_escaped_json_string [] k) (b':' ∷ render v (more_members ms a)) b))
