-- ===== src/Protocol/Json/Trees/Skipped.antt =====
-- `SkipJsonValue` skips every sane tree as it is written.
use mod_playerbots_mcp.Base.{
  ℕ, zero, suc, ◌+◌, ◌≤◌, ◌≡◌, ◌∙◌, false, [], ◌∷◌, ◌++◌, some, Bytes, All, arith,
}
use mod_playerbots_mcp.Protocol.Frame.RoundTrip.{IsByte}
use mod_playerbots_mcp.Protocol.Json.Fuel.{needed}
use mod_playerbots_mcp.Protocol.Json.Nested.{skip, value, elements, members, max_nested_depth}
use mod_playerbots_mcp.Protocol.Json.Numbers.{next_is}
use mod_playerbots_mcp.Protocol.Json.Shrinks.Nesting.{skip-le}
use mod_playerbots_mcp.Protocol.Json.Shrinks.Values.{member_key-shorter}
use mod_playerbots_mcp.Protocol.Json.Trees.{
  Json, Elements, Members, render, render_elements, more_elements, render_members, more_members,
  no_elements, element, no_members, member, sane_quoted, sane_number, sane_numeral, sane_word,
  sane_list, sane_object, Sane, SaneElements, SaneMembers, ends_list, with_element, ends_object,
  with_member,
}
use mod_playerbots_mcp.Protocol.Print.{append_escaped_json_string}
use mod_playerbots_mcp.Protocol.Print.ReadNumbers.{continues}
use mod_playerbots_mcp.Protocol.Json.Trees.Begins.{quoted-Begins, render-Begins}
use mod_playerbots_mcp.Protocol.Json.Trees.Numbers.{to_string-IsNumber}
use mod_playerbots_mcp.Protocol.Json.Trees.Starts.{
  after_elements, after_members, member_key-quoted, start-quoted, start-numeral, start-word,
  start_bracket, start_brace,
}
use mod_playerbots_mcp.Protocol.Json.Trees.Rounds.{
  skip_finished, skip_items, skip_fields, skip_element, skip_member, after_comma,
  array_start-Begins, empty_array, empty_object, object_start-quoted, after_bracket, after_brace,
}

-- A tree, the elements of a list and the members of an object.
mutual
  unfolding render render_elements render_members more_elements more_members

  pub skip-render :
      {h : ℕ} {v : Json} (fuel depth : ℕ) (rest : Bytes)
      → Sane h v
      → needed value (render v rest) ≤ fuel
      → depth + h ≤ max_nested_depth
      → next_is continues rest ≡ false
      → skip fuel value depth (render v rest) ≡ some rest
  skip-render fuel depth rest (sane_quoted {s = s} b) enough deep stop =
      skip_finished fuel depth _ rest (omega arith) (start-quoted depth s rest (omega arith) b)
  skip-render fuel depth rest (sane_number {n = n}) enough deep stop =
      skip_finished fuel depth _ rest (omega arith)
        (start-numeral depth rest (omega arith) (to_string-IsNumber n) stop)
  skip-render fuel depth rest (sane_numeral n) enough deep stop =
      skip_finished fuel depth _ rest (omega arith) (start-numeral depth rest (omega arith) n stop)
  skip-render fuel depth rest (sane_word w) enough deep stop =
      skip_finished fuel depth _ rest (omega arith) (start-word depth rest (omega arith) w)
  skip-render zero depth rest (sane_list s) enough deep stop = absurd (omega arith)
  skip-render (suc fuel) depth rest (sane_list ends_list) enough deep stop =
      skip_finished (suc fuel) depth _ rest (omega arith)
        (start_bracket depth (b']' ∷ rest) (omega arith) ∙ empty_array rest)
  skip-render (suc fuel) depth rest (sane_list (with_element {v = v} {es = es} s t)) enough deep
        stop =
      let inside = render v (more_elements es (b']' ∷ rest)) in
      skip_items fuel depth _ inside
        (start_bracket depth inside (omega arith) ∙ array_start-Begins inside (render-Begins _ s))
      ∙ skip-elements fuel depth rest s t (omega arith) deep
  skip-render zero depth rest (sane_object s) enough deep stop = absurd (omega arith)
  skip-render (suc fuel) depth rest (sane_object ends_object) enough deep stop =
      skip_finished (suc fuel) depth _ rest (omega arith)
        (start_brace depth (b'}' ∷ rest) (omega arith) ∙ empty_object rest)
  skip-render (suc fuel) depth rest (sane_object (with_member {k = k} {v = v} {ms = ms} b s t))
        enough deep stop =
      let behind = b':' ∷ render v (more_members ms (b'}' ∷ rest)) in
      let inside = append_escaped_json_string [] k ++ behind in
      skip_fields fuel depth _ inside
        (start_brace depth inside (omega arith) ∙ object_start-quoted k behind)
      ∙ skip-members k fuel depth rest b s t (omega arith) deep

  skip-elements :
      {h : ℕ} {v : Json} {es : Elements} (fuel depth : ℕ) (rest : Bytes)
      → Sane h v
      → SaneElements h es
      → needed elements (render v (more_elements es (b']' ∷ rest))) ≤ fuel
      → depth + suc h ≤ max_nested_depth
      → skip fuel elements depth (render v (more_elements es (b']' ∷ rest))) ≡ some rest
  skip-elements zero depth rest s t enough deep = absurd (omega arith)
  skip-elements (suc fuel) depth rest s ends_list enough deep =
      let inner =
        skip-render fuel (depth + 1) (b']' ∷ rest) s (omega arith) (omega arith)
          (after_elements no_elements rest (ends_list {h = 0})) in
      (skip_element fuel depth _ (b']' ∷ rest) inner).0 rest (after_bracket rest)
  skip-elements (suc fuel) depth rest s (with_element {v = w} {es = es} s' t) enough deep =
      let next = render w (more_elements es (b']' ∷ rest)) in
      let inner =
        skip-render fuel (depth + 1) (b',' ∷ next) s (omega arith) (omega arith)
          (after_elements (element w es) rest (with_element s' t)) in
      let less = skip-le fuel value (depth + 1) _ _ inner in
      (skip_element fuel depth _ (b',' ∷ next) inner).1 next
        (after_comma b']' next (render-Begins _ s'))
      ∙ skip-elements fuel depth rest s' t (omega arith) deep

  skip-members :
      {h : ℕ} {v : Json} {ms : Members} (k : Bytes) (fuel depth : ℕ) (rest : Bytes)
      → All IsByte k
      → Sane h v
      → SaneMembers h ms
      → needed members
          (append_escaped_json_string [] k ++ (b':' ∷ render v (more_members ms (b'}' ∷ rest))))
        ≤ fuel
      → depth + suc h ≤ max_nested_depth
      → skip fuel members depth
          (append_escaped_json_string [] k ++ (b':' ∷ render v (more_members ms (b'}' ∷ rest))))
        ≡ some rest
  skip-members k zero depth rest b s t enough deep = absurd (omega arith)
  skip-members {v = v} k (suc fuel) depth rest b s ends_object enough deep =
      let text = render v (b'}' ∷ rest) in
      let key = member_key-quoted k text b (render-Begins _ s) in
      let shorter = member_key-shorter _ text key in
      let inner =
        skip-render fuel (depth + 1) (b'}' ∷ rest) s (omega arith) (omega arith)
          (after_members no_members rest (ends_object {h = 0})) in
      (skip_member fuel depth _ text (b'}' ∷ rest) key inner).0 rest (after_brace rest)
  skip-members {v = v} k (suc fuel) depth rest b s (with_member {k = k'} {v = w} {ms = ms} b' s' t)
        enough deep =
      let behind = b':' ∷ render w (more_members ms (b'}' ∷ rest)) in
      let next = append_escaped_json_string [] k' ++ behind in
      let text = render v (b',' ∷ next) in
      let key = member_key-quoted k text b (render-Begins _ s) in
      let shorter = member_key-shorter _ text key in
      let inner =
        skip-render fuel (depth + 1) (b',' ∷ next) s (omega arith) (omega arith)
          (after_members (member k' w ms) rest (with_member b' s' t)) in
      let less = skip-le fuel value (depth + 1) _ _ inner in
      (skip_member fuel depth _ text (b',' ∷ next) key inner).1 next
        (after_comma b'}' next (quoted-Begins k' behind))
      ∙ skip-members k' fuel depth rest b' s' t (omega arith) deep
