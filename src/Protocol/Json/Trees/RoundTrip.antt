-- ===== src/Protocol/Json/Trees/RoundTrip.antt =====
-- `Parse` reads an object of trees as it is written.
use mod_playerbots_mcp.Base.{
  ℕ, zero, suc, ◌<◌, ◌≡◌, refl, ◌∙◌, sym, subst, false, [], ◌∷◌, ◌++◌, some, none, Option, lookup,
  Bytes, length, arith,
}
use mod_playerbots_mcp.Protocol.Json.Fuel.Members.{parse_member-shorter}
use mod_playerbots_mcp.Protocol.Json.Objects.{
  FlatJsonValue, FlatJsonFields, parse_member, Fields, finish, comma, stop, member_end, member_loop,
  object_body, parse, parse_strict,
}
use mod_playerbots_mcp.Protocol.Json.Text.{is_space, is_digit, consume, skip_whitespace}
use mod_playerbots_mcp.Protocol.Json.Trees.{
  Json, Members, object, member, render, render_members, more_members,
}
use mod_playerbots_mcp.Protocol.Print.{append_escaped_json_string}
use mod_playerbots_mcp.Protocol.Print.ReadStrings.{append_escaped-begins}
use mod_playerbots_mcp.Protocol.Json.Trees.Read.{
  render_member, ReadMembers, read_all, read_next, parse_member-render, emplace_new,
}

abbrev found : FlatJsonFields → Fields
found fs = record { fields = fs; duplicates = [] }

end_here : (fs : FlatJsonFields) → member_end (found fs) (b'}' ∷ []) ≡ stop (some (found fs))
unfolding member_end finish consume skip_whitespace is_space
end_here fs = refl

end_comma : (fs : FlatJsonFields) (rest : Bytes) → member_end (found fs) (b',' ∷ rest) ≡ comma rest
unfolding member_end consume skip_whitespace is_space
end_comma fs rest = refl

-- A round of the loop, by what stands behind the member.
round_last :
    (fuel : ℕ) (acc : FlatJsonFields) (s k : Bytes) (f : FlatJsonValue)
    → parse_member s ≡ some (k, f, b'}' ∷ [])
    → lookup k acc ≡ none
    → member_loop false (suc fuel) (found acc) s ≡ some (found ((k, f) ∷ acc))
unfolding member_loop
round_last fuel acc s k f e new =
    rw (member_loop, e, emplace_new k f acc [] new, end_here ((k, f) ∷ acc)) refl

round_next :
    (fuel : ℕ) (acc : FlatJsonFields) (s k rest : Bytes) (f : FlatJsonValue)
    → parse_member s ≡ some (k, f, b',' ∷ rest)
    → lookup k acc ≡ none
    → member_loop false (suc fuel) (found acc) s
      ≡ member_loop false fuel (found ((k, f) ∷ acc)) rest
unfolding member_loop
round_next fuel acc s k rest f e new =
    rw (member_loop, e, emplace_new k f acc [] new, end_comma ((k, f) ∷ acc) rest) refl

member_loop-render :
    {k : Bytes} {v : Json} {ms : Members} {acc out : FlatJsonFields} (fuel : ℕ)
    → ReadMembers acc (member k v ms) out
    → length (render_member k v (more_members ms (b'}' ∷ []))) < fuel
    → member_loop false fuel (found acc) (render_member k v (more_members ms (b'}' ∷ [])))
      ≡ some (found out)
unfolding more_members is_digit
member_loop-render zero r enough = absurd (omega arith)
member_loop-render {k = k} {acc = acc} (suc fuel) (read_next {f = f} b s deep reads new read_all)
      enough =
    round_last fuel acc _ k f (parse_member-render k (b'}' ∷ []) b s deep reads refl) new
member_loop-render {k = k} {v = v} {acc = acc} (suc fuel)
      (read_next {f = f} b s deep reads new
        (read_next {k = j} {v = w} {ms = ms} b' s' deep' reads' new' r))
      enough =
    let next = render_member j w (more_members ms (b'}' ∷ [])) in
    let here = parse_member-render k (b',' ∷ next) b s deep reads refl in
    let shorter = parse_member-shorter _ k f (b',' ∷ next) here in
    round_next fuel acc _ k next f here new
    ∙ member_loop-render fuel (read_next b' s' deep' reads' new' r) (omega arith)

parse_object :
    (inside : Bytes) (o : Option Fields)
    → object_body false inside ≡ o
    → parse false (b'{' ∷ inside) ≡ o
unfolding parse consume skip_whitespace is_space
parse_object inside o h = h

body_member :
    (k rest : Bytes)
    → object_body false (append_escaped_json_string [] k ++ rest)
      ≡ member_loop false
          (suc (length (append_escaped_json_string [] k ++ rest)))
          (found [])
          (append_escaped_json_string [] k ++ rest)
unfolding object_body consume skip_whitespace is_space
body_member k rest =
    let (t, e) = append_escaped-begins k rest in
    subst (λ x. object_body false x ≡ member_loop false (suc (length x)) (found []) x) (sym e) refl

parse-render :
    {ms : Members} {out : FlatJsonFields}
    → ReadMembers [] ms out
    → parse false (render (object ms) []) ≡ some (found out)
unfolding render render_members object_body consume skip_whitespace finish is_space
parse-render read_all = parse_object (b'}' ∷ []) _ refl
parse-render (read_next {k = k} {v = v} {ms = ms} b s deep reads new r) =
    let inside = render_member k v (more_members ms (b'}' ∷ [])) in
    parse_object inside _ (
      body_member k (b':' ∷ render v (more_members ms (b'}' ∷ [])))
      ∙ member_loop-render (suc (length inside)) (read_next b s deep reads new r) (omega arith))

-- Every object of trees that is written, with keys of bytes that all differ and values nested at
-- most 32 deep, is read by the strict `Parse`: each string of bytes and each uint64 number under its
-- key as it was; and any other value, that is a larger number, a number with a sign, a fraction or an
-- exponent, a word, a list or an object, as one that is neither.
pub parse_strict-render :
    {ms : Members} {out : FlatJsonFields}
    → ReadMembers [] ms out
    → parse_strict (render (object ms) []) ≡ some out
unfolding parse_strict
parse_strict-render r = rw (parse_strict, parse-render r) refl
