-- ===== src/Tests/Readable.antt =====
-- Objects and answers that are read back, at concrete inputs.
use mod_playerbots_mcp.Base.{
  ℕ, ◌%◌, ◌/◌, ◌^◌, ◌<◌, true, ◌≡◌, refl, map, [], ◌∷◌, some, Bytes, bytes, All, arith, lookup,
  str_eq,
}
use mod_playerbots_mcp.Protocol.Frame.RoundTrip.{IsByte, are_bytes}
use mod_playerbots_mcp.Protocol.Json.Objects.{
  unsigned_value, string_value, other_value, parse_strict,
}
use mod_playerbots_mcp.Protocol.Json.Text.{is_digit}
use mod_playerbots_mcp.Protocol.Json.Trees.{
  quoted, number, list, object, no_elements, element, Members, no_members, member, render,
  render_members, IsNumber, digits, fraction, exponent, plus, numeral, sane_numeral, sane_quoted,
  sane_number, sane_list, sane_object, ends_list, with_element, ends_object,
}
use mod_playerbots_mcp.Protocol.Json.Trees.Numbers.{to_string-IsNumber}
use mod_playerbots_mcp.Protocol.Json.Trees.Read.{
  ReadMembers, read_all, read_next, as_string, as_unsigned, as_list, as_numeral, as_large,
}
use mod_playerbots_mcp.Protocol.Json.Trees.RoundTrip.{parse_strict-render}
use mod_playerbots_mcp.Protocol.Print.{to_string, decimal}
use mod_playerbots_mcp.Protocol.Requests.Payload.{parse_request_payload}
use mod_playerbots_mcp.Server.{handle_payload}
use mod_playerbots_mcp.Server.Answers.{due}
use mod_playerbots_mcp.Tests.Connections.{serving}
use mod_playerbots_mcp.Tests.Handlers.{in_time, in_time-waits}
use mod_playerbots_mcp.Tests.Payloads.{digest, secret, recover_payload}
use mod_playerbots_mcp.Tests.Worlds.{other_node, near_node, far_node, small_core}
use mod_playerbots_mcp.WorldThread.Json.{WritesJson, is_finite}
use mod_playerbots_mcp.WorldThread.Json.Served.{ReadsBack, handle_payload-default_handler_read}
use mod_playerbots_mcp.WorldThread.Served.{default_handler}

-- `-1.5e+3`.
abbrev signed_number : IsNumber (bytes "-1.5e+3")
signed_number = record {
  negative = true;
  whole = bytes "1";
  behind_point = bytes ".5";
  power = bytes "e+3";
  is_whole = digits (omega arith) (omega arith) tt;
  is_fraction = fraction (omega arith, omega arith) tt;
  is_exponent = exponent b'e' (b'+' ∷ []) b'3' [] refl plus (omega arith, omega arith) tt;
  same = refl;
}

-- `{"name":"x","ids":[1,{}],"change":-1.5e+3,"far":18446744073709551616,"count":5}`.
abbrev five_members : Members
five_members = member (bytes "name") (quoted (bytes "x")) (
    member (bytes "ids") (list (element (number 1) (element (object no_members) no_elements))) (
      member (bytes "change") (numeral (bytes "-1.5e+3")) (
        member (bytes "far") (number 18446744073709551616)
          (member (bytes "count") (number 5) no_members))))

five_members-ReadMembers : ReadMembers [] five_members (
    (bytes "count", unsigned_value 5)
    ∷ (bytes "far", other_value)
    ∷ (bytes "change", other_value)
    ∷ (bytes "ids", other_value)
    ∷ (bytes "name", string_value (bytes "x"))
    ∷ [])
unfolding lookup str_eq
five_members-ReadMembers =
    read_next {h = 2} (are_bytes (bytes "name") refl) (sane_quoted (are_bytes (bytes "x") refl))
      (omega arith) (as_string (are_bytes (bytes "x") refl)) refl
      (read_next {h = 2} (are_bytes (bytes "ids") refl)
        (sane_list (with_element sane_number (with_element (sane_object ends_object) ends_list)))
        (omega arith) as_list refl
        (read_next {h = 2} (are_bytes (bytes "change") refl) (sane_numeral signed_number)
          (omega arith) (as_numeral signed_number refl) refl
          (read_next {h = 2} (are_bytes (bytes "far") refl) sane_number (omega arith)
            (as_large (omega arith)) refl
            (read_next {h = 2} (are_bytes (bytes "count") refl) sane_number (omega arith)
              (as_unsigned (omega arith)) refl read_all))))

parse_strict-render_example :
    parse_strict (render (object five_members) [])
    ≡ some (
        (bytes "count", unsigned_value 5)
        ∷ (bytes "far", other_value)
        ∷ (bytes "change", other_value)
        ∷ (bytes "ids", other_value)
        ∷ (bytes "name", string_value (bytes "x"))
        ∷ [])
parse_strict-render_example = parse_strict-render five_members-ReadMembers

bytes_of : (text : Bytes) → All IsByte (map (λ c. c % 256) text)
bytes_of [] = tt
bytes_of (c ∷ cs) = (omega arith, bytes_of cs)

empty_object : bytes "{}" ≡ render (object no_members) []
unfolding render render_members
empty_object = refl

zero-IsNumber : IsNumber (bytes "0")
unfolding to_string decimal
zero-IsNumber = to_string-IsNumber 0

short_distance : (x : ℕ) → is_finite (x % 1000) ≡ true
short_distance x =
    let few : x % 1000 < 1000 = omega arith in
    let zero_exponent : x % 1000 / 2 ^ 23 % 256 ≡ 0 = omega arith in rw zero_exponent refl

small_core-WritesJson : WritesJson small_core to_string
unfolding is_digit
small_core-WritesJson = record {
  texts = bytes_of;
  names = λ w guid bot e. cc e;
  floats = λ f finite. to_string-IsNumber f;
  printed_floats = λ f finite. to_string-IsNumber f;
  finite_distances = λ w bot.
      (short_distance far_node.x, (short_distance near_node.x, (short_distance other_node.x, tt)));
  finite_places = λ w guid c e. cc e;
  deltas = λ w bot now. (zero-IsNumber, (zero-IsNumber, tt));
  inspections = λ w bot. (no_members, ends_object, empty_object);
}

handle_payload-default_handler_read_example :
    ReadsBack
      (handle_payload digest to_string
        (record serving { handler = default_handler to_string 1000 in_time })
        secret
        recover_payload)
      (due
        (record serving { handler = default_handler to_string 1000 in_time })
        (parse_request_payload digest recover_payload secret))
handle_payload-default_handler_read_example =
    handle_payload-default_handler_read small_core to_string small_core-WritesJson digest serving
      1000 in_time secret recover_payload in_time-waits
