-- ===== src/Tests/Codec.antt =====
-- Frames, pages, numbers, strings, digests, console commands and responses.
use mod_playerbots_mcp.Base.{
  ℕ, ◌∷◌, ◌++◌, ◌≡◌, ◌&&◌, inl, refl, suc, true, false, List, [], some, Bytes, bytes, length, arith,
  map, contains, ltb,
}
use mod_playerbots_mcp.Protocol.Frame.{encode_frame, decode_frame, header_bytes, header_length}
use mod_playerbots_mcp.Protocol.Frame.RoundTrip.{are_bytes, decode-encode, encode-decode}
use mod_playerbots_mcp.Protocol.GmPolicy.{
  is_refused_gm_command, is_lead, skip_lead, matches_lower, first_word, refused_words, to_lower,
}
use mod_playerbots_mcp.Protocol.GmPolicy.Refusals.{
  is_refused_gm_command_word, is_refused_gm_command_lead, is_refused_gm_command_newline,
}
use mod_playerbots_mcp.Protocol.Json.Numbers.{parse_unsigned}
use mod_playerbots_mcp.Protocol.Json.Text.{parse_string, is_digit}
use mod_playerbots_mcp.Protocol.Paging.{paginate_guids}
use mod_playerbots_mcp.Protocol.Paging.Order.{elem, IsRising}
use mod_playerbots_mcp.Protocol.Paging.Pages.{IsPage, paginate_guids-IsPage, walk, walk_lists_all}
use mod_playerbots_mcp.Protocol.Print.{to_string, append_escaped_json_string}
use mod_playerbots_mcp.Protocol.Print.ReadNumbers.{parse_unsigned-to_string}
use mod_playerbots_mcp.Protocol.Print.ReadStrings.{parse_string-append_escaped}
use mod_playerbots_mcp.Protocol.Types.{GuidPage}

-- Bytes, by evaluation.
abbrev frame_of_two : Bytes
frame_of_two = 0 ∷ 0 ∷ 0 ∷ 2 ∷ 7 ∷ 9 ∷ []

encode-frame_of_two : encode_frame (7 ∷ 9 ∷ []) ≡ some frame_of_two
unfolding encode_frame header_bytes
encode-frame_of_two = refl

decode-frame_of_two : (decode_frame frame_of_two).payload ≡ some (7 ∷ 9 ∷ [])
unfolding decode_frame header_length
decode-frame_of_two = refl

decode-encode_example :
    (frame : Bytes) × (encode_frame (7 ∷ 9 ∷ []) ≡ some frame)
    × ((decode_frame frame).payload ≡ some (7 ∷ 9 ∷ []))
decode-encode_example = decode-encode (7 ∷ 9 ∷ []) (omega arith)

encode-decode_example : encode_frame (7 ∷ 9 ∷ []) ≡ some frame_of_two
encode-decode_example =
    encode-decode frame_of_two (7 ∷ 9 ∷ []) (are_bytes frame_of_two refl) decode-frame_of_two

abbrev listed : List ℕ
listed = 5 ∷ 3 ∷ 9 ∷ 3 ∷ 1 ∷ []

abbrev second_page : GuidPage
second_page = record { guids = 3 ∷ 5 ∷ []; next_after_guid = 5; has_more = true }

paginate_listed : paginate_guids listed 1 2 ≡ some second_page
unfolding paginate_guids
paginate_listed = refl

paginate_guids-IsPage_example : IsPage listed 1 2 second_page
paginate_guids-IsPage_example = paginate_guids-IsPage listed 1 2 paginate_listed

walk_lists_all_example :
    IsRising 1 (walk (suc (length listed)) listed 1 2)
    × ((g : ℕ) → elem g (walk (suc (length listed)) listed 1 2) ≡ (elem g listed && ltb 1 g))
walk_lists_all_example = walk_lists_all listed 1 2 (omega arith) (omega arith)

parse_unsigned-to_string_example :
    parse_unsigned (to_string 18446744073709551615 ++ bytes ",")
    ≡ some (18446744073709551615, bytes ",")
unfolding is_digit
parse_unsigned-to_string_example =
    parse_unsigned-to_string 18446744073709551615 (bytes ",") (omega arith) refl

parse_string-append_escaped_example :
    parse_string (append_escaped_json_string [] (b'"' ∷ 10 ∷ 1 ∷ 200 ∷ []) ++ bytes "}")
    ≡ some (b'"' ∷ 10 ∷ 1 ∷ 200 ∷ [], bytes "}")
parse_string-append_escaped_example =
    parse_string-append_escaped (b'"' ∷ 10 ∷ 1 ∷ 200 ∷ []) (bytes "}")
      (are_bytes (b'"' ∷ 10 ∷ 1 ∷ 200 ∷ []) refl)

is_refused_gm_command_word_example :
    is_refused_gm_command (bytes " ." ++ b'S' ∷ (bytes "erver" ++ bytes " shutdown 0"))
    ≡ contains (map to_lower (bytes "Server")) refused_words
unfolding is_lead
is_refused_gm_command_word_example =
    is_refused_gm_command_word (bytes " .") b'S' (bytes "erver") (bytes " shutdown 0") refl refl
      refl refl

server_is_refused : is_refused_gm_command (bytes " .Server shutdown 0") ≡ true
unfolding is_refused_gm_command skip_lead is_lead matches_lower first_word to_lower
server_is_refused = refl

is_refused_gm_command_lead_example : is_refused_gm_command (bytes " . ") ≡ true
unfolding is_lead
is_refused_gm_command_lead_example = is_refused_gm_command_lead (bytes " . ") refl

is_refused_gm_command_newline_example : is_refused_gm_command (10 ∷ bytes "server exit") ≡ false
is_refused_gm_command_newline_example =
    is_refused_gm_command_newline 10 (bytes "server exit") (inl refl)
