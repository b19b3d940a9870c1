-- ===== src/WorldThread/Json/Lists.antt =====
-- The responses that list bots and anomalies.
use mod_playerbots_mcp.Base.{
  ℕ, ◌≡◌, refl, ap, ◌∙◌, sym, Bool, true, false, List, [], ◌∷◌, ◌++◌, append_assoc, Bytes, bytes,
  concat, if◌then◌else◌,
}
use mod_playerbots_mcp.Protocol.Json.Trees.{
  object, Elements, no_elements, element, Members, render, render_elements, more_elements,
  render_members, more_members, SaneElements, SaneMembers, sane_list, sane_object, ends_list,
  with_element, ends_object,
}
use mod_playerbots_mcp.Protocol.Json.Trees.Given.{render-append}
use mod_playerbots_mcp.Protocol.Paging.{paginate_guids}
use mod_playerbots_mcp.Protocol.Print.{append_escaped_json_string, escape_loop, escape_byte}
use mod_playerbots_mcp.Protocol.Responses.Envelopes.{IsResult}
use mod_playerbots_mcp.Protocol.Types.{Request, invalid_limit}
use mod_playerbots_mcp.WorldThread.Core.{Core, Player}
use mod_playerbots_mcp.WorldThread.Json.{
  WritesJson, number_at, truth_at, value_at, shallow_object-IsResult, failure-IsResult,
}
use mod_playerbots_mcp.WorldThread.Json.Objects.{text_at}
use mod_playerbots_mcp.WorldThread.Listing.{bot_entry, list_loop, list_page, build_list_response}
use mod_playerbots_mcp.WorldThread.Rules.{option-holds}
use mod_playerbots_mcp.WorldThread.Status.{find_bot, bot_guids}
use mod_playerbots_mcp.WorldThread.Text.{json_string}

-- A text that is a sane object.
pub record IsObject (h : ℕ) (t : Bytes) : Type 0 where
  pub tree_members : Members
  pub sane : SaneMembers h tree_members
  pub same : t ≡ render (object tree_members) []

-- An entry in front of a list, with a comma or not.
abbrev pub Listed : Bool → Bytes → Type 0
Listed first t =
    (es : Elements) × SaneElements 29 es
    × ((rest : Bytes)
        → t ++ rest ≡ (if first then render_elements es rest else more_elements es rest))

entry-append :
    (t loop : Bytes) (o : IsObject 28 t) (l : Listed false loop) (rest : Bytes)
    → (t ++ loop) ++ rest ≡ render (object o.tree_members) (more_elements l.0 rest)
entry-append t loop o (es, s, e) rest =
    append_assoc t loop rest
    ∙ ap (λ x. x ++ (loop ++ rest)) o.same
    ∙ sym (render-append (object o.tree_members) [] (loop ++ rest))
    ∙ ap (render (object o.tree_members)) (e rest)

pub Listed-entry :
    (first : Bool) (t loop : Bytes)
    → IsObject 28 t
    → Listed false loop
    → Listed first ((if first then [] else bytes ",") ++ (t ++ loop))
unfolding render_elements more_elements
Listed-entry true t loop o (es, s, e) = (
  element (object o.tree_members) es,
  with_element (sane_object o.sane) s,
  entry-append t loop o (es, s, e),
)
Listed-entry false t loop o (es, s, e) = (
  element (object o.tree_members) es,
  with_element (sane_object o.sane) s,
  λ rest. ap (λ x. b',' ∷ x) (entry-append t loop o (es, s, e) rest),
)

pub Listed-nothing : (first : Bool) → Listed first []
unfolding render_elements more_elements
Listed-nothing true = (no_elements, ends_list, λ rest. refl)
Listed-nothing false = (no_elements, ends_list, λ rest. refl)

pub is_object :
    {h : ℕ} {ms : Members} (t : Bytes) → SaneMembers h ms → t ≡ render (object ms) [] → IsObject h t
is_object {ms = ms} t s e = record { tree_members = ms; sane = s; same = e }

module _ (core : Core) (print_float : ℕ → Bytes) (j : WritesJson core print_float) where
  module _ (w : core.World) where
    bot_entry-IsObject : (low_guid : ℕ) (bot : Player) → IsObject 28 (bot_entry core w low_guid bot)
    unfolding bot_entry concat render render_members more_members append_escaped_json_string
        escape_loop escape_byte json_string
    bot_entry-IsObject low_guid bot =
        is_object _
          (text_at core print_float j (bytes "guid") refl _ (
            number_at (bytes "guidLow") refl _ (
              text_at core print_float j (bytes "name") refl _ (
                text_at core print_float j (bytes "state") refl _ (
                  value_at (bytes "master") refl
                    (sane_object (
                      truth_at (bytes "available") refl _ (
                        text_at core print_float j (bytes "guid") refl _ (
                          text_at core print_float j (bytes "name") refl _
                            (truth_at (bytes "relationshipValid") refl _ ends_object)))))
                    (number_at (bytes "mapId") refl _
                      (truth_at (bytes "transportAttached") refl _ ends_object)))))))
          refl

    list_loop-Listed : (first : Bool) (guids : List ℕ) → Listed first (list_loop core w first guids)
    unfolding list_loop
    list_loop-Listed first [] = Listed-nothing first
    list_loop-Listed first (low_guid ∷ guids) =
        option-holds (Listed first) (find_bot core w low_guid) _ _ (list_loop-Listed first guids)
          λ bot.
            Listed-entry first _ _ (bot_entry-IsObject low_guid bot) (list_loop-Listed false guids)

    pub list-IsResult : (request : Request) → IsResult (build_list_response core w request)
    unfolding build_list_response list_page concat render render_members more_members
        append_escaped_json_string escape_loop escape_byte json_string
    list-IsResult request =
        let guids = bot_guids core w (core.players w) in
        option-holds IsResult (paginate_guids guids request.after_guid request.limit) _ _
          (failure-IsResult invalid_limit [])
          λ page.
            let (es, s, e) = list_loop-Listed true page.guids in
            shallow_object-IsResult _
              (value_at (bytes "bots") refl (sane_list s) (
                number_at (bytes "nextAfterGuid") refl _ (
                  truth_at (bytes "hasMore") refl _ (
                    value_at (bytes "completeness") refl
                      (sane_object (
                        number_at (bytes "totalCount") refl _ (
                          number_at (bytes "returnedCount") refl _
                            (truth_at (bytes "truncated") refl _ ends_object))))
                      ends_object))))
              (ap (λ x. bytes "{\"bots\":[" ++ x) (e _))
