-- ===== src/WorldThread/Listing.antt =====
-- `BuildListResponse` of src/Bot/MCP/PlayerbotVerificationOperation.cpp.
use mod_playerbots_mcp.Base.{
  ℕ, Bool, true, false, List, [], ◌∷◌, ◌++◌, Option, none, some, Bytes, bytes, concat, length,
  if◌then◌else◌, is_some,
}
use mod_playerbots_mcp.Protocol.Paging.{paginate_guids}
use mod_playerbots_mcp.Protocol.Print.{to_string}
use mod_playerbots_mcp.Protocol.Responses.{Response, success, failure}
use mod_playerbots_mcp.Protocol.Types.{Request, GuidPage, invalid_limit}
use mod_playerbots_mcp.WorldThread.Core.{Core, Player}
use mod_playerbots_mcp.WorldThread.Names.{verification_state_name}
use mod_playerbots_mcp.WorldThread.Status.{find_bot, bot_guids}
use mod_playerbots_mcp.WorldThread.Text.{json_string, bool_text}

module _ (core : Core) (w : core.World) where
  -- A text of the master, empty if there is none.
  unfoldable pub of_master : (Player → Bytes) → Option Player → Bytes
  of_master text none = []
  of_master text (some m) = text m

  -- The entry of one bot.
  unfoldable pub bot_entry : ℕ → Player → Bytes
  bot_entry low_guid bot =
      let master = core.master w bot in
      concat (
        bytes "{\"guid\":"
        ∷ json_string core (core.guid_text w bot)
        ∷ bytes ",\"guidLow\":"
        ∷ to_string low_guid
        ∷ bytes ",\"name\":"
        ∷ json_string core (core.name w bot)
        ∷ bytes ",\"state\":"
        ∷ json_string core (verification_state_name (core.bot_state w bot))
        ∷ bytes ",\"master\":{\"available\":"
        ∷ bool_text (is_some master)
        ∷ bytes ",\"guid\":"
        ∷ json_string core (of_master (core.guid_text w) master)
        ∷ bytes ",\"name\":"
        ∷ json_string core (of_master (core.name w) master)
        ∷ bytes ",\"relationshipValid\":"
        ∷ bool_text (core.has_game_client_master w bot)
        ∷ bytes "}"
        ∷ bytes ",\"mapId\":"
        ∷ to_string (core.map_id w bot)
        ∷ bytes ",\"transportAttached\":"
        ∷ bool_text (core.has_transport w bot)
        ∷ bytes "}"
        ∷ [])

  -- The loop over the page, with its flag `first`.
  unfoldable pub list_loop : Bool → List ℕ → Bytes
  list_loop first [] = []
  list_loop first (low_guid ∷ guids) = elim (find_bot core w low_guid) [
    | none ↦ list_loop first guids
    | some bot ↦
        (if first then [] else bytes ",") ++ (bot_entry low_guid bot ++ list_loop false guids)
  ]

  unfoldable pub list_page : ℕ → GuidPage → Bytes
  list_page total_count page = concat (
      bytes "{\"bots\":["
      ∷ list_loop true page.guids
      ∷ bytes "],\"nextAfterGuid\":"
      ∷ to_string page.next_after_guid
      ∷ bytes ",\"hasMore\":"
      ∷ bool_text page.has_more
      ∷ bytes ",\"completeness\":{\"totalCount\":"
      ∷ to_string total_count
      ∷ bytes ",\"returnedCount\":"
      ∷ to_string (length page.guids)
      ∷ bytes ",\"truncated\":"
      ∷ bool_text page.has_more
      ∷ bytes "}}"
      ∷ [])

  unfoldable pub build_list_response : Request → Response
  build_list_response request =
      let guids = bot_guids core w (core.players w) in
      elim (paginate_guids guids request.after_guid request.limit) [
        | none ↦ failure invalid_limit []
        | some page ↦ success (list_page (length guids) page)
      ]
