-- ===== src/Protocol/Paging.antt =====
-- `PaginateGuids` of src/Bot/MCP/PlayerbotVerificationProtocol.cpp, with the algorithms of the
-- standard library that it calls.
pub mod Order
pub mod Pages
use mod_playerbots_mcp.Base.{
  ℕ, Bool, true, false, ◌&&◌, ◌||◌, List, [], ◌∷◌, Option, none, some, length, take, min, ltb, leb,
  ◌==◌, if◌then◌else◌,
}
use mod_playerbots_mcp.Protocol.Types.{GuidPage, max_list_limit}

insert_sorted : ℕ → List ℕ → List ℕ
insert_sorted a [] = a ∷ []
insert_sorted a (x ∷ xs) = if leb a x then a ∷ x ∷ xs else x ∷ insert_sorted a xs

-- `std::sort`.
unfoldable pub sort : List ℕ → List ℕ
unfolding insert_sorted
sort [] = []
sort (x ∷ xs) = insert_sorted x (sort xs)

-- `std::unique` with the `erase` that follows it.
pub unique : List ℕ → List ℕ
unique [] = []
unique (x ∷ []) = x ∷ []
unique (x ∷ y ∷ xs) = let rest = unique (y ∷ xs) in if x == y then rest else x ∷ rest

-- From `std::upper_bound` to the end, on a sorted range.
pub upper_bound : ℕ → List ℕ → List ℕ
upper_bound a [] = []
upper_bound a (x ∷ xs) = let rest = upper_bound a xs in if leb x a then rest else x ∷ xs

-- `guids.empty() ? a : guids.back()`.
pub back_or : ℕ → List ℕ → ℕ
back_or a [] = a
back_or a (x ∷ xs) = back_or x xs

-- The range from `first`: what is listed after `after_guid`.
pub available_after : List ℕ → ℕ → List ℕ
unfolding sort unique upper_bound
available_after guids after_guid = upper_bound after_guid (unique (sort guids))

unfoldable pub paginate_guids : List ℕ → ℕ → ℕ → Option GuidPage
unfolding available_after back_or
paginate_guids guids after_guid limit =
    let rest = available_after guids after_guid in
    let returned = min (length rest) limit in
    let page = take returned rest in
    if limit == 0 || ltb max_list_limit limit
    then none
    else some (record {
      guids = page;
      next_after_guid = back_or after_guid page;
      has_more = ltb returned (length rest);
    })
