-- ===== src/Protocol/Paging/Pages.antt =====
-- What a page of `PaginateGuids` holds, and what a client gets that follows `nextAfterGuid`.
use mod_playerbots_mcp.Base.{
  ℕ, zero, suc, ◌≤◌, ◌<◌, ◌≡◌, true, false, ◌&&◌, not, List, [], ◌∷◌, ◌++◌, take, drop, ◌↔◌, ◌⊎◌,
  min, is_empty, none, ltb, leb, arith, Bool-cases, inl, inr, some, length, subst, length-take,
  length-drop, ltb→lt, take-append-drop, take_all,
}
use mod_playerbots_mcp.Protocol.Types.{GuidPage, max_list_limit}
use mod_playerbots_mcp.Protocol.Paging.{back_or, available_after, paginate_guids}
use mod_playerbots_mcp.Protocol.Paging.Order.{
  elem, IsRising, IsRising-take, available-IsRising, elem-available, available-back_or, elem-take,
  length-available-le,
}

-- A page after `a`: at most `limit` GUIDs, strictly rising; exactly the listed GUIDs above `a` and up
-- to the next cursor; and a full page exactly when more GUIDs follow the cursor.
pub record IsPage (guids : List ℕ) (a limit : ℕ) (p : GuidPage) : Type 0 where
  pub rising : IsRising a p.guids
  pub bounded : length p.guids ≤ limit
  pub exact : (g : ℕ) → elem g p.guids ≡ ((elem g guids && ltb a g) && leb g p.next_after_guid)
  pub more : p.has_more ≡ not (is_empty (available_after guids p.next_after_guid))
  pub full : p.has_more ≡ true → length p.guids ≡ limit

ltb-is_empty-drop {ℓ} :
    {A : Type ℓ} (n : ℕ) (xs : List A)
    → n ≤ length xs
    → ltb n (length xs) ≡ not (is_empty (drop n xs))
ltb-is_empty-drop zero [] h = ground arith
ltb-is_empty-drop zero (x ∷ xs) h = ground arith
ltb-is_empty-drop (suc n) [] h = absurd (omega arith)
ltb-is_empty-drop (suc n) (x ∷ xs) h = ground (arith, ltb-is_empty-drop n xs)

-- The cursor of a page, and what it is a page of.
abbrev page_of : List ℕ → ℕ → ℕ → GuidPage
page_of guids a limit =
    let rest = available_after guids a in
    let page = take (min (length rest) limit) rest in
    record {
      guids = page;
      next_after_guid = back_or a page;
      has_more = ltb (min (length rest) limit) (length rest);
    }

page_of-IsPage : (guids : List ℕ) (a limit : ℕ) → IsPage guids a limit (page_of guids a limit)
page_of-IsPage guids a limit =
    let rest = available_after guids a in
    let n = min (length rest) limit in
    let r = available-IsRising guids a in
    record {
      rising = IsRising-take n a rest r;
      bounded = omega (arith, length-take n rest);
      exact = λ g. rw (elem-take g n a rest r) (rw (elem-available g guids a));
      more = rw (available-back_or n a guids) (ltb-is_empty-drop n rest (omega arith));
      full = λ h. ground (arith, length-take n rest);
    }

-- Every page that is returned is the page of its cursor and limit.
pub paginate_guids-IsPage :
    (guids : List ℕ) (a limit : ℕ) {p : GuidPage}
    → paginate_guids guids a limit ≡ some p
    → IsPage guids a limit p
unfolding paginate_guids
paginate_guids-IsPage guids a limit {p} h =
    let e : page_of guids a limit ≡ p = ground arith in
    subst (IsPage guids a limit) e (page_of-IsPage guids a limit)

paginate_guids-page_of :
    (guids : List ℕ) (a limit : ℕ)
    → 0 < limit
    → limit ≤ max_list_limit
    → paginate_guids guids a limit ≡ some (page_of guids a limit)
unfolding paginate_guids
paginate_guids-page_of guids a limit pos top = ground arith

-- The limits that are refused are 0 and those above 100, whatever is listed.
pub paginate_guids-eq-none_iff :
    (guids : List ℕ) (a limit : ℕ)
    → (paginate_guids guids a limit ≡ none) ↔ ((limit ≡ 0) ⊎ (max_list_limit < limit))
unfolding paginate_guids
paginate_guids-eq-none_iff guids a limit = ground arith

-- A client that asks again from `nextAfterGuid` while `hasMore` holds.
pub walk : ℕ → List ℕ → ℕ → ℕ → List ℕ
walk zero guids a limit = []
walk (suc fuel) guids a limit = elim (paginate_guids guids a limit) [
  | none ↦ []
  | some p ↦ elim p.has_more [
    | true ↦ p.guids ++ walk fuel guids p.next_after_guid limit
    | false ↦ p.guids
  ]
]

walk-available :
    (fuel : ℕ) (guids : List ℕ) (a limit : ℕ)
    → 0 < limit
    → limit ≤ max_list_limit
    → length (available_after guids a) < fuel
    → walk fuel guids a limit ≡ available_after guids a
unfolding walk
walk-available zero guids a limit pos top h = absurd (omega arith)
walk-available (suc fuel) guids a limit pos top h =
    let rest = available_after guids a in
    let n = min (length rest) limit in
    let next = back_or a (take n rest) in
    let left = available-back_or n a guids in
    rw (paginate_guids-page_of guids a limit pos top, walk)
      (elim (Bool-cases (ltb n (length rest))) [
        | inl more ↦
            let later =
              walk-available fuel guids next limit pos top
                (rw left (omega (arith, length-drop n rest, ltb→lt n (length rest) more))) in
            rw (more, later, left) (take-append-drop n rest)
        | inr done ↦ rw done (take_all n rest (ground arith))
      ])

-- Following the cursor from `a` with any admitted limit, for one round more than there are GUIDs,
-- lists every GUID above `a` once, in rising order, and nothing else.
pub walk_lists_all :
    (guids : List ℕ) (a limit : ℕ)
    → 0 < limit
    → limit ≤ max_list_limit
    → IsRising a (walk (suc (length guids)) guids a limit)
      × ((g : ℕ) → elem g (walk (suc (length guids)) guids a limit) ≡ (elem g guids && ltb a g))
walk_lists_all guids a limit pos top =
    rw
      (walk-available (suc (length guids)) guids a limit pos top
        (omega (arith, length-available-le guids a)))
      (available-IsRising guids a, λ g. elem-available g guids a)
