-- ===== src/Protocol/Paging/Order.antt =====
-- What sorting, removing repeats and skipping leave: the members above the bound, strictly rising.
use mod_playerbots_mcp.Base.{
  ℕ, zero, suc, ◌≤◌, ◌<◌, ◌≡◌, refl, ap, ◌∙◌, sym, Bool, false, ◌&&◌, ◌||◌, List, [], ◌∷◌, take,
  drop, length, ltb, leb, ◌==◌, arith, Bool-cases, inl, inr,
}
use mod_playerbots_mcp.Protocol.Paging.{
  insert_sorted, sort, unique, upper_bound, back_or, available_after,
}

abbrev pub elem : ℕ → List ℕ → Bool
elem g [] = false
elem g (x ∷ xs) = x == g || elem g xs

-- Strictly rising, and above the bound.
abbrev pub IsRising : ℕ → List ℕ → Type 0
IsRising lo [] = Unit
IsRising lo (x ∷ xs) = (lo < x) × IsRising x xs

abbrev IsSorted : ℕ → List ℕ → Type 0
IsSorted lo [] = Unit
IsSorted lo (x ∷ xs) = (lo ≤ x) × IsSorted x xs

abbrev IsStrict : List ℕ → Type 0
IsStrict [] = Unit
IsStrict (x ∷ xs) = IsRising x xs

elem-insert_sorted : (g a : ℕ) (xs : List ℕ) → elem g (insert_sorted a xs) ≡ (a == g || elem g xs)
unfolding insert_sorted
elem-insert_sorted g a [] = refl
elem-insert_sorted g a (x ∷ xs) = ground (arith, elem-insert_sorted g a xs)

elem-sort : (g : ℕ) (xs : List ℕ) → elem g (sort xs) ≡ elem g xs
unfolding sort
elem-sort g [] = refl
elem-sort g (x ∷ xs) = elem-insert_sorted g x (sort xs) ∙ ap (◌||◌ (x == g)) (elem-sort g xs)

IsSorted-insert_sorted :
    (lo a : ℕ) (xs : List ℕ) → lo ≤ a → IsSorted lo xs → IsSorted lo (insert_sorted a xs)
unfolding insert_sorted
IsSorted-insert_sorted lo a [] h s = (h, tt)
IsSorted-insert_sorted lo a (x ∷ xs) h s = ground (arith, IsSorted-insert_sorted x a xs)

IsSorted-sort : (xs : List ℕ) → IsSorted 0 (sort xs)
unfolding sort
IsSorted-sort [] = tt
IsSorted-sort (x ∷ xs) = IsSorted-insert_sorted 0 x (sort xs) (omega arith) (IsSorted-sort xs)

elem-unique : (g : ℕ) (xs : List ℕ) → elem g (unique xs) ≡ elem g xs
unfolding unique
elem-unique g [] = refl
elem-unique g (x ∷ []) = refl
elem-unique g (x ∷ y ∷ xs) = ground (arith, elem-unique g (y ∷ xs))

-- The first of equal neighbours stays, so the head does.
unique_head :
    (x : ℕ) (xs : List ℕ)
    → IsSorted x xs
    → (rest : List ℕ) × (unique (x ∷ xs) ≡ x ∷ rest) × IsRising x rest
unfolding unique
unique_head x [] s = ([], refl, tt)
unique_head x (y ∷ xs) s =
    let (rest, e, r) = unique_head y xs s.1 in
    elim (Bool-cases (x == y)) [
      | inl same ↦ (rest, ground arith, ground arith)
      | inr less ↦ (y ∷ rest, ground arith, ground arith)
    ]

IsStrict-unique : (lo : ℕ) (xs : List ℕ) → IsSorted lo xs → IsStrict (unique xs)
unfolding unique
IsStrict-unique lo [] s = tt
IsStrict-unique lo (x ∷ xs) s = let (rest, e, r) = unique_head x xs s.1 in rw e r

IsRising-IsStrict : (lo : ℕ) (xs : List ℕ) → IsRising lo xs → IsStrict xs
IsRising-IsStrict lo [] r = tt
IsRising-IsStrict lo (x ∷ xs) r = r.1

IsRising-upper_bound : (a : ℕ) (xs : List ℕ) → IsStrict xs → IsRising a (upper_bound a xs)
unfolding upper_bound
IsRising-upper_bound a [] s = tt
IsRising-upper_bound a (x ∷ xs) s =
    ground (arith, IsRising-upper_bound a xs (IsRising-IsStrict x xs s))

elem_above : (g lo : ℕ) (xs : List ℕ) → IsRising lo xs → g ≤ lo → elem g xs ≡ false
elem_above g lo [] r h = refl
elem_above g lo (x ∷ xs) r h = ground (arith, elem_above g x xs r.1)

elem-upper_bound :
    (g a : ℕ) (xs : List ℕ) → IsStrict xs → elem g (upper_bound a xs) ≡ (elem g xs && ltb a g)
unfolding upper_bound
elem-upper_bound g a [] s = refl
elem-upper_bound g a (x ∷ xs) s =
    ground (arith, elem-upper_bound g a xs (IsRising-IsStrict x xs s), elem_above g x xs s)

listed-IsStrict : (guids : List ℕ) → IsStrict (unique (sort guids))
listed-IsStrict guids = IsStrict-unique 0 (sort guids) (IsSorted-sort guids)

pub available-IsRising : (guids : List ℕ) (a : ℕ) → IsRising a (available_after guids a)
unfolding available_after
available-IsRising guids a = IsRising-upper_bound a (unique (sort guids)) (listed-IsStrict guids)

pub elem-available :
    (g : ℕ) (guids : List ℕ) (a : ℕ) → elem g (available_after guids a) ≡ (elem g guids && ltb a g)
unfolding available_after
elem-available g guids a =
    rw (elem-upper_bound g a (unique (sort guids)) (listed-IsStrict guids))
      (rw (elem-unique g (sort guids)) (rw (elem-sort g guids)))

-- Skipping to a later bound may start from what an earlier one left.
upper_bound-upper_bound :
    (a b : ℕ) (xs : List ℕ) → a ≤ b → upper_bound b (upper_bound a xs) ≡ upper_bound b xs
unfolding upper_bound
upper_bound-upper_bound a b [] h = refl
upper_bound-upper_bound a b (x ∷ xs) h = ground (arith, upper_bound-upper_bound a b xs h)

upper_bound_below : (a : ℕ) (xs : List ℕ) → IsRising a xs → upper_bound a xs ≡ xs
unfolding upper_bound
upper_bound_below a [] r = refl
upper_bound_below a (x ∷ xs) r = ground arith

pub back_or-le : (a : ℕ) (xs : List ℕ) → IsRising a xs → a ≤ back_or a xs
unfolding back_or
back_or-le a [] r = omega arith
back_or-le a (x ∷ xs) r = omega (arith, back_or-le x xs r.1)

pub IsRising-take : (n a : ℕ) (xs : List ℕ) → IsRising a xs → IsRising a (take n xs)
IsRising-take zero a xs r = tt
IsRising-take (suc n) a [] r = tt
IsRising-take (suc n) a (x ∷ xs) r = (r.0, IsRising-take n x xs r.1)

upper_bound-back_or :
    (n a : ℕ) (xs : List ℕ) → IsRising a xs → upper_bound (back_or a (take n xs)) xs ≡ drop n xs
unfolding back_or upper_bound
upper_bound-back_or zero a xs r = upper_bound_below a xs r
upper_bound-back_or (suc n) a [] r = refl
upper_bound-back_or (suc n) a (x ∷ xs) r =
    let low = back_or-le x (take n xs) (IsRising-take n x xs r.1) in
    ground (arith, upper_bound-back_or n x xs r.1)

-- What lies after the last item of a page is what the page left out.
pub available-back_or :
    (n a : ℕ) (guids : List ℕ)
    → available_after guids (back_or a (take n (available_after guids a)))
      ≡ drop n (available_after guids a)
unfolding available_after
available-back_or n a guids =
    let listed = unique (sort guids) in
    let rest = upper_bound a listed in
    let r = available-IsRising guids a in
    let low = back_or-le a (take n rest) (IsRising-take n a rest r) in
    sym (upper_bound-upper_bound a (back_or a (take n rest)) listed low)
    ∙ upper_bound-back_or n a rest r

-- A page holds the members of the range up to its own last item.
pub elem-take :
    (g n a : ℕ) (xs : List ℕ)
    → IsRising a xs
    → elem g (take n xs) ≡ (elem g xs && leb g (back_or a (take n xs)))
unfolding back_or
elem-take g zero a xs r = ground (arith, elem_above g a xs r)
elem-take g (suc n) a [] r = refl
elem-take g (suc n) a (x ∷ xs) r =
    let low = back_or-le x (take n xs) (IsRising-take n x xs r.1) in
    ground (arith, elem-take g n x xs r.1)

length-insert_sorted : (a : ℕ) (xs : List ℕ) → length (insert_sorted a xs) ≡ suc (length xs)
unfolding insert_sorted
length-insert_sorted a [] = refl
length-insert_sorted a (x ∷ xs) = ground (arith, length-insert_sorted a xs)

length-sort : (xs : List ℕ) → length (sort xs) ≡ length xs
unfolding sort
length-sort [] = refl
length-sort (x ∷ xs) = omega (arith, length-insert_sorted x (sort xs), length-sort xs)

length-unique-le : (xs : List ℕ) → length (unique xs) ≤ length xs
unfolding unique
length-unique-le [] = omega arith
length-unique-le (x ∷ []) = omega arith
length-unique-le (x ∷ y ∷ xs) = ground (arith, length-unique-le (y ∷ xs))

length-upper_bound-le : (a : ℕ) (xs : List ℕ) → length (upper_bound a xs) ≤ length xs
unfolding upper_bound
length-upper_bound-le a [] = omega arith
length-upper_bound-le a (x ∷ xs) = ground (arith, length-upper_bound-le a xs)

pub length-available-le : (guids : List ℕ) (a : ℕ) → length (available_after guids a) ≤ length guids
unfolding available_after
length-available-le guids a = omega (
  arith,
  length-upper_bound-le a (unique (sort guids)),
  length-unique-le (sort guids),
  length-sort guids,
)
