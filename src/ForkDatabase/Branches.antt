-- ===== src/ForkDatabase/Branches.antt =====
-- libraries/chain/fork_database.cpp: the walks along the links of the items, back from the head and
-- from two items to where their branches part.
use xgt.Base.{
  ℕ, zero, suc, Option, none, some, List, [], ◌∷◌, ◌++◌, ◌==◌, ltb, ◌>>=◌, if◌then◌else◌,
}
use xgt.Base.Tables.{find_by}
use xgt.ForkDatabase.{Item, ForkDatabase, by_id, lock, fetch_block_by_number}

-- The item is walked back while its number is above `n`; each step takes a unit of fuel.
unfoldable pub walk_back : ℕ → ℕ → Item → ForkDatabase → Option Item
unfolding lock
walk_back zero n x d = if ltb n x.num then none else some x
walk_back (suc fuel) n x d =
    if ltb n x.num then (lock x.prev d >>= λ p. walk_back fuel n p d) else some x

-- `walk_main_branch_to_num`, which reads the head without a test.
unfoldable pub walk_main_branch_to_num : ℕ → ForkDatabase → Option Item
unfolding walk_back
walk_main_branch_to_num n d = do h ← d.head; if ltb h.num n then none else walk_back h.num n h d

-- `blocks[0]` if it is the only one, nothing if there is none, or else the walk.
unfoldable pub only_or : Option Item → List Item → Option Item
only_or walk [] = none
only_or walk (x ∷ []) = some x
only_or walk (x ∷ y ∷ xs) = walk

unfoldable pub fetch_block_on_main_branch_by_number : ℕ → ForkDatabase → Option Item
unfolding walk_main_branch_to_num fetch_block_by_number only_or
fetch_block_on_main_branch_by_number n d = elim d.head [
  | none ↦ none
  | some h ↦
      if ltb h.num n
      then none
      else only_or (walk_main_branch_to_num n d) (fetch_block_by_number n d.index)
]

-- A walk arrives, meets an assertion that fails, or has used its fuel.
pub data Walk (A : Type 0) : Type 0 where
  arrived : A → Walk A
  lost : Walk A
  out_of_fuel : Walk A

abbrev pub and_then : {A B : Type 0} → Walk A → (A → Walk B) → Walk B
and_then (arrived a) f = f a
and_then lost f = lost
and_then out_of_fuel f = out_of_fuel

-- `FC_ASSERT` on a pointer.
abbrev pub asserted : {A B : Type 0} → Option A → (A → Walk B) → Walk B
asserted none f = lost
asserted (some a) f = f a

-- The first two loops of fetch_branch_from: the items on the way and the one that is reached.
unfoldable pub climb : ℕ → ℕ → Item → ForkDatabase → Walk (List Item × Item)
unfolding lock
climb zero n x d = if ltb n x.num then out_of_fuel else arrived ([], x)
climb (suc fuel) n x d =
    let rest =
      asserted (lock x.prev d) (λ p. and_then (climb fuel n p d) (λ r. arrived (x ∷ r.0, r.1))) in
    if ltb n x.num then rest else arrived ([], x)

-- The third loop, with the items that are put in after it.
unfoldable pub meet : ℕ → Item → Item → ForkDatabase → Walk (List Item × List Item)
unfolding lock
meet zero x y d = if x.previous == y.previous then arrived (x ∷ [], y ∷ []) else out_of_fuel
meet (suc fuel) x y d =
    let rest = asserted (lock x.prev d) (λ p.
      asserted (lock y.prev d)
        (λ q. and_then (meet fuel p q d) (λ r. arrived (x ∷ r.0, y ∷ r.1)))) in
    if x.previous == y.previous then arrived (x ∷ [], y ∷ []) else rest

-- fetch_branch_from for two items. Each step of a loop goes to a lower number, so the numbers are
-- enough fuel.
unfoldable pub branches : Item → Item → ForkDatabase → Walk (List Item × List Item)
unfolding climb meet
branches x y d = and_then (climb x.num y.num x d) λ r.
    and_then (climb y.num r.1.num y d)
      λ s. and_then (meet r.1.num r.1 s.1 d) λ t. arrived (r.0 ++ t.0, s.0 ++ t.1)

unfoldable pub fetch_branch_from : ℕ → ℕ → ForkDatabase → Walk (List Item × List Item)
unfolding branches
fetch_branch_from first second d =
    asserted (find_by (by_id first) d.index)
      λ x. asserted (find_by (by_id second) d.index) λ y. branches x y d
