-- ===== src/ForkDatabase/Tests.antt =====
-- A fork of four blocks, the third of which comes before the second, and the theorems on it.
use xgt.Base.{ℕ, ◌/◌, ◌≡◌, ◌↔◌, refl, subst, false, Option, none, some, List, [], ◌∷◌, arith}
use xgt.Base.Tables.{find_by, remove_by}
use xgt.ForkDatabase.{Item, ForkDatabase, unlinkable, by_id, by_address, push_block, lock}
use xgt.ForkDatabase.Branches.{
  walk_main_branch_to_num, fetch_block_on_main_branch_by_number, fetch_branch_from, arrived,
}
use xgt.ForkDatabase.Pushes.{IsRaised, push_block-IsRaised}
use xgt.ForkDatabase.Trees.{IsTree, Call, push, call_all, call_all-IsTree, empty, empty-IsTree}
use xgt.ForkDatabase.Ancestors.{
  Leads, here, back, walk_main_branch_to_num_iff, fetch_block_on_main_branch_by_number_lem,
}
use xgt.ForkDatabase.Fetch.{Answers, fetch_branch_from-Answers}

-- An id is a hundred times the number and a rest.
abbrev num_from_id : ℕ → ℕ
num_from_id i = i / 100

abbrev calls : List (Call num_from_id)
calls =
    push 101 0 (record { follows = refl; in_32_bits = omega arith })
    ∷ push 301 201 (record { follows = refl; in_32_bits = omega arith })
    ∷ push 201 101 (record { follows = refl; in_32_bits = omega arith })
    ∷ push 202 101 (record { follows = refl; in_32_bits = omega arith })
    ∷ []

abbrev item : ℕ → Option ℕ → ℕ → ℕ → ℕ → Item
item address prev num id previous = record {
  address = address;
  prev = prev;
  num = num;
  invalid = false;
  id = id;
  previous = previous;
}

abbrev root : Item
root = item 0 none 1 101 0

abbrev top_item : Item
top_item = item 1 (some 2) 3 301 201

abbrev trunk : Item
trunk = item 2 (some 0) 2 201 101

abbrev fork : Item
fork = item 3 (some 0) 2 202 101

abbrev forked : ForkDatabase
forked = record {
  max_size = 1024;
  unlinked_index = [];
  index = fork ∷ top_item ∷ trunk ∷ root ∷ [];
  head = some top_item;
  next_address = 4;
}

run-calls : call_all num_from_id calls empty ≡ forked
unfolding call_all find_by remove_by
run-calls = refl

-- A block that does not link is kept.
run-unlinkable : (push_block num_from_id 501 401 forked).0 ≡ unlinkable
unfolding push_block find_by
run-unlinkable = refl

call_all-IsTree_example : IsTree num_from_id (call_all num_from_id calls empty)
call_all-IsTree_example = call_all-IsTree num_from_id calls empty (empty-IsTree num_from_id)

forked-IsTree : IsTree num_from_id forked
forked-IsTree =
    subst (IsTree num_from_id) run-calls
      (call_all-IsTree num_from_id calls empty (empty-IsTree num_from_id))

push_block-IsRaised_example : IsRaised 501 5 forked (push_block num_from_id 501 401 forked)
push_block-IsRaised_example = push_block-IsRaised num_from_id 501 401 forked

walk_main_branch_to_num_iff_example :
    (walk_main_branch_to_num 2 forked ≡ some trunk)
    ↔ (Leads forked top_item trunk × (trunk.num ≡ 2))
walk_main_branch_to_num_iff_example =
    walk_main_branch_to_num_iff num_from_id forked top_item trunk 2 forked-IsTree refl

top_item-Leads : Leads forked top_item trunk
unfolding lock find_by
top_item-Leads = back refl here

found-trunk : find_by (by_address 2) forked.index ≡ some trunk
unfolding find_by
found-trunk = refl

fetch_block_on_main_branch_by_number_example :
    fetch_block_on_main_branch_by_number 2 forked ≡ some trunk
fetch_block_on_main_branch_by_number_example =
    fetch_block_on_main_branch_by_number_lem num_from_id forked top_item trunk forked-IsTree refl
      found-trunk top_item-Leads

found-top_item : find_by (by_id 301) forked.index ≡ some top_item
unfolding find_by
found-top_item = refl

found-fork : find_by (by_id 202) forked.index ≡ some fork
unfolding find_by
found-fork = refl

fetch_branch_from-Answers_example : Answers forked top_item fork (fetch_branch_from 301 202 forked)
fetch_branch_from-Answers_example =
    fetch_branch_from-Answers num_from_id 301 202 forked top_item fork forked-IsTree found-top_item
      found-fork

run-fetch : fetch_branch_from 301 202 forked ≡ arrived (top_item ∷ trunk ∷ [], fork ∷ [])
unfolding fetch_branch_from find_by
run-fetch = refl
