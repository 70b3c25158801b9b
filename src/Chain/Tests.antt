-- ===== src/Chain/Tests.antt =====
-- A chain of blocks that remembers them, and the theorems on it.
use xgt.Base.{
  ℕ, ◌/◌, ◌≡◌, refl, false, Option, none, some, List, [], ◌∷◌, ◌==◌, arith, if◌then◌else◌,
}
use xgt.Base.Tables.{find_by, remove_by}
use xgt.ForkDatabase
use xgt.ForkDatabase.{ForkDatabase, pushed, Item}
use xgt.ForkDatabase.Trees.{IsTree, IsNumbered, empty, empty-IsTree}
use xgt.Chain.{
  Block, Application, Chain, update_last_irreversible_block, Ending, push_block, apply_block,
}
use xgt.Chain.History.{HasHistory, begun}
use xgt.Chain.Preserved.{push_block-History}
use xgt.Chain.Pushes.{Ends, push_block-Ends}
use xgt.Chain.StaleHead.{Misapplied, push_block-Misapplied}

-- The blocks, newest first, with the number of the last irreversible one.
abbrev Evaluated : Type 0
Evaluated = List Block × ℕ

-- The block 301 cannot be evaluated.
abbrev run : Block → Evaluated → Option Evaluated
run b (bs, l) = if b.id == 301 then none else some (b ∷ bs, update_last_irreversible_block b.num l)

abbrev first_id : List Block → ℕ
first_id [] = 0
first_id (b ∷ bs) = b.id

abbrev first_num : List Block → ℕ
first_num [] = 0
first_num (b ∷ bs) = b.num

run-id : (b : Block) (s s' : Evaluated) → run b s ≡ some s' → first_id s'.0 ≡ b.id
run-id b s s' h = ground arith

run-num : (b : Block) (s s' : Evaluated) → run b s ≡ some s' → first_num s'.0 ≡ b.num
run-num b s s' h = ground arith

run-irreversible :
    (b : Block) (s s' : Evaluated)
    → run b s ≡ some s'
    → s'.1 ≡ update_last_irreversible_block b.num s.1
run-irreversible b s s' h = ground arith

abbrev app : Application
app = record {
  State = Evaluated;
  evaluate = run;
  head_id = λ s. first_id s.0;
  head_num = λ s. first_num s.0;
  last_irreversible = λ s. s.1;
  num_from_id = λ i. i / 100;
  sets_id = run-id;
  sets_num = run-num;
  sets_irreversible = run-irreversible;
}

abbrev genesis : Chain app
genesis = record { fork_db = empty; state = ([], 0); saved = []; revision = 0; log = [] }

-- What a run computes with.
pushes : ℕ → ℕ → Chain app → Ending × Chain app
unfolding push_block find_by remove_by ForkDatabase.push_block ForkDatabase.set_max_size
    xgt.ForkDatabase.Branches.fetch_branch_from ForkDatabase.fetch_block ForkDatabase.pop_block
    ForkDatabase.set_head ForkDatabase.remove
pushes id previous c = push_block app id previous c

-- 101, then 201 and 202 on it, and 302 on 202, to which the fork switches.
abbrev step1 : Chain app
step1 = (push_block app 101 0 genesis).1

abbrev step2 : Chain app
step2 = (push_block app 201 101 step1).1

abbrev step3 : Chain app
step3 = (push_block app 202 101 step2).1

abbrev step4 : Chain app
step4 = (push_block app 302 202 step3).1

id_101-IsNumbered : IsNumbered app.num_from_id 101 0
id_101-IsNumbered = record { follows = refl; in_32_bits = omega arith }

id_201-IsNumbered : IsNumbered app.num_from_id 201 101
id_201-IsNumbered = record { follows = refl; in_32_bits = omega arith }

id_202-IsNumbered : IsNumbered app.num_from_id 202 101
id_202-IsNumbered = record { follows = refl; in_32_bits = omega arith }

id_302-IsNumbered : IsNumbered app.num_from_id 302 202
id_302-IsNumbered = record { follows = refl; in_32_bits = omega arith }

step1-IsTree : IsTree app.num_from_id step1.fork_db
step1-IsTree =
    (push_block-Ends app 101 0 genesis (empty-IsTree app.num_from_id) id_101-IsNumbered).1

step2-IsTree : IsTree app.num_from_id step2.fork_db
step2-IsTree = (push_block-Ends app 201 101 step1 step1-IsTree id_201-IsNumbered).1

step3-IsTree : IsTree app.num_from_id step3.fork_db
step3-IsTree = (push_block-Ends app 202 101 step2 step2-IsTree id_202-IsNumbered).1

run-switched :
    step4.state.0
    ≡ record { id = 302; previous = 202; num = 3 }
      ∷ record { id = 202; previous = 101; num = 2 }
      ∷ record { id = 101; previous = 0; num = 1 }
      ∷ []
unfolding pushes
run-switched = refl

push_block-Ends_example : Ends app (push_block app 302 202 step3)
push_block-Ends_example = push_block-Ends app 302 202 step3 step3-IsTree id_302-IsNumbered

step1-History : HasHistory app step1
step1-History = push_block-History app 101 0 genesis begun

push_block-History_example : HasHistory app step2
push_block-History_example = push_block-History app 201 101 step1 step1-History

abbrev item : ℕ → Option ℕ → ℕ → ℕ → ℕ → Item
item address prev num id previous = record {
  address = address;
  prev = prev;
  num = num;
  invalid = false;
  id = id;
  previous = previous;
}

abbrev forks_of : List Item → Item → ℕ → ForkDatabase
forks_of index head next = record {
  max_size = 1024;
  unlinked_index = [];
  index = index;
  head = some head;
  next_address = next;
}

abbrev item_202 : Item
item_202 = item 2 (some 0) 2 202 101

abbrev item_201 : Item
item_201 = item 1 (some 0) 2 201 101

abbrev item_101 : Item
item_101 = item 0 none 1 101 0

abbrev item_301 : Item
item_301 = item 3 (some 1) 3 301 201

abbrev item_302 : Item
item_302 = item 4 (some 2) 3 302 202

abbrev block_101 : Block
block_101 = record { id = 101; previous = 0; num = 1 }

abbrev block_201 : Block
block_201 = record { id = 201; previous = 101; num = 2 }

abbrev block_302 : Block
block_302 = record { id = 302; previous = 202; num = 3 }

-- The chain at 201, with 202 in the fork database.
abbrev here : Chain app
here = record {
  fork_db = forks_of (item_202 ∷ item_201 ∷ item_101 ∷ []) item_201 3;
  state = (block_201 ∷ block_101 ∷ [], 0);
  saved = (2, (block_101 ∷ [], 0)) ∷ (1, ([], 0)) ∷ [];
  revision = 2;
  log = [];
}

run-here : step3 ≡ here
unfolding pushes
run-here = refl

-- The fork database after 301, and after 302 that follows.
abbrev forks : ForkDatabase
forks = forks_of (item_301 ∷ item_202 ∷ item_201 ∷ item_101 ∷ []) item_301 4

abbrev more_forks : ForkDatabase
more_forks = forks_of (item_302 ∷ item_202 ∷ item_201 ∷ item_101 ∷ []) item_301 5

-- 302, which is on 202, has come on 201.
abbrev misled : Chain app
misled = record {
  fork_db = more_forks;
  state = (block_302 ∷ block_201 ∷ block_101 ∷ [], 0);
  saved = (3, (block_201 ∷ block_101 ∷ [], 0)) ∷ (2, (block_101 ∷ [], 0)) ∷ (1, ([], 0)) ∷ [];
  revision = 3;
  log = [];
}

run-forks : ForkDatabase.push_block app.num_from_id 301 201 here.fork_db ≡ (pushed, forks)
unfolding pushes
run-forks = refl

run-more_forks :
    ForkDatabase.push_block app.num_from_id 302 202 (ForkDatabase.remove 301 forks)
    ≡ (pushed, more_forks)
unfolding pushes
run-more_forks = refl

apply-301 :
    apply_block app (record { id = 301; previous = 201; num = 3 }) (record here { fork_db = forks })
    ≡ none
unfolding pushes
apply-301 = refl

apply-302 : apply_block app block_302 (record here { fork_db = more_forks }) ≡ some misled
unfolding pushes
apply-302 = refl

push_block-Misapplied_example : Misapplied app 301 302 202 here misled
push_block-Misapplied_example =
    push_block-Misapplied app 301 302 202 here misled forks more_forks item_301 run-forks refl refl
      apply-301 run-more_forks refl (omega arith) apply-302
