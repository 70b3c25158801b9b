-- ===== src/Chain.antt =====
-- libraries/chain/database.cpp: how blocks are pushed, popped and switched to. The evaluation of a
-- block on the state is a parameter; the undo sessions of the database are the states that they
-- restore, each with its revision, newest first. The block log is the blocks that are in it, newest
-- first. Pending transactions, checkpoints and skip flags are left out: nothing is skipped.
pub mod History
pub mod Steps
pub mod Kept
pub mod Everywhere
pub mod Preserved
pub mod Switch
pub mod Switches
pub mod Ends
pub mod Pushes
pub mod StaleHead
mod Tests
use xgt.Base.{
  ℕ, zero, suc, ◌+◌, ◌-◌, ◌%◌, ◌^◌, ◌≡◌, Bool, true, false, Option, none, some, List, [], ◌∷◌, ◌++◌,
  ◌==◌, ltb, leb, is_some, or_else, require, if◌then◌else◌, ◌>>=◌, ◌>>◌,
}
use xgt.Base.Tables.{find_by}
use xgt.ForkDatabase
use xgt.ForkDatabase.{Item, ForkDatabase, new_item, set_head, set_max_size, fetch_block, is_pushed}
use xgt.ForkDatabase.Branches.{
  Walk, arrived, lost, out_of_fuel, fetch_branch_from, fetch_block_on_main_branch_by_number,
}

-- What a `signed_block` is to the database: its contents are those of its id.
pub record Block : Type 0 where
  pub id : ℕ
  pub previous : ℕ
  pub num : ℕ

abbrev pub block_of : Item → Block
block_of x = record { id = x.id; previous = x.previous; num = x.num }

-- `XGT_MAX_WITNESSES`
abbrev pub max_witnesses : ℕ
max_witnesses = 10

-- update_last_irreversible_block.
abbrev pub update_last_irreversible_block : ℕ → ℕ → ℕ
update_last_irreversible_block head old =
    if ltb max_witnesses head then head - max_witnesses else old

-- The state, and _apply_block on it up to migrate_irreversible_state; `none` is an exception. What
-- it does to the head is written by update_global_dynamic_data and update_last_irreversible_block.
pub record Application : Type 1 where
  pub State : Type 0
  pub evaluate : Block → State → Option State
  pub head_id : State → ℕ
  pub head_num : State → ℕ
  pub last_irreversible : State → ℕ
  pub num_from_id : ℕ → ℕ
  pub sets_id : (b : Block) (s s' : State) → evaluate b s ≡ some s' → head_id s' ≡ b.id
  pub sets_num : (b : Block) (s s' : State) → evaluate b s ≡ some s' → head_num s' ≡ b.num
  pub sets_irreversible :
      (b : Block) (s s' : State)
      → evaluate b s ≡ some s'
      → last_irreversible s' ≡ update_last_irreversible_block b.num (last_irreversible s)

abbrev pub by_block_id : ℕ → Block → Bool
by_block_id i b = b.id == i

-- The number of the block log's head.
abbrev pub log_num : List Block → ℕ
log_num [] = 0
log_num (b ∷ bs) = b.num

-- How a call ends, with the chain as it is then.
pub data Ending : Type 0 where
  returned : Bool → Ending
  threw : Ending
  out_of_steps : Ending

-- `fork_head->num == dpo.head_block_number`, where there is a head.
unfoldable pub agrees : Option Item → ℕ → Bool
agrees none n = true
agrees (some h) n = h.num == n

-- The blocks for the log: `n` of them from the number after `from`, newest first.
unfoldable pub blocks_to_write : ℕ → ℕ → ForkDatabase → List Block → Option (List Block)
blocks_to_write zero from d log = some log
blocks_to_write (suc n) from d log = do
  x ← fetch_block_on_main_branch_by_number (suc from) d
  blocks_to_write n (suc from) d (block_of x ∷ log)

-- The rounds up to a pop that throws, since the head's number falls.
abbrev pub fuel_of : Option Item → ℕ
fuel_of none = 1
fuel_of (some h) = suc h.num

-- `_fork_db.remove` of the rest of a branch.
unfoldable pub remove_all : List Item → ForkDatabase → ForkDatabase
remove_all [] d = d
remove_all (x ∷ xs) d = remove_all xs (ForkDatabase.remove x.id d)

-- `branches.second.back()->data.previous`
unfoldable pub ancestor : List Item → ℕ
ancestor [] = 0
ancestor (x ∷ []) = x.previous
ancestor (x ∷ y ∷ xs) = ancestor (y ∷ xs)

unfoldable pub from_last : List Item → List Item
from_last [] = []
from_last (x ∷ xs) = from_last xs ++ x ∷ []

module _ (app : Application) where
  open app use {State, evaluate, head_id, head_num, last_irreversible, num_from_id}

  pub record Chain : Type 0 where
    pub fork_db : ForkDatabase
    pub state : State
    pub saved : List (ℕ × State)
    pub revision : ℕ
    pub log : List Block

  -- `commit`: the sessions up to a revision go, the oldest first.
  unfoldable pub keep_saved : ℕ → ℕ × State → List (ℕ × State) → List (ℕ × State)
  keep_saved r p [] = if leb p.0 r then [] else p ∷ []
  keep_saved r p (q ∷ older) = p ∷ q ∷ older

  unfoldable pub drop_saved : ℕ → List (ℕ × State) → List (ℕ × State)
  unfolding keep_saved
  drop_saved r [] = []
  drop_saved r (p ∷ older) = keep_saved r p (drop_saved r older)

  -- `migrate_irreversible_state`
  unfoldable pub migrate_irreversible_state : Chain → Option Chain
  unfolding drop_saved agrees blocks_to_write
  migrate_irreversible_state c = do
    require (agrees c.fork_db.head (head_num c.state))
    log ←
        blocks_to_write (last_irreversible c.state - log_num c.log) (log_num c.log) c.fork_db c.log
    some (record c {
      log = log;
      fork_db = set_max_size 1024 (
          set_max_size ((head_num c.state + 2 ^ 32 - last_irreversible c.state + 1) % 2 ^ 32)
            c.fork_db);
      saved = drop_saved (last_irreversible c.state) c.saved;
    })

  -- `start_undo_session`, `apply_block` and `session.push`; the exception undoes the session.
  unfoldable pub apply_block : Block → Chain → Option Chain
  unfolding migrate_irreversible_state
  apply_block b c = do
    s ← evaluate b c.state
    migrate_irreversible_state (record c {
      state = s;
      saved = (suc c.revision, c.state) ∷ c.saved;
      revision = suc c.revision;
    })

  -- `fetch_block_by_id`
  unfoldable pub fetch_block_by_id : ℕ → Chain → Option Block
  fetch_block_by_id i c =
      or_else (fetch_block i c.fork_db >>= λ x. some (block_of x)) (find_by (by_block_id i) c.log)

  -- `undo`, which does nothing where there is no session.
  unfoldable pub undo : Chain → Chain
  undo c = elim c.saved [
    | [] ↦ c
    | (k, s) ∷ older ↦ record c { state = s; saved = older; revision = c.revision - 1 }
  ]

  -- `pop_block`
  unfoldable pub pop_block : Chain → Option Chain
  unfolding fetch_block_by_id undo
  pop_block c = do
    require (is_some (fetch_block_by_id (head_id c.state) c))
    f ← ForkDatabase.pop_block c.fork_db
    some (undo (record c { fork_db = f }))

  -- `while( head_block_id() != target ) pop_block();`. Each round takes the fork database's head to
  -- a lower number, which is enough fuel.
  unfoldable pub pop_to : ℕ → ℕ → Chain → Ending × Chain
  unfolding pop_block
  pop_to zero target c = (if head_id c.state == target then returned true else out_of_steps, c)
  pop_to (suc n) target c =
      let rest : Ending × Chain = elim (pop_block c) [
        | none ↦ (threw, c)
        | some c' ↦ pop_to n target c'
      ] in
      if head_id c.state == target then (returned true, c) else rest

  abbrev pub fuel : Chain → ℕ
  fuel c = fuel_of c.fork_db.head

  -- The items are set as head and applied one after the other; those from the first that fails on
  -- are left.
  unfoldable pub apply_all : List Item → Chain → List Item × Chain
  unfolding apply_block
  apply_all [] c = ([], c)
  apply_all (x ∷ xs) c =
      let c' = record c { fork_db = set_head (some x) c.fork_db } in
      elim (apply_block (block_of x) c') [ none ↦ (x ∷ xs, c') | some c'' ↦ apply_all xs c'' ]

  -- `if( except )`: the failed rest goes, the chain goes back and applies its old branch again.
  -- Whether or not that works, an exception comes out.
  unfoldable pub restore : List Item → Ending × Chain → Ending × Chain
  unfolding apply_all from_last
  restore second (returned b, c) = (threw, (apply_all (from_last second) c).1)
  restore second (threw, c) = (threw, c)
  restore second (out_of_steps, c) = (out_of_steps, c)

  unfoldable pub recover : List Item → List Item → Chain → Ending × Chain
  unfolding pop_to remove_all ancestor restore
  recover rest second c =
      let c' = record c { fork_db = remove_all rest c.fork_db } in
      restore second (pop_to (fuel c') (ancestor second) c')

  unfoldable pub after_switch : List Item → List Item × Chain → Ending × Chain
  unfolding recover
  after_switch second ([], c) = (returned true, c)
  after_switch second (x ∷ xs, c) = recover (x ∷ xs) second c

  unfoldable pub apply_first : List Item → List Item → Ending × Chain → Ending × Chain
  unfolding apply_all from_last after_switch
  apply_first first second (returned b, c) = after_switch second (apply_all (from_last first) c)
  apply_first first second (threw, c) = (threw, c)
  apply_first first second (out_of_steps, c) = (out_of_steps, c)

  -- The switch to the branch of a higher head.
  unfoldable pub switch_along : Walk (List Item × List Item) → Chain → Ending × Chain
  unfolding pop_to ancestor apply_first
  switch_along lost c = (threw, c)
  switch_along out_of_fuel c = (out_of_steps, c)
  switch_along (arrived r) c = apply_first r.0 r.1 (pop_to (fuel c) (ancestor r.1) c)

  unfoldable pub switch_fork : ℕ → Chain → Ending × Chain
  unfolding switch_along
  switch_fork new_head c = switch_along (fetch_branch_from new_head (head_id c.state) c.fork_db) c

  -- The block on the head of the chain.
  unfoldable pub extend : Block → Chain → Ending × Chain
  unfolding apply_block
  extend b c = elim (apply_block b c) [
    | none ↦ (threw, record c { fork_db = ForkDatabase.remove b.id c.fork_db })
    | some c' ↦ (returned false, c')
  ]

  -- What `_push_block` does with the head that the fork database gives.
  unfoldable pub follow : Block → Option Item → Chain → Ending × Chain
  unfolding switch_fork extend
  follow b none c = (threw, c)
  follow b (some h) c =
      if h.previous == head_id c.state
      then extend b c
      else if ltb (head_num c.state) h.num
      then switch_fork h.id c
      else (returned false, c)

  -- `_push_block`; it returns whether the fork was switched.
  unfoldable pub push_block : ℕ → ℕ → Chain → Ending × Chain
  unfolding follow
  push_block id previous c =
      let r = ForkDatabase.push_block num_from_id id previous c.fork_db in
      let c' = record c { fork_db = r.1 } in
      if is_pushed r.0
      then follow
          (record { id = id; previous = previous; num = (num_from_id previous + 1) % 2 ^ 32 })
          r.1.head c'
      else (threw, c')
