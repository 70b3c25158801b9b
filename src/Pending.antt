-- ===== src/Pending.antt =====
-- Pending transactions: libraries/chain/database.cpp, push_transaction, _push_transaction and
-- clear_pending; libraries/chain/include/xgt/chain/db_with.hpp, pending_transactions_restorer and
-- without_pending_transactions. The state of the undo session that pending transactions run in is
-- kept beside the state of the head block, to which closing the session returns.
pub mod Runs
pub mod Fates
pub mod Restored
mod Tests
use xgt.Base.{
  ℕ, suc, ◌+◌, ◌-◌, ◌^◌, ◌%◌, Bool, true, false, not, ◌&&◌, Option, none, some, List, [], ◌∷◌, ◌++◌,
  ltb, leb, is_some, length, if◌then◌else◌,
}
use xgt.Database.{Database, find_transaction}
use xgt.Blocks.{Operation, on_money, pow, Transaction, Setting, Skip, apply_transaction}

pub record Chain : Type 0 where
  pub head : Database
  pub pending_tx_session : Option Database
  pub pending_tx : List Transaction
  pub popped_tx : List Transaction

abbrev pub has_pow_op : List Operation → Bool
has_pow_op [] = false
has_pow_op (on_money o ∷ os) = has_pow_op os
has_pow_op (pow o ∷ os) = true

-- The state that the chain shows.
unfoldable pub state : Chain → Database
state c = elim c.pending_tx_session [ none ↦ c.head | some d ↦ d ]

unfoldable pub clear_pending : Chain → Chain
clear_pending c = record c { pending_tx = []; pending_tx_session = none }

-- A transaction and whether it went through; exceptions are `false`.
module _ (st : Setting) (skip : Skip) where
  -- `_push_transaction`
  unfoldable pub push_transaction_ : Transaction → Chain → Bool × Chain
  unfolding state
  push_transaction_ t c = elim (apply_transaction st skip t (state c)) [
    | none ↦ (false, record c { pending_tx_session = some (state c) })
    | some d ↦ (true, record c { pending_tx_session = some d; pending_tx = c.pending_tx ++ t ∷ [] })
  ]

  -- `push_transaction`, with the size of the transaction.
  unfoldable pub push_transaction : ℕ → Transaction → Chain → Bool × Chain
  unfolding push_transaction_ state
  push_transaction size t c =
      if leb size (((state c).properties.maximum_block_size + 2 ^ 32 - 256) % 2 ^ 32)
      then push_transaction_ t c
      else (false, c)

  -- One round of the destructor's loops, on what is left of `apply_trxs`; `late` is the clock's answer.
  unfoldable pub restore_one : Bool → Transaction → Bool × Chain → Bool × Chain
  unfolding push_transaction_ state find_transaction
  restore_one late t (apply_trxs, c) =
      if ltb 2116800 (state c).properties.head_block_number && has_pow_op t.operations
      then (apply_trxs, c)
      else if is_some (find_transaction t.id (state c))
      then (apply_trxs, c)
      else if apply_trxs && not late
      then (true, (push_transaction_ t c).1)
      else (false, record c { pending_tx = c.pending_tx ++ t ∷ [] })

  -- The clock is read once in each round at most, the `n`th time in the round `n`.
  unfoldable pub restore_all : (ℕ → Bool) → ℕ → List Transaction → Bool × Chain → Bool × Chain
  unfolding restore_one
  restore_all late n [] r = r
  restore_all late n (t ∷ ts) r = restore_all late (suc n) ts (restore_one (late n) t r)

  -- `~pending_transactions_restorer`
  unfoldable pub restore : (ℕ → Bool) → List Transaction → Chain → Chain
  unfolding restore_all
  restore late pending c =
      let (apply_trxs, c') = restore_all late 0 c.popped_tx (true, c) in
      (restore_all late (length c.popped_tx) pending (apply_trxs, record c' { popped_tx = [] })).1

  -- The callback changes the head, pops transactions, and can throw.
  unfoldable pub without_pending_transactions :
      (ℕ → Bool) → (Chain → Bool × Chain) → Chain → Bool × Chain
  unfolding clear_pending restore
  without_pending_transactions late callback c =
      let (ok, c') = callback (clear_pending c) in (ok, restore late c.pending_tx c')
