-- ===== src/Producer.antt =====
-- The transactions and actions of a new block: libraries/plugins/witness/block_producer.cpp,
-- apply_pending_transactions, on a block that has neither yet. The evaluators of automated actions are
-- registered elsewhere, and are a parameter; _apply_block parses actions and does nothing with them.
pub mod Actions
pub mod Drafts
pub mod Accepted
mod Tests
use xgt.Base.{
  ℕ, ◌+◌, ◌-◌, ◌*◌, ◌/◌, ◌^◌, ◌%◌, Bool, true, false, not, ◌&&◌, Option, none, some, List, [], ◌∷◌,
  ◌++◌, ltb, leb, is_some, if◌then◌else◌, ◌>>=◌, ◌>>◌,
}
use xgt.Database.{Properties, Database}
use xgt.Blocks.{
  Transaction, Extension, automated_actions, SignedBlock, Setting, Skip, apply_transaction,
  update_global_dynamic_data,
}
use xgt.Pending.{has_pow_op}

-- A pending required or optional action.
pub record Action : Type 0 where
  pub action : ℕ
  pub execution_time : ℕ

-- Serialisation: the sizes of a transaction, of an action and of a block, which depends, as its id does, on its
-- transactions, required actions and optional actions. Then apply_required_action and
-- apply_optional_action.
pub record Packing : Type 0 where
  pub transaction_size : Transaction → ℕ
  pub action_size : Action → ℕ
  pub block_size : List Transaction → List Action → List Action → ℕ
  pub block_id : List Transaction → List Action → List Action → ℕ
  pub apply_required_action : Action → Database → Option Database
  pub apply_optional_action : Action → Database → Option Database

-- What the function has built: its state, `total_block_size`, the transactions of the block, and
-- `postponed_tx_count`.
pub record Draft : Type 0 where
  pub db : Database
  pub total_block_size : ℕ
  pub transactions : List Transaction
  pub postponed_tx_count : ℕ

-- The state and `total_block_size` of a loop over actions, and the actions that it has taken.
pub record Taken : Type 0 where
  pub db : Database
  pub total_block_size : ℕ
  pub actions : List Action

abbrev pub total_with : (Action → ℕ) → Action → Taken → ℕ
total_with size a s = (s.total_block_size + size a) % 2 ^ 64

-- Either loop over actions, on those that the iterator meets, in its order; they differ in what an
-- exception does.
unfoldable pub take_actions :
    (Action → ℕ)
    → (Action → Database → Option Database)
    → (Taken → Option Taken)
    → ℕ
    → ℕ
    → List Action
    → Taken
    → Option Taken
take_actions size apply caught maximum when [] s = some s
take_actions size apply caught maximum when (a ∷ rest) s =
    if ltb when a.execution_time
    then some s
    else if ltb maximum (total_with size a s)
    then some s
    else (elim (apply a s.db) [
      | none ↦ caught s
      | some d ↦
          some (record {
            db = d;
            total_block_size = total_with size a s;
            actions = s.actions ++ a ∷ [];
          })
    ]
        >>= take_actions size apply caught maximum when rest)

-- `extensions.insert`, if there are actions.
unfoldable pub with_actions : List Action → List Extension → List Extension
with_actions [] es = es
with_actions (a ∷ rest) es = es ++ automated_actions ∷ []

-- `XGT_BLOCK_GENERATION_POSTPONED_TX_LIMIT`
abbrev postponed_tx_limit : ℕ
postponed_tx_limit = 5

-- `maximum_transaction_partition_size`; the percentage is required_actions_partition_percent.
unfoldable pub partition_size : ℕ → Properties → ℕ
partition_size percent p =
    (p.maximum_block_size + 2 ^ 64 - p.maximum_block_size * percent / 10000 % 2 ^ 64) % 2 ^ 64

module _ (st : Setting) (skip : Skip) (pk : Packing) where
  abbrev pub new_total_size : Transaction → Draft → ℕ
  new_total_size t dr = (dr.total_block_size + pk.transaction_size t) % 2 ^ 64

  abbrev pub postpone : Draft → Draft
  postpone dr = record dr { postponed_tx_count = dr.postponed_tx_count + 1 }

  -- A transaction in a session of its own, at the end of the block if it goes through.
  unfoldable pub include : Transaction → Draft → Option Draft
  include t dr = do
    d ← apply_transaction st skip t dr.db
    some (record {
      db = d;
      total_block_size = new_total_size t dr;
      transactions = dr.transactions ++ t ∷ [];
      postponed_tx_count = dr.postponed_tx_count;
    })

  -- The producer's own proof of work; an exception leaves the function.
  unfoldable pub take_reward : ℕ → Option Transaction → Draft → Option Draft
  unfolding include
  take_reward limit none dr = some dr
  take_reward limit (some t) dr =
      if leb limit (new_total_size t dr) then some (postpone dr) else include t dr

  -- One round of the loop over `_pending_tx`.
  unfoldable pub take_one : ℕ → ℕ → Bool → Transaction → Draft → Draft
  unfolding include
  take_one limit when has_reward t dr =
      if ltb t.expiration when
      then dr
      else if has_reward && has_pow_op t.operations
      then dr
      else if leb limit (new_total_size t dr)
      then postpone dr
      else elim (include t dr) [ none ↦ dr | some dr' ↦ dr' ]

  unfoldable pub take_pending : ℕ → ℕ → Bool → List Transaction → Draft → Draft
  unfolding take_one
  take_pending limit when has_reward [] dr = dr
  take_pending limit when has_reward (t ∷ ts) dr =
      let rest = take_pending limit when has_reward ts (take_one limit when has_reward t dr) in
      if ltb postponed_tx_limit dr.postponed_tx_count then dr else rest

  -- From `update_global_dynamic_data` on. The first argument is the size that a block can have, as it
  -- was read at the start.
  unfoldable pub add_actions :
      ℕ → List Action → List Action → SignedBlock → Draft → Option SignedBlock
  unfolding take_actions with_actions
  add_actions maximum required optional b dr = do
    let ts = dr.transactions
    moved ←
        update_global_dynamic_data st skip
          (record b {
            transactions = ts;
            pack_size = pk.block_size ts [] [];
            id = pk.block_id ts [] [];
          })
          dr.db
    r ←
        take_actions pk.action_size pk.apply_required_action (λ s. none) maximum b.timestamp
          required (record { db = moved; total_block_size = dr.total_block_size; actions = [] })
    o ←
        take_actions pk.action_size pk.apply_optional_action (λ s. some s) maximum b.timestamp
          optional (record { db = r.db; total_block_size = r.total_block_size; actions = [] })
    some (record b {
      transactions = ts;
      extensions = with_actions o.actions (with_actions r.actions b.extensions);
      pack_size = pk.block_size ts r.actions o.actions;
      id = pk.block_id ts r.actions o.actions;
      transaction_merkle_root = st.merkle_root ts;
    })

  -- Three lengths besides the block are counted; the undo session is closed at the end. The last two
  -- lists are the actions that the loops over them meet.
  unfoldable pub apply_pending_transactions :
      ℕ
      → Option Transaction
      → List Transaction
      → List Action
      → List Action
      → SignedBlock
      → Database
      → Option SignedBlock
  unfolding partition_size take_reward take_pending add_actions
  apply_pending_transactions percent reward pending required optional b d = do
    let limit = partition_size percent d.properties
    let maximum = d.properties.maximum_block_size
    dr ← take_reward limit reward (record {
      db = d;
      total_block_size = (pk.block_size [] [] [] + 12) % 2 ^ 64;
      transactions = [];
      postponed_tx_count = 0;
    })
    add_actions maximum required optional b
        (take_pending limit b.timestamp (is_some reward) pending dr)
