-- ===== src/Blocks.antt =====
-- libraries/chain/database.cpp: _apply_transaction, and _apply_block up to migrate_irreversible_state.
-- No hardfork is defined (XGT_NUM_HARDFORKS is 0), so process_hardforks has nothing to do; calls that
-- the source comments out, and notifications, are left out. Operations are those on money and pow;
-- validate is never skipped.
pub mod Supply
pub mod Gains
pub mod Issue
pub mod Emission
pub mod Steady
pub mod Replay
pub mod Once
pub mod Sample
mod Tests
use xgt.Base.{
  ℕ, ◌+◌, ◌-◌, ◌*◌, ◌%◌, ◌^◌, Bool, true, false, not, ◌&&◌, ◌||◌, Option, none, some, List, [], ◌∷◌,
  ◌==◌, ltb, leb, is_some, or_else, require, if◌then◌else◌, ◌>>=◌, ◌>>◌, Map, find, put,
}
use xgt.Protocol.Verify.{
  Verdict, verified, assert_failed, missing_social_auth, missing_other_auth, missing_money_auth,
  missing_recovery_auth,
}
use xgt.Ledger.{Ledger, AccountAuthority, get_account, adjust_balance}
use xgt.Ledger.Transfer.{clear_null_wallet_balance}
use xgt.Ledger.Operations
use xgt.Chain.{update_last_irreversible_block}
use xgt.Database.{
  Properties, Witness, SeenTransaction, Database, find_witness, set_witness, find_transaction,
}
use xgt.Mining.{Hashes, PowOperation, evaluate_pow, reward_at, get_pow_target, first_miner_block}

pub data Operation : Type 0 where
  on_money : Operations.Operation → Operation
  pow : PowOperation → Operation

pub record Transaction : Type 0 where
  pub id : ℕ
  pub expiration : ℕ
  pub operations : List Operation

pub data Extension : Type 0 where
  no_extension : Extension
  running_version : ℕ → Extension
  hardfork_vote : ℕ → ℕ → Extension
  automated_actions : Extension

-- `signed_block`
pub record SignedBlock : Type 0 where
  pub id : ℕ
  pub previous : ℕ
  pub num : ℕ
  pub timestamp : ℕ
  pub witness : ℕ
  pub transaction_merkle_root : ℕ
  pub pack_size : ℕ
  pub extensions : List Extension
  pub transactions : List Transaction

-- What the chain asks of cryptography, `authorize` with the checks on signatures, of floats, in
-- `next_target`, and of the table of get_shared_db_merkle.
pub record Setting : Type 0 where
  pub hashes : Hashes
  pub pow_is_valid : PowOperation → Bool
  pub authorize : Transaction → List AccountAuthority → Verdict
  pub merkle_root : List Transaction → ℕ
  pub shared_db_merkle : Map ℕ
  pub next_target : SignedBlock → ℕ → ℕ

-- The flags of `skip`.
pub record Skip : Type 0 where
  pub transaction_dupe_check : Bool
  pub authority_check : Bool
  pub merkle_check : Bool
  pub undo_history_check : Bool

-- `XGT_MAX_TIME_UNTIL_EXPIRATION`, `XGT_MAX_UNDO_HISTORY`, `XGT_MINING_TARGET_START`,
-- `XGT_MINING_TARGET_MAX`, `XGT_MINING_RECALC_EVERY_N_BLOCKS`
abbrev pub max_time_until_expiration : ℕ
max_time_until_expiration = 3600

abbrev pub max_undo_history : ℕ
max_undo_history = 151200

abbrev pub mining_target_start : ℕ
mining_target_start = 65535 * 16 ^ 54

abbrev pub mining_target_max : ℕ
mining_target_max = 65535 * 16 ^ 55

abbrev pub recalc_every : ℕ
recalc_every = 302400

abbrev pub is_nonempty : List Operation → Bool
is_nonempty [] = false
is_nonempty (o ∷ os) = true

-- The first proof of work in a block.
abbrev pub first_pow_in : List Operation → Option PowOperation
first_pow_in [] = none
first_pow_in (on_money o ∷ os) = first_pow_in os
first_pow_in (pow o ∷ os) = some o

abbrev pub first_pow : List Transaction → Option PowOperation
first_pow [] = none
first_pow (t ∷ ts) = or_else (first_pow_in t.operations) (first_pow ts)

-- `clear_expired_transactions`: the index is in the order of expiration.
abbrev pub unexpired : ℕ → List SeenTransaction → List SeenTransaction
unexpired now [] = []
unexpired now (t ∷ ts) = if ltb t.expiration now then unexpired now ts else t ∷ unexpired now ts

unfoldable pub clear_expired_transactions : Database → Database
clear_expired_transactions d = record d {
  transactions = unexpired d.ledger.head_block_time d.transactions;
}

-- `process_header_visitor`
unfoldable pub process_header_extension : ℕ → Extension → Database → Option Database
unfolding find_witness set_witness
process_header_extension n no_extension d = some d
process_header_extension n (running_version v) d = do
  w ← find_witness n d
  some (set_witness (record w { running_version = v }) d)
process_header_extension n (hardfork_vote v t) d = do
  w ← find_witness n d
  some (set_witness (record w { hardfork_version_vote = v; hardfork_time_vote = t }) d)
process_header_extension n automated_actions d = some d

unfoldable pub process_header_extensions : ℕ → List Extension → Database → Option Database
unfolding process_header_extension
process_header_extensions n [] d = some d
process_header_extensions n (e ∷ es) d =
    process_header_extension n e d >>= process_header_extensions n es

module _ (st : Setting) (skip : Skip) where
  unfoldable pub apply_operation : Operation → Database → Option Database
  apply_operation (on_money o) d = do
    l ← Operations.evaluate o d.ledger
    some (record d { ledger = l })
  apply_operation (pow o) d = do require (st.pow_is_valid o); evaluate_pow st.hashes o d

  unfoldable pub apply_operations : List Operation → Database → Option Database
  unfolding apply_operation
  apply_operations [] d = some d
  apply_operations (o ∷ os) d = apply_operation o d >>= apply_operations os

  -- Missing money authority is let pass for a block that the table names.
  unfoldable pub is_let_pass : Verdict → Database → Bool
  is_let_pass verified d = true
  is_let_pass (missing_money_auth n) d =
      is_some (find ((d.properties.head_block_number + 1) % 2 ^ 32) st.shared_db_merkle)
  is_let_pass assert_failed d = false
  is_let_pass (missing_social_auth n) d = false
  is_let_pass (missing_other_auth a) d = false
  is_let_pass (missing_recovery_auth n) d = false

  -- Not on the first block.
  unfoldable pub is_in_time : Transaction → Database → Bool
  is_in_time t d =
      d.properties.head_block_number == 0
      || (leb t.expiration (d.ledger.head_block_time + max_time_until_expiration)
          && ltb d.ledger.head_block_time t.expiration)

  unfoldable pub remember : Transaction → Database → Database
  remember t d = if skip.transaction_dupe_check then d else record d {
    transactions = record { trx_id = t.id; expiration = t.expiration } ∷ d.transactions;
  }

  -- `_apply_transaction`
  unfoldable pub apply_transaction : Transaction → Database → Option Database
  unfolding find_transaction is_let_pass is_in_time remember apply_operations
  apply_transaction t d = do
    require (is_nonempty t.operations)
    require (skip.transaction_dupe_check || not (is_some (find_transaction t.id d)))
    require (skip.authority_check || is_let_pass (st.authorize t d.ledger.authorities) d)
    require (is_in_time t d)
    apply_operations t.operations (remember t d)

  unfoldable pub apply_transactions : List Transaction → Database → Option Database
  unfolding apply_transaction
  apply_transactions [] d = some d
  apply_transactions (t ∷ ts) d = apply_transaction t d >>= apply_transactions ts

  unfoldable pub check_merkle : SignedBlock → Option (Unit {0})
  check_merkle b =
      let root = st.merkle_root b.transactions in
      require (
        skip.merkle_check
        || b.transaction_merkle_root == root
        || elim (find b.num st.shared_db_merkle) [ none ↦ false | some r ↦ r == root ])

  -- Up to the transactions.
  unfoldable pub check_header : SignedBlock → Database → Option Database
  unfolding check_merkle process_header_extensions find_witness
  check_header b d = do
    check_merkle b
    require (leb b.pack_size d.properties.maximum_block_size)
    d' ← process_header_extensions b.witness b.extensions d
    w ← find_witness b.witness d'
    require (leb d'.current_hardfork_version w.running_version)
    some d'

  unfoldable pub update_global_dynamic_data : SignedBlock → Database → Option Database
  update_global_dynamic_data b d = do
    require (
        skip.undo_history_check
        || ltb ((b.num + 2 ^ 32 - d.properties.last_irreversible_block_num) % 2 ^ 32)
            max_undo_history)
    some (record d {
      properties = record d.properties { head_block_number = b.num; head_block_id = b.id };
      ledger = record d.ledger { head_block_time = b.timestamp };
    })

  -- update_last_irreversible_block and create_block_summary.
  unfoldable pub settle_head : SignedBlock → Database → Database
  settle_head b d = record d {
    properties = record d.properties {
      last_irreversible_block_num =
          update_last_irreversible_block d.properties.head_block_number
            d.properties.last_irreversible_block_num;
    };
    block_summaries = put (b.num % 65536) b.id d.block_summaries;
  }

  -- The reward of the first miner in the block.
  unfoldable pub reward_miner : SignedBlock → PowOperation → Database → Option Database
  unfolding reward_at get_account find_witness
  reward_miner b o d = do
    require (ltb o.pow_summary (st.hashes.approx_log_32 (get_pow_target d.properties)))
    require (o.prev_block == b.previous)
    require (b.witness == o.worker_account)
    reward ← reward_at d.properties.head_block_number
    require (is_some (get_account o.worker_account d.ledger))
    require (is_some (find_witness o.worker_account d))
    l ← adjust_balance o.worker_account reward d.ledger
    some (record d { ledger = l })

  unfoldable pub reward_first_miner : SignedBlock → Database → Option Database
  unfolding reward_miner
  reward_first_miner b d =
      if leb first_miner_block d.properties.head_block_number
      then elim (first_pow b.transactions) [ none ↦ some d | some o ↦ reward_miner b o d ]
      else some d

  -- The mining target starts with the first block, and is set anew by a capped quotient.
  unfoldable pub adjust_mining_target : SignedBlock → Database → Database
  adjust_mining_target b d =
      let set = λ (t : ℕ). record d { properties = record d.properties { mining_target = t } } in
      if b.num == 1
      then set mining_target_start
      else if b.num % recalc_every == 1
      then (let t = st.next_target b d.properties.mining_target in
          set (if leb mining_target_max t then mining_target_max else t))
      else d

  -- What follows the transactions.
  unfoldable pub finish_block : SignedBlock → Database → Option Database
  unfolding update_global_dynamic_data settle_head clear_expired_transactions reward_first_miner
      adjust_mining_target
  finish_block b d = do
    d1 ← update_global_dynamic_data b d
    let d2 = clear_expired_transactions (settle_head b d1)
    l ← clear_null_wallet_balance d2.ledger
    d3 ← reward_first_miner b (record d2 { ledger = l })
    some (adjust_mining_target b d3)

  -- `_apply_block`
  unfoldable pub apply_block : SignedBlock → Database → Option Database
  unfolding check_header apply_transactions finish_block
  apply_block b d = do
    d1 ← check_header b d
    d2 ← apply_transactions b.transactions d1
    finish_block b d2
