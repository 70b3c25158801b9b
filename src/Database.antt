-- ===== src/Database.antt =====
-- libraries/chain/database.cpp: the objects that blocks and transactions change, besides the ledger.
-- The time of dynamic_global_property_object is the ledger's; ids, keys, versions and mining targets
-- are numbers.
use xgt.Base.{ℕ, Bool, Option, List, ◌==◌, Map}
use xgt.Base.Tables.{find_by, replace_by}
use xgt.Ledger.{Ledger}

-- `dynamic_global_property_object`
pub record Properties : Type 0 where
  pub head_block_number : ℕ
  pub head_block_id : ℕ
  pub last_irreversible_block_num : ℕ
  pub maximum_block_size : ℕ
  pub mining_target : ℕ
  pub total_pow : ℕ
  pub num_pow_witnesses : ℕ

-- `witness_object`
pub record Witness : Type 0 where
  pub owner : ℕ
  pub signing_key : ℕ
  pub pow_worker : ℕ
  pub props_maximum_block_size : ℕ
  pub running_version : ℕ
  pub hardfork_version_vote : ℕ
  pub hardfork_time_vote : ℕ

-- `transaction_object`
pub record SeenTransaction : Type 0 where
  pub trx_id : ℕ
  pub expiration : ℕ

pub record Database : Type 0 where
  pub ledger : Ledger
  pub properties : Properties
  pub witnesses : List Witness
  pub transactions : List SeenTransaction
  pub block_summaries : Map ℕ
  pub current_hardfork_version : ℕ

abbrev pub by_owner : ℕ → Witness → Bool
by_owner n w = w.owner == n

abbrev pub by_trx_id : ℕ → SeenTransaction → Bool
by_trx_id i t = t.trx_id == i

-- `find_witness`
unfoldable pub find_witness : ℕ → Database → Option Witness
find_witness n d = find_by (by_owner n) d.witnesses

-- `modify` of a witness that was found.
unfoldable pub set_witness : Witness → Database → Database
set_witness w d = record d { witnesses = replace_by (by_owner w.owner) w d.witnesses }

-- `is_known_transaction`
unfoldable pub find_transaction : ℕ → Database → Option SeenTransaction
find_transaction i d = find_by (by_trx_id i) d.transactions
