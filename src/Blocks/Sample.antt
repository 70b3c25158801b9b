-- ===== src/Blocks/Sample.antt =====
-- A small chain with a payment, for tests.
use xgt.Base.{map, ℕ, true, false, none, List, [], ◌∷◌}
use xgt.Base.Int.{pos}
use xgt.Protocol.Verify.{verified}
use xgt.Ledger.{Wallet, Ledger, xgt_asset_num}
use xgt.Ledger.Operations
use xgt.Ledger.Operations.{transfers}
use xgt.Database.{Properties, Witness, Database}
use xgt.Blocks.{on_money, pow, Transaction, SignedBlock, Setting, Skip}

abbrev pub setting : Setting
setting = record {
  hashes = record { approx_log_32 = λ x. x; num_from_id = λ i. i; previous_block_id = λ i. none };
  pow_is_valid = λ o. true;
  authorize = λ t table. verified;
  merkle_root = λ ts. 5;
  shared_db_merkle = [];
  next_target = λ b t. t;
}

abbrev pub no_skip : Skip
no_skip = record {
  transaction_dupe_check = false;
  authority_check = false;
  merkle_check = false;
  undo_history_check = false;
}

abbrev pub wallet : ℕ → ℕ → Wallet
wallet n b = record { name = n; balance = pos b; memo_key = 0; created = 0 }

abbrev pub ledger_of : List Wallet → Ledger
ledger_of ws = record {
  wallets = ws;
  authorities = [];
  xtt_balances = [];
  tokens = [];
  escrows = [];
  head_block_time = 1000;
  null_wallet = 9;
}

abbrev pub properties : Properties
properties = record {
  head_block_number = 2116800;
  head_block_id = 70;
  last_irreversible_block_num = 2116790;
  maximum_block_size = 65536;
  mining_target = 100;
  total_pow = 0;
  num_pow_witnesses = 0;
}

abbrev pub miner : Witness
miner = record {
  owner = 1;
  signing_key = 11;
  pow_worker = 0;
  props_maximum_block_size = 65536;
  running_version = 1;
  hardfork_version_vote = 0;
  hardfork_time_vote = 0;
}

abbrev pub start : Database
start = record {
  ledger = ledger_of (wallet 1 100 ∷ wallet 2 0 ∷ wallet 9 0 ∷ []);
  properties = properties;
  witnesses = miner ∷ [];
  transactions = [];
  block_summaries = [];
  current_hardfork_version = 0;
}

abbrev pub payment : Transaction
payment = record {
  id = 500;
  expiration = 1060;
  operations =
      on_money (
        transfers (record { recovery = 0; money = 0; social = 0; memo = 0 })
          (record {
            sender = 1;
            receiver = 2;
            amount = record { amount = pos 30; symbol = xgt_asset_num };
            memo_size = 0;
            memo_utf8 = true;
          }))
      ∷ pow (record {
        worker_account = 1;
        input_prev_block = 0;
        prev_block = 70;
        pow_summary = 50;
        new_recovery_key = none;
        props_maximum_block_size = 131072;
      })
      ∷ [];
}

abbrev pub block : ℕ → ℕ → List Transaction → SignedBlock
block n time ts = record {
  id = 71;
  previous = 70;
  num = n;
  timestamp = time;
  witness = 1;
  transaction_merkle_root = 5;
  pack_size = 500;
  extensions = [];
  transactions = ts;
}

-- A payment of 10 alone.
abbrev pub ten_coins : List Operations.Operation
ten_coins =
    transfers (record { recovery = 0; money = 0; social = 0; memo = 0 })
      (record {
        sender = 1;
        receiver = 2;
        amount = record { amount = pos 10; symbol = xgt_asset_num };
        memo_size = 0;
        memo_utf8 = true;
      })
    ∷ []

abbrev pub small_payment : ℕ → Transaction
small_payment i = record { id = i; expiration = 1060; operations = map on_money ten_coins }
