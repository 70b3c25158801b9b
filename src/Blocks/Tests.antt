-- ===== src/Blocks/Tests.antt =====
-- A block with a payment and a proof of work on a small chain.
use xgt.Base.{arith, ◌≡◌, refl, Option, none, some, List, [], ◌∷◌, put, find, insert}
use xgt.Base.Int.{ℤ, pos, negsuc, ◌≤ℤ◌, neg, ◌-ℤ◌, ◌+ℤ◌, safe_add, safe_neg}
use xgt.Base.Tables.{find_by, replace_by}
use xgt.Ledger.{Wallet, get_account, adjust_balance}
use xgt.Ledger.Conservation.{IsSound}
use xgt.Ledger.Operations.{evaluate}
use xgt.Ledger.Transfer.{clear_null_wallet_balance}
use xgt.Database.{Database}
use xgt.Mining.{evaluate_pow, reward_at}
use xgt.Mining.Emission.{rewards, sum_of_rewards, rewards-bound}
use xgt.Blocks.{SignedBlock, apply_block}
use xgt.Blocks.Gains.{Gains}
use xgt.Blocks.Sample.{setting, no_skip, wallet, properties, start, payment, block}
use xgt.Blocks.Once.{apply_blocks-Once}
use xgt.Blocks.Replay.{IsFresh}
use xgt.Blocks.Emission.{apply_blocks, apply_blocks-Gains}

-- The miner has its reward, the payment is made, and the transaction is known.
abbrev end : Database
end = record start {
  ledger = record {
    wallets = wallet 1 4166236 ∷ wallet 2 30 ∷ wallet 9 0 ∷ [];
    authorities = [];
    xtt_balances = [];
    tokens = [];
    escrows = [];
    head_block_time = 1030;
    null_wallet = 9;
  };
  properties = record properties {
    head_block_number = 2116801;
    head_block_id = 71;
    last_irreversible_block_num = 2116791;
  };
  transactions = record { trx_id = 500; expiration = 1060 } ∷ [];
  block_summaries = (19649, 71) ∷ [];
}

start-IsSound : IsSound start.ledger
start-IsSound = record {
  funded = (omega arith, (omega arith, (omega arith, tt)));
  escrows_sound = tt;
}

applied : apply_blocks setting no_skip (block 2116801 1030 (payment ∷ []) ∷ []) start ≡ some end
unfolding apply_blocks apply_block find_by replace_by put safe_add safe_neg adjust_balance evaluate
    neg ◌-ℤ◌ ◌+ℤ◌ evaluate_pow clear_null_wallet_balance find insert
applied = refl

apply_blocks-Gains_example : Gains (rewards 1 2116801) start.ledger end.ledger
apply_blocks-Gains_example =
    apply_blocks-Gains setting no_skip (block 2116801 1030 (payment ∷ []) ∷ []) start end
      start-IsSound refl (refl, tt) applied

-- Two blocks where the reward halves; after 63 halvings it is negative.
halved : sum_of_rewards 2 30149999 ≡ some (pos 6249249)
unfolding sum_of_rewards reward_at ◌+ℤ◌
halved = refl

negative : sum_of_rewards 1 1899450000 ≡ some (negsuc 0)
unfolding sum_of_rewards reward_at ◌+ℤ◌
negative = refl

rewards-bound_example : (t : ℤ) × (sum_of_rewards 2 30149999 ≡ some t) × (t ≤ℤ pos 251219809800000)
rewards-bound_example = rewards-bound 2 30149999 (omega arith)

-- After it an empty block, at a time at which the payment has expired.
abbrev two_blocks : List SignedBlock
two_blocks = block 2116801 1030 (payment ∷ []) ∷ block 2116802 1100 [] ∷ []

abbrev two_blocks_later : Database
two_blocks_later = record end {
  ledger = record end.ledger { head_block_time = 1100 };
  properties = record end.properties {
    head_block_number = 2116802;
    last_irreversible_block_num = 2116792;
  };
  transactions = [];
  block_summaries = (19649, 71) ∷ (19650, 71) ∷ [];
}

applied_two : apply_blocks setting no_skip two_blocks start ≡ some two_blocks_later
unfolding apply_blocks apply_block find_by replace_by put safe_add safe_neg adjust_balance evaluate
    neg ◌-ℤ◌ ◌+ℤ◌ evaluate_pow clear_null_wallet_balance find insert
applied_two = refl

apply_blocks-Once_example : IsFresh [] (500 ∷ [])
apply_blocks-Once_example =
    apply_blocks-Once (λ i. 1060) setting no_skip refl two_blocks start two_blocks_later refl
      (omega arith, (omega arith, tt)) (refl, (refl, tt)) ((refl, tt), (tt, tt)) applied_two

-- With a timestamp that falls, the payment goes through again.
abbrev falling : List SignedBlock
falling =
    block 2116801 1030 (payment ∷ [])
    ∷ block 2116802 1100 []
    ∷ block 2116803 1040 []
    ∷ block 2116804 1050 (payment ∷ [])
    ∷ []

abbrev receiver_of : Option Database → Option Wallet
receiver_of none = none
receiver_of (some d) = get_account 2 d.ledger

paid_twice : receiver_of (apply_blocks setting no_skip falling start) ≡ some (wallet 2 60)
unfolding apply_blocks apply_block find_by replace_by put safe_add safe_neg adjust_balance evaluate
    neg ◌-ℤ◌ ◌+ℤ◌ evaluate_pow clear_null_wallet_balance find insert get_account
paid_twice = refl
