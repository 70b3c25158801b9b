-- ===== src/Node/Tests.antt =====
-- Blocks with a payment each, pushed to a chain at its start.
use xgt.Base.{ℕ, ◌≡◌, refl, some, [], ◌∷◌, arith, put, find, insert}
use xgt.Base.Int.{neg, ◌-ℤ◌, ◌+ℤ◌, safe_add, safe_neg}
use xgt.Base.Tables.{find_by, replace_by, remove_by}
use xgt.Ledger.{get_account, adjust_balance}
use xgt.Ledger.Operations.{evaluate}
use xgt.Ledger.Transfer.{clear_null_wallet_balance}
use xgt.Database.{Database}
use xgt.ForkDatabase
use xgt.ForkDatabase.Trees.{empty}
use xgt.Chain.{Application, Chain, push_block}
use xgt.Chain.Everywhere.{Everywhere}
use xgt.Blocks.{SignedBlock, apply_block}
use xgt.Blocks.Sample.{setting, no_skip, wallet, start, block, small_payment, properties}
use xgt.Node.{application, evaluate_block, HasSoundLedger, push_block-IsSound}

abbrev contents : ℕ → SignedBlock
contents i = block i 1030 (small_payment i ∷ [])

abbrev app : Application
app = application setting no_skip contents

abbrev genesis_state : Database
genesis_state = record start {
  properties = record properties {
    head_block_number = 0;
    head_block_id = 0;
    last_irreversible_block_num = 0;
  };
}

abbrev genesis : Chain app
genesis = record { fork_db = empty; state = genesis_state; saved = []; revision = 0; log = [] }

abbrev step1 : Chain app
step1 = (push_block app 1 0 genesis).1

genesis-IsSound : Everywhere app HasSoundLedger genesis
genesis-IsSound =
    (record { funded = (omega arith, (omega arith, (omega arith, tt))); escrows_sound = tt }, tt)

step1-IsSound : Everywhere app HasSoundLedger step1
step1-IsSound = push_block-IsSound setting no_skip contents 1 0 genesis genesis-IsSound

-- Each payment is made.
paid : get_account 2 (push_block app 2 1 step1).1.state.ledger ≡ some (wallet 2 20)
unfolding push_block find_by replace_by remove_by put find insert safe_add safe_neg adjust_balance
    evaluate neg ◌-ℤ◌ ◌+ℤ◌ clear_null_wallet_balance evaluate_block apply_block get_account
    ForkDatabase.push_block ForkDatabase.set_max_size ForkDatabase.fetch_block ForkDatabase.set_head
    ForkDatabase.remove
paid = refl

push_block-IsSound_example : Everywhere app HasSoundLedger (push_block app 2 1 step1).1
push_block-IsSound_example = push_block-IsSound setting no_skip contents 2 1 step1 step1-IsSound
