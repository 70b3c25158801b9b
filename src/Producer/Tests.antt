-- ===== src/Producer/Tests.antt =====
-- A block with the producer's proof of work and two pending payments.
use xgt.Base.{ℕ, none, ◌+◌, ◌*◌, ◌≤◌, ◌≡◌, refl, some, List, [], ◌∷◌, arith, length}
use xgt.Base.Int.{neg, ◌-ℤ◌, ◌+ℤ◌, safe_add, safe_neg}
use xgt.Base.Tables.{find_by, replace_by}
use xgt.Ledger.{adjust_balance}
use xgt.Ledger.Operations.{evaluate}
use xgt.Database.{Database, find_witness}
use xgt.Mining.{evaluate_pow}
use xgt.Blocks.{
  Transaction, SignedBlock, automated_actions, apply_transaction, apply_transactions, apply_block,
  finish_block, update_global_dynamic_data,
}
use xgt.Blocks.Sample.{setting, no_skip, miner, start, block, payment, small_payment}
use xgt.Producer.Actions.{sum_of_actions}
use xgt.Producer.{Action, Packing, apply_pending_transactions}
use xgt.Producer.Drafts.{sum_of_sizes}
use xgt.Producer.Accepted.{apply_pending_transactions-accepted}

abbrev twenty : Action → ℕ
twenty a = 20

-- A block of 100 bytes with transactions of 50. Required actions go through, optional ones do not.
abbrev packing : Packing
packing = record {
  transaction_size = λ t. 50;
  action_size = twenty;
  block_size = λ ts r o. 100 + 50 * length ts + sum_of_actions twenty r + sum_of_actions twenty o;
  block_id = λ ts r o. 71;
  apply_required_action = λ a d. some d;
  apply_optional_action = λ a d. none;
}

abbrev pending : List Transaction
pending = small_payment 600 ∷ record payment { id = 501 } ∷ small_payment 601 ∷ []

-- One required action is due, and one optional.
abbrev required : List Action
required =
    record { action = 1; execution_time = 1030 } ∷ record { action = 2; execution_time = 1031 } ∷ []

abbrev optional : List Action
optional = record { action = 3; execution_time = 1000 } ∷ []

-- The other proof of work is left out.
abbrev built : SignedBlock
built = record (block 2116801 1030 (payment ∷ small_payment 600 ∷ small_payment 601 ∷ [])) {
  pack_size = 270;
  extensions = automated_actions ∷ [];
}

ran :
    apply_pending_transactions setting no_skip packing 0
      (some payment)
      pending
      required
      optional
      (block 2116801 1030 [])
      start
    ≡ some built
unfolding apply_pending_transactions find_by replace_by safe_add safe_neg adjust_balance evaluate
    neg ◌-ℤ◌ ◌+ℤ◌ evaluate_pow apply_transaction update_global_dynamic_data
ran = refl

counted_sizes :
    (ts : List Transaction) (r o : List Action)
    → 100 + 50 * length ts + sum_of_actions twenty r + sum_of_actions twenty o
      ≤ 100
        + 50 * 0
        + 0
        + 0
        + 12
        + sum_of_sizes packing.transaction_size ts
        + sum_of_actions twenty r
        + sum_of_actions twenty o
counted_sizes [] r o = omega arith
counted_sizes (t ∷ ts) r o = omega (arith, counted_sizes ts r o)

apply_pending_transactions-accepted_example :
    (m : Database) × (apply_transactions setting no_skip built.transactions start ≡ some m)
    × (apply_block setting no_skip built start ≡ finish_block setting no_skip built m)
unfolding find_witness find_by
apply_pending_transactions-accepted_example =
    apply_pending_transactions-accepted setting no_skip packing (λ t. omega arith)
      (λ a. omega arith) counted_sizes 0 (omega arith) (some payment) pending required optional
      (block 2116801 1030 []) built miner start (omega arith) (omega arith) refl refl (omega arith)
      ran
