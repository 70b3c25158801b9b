-- ===== src/Pending/Tests.antt =====
-- Two payments that wait while a block fails: one was pending, one was popped with another block.
use xgt.Base.{◌≡◌, refl, false, none, some, [], ◌∷◌, Bool, ℕ}
use xgt.Base.Int.{neg, ◌-ℤ◌, ◌+ℤ◌, safe_add, safe_neg}
use xgt.Base.Tables.{find_by, replace_by, All}
use xgt.Ledger.{adjust_balance}
use xgt.Ledger.Operations.{evaluate}
use xgt.Database.{Database}
use xgt.Blocks.{apply_transaction, apply_transactions}
use xgt.Blocks.Sample.{setting, no_skip, wallet, ledger_of, start, payment, small_payment}
use xgt.Mining.{evaluate_pow}
use xgt.Pending.{clear_pending, Chain, state, without_pending_transactions}
use xgt.Pending.Fates.{Fate}
use xgt.Pending.Restored.{without_pending_transactions-current, without_pending_transactions-Fates}

abbrev waiting : Chain
waiting = record {
  head = start;
  pending_tx_session = none;
  pending_tx = small_payment 600 ∷ payment ∷ [];
  popped_tx = [];
}

abbrev pops : Chain → Bool × Chain
pops c = (false, record c { popped_tx = small_payment 601 ∷ [] })

abbrev never : ℕ → Bool
never k = false

abbrev after : Database
after = record start {
  ledger = ledger_of (wallet 1 50 ∷ wallet 2 50 ∷ wallet 9 0 ∷ []);
  transactions =
      record { trx_id = 500; expiration = 1060 }
      ∷ record { trx_id = 600; expiration = 1060 }
      ∷ record { trx_id = 601; expiration = 1060 }
      ∷ [];
}

abbrev restored : Chain
restored = record {
  head = start;
  pending_tx_session = some after;
  pending_tx = small_payment 601 ∷ small_payment 600 ∷ payment ∷ [];
  popped_tx = [];
}

ran : without_pending_transactions setting no_skip never pops waiting ≡ (false, restored)
unfolding without_pending_transactions find_by replace_by safe_add safe_neg adjust_balance evaluate
    neg ◌-ℤ◌ ◌+ℤ◌ state apply_transaction evaluate_pow
ran = refl

without_pending_transactions-current_example :
    apply_transactions setting no_skip
      (without_pending_transactions setting no_skip never pops waiting).1.pending_tx
      start
    ≡ some (state (without_pending_transactions setting no_skip never pops waiting).1)
unfolding clear_pending
without_pending_transactions-current_example =
    without_pending_transactions-current setting no_skip never pops waiting refl refl (λ k. refl)

without_pending_transactions-Fates_example :
    All
      (λ t.
        Fate setting no_skip t (without_pending_transactions setting no_skip never pops waiting).1)
      (small_payment 601 ∷ small_payment 600 ∷ payment ∷ [])
unfolding clear_pending
without_pending_transactions-Fates_example =
    without_pending_transactions-Fates setting no_skip never pops waiting refl refl
