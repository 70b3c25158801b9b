-- ===== src/Ledger/Signers/Tests.antt =====
-- A payment that its sender signs, and one that nobody signs.
use xgt.Base.{
  ℕ, ◌≡◌, refl, true, some, List, [], ◌∷◌, arith, ◌==◌, if◌then◌else◌, put, insert, assign, find,
  ◌⊎◌,
}
use xgt.Base.Int.{pos, ◌≤ℤ◌, ◌+ℤ◌, ◌-ℤ◌, neg, safe_add, safe_sub, safe_neg}
use xgt.Base.Tables.{find_by, replace_by}
use xgt.Protocol.Authority.{Authority, no_auths}
use xgt.Protocol.SignState.{sign_state, check_wallet}
use xgt.Protocol.Verify.{
  Signing, verified, assert_failed, missing_money_auth, verify_authority, verify_required,
  visit_all, nothing_required, money_start, approve_all,
}
use xgt.Protocol.Verify.Authorized.{IsMoney}
use xgt.Ledger.{Wallet, Ledger, xgt_asset_num, adjust_balance}
use xgt.Ledger.Transfer.{evaluate_transfer}
use xgt.Ledger.Conservation.{IsSound}
use xgt.Ledger.Operations.{Operation, transfers, evaluate_all}
use xgt.Ledger.Spending.{balance_at}
use xgt.Ledger.Signers.{requirements, verify_authority-protects}

abbrev wallet : ℕ → ℕ → Wallet
wallet n b = record { name = n; balance = pos b; memo_key = 0; created = 0 }

abbrev ledger_of : List Wallet → Ledger
ledger_of ws = record {
  wallets = ws;
  authorities = [];
  xtt_balances = [];
  tokens = [];
  escrows = [];
  head_block_time = 1000;
  null_wallet = 9;
}

abbrev before : Ledger
before = ledger_of (wallet 1 100 ∷ wallet 2 0 ∷ [])

abbrev after : Ledger
after = ledger_of (wallet 1 70 ∷ wallet 2 30 ∷ [])

abbrev payment : List Operation
payment =
    transfers (record { recovery = 0; money = 0; social = 0; memo = 0 })
      (record {
        sender = 1;
        receiver = 2;
        amount = record { amount = pos 30; symbol = xgt_asset_num };
        memo_size = 0;
        memo_utf8 = true;
      })
    ∷ []

-- Wallet 1 is that of key 10.
abbrev money : ℕ → Authority
money n =
    if n == 1
    then record { weight_threshold = 1; wallet_auths = []; key_auths = (10, 1) ∷ [] }
    else no_auths 1

abbrev signed_by_keys : List ℕ → Signing
signed_by_keys keys = record {
  sigs = keys;
  get_money = money;
  get_recovery = λ n. no_auths 1;
  get_social = money;
  max_recursion_depth = 2;
  max_membership = 40;
  max_wallet_auths = 125;
  money_approvals = [];
  recovery_approvals = [];
  social_approvals = [];
  temp = 0;
}

before-IsSound : IsSound before
before-IsSound = record { funded = (omega arith, (omega arith, tt)); escrows_sound = tt }

run-payment : evaluate_all payment before ≡ some after
unfolding evaluate_all evaluate_transfer adjust_balance ◌+ℤ◌ ◌-ℤ◌ neg safe_add safe_sub safe_neg
    find_by replace_by
run-payment = refl

run-signed : verify_authority requirements (signed_by_keys (10 ∷ [])) payment ≡ verified
unfolding verify_authority visit_all requirements sign_state check_wallet find put insert assign
    money_start approve_all
run-signed = refl

run-unsigned : verify_authority requirements (signed_by_keys []) payment ≡ missing_money_auth 1
unfolding verify_authority visit_all requirements sign_state check_wallet find put insert assign
    money_start approve_all
run-unsigned = refl

-- Social and money authority do not mix.
run-mixed :
    verify_required
      (signed_by_keys (10 ∷ []))
      (record nothing_required { money = 1 ∷ []; social = 1 ∷ [] })
    ≡ assert_failed
unfolding verify_required
run-mixed = refl

verify_authority-protects_example :
    (balance_at 1 xgt_asset_num before ≤ℤ balance_at 1 xgt_asset_num after)
    ⊎ IsMoney (signed_by_keys (10 ∷ [])) 1
verify_authority-protects_example =
    verify_authority-protects (signed_by_keys (10 ∷ [])) payment before after 1 xgt_asset_num
      before-IsSound run-signed run-payment
