-- ===== src/Signing/Tests.antt =====
-- A payment that its sender signs with the key 10.
use xgt.Base.{ℕ, ◌≡◌, refl, none, some, List, [], ◌∷◌, ◌⊎◌, arith, find, put, insert, assign}
use xgt.Base.Int.{neg, ◌-ℤ◌, ◌+ℤ◌, ◌≤ℤ◌, safe_add, safe_neg}
use xgt.Base.Tables.{find_by, replace_by}
use xgt.Protocol.Authority.{Authority, no_auths}
use xgt.Protocol.SignState.{sign_state, check_wallet}
use xgt.Protocol.Verify.{verify_authority, visit_all, money_start, approve_all}
use xgt.Ledger.{xgt_asset_num, adjust_balance}
use xgt.Ledger.Conservation.{IsSound}
use xgt.Ledger.Operations.{evaluate}
use xgt.Ledger.Signers.{requirements}
use xgt.Ledger.Spending.{balance_at}
use xgt.Database.{Database}
use xgt.Blocks.{Transaction, Setting, apply_transaction}
use xgt.Blocks.Sample.{setting, no_skip, wallet, start, ten_coins, small_payment}
use xgt.Signing.{
  IsCovered, required_authorities, required_money, authority_of, authorize, with_checks,
  apply_transaction-protects,
}

abbrev key_10 : Authority
key_10 = record { weight_threshold = 1; wallet_auths = []; key_auths = (10, 1) ∷ [] }

abbrev before : Database
before = record start {
  ledger = record start.ledger {
    authorities =
        record {
          account = 1;
          recovery = no_auths 1;
          money = key_10;
          social = no_auths 1;
          last_recovery_update = 0;
        }
        ∷ [];
  };
}

abbrev after : Database
after = record before {
  ledger = record before.ledger { wallets = wallet 1 90 ∷ wallet 2 10 ∷ wallet 9 0 ∷ [] };
  transactions = record { trx_id = 600; expiration = 1060 } ∷ [];
}

abbrev keys : Transaction → List ℕ
keys t = 10 ∷ []

abbrev checked : Setting
checked = with_checks keys 0 setting

before-IsSound : IsSound before.ledger
before-IsSound = record {
  funded = (omega arith, (omega arith, (omega arith, tt)));
  escrows_sound = tt;
}

ran : apply_transaction checked no_skip (small_payment 600) before ≡ some after
unfolding apply_transaction authorize find_by replace_by safe_add safe_neg adjust_balance evaluate
    neg ◌-ℤ◌ ◌+ℤ◌ required_money authority_of verify_authority visit_all requirements sign_state
    check_wallet find put insert assign money_start approve_all required_authorities
ran = refl

-- Nobody else's payment goes through.
refused :
    apply_transaction (with_checks (λ t. 11 ∷ []) 0 setting) no_skip (small_payment 600) before
    ≡ none
unfolding apply_transaction authorize find_by replace_by safe_add safe_neg adjust_balance evaluate
    neg ◌-ℤ◌ ◌+ℤ◌ required_money authority_of verify_authority visit_all requirements sign_state
    check_wallet find put insert assign money_start approve_all required_authorities
refused = refl

apply_transaction-protects_example :
    (balance_at 1 xgt_asset_num before.ledger ≤ℤ balance_at 1 xgt_asset_num after.ledger)
    ⊎ IsCovered keys 0 (small_payment 600) before.ledger.authorities 1
unfolding find
apply_transaction-protects_example =
    apply_transaction-protects keys 0 setting no_skip (small_payment 600) ten_coins before after 1
      xgt_asset_num refl refl refl before-IsSound ran
