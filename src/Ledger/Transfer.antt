-- ===== src/Ledger/Transfer.antt =====
-- libraries/chain/xgt_evaluator.cpp: transfer_evaluator; libraries/protocol/xgt_operations.cpp:
-- transfer_operation::validate; libraries/chain/database.cpp: clear_null_wallet_balance.
use xgt.Base.{
  ℕ, Bool, Option, none, some, ◌∷◌, ◌==◌, ◌>>=◌, ◌>>◌, require, ltb, is_some, if◌then◌else◌,
}
use xgt.Base.Int.{pos, ltb_ℤ}
use xgt.Base.Tables.{find_by, replace_by}
use xgt.Protocol.Authority.{Authority, no_auths, add_key_authority}
use xgt.Ledger.{
  Asset, AccountAuthority, Ledger, by_name, get_account, neg_asset, adjust_balance, adjust_supply,
  xgt_asset_num,
}

-- `transfer_operation`, with the size of the memo and what fc::is_utf8 says of it.
pub record TransferOperation : Type 0 where
  pub sender : ℕ
  pub receiver : ℕ
  pub amount : Asset
  pub memo_size : ℕ
  pub memo_utf8 : Bool

abbrev max_memo_size : ℕ
max_memo_size = 2048

unfoldable pub validate_transfer : TransferOperation → Option (Unit {0})
validate_transfer o = do
  require (ltb_ℤ (pos 0) o.amount.amount)
  require (ltb o.memo_size max_memo_size)
  require o.memo_utf8

-- The four public keys of a new wallet; the program draws them at random.
pub record NewKeys : Type 0 where
  pub recovery : ℕ
  pub money : ℕ
  pub social : ℕ
  pub memo : ℕ

abbrev pub by_account : ℕ → AccountAuthority → Bool
by_account n a = a.account == n

-- `authority` with one key of weight 1 and the threshold 1.
abbrev one_key : ℕ → Authority
one_key k = add_key_authority k 1 (no_auths 1)

-- `initialize_wallet_object`, and the object of its authorities.
unfoldable pub with_wallet : NewKeys → ℕ → Ledger → Ledger
with_wallet keys n l = record l {
  wallets =
      record { name = n; balance = pos 0; memo_key = keys.memo; created = l.head_block_time }
      ∷ l.wallets;
  authorities =
      record {
        account = n;
        recovery = one_key keys.recovery;
        money = one_key keys.money;
        social = one_key keys.social;
        last_recovery_update = 0;
      }
      ∷ l.authorities;
}

-- Both objects are unique by their name.
unfoldable pub create_wallet : NewKeys → ℕ → Ledger → Option Ledger
unfolding with_wallet
create_wallet keys n l =
    if is_some (find_by (by_account n) l.authorities) then none else some (with_wallet keys n l)

-- A transfer to an unknown name creates the wallet.
unfoldable pub ensure_wallet : NewKeys → ℕ → Ledger → Option Ledger
unfolding get_account create_wallet
ensure_wallet keys n l = if is_some (get_account n l) then some l else create_wallet keys n l

-- `transfer_evaluator::do_apply`
unfoldable pub transfer : NewKeys → TransferOperation → Ledger → Option Ledger
unfolding ensure_wallet neg_asset
transfer keys o l = do
  l' ← ensure_wallet keys o.receiver l
  minus ← neg_asset o.amount
  l'' ← adjust_balance o.sender minus l'
  adjust_balance o.receiver o.amount l''

unfoldable pub evaluate_transfer : NewKeys → TransferOperation → Ledger → Option Ledger
unfolding validate_transfer transfer
evaluate_transfer keys o l = do validate_transfer o; transfer keys o l

-- `clear_null_wallet_balance`
unfoldable pub clear_null_wallet_balance : Ledger → Option Ledger
unfolding get_account adjust_supply neg_asset
clear_null_wallet_balance l = do
  w ← get_account l.null_wallet l
  if ltb_ℤ (pos 0) w.balance
      then (do
        minus ← neg_asset (record { amount = w.balance; symbol = xgt_asset_num })
        adjust_supply minus (record l {
          wallets = replace_by (by_name l.null_wallet) (record w { balance = pos 0 }) l.wallets;
        }))
      else some l
