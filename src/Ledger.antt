-- ===== src/Ledger.antt =====
-- libraries/chain/database.cpp: the balances of wallets, in XGT and in XTT tokens, and the objects
-- that operations on money change. Names, asset numbers and times are numbers.
pub mod Payments
pub mod Balances
pub mod Conservation
pub mod Transfer
pub mod Escrow
pub mod Settlement
mod Tests
pub mod NullWallet
pub mod Operations
pub mod Release
pub mod Opening
pub mod Approval
pub mod Spending
pub mod Unratified
pub mod Outlays
pub mod Signers
pub mod Clock
use xgt.Base.{
  ℕ, Bool, true, false, ◌&&◌, Option, none, some, List, [], ◌∷◌, ◌==◌, ◌>>=◌, ◌>>◌, require,
  is_some, if◌then◌else◌,
}
use xgt.Base.Int.{ℤ, pos, ltb_ℤ, leb_ℤ, eqb_ℤ, safe_add, safe_neg}
use xgt.Base.Tables.{find_by, replace_by}
use xgt.Protocol.Authority.{Authority}

-- `XGT_ASSET_NUM_XGT`
abbrev pub xgt_asset_num : ℕ
xgt_asset_num = 3200000040

-- `asset`
pub record Asset : Type 0 where
  pub amount : ℤ
  pub symbol : ℕ

-- The fields of `wallet_object` that are used here; the symbol of its balance is always XGT.
pub record Wallet : Type 0 where
  pub name : ℕ
  pub balance : ℤ
  pub memo_key : ℕ
  pub created : ℕ

-- `account_authority_object`
pub record AccountAuthority : Type 0 where
  pub account : ℕ
  pub recovery : Authority
  pub money : Authority
  pub social : Authority
  pub last_recovery_update : ℕ

-- `account_regular_balance_object`
pub record XttBalance : Type 0 where
  pub name : ℕ
  pub liquid : Asset

-- `xtt_token_object`
pub record XttToken : Type 0 where
  pub symbol : ℕ
  pub current_supply : ℤ

-- `escrow_object`
pub record EscrowObject : Type 0 where
  pub escrow_id : ℕ
  pub sender : ℕ
  pub receiver : ℕ
  pub agent : ℕ
  pub ratification_deadline : ℕ
  pub escrow_expiration : ℕ
  pub xgt_balance : Asset
  pub pending_fee : Asset
  pub to_approved : Bool
  pub agent_approved : Bool
  pub disputed : Bool

pub record Ledger : Type 0 where
  pub wallets : List Wallet
  pub authorities : List AccountAuthority
  pub xtt_balances : List XttBalance
  pub tokens : List XttToken
  pub escrows : List EscrowObject
  pub head_block_time : ℕ
  pub null_wallet : ℕ

abbrev pub by_name : ℕ → Wallet → Bool
by_name n w = w.name == n

abbrev pub by_name_symbol : ℕ → ℕ → XttBalance → Bool
by_name_symbol n s b = b.name == n && b.liquid.symbol == s

abbrev pub by_symbol : ℕ → XttToken → Bool
by_symbol s t = t.symbol == s

-- `symbol.space() == asset_symbol_type::xtt_nai_space`
abbrev pub is_xtt : ℕ → Bool
is_xtt s = if s == xgt_asset_num then false else true

unfoldable pub get_account : ℕ → Ledger → Option Wallet
get_account n l = find_by (by_name n) l.wallets

-- `get_balance`
unfoldable pub get_balance : ℕ → ℕ → Ledger → Option Asset
unfolding get_account
get_balance n s l =
    if is_xtt s
    then elim (find_by (by_name_symbol n s) l.xtt_balances) [
      | none ↦ some (record { amount = pos 0; symbol = s })
      | some b ↦ some b.liquid
    ]
    else do w ← get_account n l; some (record { amount = w.balance; symbol = xgt_asset_num })

-- `asset operator +`, which throws on two symbols and on overflow.
unfoldable pub add_asset : Asset → Asset → Option Asset
add_asset a b = do
  require (a.symbol == b.symbol)
  sum ← safe_add a.amount b.amount
  some (record { amount = sum; symbol = a.symbol })

-- `asset operator -`
unfoldable pub neg_asset : Asset → Option Asset
neg_asset a = do n ← safe_neg a.amount; some (record { amount = n; symbol = a.symbol })

-- `adjust_supply`: only of tokens; the supply of XGT is not kept.
unfoldable pub adjust_supply : Asset → Ledger → Option Ledger
adjust_supply delta l =
    if is_xtt delta.symbol
    then (do
      t ← find_by (by_symbol delta.symbol) l.tokens
      supply ← safe_add t.current_supply delta.amount
      require (leb_ℤ (pos 0) supply)
      some (record l {
        tokens =
            replace_by (by_symbol delta.symbol) (record t { current_supply = supply }) l.tokens;
      }))
    else some l

-- `adjust_xtt_balance` with a regular balance operator and no check of the account.
unfoldable pub adjust_xtt_balance : ℕ → Asset → Ledger → Option Ledger
unfolding add_asset
adjust_xtt_balance n delta l = elim (find_by (by_name_symbol n delta.symbol) l.xtt_balances) [
  | none ↦ (do
    require (leb_ℤ (pos 0) delta.amount)
    if eqb_ℤ delta.amount (pos 0)
        then some l
        else some
            (record l { xtt_balances = record { name = n; liquid = delta } ∷ l.xtt_balances }))
  | some b ↦ (do
    result ← add_asset b.liquid delta
    require (leb_ℤ (pos 0) result.amount)
    some (record l {
      xtt_balances =
          replace_by (by_name_symbol n delta.symbol) (record b { liquid = result }) l.xtt_balances;
    }))
]

-- `modify_balance` of the account `n`, with the check: its caller has tested the symbol.
unfoldable pub modify_balance : ℕ → ℤ → Ledger → Option Ledger
unfolding get_account
modify_balance n delta l = do
  w ← get_account n l
  sum ← safe_add w.balance delta
  require (leb_ℤ (pos 0) sum)
  some (record l { wallets = replace_by (by_name n) (record w { balance = sum }) l.wallets })

-- The guard of `adjust_balance` on a negative delta.
unfoldable pub covered : ℕ → Asset → Ledger → Option (Unit {0})
unfolding get_balance neg_asset
covered n delta l =
    if ltb_ℤ delta.amount (pos 0)
    then (do
      available ← get_balance n delta.symbol l
      needed ← neg_asset delta
      require (available.symbol == needed.symbol)
      require (leb_ℤ needed.amount available.amount))
    else some tt

-- `adjust_balance`
unfoldable pub adjust_balance : ℕ → Asset → Ledger → Option Ledger
unfolding covered neg_asset adjust_supply adjust_xtt_balance modify_balance
adjust_balance n delta l = do
  covered n delta l
  if is_xtt delta.symbol
      then if n == l.null_wallet
        then (neg_asset delta >>= λ d. adjust_supply d l)
        else adjust_xtt_balance n delta l
      else modify_balance n delta.amount l
