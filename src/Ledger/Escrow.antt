-- ===== src/Ledger/Escrow.antt =====
-- libraries/chain/xgt_evaluator.cpp: the escrow evaluators; libraries/protocol/xgt_operations.cpp:
-- their validate; libraries/chain/database.cpp: get_escrow.
use xgt.Base.{
  ℕ, Bool, true, false, not, ◌&&◌, ◌||◌, Option, some, ◌∷◌, ◌==◌, ◌>>=◌, ◌>>◌, require, ltb, leb,
  is_some, if◌then◌else◌,
}
use xgt.Base.Int.{pos, ltb_ℤ, leb_ℤ, eqb_ℤ, safe_sub}
use xgt.Base.Tables.{find_by, replace_by, remove_by}
use xgt.Ledger.{
  Asset, EscrowObject, Ledger, get_account, add_asset, neg_asset, adjust_balance, xgt_asset_num,
}

abbrev pub by_from_id : ℕ → ℕ → EscrowObject → Bool
by_from_id n i e = e.sender == n && e.escrow_id == i

unfoldable pub get_escrow : ℕ → ℕ → Ledger → Option EscrowObject
get_escrow n i l = find_by (by_from_id n i) l.escrows

-- `modify` and `remove` of an escrow that was found.
unfoldable pub set_escrow : EscrowObject → Ledger → Ledger
set_escrow e l = record l { escrows = replace_by (by_from_id e.sender e.escrow_id) e l.escrows }

unfoldable pub remove_escrow : EscrowObject → Ledger → Ledger
remove_escrow e l = record l { escrows = remove_by (by_from_id e.sender e.escrow_id) l.escrows }

-- The JSON of an `escrow_transfer_operation` is its size and whether it is UTF-8 and valid.
pub record EscrowTransfer : Type 0 where
  pub sender : ℕ
  pub receiver : ℕ
  pub agent : ℕ
  pub escrow_id : ℕ
  pub xgt_amount : Asset
  pub fee : Asset
  pub ratification_deadline : ℕ
  pub escrow_expiration : ℕ
  pub json_size : ℕ
  pub json_valid : Bool

unfoldable pub validate_escrow_transfer : EscrowTransfer → Option (Unit {0})
validate_escrow_transfer o = do
  require (leb_ℤ (pos 0) o.fee.amount)
  require (ltb_ℤ (pos 0) o.xgt_amount.amount)
  require (not (o.sender == o.agent) && not (o.receiver == o.agent))
  require (o.fee.symbol == xgt_asset_num)
  require (o.xgt_amount.symbol == xgt_asset_num)
  require (ltb o.ratification_deadline o.escrow_expiration)
  require (o.json_size == 0 || o.json_valid)

unfoldable pub escrow_transfer : EscrowTransfer → Ledger → Option Ledger
unfolding get_account add_asset neg_asset get_escrow
escrow_transfer o l = do
  require (is_some (get_account o.sender l))
  require (is_some (get_account o.receiver l))
  require (is_some (get_account o.agent l))
  require (ltb l.head_block_time o.ratification_deadline)
  require (ltb l.head_block_time o.escrow_expiration)
  spent ←
      (if o.fee.symbol == xgt_asset_num then add_asset o.xgt_amount o.fee else some o.xgt_amount)
  minus ← neg_asset spent
  l' ← adjust_balance o.sender minus l
  require (not (is_some (get_escrow o.sender o.escrow_id l')))
  some (record l' {
    escrows =
        record {
          escrow_id = o.escrow_id;
          sender = o.sender;
          receiver = o.receiver;
          agent = o.agent;
          ratification_deadline = o.ratification_deadline;
          escrow_expiration = o.escrow_expiration;
          xgt_balance = o.xgt_amount;
          pending_fee = o.fee;
          to_approved = false;
          agent_approved = false;
          disputed = false;
        }
        ∷ l'.escrows;
  })

pub record EscrowApprove : Type 0 where
  pub sender : ℕ
  pub receiver : ℕ
  pub agent : ℕ
  pub who : ℕ
  pub escrow_id : ℕ
  pub approve : Bool

unfoldable pub validate_escrow_approve : EscrowApprove → Option (Unit {0})
validate_escrow_approve o = require (o.who == o.receiver || o.who == o.agent)

-- The two blocks `if( o.who == o.to )` and `if( o.who == o.agent )`.
unfoldable pub approve_by_to : EscrowApprove → EscrowObject → Option EscrowObject
approve_by_to o e =
    if o.who == o.receiver
    then (do
      require (not e.to_approved)
      some (if o.approve then record e { to_approved = true } else e))
    else some e

unfoldable pub approve_by_agent : EscrowApprove → EscrowObject → Option EscrowObject
approve_by_agent o e =
    if o.who == o.agent
    then (do
      require (not e.agent_approved)
      some (if o.approve then record e { agent_approved = true } else e))
    else some e

-- The money back to the sender, and the escrow gone.
unfoldable pub refund : EscrowObject → Ledger → Option Ledger
unfolding remove_escrow
refund e l = do
  l' ← adjust_balance e.sender e.xgt_balance l
  l'' ← adjust_balance e.sender e.pending_fee l'
  some (remove_escrow e l'')

unfoldable pub pay_agent : EscrowObject → Ledger → Option Ledger
unfolding set_escrow
pay_agent e l = do
  l' ← adjust_balance e.agent e.pending_fee l
  some (
      set_escrow
        (record e { pending_fee = record { amount = pos 0; symbol = e.pending_fee.symbol } }) l')

-- What is done with the escrow `e'` that the flags leave.
unfoldable pub settle : EscrowApprove → EscrowObject → Ledger → Option Ledger
unfolding refund pay_agent set_escrow
settle o e' l =
    if not o.approve
    then refund e' (set_escrow e' l)
    else if e'.to_approved && e'.agent_approved
    then pay_agent e' (set_escrow e' l)
    else some (set_escrow e' l)

unfoldable pub escrow_approve : EscrowApprove → Ledger → Option Ledger
unfolding get_escrow approve_by_to approve_by_agent settle
escrow_approve o l = do
  e ← get_escrow o.sender o.escrow_id l
  require (e.receiver == o.receiver)
  require (e.agent == o.agent)
  require (leb l.head_block_time e.ratification_deadline)
  e' ← approve_by_to o e
  e'' ← approve_by_agent o e'
  settle o e'' l

pub record EscrowDispute : Type 0 where
  pub sender : ℕ
  pub receiver : ℕ
  pub agent : ℕ
  pub who : ℕ
  pub escrow_id : ℕ

unfoldable pub validate_escrow_dispute : EscrowDispute → Option (Unit {0})
validate_escrow_dispute o = require (o.who == o.sender || o.who == o.receiver)

unfoldable pub escrow_dispute : EscrowDispute → Ledger → Option Ledger
unfolding get_account get_escrow set_escrow
escrow_dispute o l = do
  require (is_some (get_account o.sender l))
  e ← get_escrow o.sender o.escrow_id l
  require (ltb l.head_block_time e.escrow_expiration)
  require (e.to_approved && e.agent_approved)
  require (not e.disputed)
  require (e.receiver == o.receiver)
  require (e.agent == o.agent)
  some (set_escrow (record e { disputed = true }) l)

pub record EscrowRelease : Type 0 where
  pub sender : ℕ
  pub receiver : ℕ
  pub agent : ℕ
  pub who : ℕ
  pub beneficiary : ℕ
  pub escrow_id : ℕ
  pub xgt_amount : Asset

unfoldable pub validate_escrow_release : EscrowRelease → Option (Unit {0})
validate_escrow_release o = do
  require (o.who == o.sender || o.who == o.receiver || o.who == o.agent)
  require (o.beneficiary == o.sender || o.beneficiary == o.receiver)
  require (ltb_ℤ (pos 0) o.xgt_amount.amount)
  require (o.xgt_amount.symbol == xgt_asset_num)

-- Who may release to whom: the branches on `e.disputed` and on the expiration.
unfoldable pub may_release : ℕ → EscrowRelease → EscrowObject → Option (Unit {0})
may_release now o e = if e.disputed then require (o.who == e.agent) else (do
  require (o.who == e.sender || o.who == e.receiver)
  if ltb now e.escrow_expiration
      then if o.who == e.sender
        then require (o.beneficiary == e.receiver)
        else if o.who == e.receiver
        then require (o.beneficiary == e.sender)
        else some tt
      else some tt)

unfoldable pub escrow_release : EscrowRelease → Ledger → Option Ledger
unfolding get_account get_escrow may_release set_escrow remove_escrow
escrow_release o l = do
  require (is_some (get_account o.sender l))
  e ← get_escrow o.sender o.escrow_id l
  require (e.xgt_balance.symbol == o.xgt_amount.symbol)
  require (leb_ℤ o.xgt_amount.amount e.xgt_balance.amount)
  require (e.receiver == o.receiver)
  require (e.agent == o.agent)
  require (o.beneficiary == e.sender || o.beneficiary == e.receiver)
  require (e.to_approved && e.agent_approved)
  may_release l.head_block_time o e
  l' ← adjust_balance o.beneficiary o.xgt_amount l
  left ← safe_sub e.xgt_balance.amount o.xgt_amount.amount
  let e' = record e { xgt_balance = record { amount = left; symbol = e.xgt_balance.symbol } }
  some (if eqb_ℤ left (pos 0) then remove_escrow e' l' else set_escrow e' l')
