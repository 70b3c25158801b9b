-- ===== src/Ledger/Tests.antt =====
-- A ledger with four wallets, runs of it, and the theorems on it.
use xgt.Base.{ℕ, ◌≡◌, refl, ◌↔◌, true, false, none, some, List, [], ◌∷◌, arith, ◌>>◌}
use xgt.Base.Int.{pos, ◌+ℤ◌, ◌-ℤ◌, neg, safe_add, safe_sub, safe_neg}
use xgt.Base.Tables.{find_by, replace_by, remove_by}
use xgt.Ledger.{
  Asset, Wallet, EscrowObject, Ledger, xgt_asset_num, adjust_balance, get_account, neg_asset,
  adjust_supply,
}
use xgt.Ledger.Transfer.{clear_null_wallet_balance}
use xgt.Ledger.Escrow.{
  EscrowApprove, EscrowDispute, EscrowRelease, validate_escrow_transfer, escrow_transfer,
  validate_escrow_dispute, escrow_dispute, validate_escrow_approve, escrow_approve, escrow_release,
  may_release, get_escrow,
}
use xgt.Ledger.Conservation.{IsSound, Conserves}
use xgt.Ledger.Operations.{
  Operation, escrow_transfers, escrow_approves, escrow_disputes, evaluate_all,
  evaluate_all-Conserves,
}
use xgt.Ledger.Release.{
  IsEntitled, IsReleasable, may_release_iff, escrow_release-IsReleasable, escrow_approve-closed,
}
use xgt.Ledger.Unratified.{unratified-locked}
use xgt.Ledger.NullWallet.{Clears, clear_null_wallet_balance-Clears}

abbrev wallet : ℕ → ℕ → Wallet
wallet n b = record { name = n; balance = pos b; memo_key = 0; created = 0 }

abbrev coins : ℕ → Asset
coins n = record { amount = pos n; symbol = xgt_asset_num }

abbrev ledger_of : List Wallet → List EscrowObject → Ledger
ledger_of ws es = record {
  wallets = ws;
  authorities = [];
  xtt_balances = [];
  tokens = [];
  escrows = es;
  head_block_time = 1000;
  null_wallet = 9;
}

abbrev start : Ledger
start = ledger_of (wallet 1 100 ∷ wallet 2 0 ∷ wallet 3 0 ∷ wallet 9 50 ∷ []) []

abbrev approval : ℕ → EscrowApprove
approval who = record {
  sender = 1;
  receiver = 2;
  agent = 3;
  who = who;
  escrow_id = 7;
  approve = true;
}

abbrev release : EscrowRelease
release = record {
  sender = 1;
  receiver = 2;
  agent = 3;
  who = 3;
  beneficiary = 2;
  escrow_id = 7;
  xgt_amount = coins 40;
}

abbrev deal : List Operation
deal =
    escrow_transfers (record {
      sender = 1;
      receiver = 2;
      agent = 3;
      escrow_id = 7;
      xgt_amount = coins 60;
      fee = coins 5;
      ratification_deadline = 2000;
      escrow_expiration = 3000;
      json_size = 0;
      json_valid = false;
    })
    ∷ escrow_approves (approval 2)
    ∷ escrow_approves (approval 3)
    ∷ escrow_disputes (record { sender = 1; receiver = 2; agent = 3; who = 1; escrow_id = 7 })
    ∷ []

abbrev escrow : EscrowObject
escrow = record {
  escrow_id = 7;
  sender = 1;
  receiver = 2;
  agent = 3;
  ratification_deadline = 2000;
  escrow_expiration = 3000;
  xgt_balance = coins 60;
  pending_fee = coins 0;
  to_approved = true;
  agent_approved = true;
  disputed = true;
}

abbrev disputed : Ledger
disputed = ledger_of (wallet 1 35 ∷ wallet 2 0 ∷ wallet 3 5 ∷ wallet 9 50 ∷ []) (escrow ∷ [])

abbrev released : Ledger
released =
    ledger_of (wallet 1 35 ∷ wallet 2 40 ∷ wallet 3 5 ∷ wallet 9 50 ∷ [])
      (record escrow { xgt_balance = coins 20 } ∷ [])

start-IsSound : IsSound start
start-IsSound = record {
  funded = (omega arith, (omega arith, (omega arith, (omega arith, tt))));
  escrows_sound = tt;
}

run-deal : evaluate_all deal start ≡ some disputed
unfolding evaluate_all adjust_balance ◌+ℤ◌ ◌-ℤ◌ neg safe_add safe_sub safe_neg find_by replace_by
    remove_by validate_escrow_transfer escrow_transfer validate_escrow_approve escrow_approve
    validate_escrow_dispute escrow_dispute
run-deal = refl

run-release : escrow_release release disputed ≡ some released
unfolding escrow_release adjust_balance ◌+ℤ◌ ◌-ℤ◌ neg safe_add safe_sub safe_neg find_by replace_by
    remove_by
run-release = refl

evaluate_all-Conserves_example : Conserves start disputed
evaluate_all-Conserves_example = evaluate_all-Conserves deal start disputed start-IsSound run-deal

may_release_iff_example : (may_release 1000 release escrow ≡ some tt) ↔ IsEntitled 1000 3 2 escrow
may_release_iff_example = may_release_iff 1000 release escrow

escrow_release-IsReleasable_example :
    (e : EscrowObject) × (get_escrow 1 7 disputed ≡ some e) × IsReleasable release e disputed
escrow_release-IsReleasable_example =
    escrow_release-IsReleasable release disputed released run-release

found-escrow : get_escrow 1 7 disputed ≡ some escrow
unfolding get_escrow find_by
found-escrow = refl

escrow_approve-closed_example :
    (do validate_escrow_approve (approval 3); escrow_approve (approval 3) disputed) ≡ none
escrow_approve-closed_example =
    escrow_approve-closed (approval 3) escrow disputed found-escrow refl refl

abbrev cleared : Ledger
cleared = ledger_of (wallet 1 100 ∷ wallet 2 0 ∷ wallet 3 0 ∷ wallet 9 0 ∷ []) []

run-clear : clear_null_wallet_balance start ≡ some cleared
unfolding clear_null_wallet_balance get_account neg_asset adjust_supply neg safe_neg find_by
    replace_by
run-clear = refl

clear_null_wallet_balance-Clears_example :
    (w : Wallet) × (get_account 9 start ≡ some w) × Clears w start cleared
clear_null_wallet_balance-Clears_example =
    clear_null_wallet_balance-Clears start cleared start-IsSound run-clear

-- Approved by the receiver alone, and late.
abbrev late_escrow : EscrowObject
late_escrow = record escrow {
  ratification_deadline = 900;
  agent_approved = false;
  disputed = false;
}

abbrev late : Ledger
late = ledger_of (wallet 1 35 ∷ wallet 2 0 ∷ wallet 3 0 ∷ []) (late_escrow ∷ [])

abbrev dispute : EscrowDispute
dispute = record { sender = 1; receiver = 2; agent = 3; who = 1; escrow_id = 7 }

found-late_escrow : get_escrow 1 7 late ≡ some late_escrow
unfolding get_escrow find_by
found-late_escrow = refl

unratified-locked_example :
    (escrow_approve (approval 3) late ≡ none)
    × (escrow_dispute dispute late ≡ none)
    × (escrow_release release late ≡ none)
unratified-locked_example =
    unratified-locked (approval 3) dispute release late_escrow late found-late_escrow
      found-late_escrow found-late_escrow refl refl
