-- ===== src/Ledger/Conservation.antt =====
-- The sums that the commented body of validate_invariants and validate_xtt_invariants compare: XGT
-- in wallets and in escrow, and tokens in wallets against their supply.
use xgt.Base.{ℕ, ◌≡◌, ap, ◌∙◌, true, false, ◌&&◌, some}
use xgt.Base.Int.{ℤ, pos, ◌+ℤ◌, ◌≤ℤ◌, int_laws}
use xgt.Base.Tables.{
  find_by, sum_of, sum_of-replace_by, sum_of-remove_by, All, All-replace_by, All-remove_by,
}
use xgt.Ledger.{Asset, EscrowObject, Ledger, is_xtt, adjust_balance}
use xgt.Ledger.Balances.{held, xtt_of, liquid, supply, IsFunded, adjust_balance-Adjusts}
use xgt.Ledger.Escrow.{by_from_id, set_escrow, remove_escrow}

-- The XGT that an escrow holds.
abbrev pub escrowed : EscrowObject → ℤ
escrowed e = e.xgt_balance.amount +ℤ e.pending_fee.amount

abbrev pub in_escrow : Ledger → ℤ
in_escrow l = sum_of escrowed l.escrows

abbrev pub total : Ledger → ℤ
total l = held l +ℤ in_escrow l

-- An escrow holds XGT only; once both sides have approved it, its fee is paid.
pub record IsEscrowSound (e : EscrowObject) : Type 0 where
  pub balance_xgt : is_xtt e.xgt_balance.symbol ≡ false
  pub fee_xgt : is_xtt e.pending_fee.symbol ≡ false
  pub balance_nonneg : pos 0 ≤ℤ e.xgt_balance.amount
  pub fee_nonneg : pos 0 ≤ℤ e.pending_fee.amount
  pub settled : (e.to_approved && e.agent_approved) ≡ true → e.pending_fee.amount ≡ pos 0

-- No wallet is in debt, and every escrow is sound.
pub record IsSound (l : Ledger) : Type 0 where
  pub funded : All IsFunded l.wallets
  pub escrows_sound : All IsEscrowSound l.escrows

-- No XGT and no token is made or lost between two ledgers.
pub record Conserves (l l' : Ledger) : Type 0 where
  pub sound : IsSound l'
  pub xgt : total l' ≡ total l
  pub xtt : (s : ℕ) → supply s l' +ℤ liquid s l ≡ supply s l +ℤ liquid s l'

pub Conserves-trans : (l m n : Ledger) → Conserves l m → Conserves m n → Conserves l n
Conserves-trans l m n c d = record {
  sound = d.sound;
  xgt = d.xgt ∙ c.xgt;
  xtt = λ s. grind (int_laws, c.xtt s, d.xtt s);
}

-- A payment of XGT.
pub record Pays (d : ℤ) (l l' : Ledger) : Type 0 where
  pub paid : held l' ≡ held l +ℤ d
  pub xtt : (s : ℕ) → supply s l' +ℤ liquid s l ≡ supply s l +ℤ liquid s l'
  pub escrows_same : l'.escrows ≡ l.escrows
  pub time_same : l'.head_block_time ≡ l.head_block_time
  pub funded : All IsFunded l.wallets → All IsFunded l'.wallets

pub adjust_balance-Pays :
    (n : ℕ) (delta : Asset) (l l' : Ledger)
    → is_xtt delta.symbol ≡ false
    → adjust_balance n delta l ≡ some l'
    → Pays delta.amount l l'
adjust_balance-Pays n delta l l' x h =
    let a = adjust_balance-Adjusts n delta l l' h in
    record {
      paid = a.xgt_held ∙ ap (◌+ℤ◌ (held l)) (rw x);
      xtt = λ s. let e : xtt_of s delta ≡ pos 0 = rw x in grind (int_laws, a.xtt_held s, e);
      escrows_same = a.escrows_same;
      time_same = a.time_same;
      funded = a.funded;
    }

module _ (e e' : EscrowObject) (l : Ledger) where
  pub set_escrow-Conserves :
      IsSound l
      → find_by (by_from_id e'.sender e'.escrow_id) l.escrows ≡ some e
      → IsEscrowSound e'
      → escrowed e' ≡ escrowed e
      → Conserves l (set_escrow e' l)
  unfolding set_escrow
  set_escrow-Conserves s f good same = record {
    sound = record {
      funded = s.funded;
      escrows_sound = All-replace_by IsEscrowSound _ e' l.escrows good s.escrows_sound;
    };
    xgt = grind (
      int_laws,
      sum_of-replace_by escrowed (by_from_id e'.sender e'.escrow_id) e' e l.escrows f,
      same,
    );
    xtt = λ s. grind int_laws;
  }

-- Money that leaves an escrow goes to a wallet.
module _ (d : ℤ) (e e' : EscrowObject) (l m : Ledger) (pays : Pays d l m) (s : IsSound l)
    (found : find_by (by_from_id e'.sender e'.escrow_id) l.escrows ≡ some e) where
  pub pay_and_set-Conserves :
      IsEscrowSound e' → escrowed e' +ℤ d ≡ escrowed e → Conserves l (set_escrow e' m)
  unfolding set_escrow
  pay_and_set-Conserves good same = record {
    sound = record {
      funded = pays.funded s.funded;
      escrows_sound =
          All-replace_by IsEscrowSound _ e' m.escrows good (rw pays.escrows_same s.escrows_sound);
    };
    xgt = rw pays.escrows_same (
        grind (
          int_laws,
          sum_of-replace_by escrowed (by_from_id e'.sender e'.escrow_id) e' e l.escrows found,
          same,
          pays.paid,
        ));
    xtt = pays.xtt;
  }

  pub pay_and_remove-Conserves : d ≡ escrowed e → Conserves l (remove_escrow e' m)
  unfolding remove_escrow
  pay_and_remove-Conserves same = record {
    sound = record {
      funded = pays.funded s.funded;
      escrows_sound =
          All-remove_by IsEscrowSound _ m.escrows (rw pays.escrows_same s.escrows_sound);
    };
    xgt = rw pays.escrows_same (
        grind (
          int_laws,
          sum_of-remove_by escrowed (by_from_id e'.sender e'.escrow_id) e l.escrows found,
          same,
          pays.paid,
        ));
    xtt = pays.xtt;
  }
