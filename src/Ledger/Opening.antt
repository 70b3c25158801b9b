-- ===== src/Ledger/Opening.antt =====
-- escrow_transfer of xgt_evaluator.cpp: soundness of the ledger, and its sums.
use xgt.Base.{◌≡◌, refl, subst, ◌∙◌, true, false, some, ◌∷◌, ◌==◌, arith, Option-cases, inl, inr}
use xgt.Base.Int.{ℤ, pos, ◌+ℤ◌, ◌≤ℤ◌, neg, int_laws}
use xgt.Base.Tables.{sum_of}
use xgt.Ledger.{EscrowObject, Ledger, xgt_asset_num, neg_asset, add_asset, adjust_balance}
use xgt.Ledger.Balances.{held, neg_asset-inv, add_asset-inv}
use xgt.Ledger.Escrow.{get_escrow, EscrowTransfer, validate_escrow_transfer, escrow_transfer}
use xgt.Ledger.Conservation.{IsSound, Conserves, in_escrow, adjust_balance-Pays}

-- What validate says of the amounts.
record IsPaidInXgt (o : EscrowTransfer) : Type 0 where
  amount_xgt : o.xgt_amount.symbol ≡ xgt_asset_num
  fee_xgt : o.fee.symbol ≡ xgt_asset_num
  amount_nonneg : pos 0 ≤ℤ o.xgt_amount.amount
  fee_nonneg : pos 0 ≤ℤ o.fee.amount

validate_escrow_transfer-IsPaidInXgt :
    (o : EscrowTransfer) → validate_escrow_transfer o ≡ some tt → IsPaidInXgt o
unfolding validate_escrow_transfer
validate_escrow_transfer-IsPaidInXgt o h = record {
  amount_xgt = ground arith;
  fee_xgt = ground arith;
  amount_nonneg = ground arith;
  fee_nonneg = ground arith;
}

-- What leaves the sender's wallet is the amount and the fee.
moved : (h h' b p s m r : ℤ) → h' ≡ h +ℤ m → m ≡ neg s → s ≡ b +ℤ p → h' +ℤ (b +ℤ p +ℤ r) ≡ h +ℤ r
moved h h' b p s m r x y z = grind int_laws

pub escrow_transfer-Conserves :
    (o : EscrowTransfer) (l l' : Ledger)
    → IsSound l
    → validate_escrow_transfer o ≡ some tt
    → escrow_transfer o l ≡ some l'
    → Conserves l l'
unfolding escrow_transfer get_escrow sum_of
escrow_transfer-Conserves o l l' s v h =
    let valid = validate_escrow_transfer-IsPaidInXgt o v in
    let fee : (o.fee.symbol == xgt_asset_num) ≡ true = let x = valid.fee_xgt in ground arith in
    elim (Option-cases (add_asset o.xgt_amount o.fee)) [
      | inl f ↦ absurd (ground arith)
      | inr (spent, f) ↦ elim (Option-cases (neg_asset spent)) [
        | inl g ↦ absurd (ground arith)
        | inr (minus, g) ↦ elim (Option-cases (adjust_balance o.sender minus l)) [
          | inl k ↦ absurd (ground arith)
          | inr (m, k) ↦
              let sum = add_asset-inv o.xgt_amount o.fee spent f in
              let opposite = neg_asset-inv spent minus g in
              let symbol : minus.symbol ≡ xgt_asset_num = opposite.1 ∙ (sum.1 ∙ valid.amount_xgt) in
              let paid = adjust_balance-Pays o.sender minus l m (rw symbol refl) k in
              let e : EscrowObject = record {
                escrow_id = o.escrow_id;
                sender = o.sender;
                receiver = o.receiver;
                agent = o.agent;
                ratification_deadline = o.ratification_deadline;
                escrow_expiration = o.escrow_expiration;
                xgt_balance = o.xgt_amount;
                pending_fee = o.fee;
                to_approved = false;
                agent_approved = false;
                disputed = false;
              } in
              subst (Conserves l) {x = record m { escrows = e ∷ m.escrows }} (ground arith)
                (record {
                  sound = record {
                    funded = paid.funded s.funded;
                    escrows_sound = (
                      record {
                        balance_xgt = rw valid.amount_xgt refl;
                        fee_xgt = rw valid.fee_xgt refl;
                        balance_nonneg = valid.amount_nonneg;
                        fee_nonneg = valid.fee_nonneg;
                        settled = λ b. absurd (ground arith);
                      },
                      rw paid.escrows_same s.escrows_sound,
                    );
                  };
                  xgt = rw paid.escrows_same (
                      moved (held l) (held m) o.xgt_amount.amount o.fee.amount spent.amount
                        minus.amount (in_escrow l) paid.paid opposite.0 sum.0);
                  xtt = paid.xtt;
                })
        ]
      ]
    ]
