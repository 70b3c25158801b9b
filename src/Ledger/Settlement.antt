-- ===== src/Ledger/Settlement.antt =====
-- escrow_dispute and escrow_release of xgt_evaluator.cpp: soundness of the ledger, and its sums.
use xgt.Base.{
  ℕ, ◌≡◌, refl, subst, sym, true, false, ◌&&◌, some, arith, Option-cases, Bool-cases, inl, inr,
}
use xgt.Base.Int.{ℤ, pos, ◌+ℤ◌, ◌-ℤ◌, ◌≤ℤ◌, int_laws, safe_sub, safe_sub-value, leb_ℤ, eqb_ℤ}
use xgt.Base.Tables.{find_by, All-find_by, find_by-passes}
use xgt.Ledger.{EscrowObject, Ledger, is_xtt, adjust_balance}
use xgt.Ledger.Escrow.{
  by_from_id, get_escrow, set_escrow, remove_escrow, EscrowDispute, escrow_dispute, EscrowRelease,
  escrow_release,
}
use xgt.Ledger.Conservation.{
  IsEscrowSound, IsSound, Conserves, adjust_balance-Pays, set_escrow-Conserves,
  pay_and_set-Conserves, pay_and_remove-Conserves,
}

-- An escrow is found under its own key.
pub found_by_key :
    (n i : ℕ) (e : EscrowObject) (l : Ledger)
    → find_by (by_from_id n i) l.escrows ≡ some e
    → (find_by (by_from_id e.sender e.escrow_id) l.escrows ≡ some e)
      × (e.sender ≡ n)
      × (e.escrow_id ≡ i)
found_by_key n i e l f =
    let passes = find_by-passes (by_from_id n i) e l.escrows f in
    let same : e.sender ≡ n = ground arith in
    let same_id : e.escrow_id ≡ i = ground arith in
    (
      subst (λ a. find_by (by_from_id a e.escrow_id) l.escrows ≡ some e) (sym same)
          (subst (λ j. find_by (by_from_id n j) l.escrows ≡ some e) (sym same_id) f),
      same,
      same_id,
    )

-- What is left of a balance `b` after `d`, with a fee `p`.
all_paid : (b p d left : ℤ) → left ≡ b -ℤ d → eqb_ℤ left (pos 0) ≡ true → p ≡ pos 0 → d ≡ b +ℤ p
all_paid b p d left v h k = grind int_laws

rest_nonneg : (b d left : ℤ) → left ≡ b -ℤ d → leb_ℤ d b ≡ true → pos 0 ≤ℤ left
rest_nonneg b d left v h = grind int_laws

rest_kept : (b p d left : ℤ) → left ≡ b -ℤ d → left +ℤ p +ℤ d ≡ b +ℤ p
rest_kept b p d left v = grind int_laws

pub escrow_dispute-Conserves :
    (o : EscrowDispute) (l l' : Ledger) → IsSound l → escrow_dispute o l ≡ some l' → Conserves l l'
unfolding escrow_dispute get_escrow
escrow_dispute-Conserves o l l' s h =
    elim (Option-cases (find_by (by_from_id o.sender o.escrow_id) l.escrows)) [
      | inl f ↦ absurd (ground arith)
      | inr (e, f) ↦
          let good = All-find_by IsEscrowSound _ e l.escrows s.escrows_sound f in
          subst (Conserves l) {x = set_escrow (record e { disputed = true }) l} (ground arith) (
            set_escrow-Conserves e (record e { disputed = true }) l s (found_by_key _ _ e l f).0
              (record {
                balance_xgt = good.balance_xgt;
                fee_xgt = good.fee_xgt;
                balance_nonneg = good.balance_nonneg;
                fee_nonneg = good.fee_nonneg;
                settled = good.settled;
              })
              refl)
    ]

pub escrow_release-Conserves :
    (o : EscrowRelease) (l l' : Ledger) → IsSound l → escrow_release o l ≡ some l' → Conserves l l'
unfolding escrow_release get_escrow
escrow_release-Conserves o l l' s h =
    elim (Option-cases (find_by (by_from_id o.sender o.escrow_id) l.escrows)) [
      | inl f ↦ absurd (ground arith)
      | inr (e, f) ↦ elim (Option-cases (adjust_balance o.beneficiary o.xgt_amount l)) [
        | inl g ↦ absurd (ground arith)
        | inr (m, g) ↦ elim (Option-cases (safe_sub e.xgt_balance.amount o.xgt_amount.amount)) [
          | inl k ↦ absurd (ground arith)
          | inr (left, k) ↦
              let good = All-find_by IsEscrowSound _ e l.escrows s.escrows_sound f in
              let same : e.xgt_balance.symbol ≡ o.xgt_amount.symbol = ground arith in
              let enough : leb_ℤ o.xgt_amount.amount e.xgt_balance.amount ≡ true = ground arith in
              let approved : (e.to_approved && e.agent_approved) ≡ true = ground arith in
              let paid =
                adjust_balance-Pays o.beneficiary o.xgt_amount l m
                  (subst (λ x. is_xtt x ≡ false) same good.balance_xgt) g in
              let value = safe_sub-value _ _ left k in
              let e' : EscrowObject = record e {
                xgt_balance = record { amount = left; symbol = e.xgt_balance.symbol };
              } in
              let key = (found_by_key _ _ e l f).0 in
              elim (Bool-cases (eqb_ℤ left (pos 0))) [
                | inl gone ↦ subst (Conserves l) {x = remove_escrow e' m} (ground arith) (
                    pay_and_remove-Conserves o.xgt_amount.amount e e' l m paid s key
                      (all_paid _ _ _ left value gone (good.settled approved)))
                | inr more ↦ subst (Conserves l) {x = set_escrow e' m} (ground arith) (
                    pay_and_set-Conserves o.xgt_amount.amount e e' l m paid s key
                      (record {
                        balance_xgt = good.balance_xgt;
                        fee_xgt = good.fee_xgt;
                        balance_nonneg = rest_nonneg _ _ left value enough;
                        fee_nonneg = good.fee_nonneg;
                        settled = good.settled;
                      })
                      (rest_kept _ _ _ left value))
              ]
        ]
      ]
    ]
