-- ===== src/Ledger/Payments.antt =====
-- Transfers, refunds and fees of xgt_evaluator.cpp: soundness of the ledger, and its sums.
use xgt.Base.{
  ℕ, ◌≡◌, refl, subst, ap, ◌∙◌, some, ◌==◌, is_some, arith, Option-cases, Bool-cases, inl, inr,
}
use xgt.Base.Int.{ℤ, pos, ◌+ℤ◌, neg, int_laws, +ℤ_assoc, opposite_sums, opposite_steps}
use xgt.Base.Tables.{find_by, sum_of, All-find_by}
use xgt.Ledger.{Asset, EscrowObject, Ledger, is_xtt, get_account, neg_asset, adjust_balance}
use xgt.Ledger.Balances.{
  held, xtt_of, xgt_of, liquid, supply, Adjusts, adjust_balance-Adjusts, neg_asset-inv,
}
use xgt.Ledger.Transfer.{
  TransferOperation, NewKeys, ensure_wallet, create_wallet, with_wallet, transfer,
}
use xgt.Ledger.Escrow.{by_from_id, set_escrow, remove_escrow, refund, pay_agent}
use xgt.Ledger.Conservation.{
  escrowed, in_escrow, IsEscrowSound, IsSound, Conserves, Conserves-trans, Pays,
  adjust_balance-Pays, pay_and_set-Conserves, pay_and_remove-Conserves,
}

-- A new wallet holds nothing.
pub with_wallet-Conserves :
    (keys : NewKeys) (n : ℕ) (l : Ledger) → IsSound l → Conserves l (with_wallet keys n l)
unfolding with_wallet sum_of
with_wallet-Conserves keys n l s = record {
  sound = record { funded = (omega arith, s.funded); escrows_sound = s.escrows_sound };
  xgt = omega int_laws;
  xtt = λ i. refl;
}

ensure_wallet-Conserves :
    (keys : NewKeys) (n : ℕ) (l l' : Ledger)
    → IsSound l
    → ensure_wallet keys n l ≡ some l'
    → Conserves l l'
unfolding ensure_wallet create_wallet
ensure_wallet-Conserves keys n l l' s h = elim (Bool-cases (is_some (get_account n l))) [
  | inl old ↦
      subst (Conserves l) {x = l} (ground arith) (record { sound = s; xgt = refl; xtt = λ i. refl })
  | inr new ↦
      subst (Conserves l) {x = with_wallet keys n l} (ground arith)
        (with_wallet-Conserves keys n l s)
]

xgt_of-neg : (a b : Asset) → neg_asset a ≡ some b → xgt_of b ≡ neg (xgt_of a)
xgt_of-neg a b h =
    let facts = neg_asset-inv a b h in
    elim (Bool-cases (is_xtt a.symbol)) [
      | inl xtt ↦ rw (facts.1, xtt) (omega int_laws)
      | inr xgt ↦ rw (facts.1, xgt) facts.0
    ]

xtt_of-neg : (s : ℕ) (a b : Asset) → neg_asset a ≡ some b → xtt_of s b ≡ neg (xtt_of s a)
xtt_of-neg s a b h =
    let facts = neg_asset-inv a b h in
    elim (Bool-cases (is_xtt a.symbol)) [
      | inr xgt ↦ rw (facts.1, xgt) (omega int_laws)
      | inl xtt ↦ elim (Bool-cases (a.symbol == s)) [
        | inl same ↦ rw (facts.1, xtt, same) facts.0
        | inr other ↦ rw (facts.1, xtt, other) (omega int_laws)
      ]
    ]

-- What one name loses another gains.
opposite-Conserves :
    (a b : Asset) (l m n : Ledger)
    → IsSound l
    → neg_asset a ≡ some b
    → Adjusts b l m
    → Adjusts a m n
    → Conserves l n
opposite-Conserves a b l m n s h taken given = record {
  sound = record {
    funded = given.funded (taken.funded s.funded);
    escrows_sound = rw (given.escrows_same, taken.escrows_same) s.escrows_sound;
  };
  xgt =
      rw (given.escrows_same, taken.escrows_same)
        (opposite_sums (held l) (held m) (held n) (in_escrow l) (xgt_of a) (xgt_of b) taken.xgt_held
          given.xgt_held (xgt_of-neg a b h));
  xtt = λ i.
      opposite_steps (supply i l) (liquid i l) (supply i m) (liquid i m) (supply i n) (liquid i n)
        (xtt_of i a) (xtt_of i b) (taken.xtt_held i) (given.xtt_held i) (xtt_of-neg i a b h);
}

-- No money is made or lost by a transfer of XGT or of a token, also to oneself and to a new wallet;
-- tokens sent to the null wallet leave the supply.
pub transfer-Conserves :
    (keys : NewKeys) (o : TransferOperation) (l l' : Ledger)
    → IsSound l
    → transfer keys o l ≡ some l'
    → Conserves l l'
unfolding transfer
transfer-Conserves keys o l l' s h = elim (Option-cases (ensure_wallet keys o.receiver l)) [
  | inl e ↦ absurd (ground arith)
  | inr (m, e) ↦ elim (Option-cases (neg_asset o.amount)) [
    | inl f ↦ absurd (ground arith)
    | inr (minus, f) ↦ elim (Option-cases (adjust_balance o.sender minus m)) [
      | inl g ↦ absurd (ground arith)
      | inr (n, g) ↦
          let made = ensure_wallet-Conserves keys o.receiver l m s e in
          let taken = adjust_balance-Adjusts o.sender minus m n g in
          let given = adjust_balance-Adjusts o.receiver o.amount n l' (ground arith) in
          Conserves-trans l m l' made
            (opposite-Conserves o.amount minus m n l' made.sound f taken given)
    ]
  ]
]

-- `refund`
pub refund-Conserves :
    (e : EscrowObject) (l l' : Ledger)
    → IsSound l
    → find_by (by_from_id e.sender e.escrow_id) l.escrows ≡ some e
    → refund e l ≡ some l'
    → Conserves l l'
unfolding refund
refund-Conserves e l l' s f h = elim (Option-cases (adjust_balance e.sender e.xgt_balance l)) [
  | inl g ↦ absurd (ground arith)
  | inr (m, g) ↦ elim (Option-cases (adjust_balance e.sender e.pending_fee m)) [
    | inl k ↦ absurd (ground arith)
    | inr (n, k) ↦
        let good = All-find_by IsEscrowSound _ e l.escrows s.escrows_sound f in
        let first = adjust_balance-Pays e.sender e.xgt_balance l m good.balance_xgt g in
        let second = adjust_balance-Pays e.sender e.pending_fee m n good.fee_xgt k in
        let both : Pays (escrowed e) l n = record {
          paid =
              second.paid
              ∙ (ap (λ (t : ℤ). t +ℤ e.pending_fee.amount) first.paid
                  ∙ +ℤ_assoc (held l) e.xgt_balance.amount e.pending_fee.amount);
          xtt = λ i. grind (int_laws, first.xtt i, second.xtt i);
          escrows_same = second.escrows_same ∙ first.escrows_same;
          time_same = second.time_same ∙ first.time_same;
          funded = λ w. second.funded (first.funded w);
        } in
        subst (Conserves l) {x = remove_escrow e n} (ground arith)
          (pay_and_remove-Conserves (escrowed e) e e l n both s f refl)
  ]
]

pub pay_agent-Conserves :
    (e : EscrowObject) (l l' : Ledger)
    → IsSound l
    → find_by (by_from_id e.sender e.escrow_id) l.escrows ≡ some e
    → pay_agent e l ≡ some l'
    → Conserves l l'
unfolding pay_agent
pay_agent-Conserves e l l' s f h = elim (Option-cases (adjust_balance e.agent e.pending_fee l)) [
  | inl g ↦ absurd (ground arith)
  | inr (m, g) ↦
      let good = All-find_by IsEscrowSound _ e l.escrows s.escrows_sound f in
      let paid = adjust_balance-Pays e.agent e.pending_fee l m good.fee_xgt g in
      let e' : EscrowObject = record e {
        pending_fee = record { amount = pos 0; symbol = e.pending_fee.symbol };
      } in
      subst (Conserves l) {x = set_escrow e' m} (ground arith) (
        pay_and_set-Conserves e.pending_fee.amount e e' l m paid s f
          (record {
            balance_xgt = good.balance_xgt;
            fee_xgt = good.fee_xgt;
            balance_nonneg = good.balance_nonneg;
            fee_nonneg = omega arith;
            settled = λ b. refl;
          })
          (omega int_laws))
]
