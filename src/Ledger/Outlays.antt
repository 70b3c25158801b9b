-- ===== src/Ledger/Outlays.antt =====
-- Balances after each operation of xgt_evaluator.cpp, by the wallet that signs for it.
use xgt.Base.{
  ℕ, ◌≡◌, refl, subst, sym, ==_iff, ap, ◌∙◌, false, ◌&&◌, some, ◌==◌, if◌then◌else◌, arith,
  Option-cases, Bool-cases, inl, inr,
}
use xgt.Base.Int.{pos, ◌≤ℤ◌}
use xgt.Base.Tables.{find_by, All-find_by}
use xgt.Ledger.{
  EscrowObject, Ledger, by_name, get_account, neg_asset, add_asset, adjust_balance, xgt_asset_num,
}
use xgt.Ledger.Conservation.{IsSound, IsEscrowSound}
use xgt.Ledger.Transfer.{
  TransferOperation, NewKeys, validate_transfer, ensure_wallet, create_wallet, with_wallet,
  transfer,
}
use xgt.Ledger.Escrow.{
  by_from_id, EscrowTransfer, EscrowApprove, EscrowDispute, EscrowRelease, validate_escrow_release,
  escrow_transfer, escrow_approve, escrow_dispute, escrow_release, refund, pay_agent, settle,
  approve_by_to, approve_by_agent, set_escrow, remove_escrow, get_escrow,
}
use xgt.Ledger.Approval.{approve_by_to-Ticked, approve_by_agent-Ticked, Ticked-trans}
use xgt.Ledger.Operations.{
  Operation, transfers, escrow_transfers, escrow_approves, escrow_disputes, escrow_releases,
  evaluate,
}
use xgt.Ledger.Spending.{Keeps, Keeps-trans, same_balances-Keeps, adjust_balance-Keeps}

-- The wallet that an operation names in `get_required_money_authorities`.
unfoldable pub signer : Operation → ℕ
signer (transfers keys o) = o.sender
signer (escrow_transfers o) = o.sender
signer (escrow_approves o) = o.who
signer (escrow_disputes o) = o.who
signer (escrow_releases o) = o.who

ensure_wallet-Keeps :
    (n k : ℕ) (keys : NewKeys) (l l' : Ledger) → ensure_wallet keys k l ≡ some l' → Keeps n l l'
unfolding ensure_wallet create_wallet with_wallet get_account find_by
ensure_wallet-Keeps n k keys l l' h = elim (Option-cases (find_by (by_name k) l.wallets)) [
  | inr (w, e) ↦ same_balances-Keeps n l l' (ground arith) (ground arith)
  | inl e ↦ subst (Keeps n l) {x = with_wallet keys k l} (ground arith) (record {
    xgt = elim (Bool-cases (k == n)) [
      | inl own ↦
          let absent =
            ap (λ (i : ℕ). find_by (by_name i) l.wallets) (sym ((==_iff k n).0 own)) ∙ e in
          rw (absent, own) (omega arith)
      | inr other ↦ rw other (omega arith)
    ];
    xtt = λ s. omega arith;
  })
]

module _ (n : ℕ) where
  transfer-Keeps :
      (keys : NewKeys) (o : TransferOperation) (l l' : Ledger)
      → validate_transfer o ≡ some tt
      → (n == o.sender) ≡ false
      → transfer keys o l ≡ some l'
      → Keeps n l l'
  unfolding transfer validate_transfer
  transfer-Keeps keys o l l' v other h = elim (Option-cases (ensure_wallet keys o.receiver l)) [
    | inl e ↦ absurd (ground arith)
    | inr (m, e) ↦ elim (Option-cases (neg_asset o.amount)) [
      | inl f ↦ absurd (ground arith)
      | inr (minus, f) ↦ elim (Option-cases (adjust_balance o.sender minus m)) [
        | inl g ↦ absurd (ground arith)
        | inr (m', g) ↦
            let made = ensure_wallet-Keeps n o.receiver keys l m e in
            let taken =
              adjust_balance-Keeps n o.sender minus m m' g (λ own. absurd (ground arith)) in
            let given =
              adjust_balance-Keeps n o.receiver o.amount m' l' (ground arith)
                (λ own. ground arith) in
            Keeps-trans n l m l' made (Keeps-trans n m m' l' taken given)
      ]
    ]
  ]

  escrow_transfer-Keeps :
      (o : EscrowTransfer) (l l' : Ledger)
      → (n == o.sender) ≡ false
      → escrow_transfer o l ≡ some l'
      → Keeps n l l'
  unfolding escrow_transfer
  escrow_transfer-Keeps o l l' other h =
      elim (Option-cases (
        if o.fee.symbol == xgt_asset_num
        then add_asset o.xgt_amount o.fee
        else some o.xgt_amount)) [
          | inl f ↦ absurd (ground arith)
          | inr (spent, f) ↦ elim (Option-cases (neg_asset spent)) [
            | inl g ↦ absurd (ground arith)
            | inr (minus, g) ↦ elim (Option-cases (adjust_balance o.sender minus l)) [
              | inl k ↦ absurd (ground arith)
              | inr (m, k) ↦
                  Keeps-trans n l m l'
                    (adjust_balance-Keeps n o.sender minus l m k (λ own. absurd (ground arith)))
                    (same_balances-Keeps n m l' (ground arith) (ground arith))
            ]
          ]
        ]

  refund-Keeps :
      (e : EscrowObject) (l l' : Ledger)
      → pos 0 ≤ℤ e.xgt_balance.amount
      → pos 0 ≤ℤ e.pending_fee.amount
      → refund e l ≡ some l'
      → Keeps n l l'
  unfolding refund remove_escrow
  refund-Keeps e l l' balance fee h =
      elim (Option-cases (adjust_balance e.sender e.xgt_balance l)) [
        | inl g ↦ absurd (ground arith)
        | inr (m, g) ↦ elim (Option-cases (adjust_balance e.sender e.pending_fee m)) [
          | inl k ↦ absurd (ground arith)
          | inr (m', k) ↦
              let first = adjust_balance-Keeps n e.sender e.xgt_balance l m g (λ own. balance) in
              let second = adjust_balance-Keeps n e.sender e.pending_fee m m' k (λ own. fee) in
              Keeps-trans n l m l' first (
                Keeps-trans n m m' l' second
                  (same_balances-Keeps n m' l' (ground arith) (ground arith)))
        ]
      ]

  pay_agent-Keeps :
      (e : EscrowObject) (l l' : Ledger)
      → pos 0 ≤ℤ e.pending_fee.amount
      → pay_agent e l ≡ some l'
      → Keeps n l l'
  unfolding pay_agent set_escrow
  pay_agent-Keeps e l l' fee h = elim (Option-cases (adjust_balance e.agent e.pending_fee l)) [
    | inl g ↦ absurd (ground arith)
    | inr (m, g) ↦
        Keeps-trans n l m l' (adjust_balance-Keeps n e.agent e.pending_fee l m g (λ own. fee))
          (same_balances-Keeps n m l' (ground arith) (ground arith))
  ]

  settle-Keeps :
      (o : EscrowApprove) (e : EscrowObject) (l l' : Ledger)
      → pos 0 ≤ℤ e.xgt_balance.amount
      → pos 0 ≤ℤ e.pending_fee.amount
      → settle o e l ≡ some l'
      → Keeps n l l'
  unfolding settle set_escrow
  settle-Keeps o e l l' balance fee h =
      let written = same_balances-Keeps n l (set_escrow e l) refl refl in
      elim (Bool-cases o.approve) [
        | inr refused ↦
            Keeps-trans n l (set_escrow e l) l' written
              (refund-Keeps e (set_escrow e l) l' balance fee (ground arith))
        | inl approved ↦ elim (Bool-cases (e.to_approved && e.agent_approved)) [
          | inl both ↦
              Keeps-trans n l (set_escrow e l) l' written
                (pay_agent-Keeps e (set_escrow e l) l' fee (ground arith))
          | inr one ↦ same_balances-Keeps n l l' (ground arith) (ground arith)
        ]
      ]

  escrow_approve-Keeps :
      (o : EscrowApprove) (l l' : Ledger) → IsSound l → escrow_approve o l ≡ some l' → Keeps n l l'
  unfolding escrow_approve get_escrow
  escrow_approve-Keeps o l l' s h =
      elim (Option-cases (find_by (by_from_id o.sender o.escrow_id) l.escrows)) [
        | inl f ↦ absurd (ground arith)
        | inr (e, f) ↦ elim (Option-cases (approve_by_to o e)) [
          | inl g ↦ absurd (ground arith)
          | inr (e', g) ↦ elim (Option-cases (approve_by_agent o e')) [
            | inl k ↦ absurd (ground arith)
            | inr (e'', k) ↦
                let t =
                  Ticked-trans e e' e'' (approve_by_to-Ticked o e e' g)
                    (approve_by_agent-Ticked o e' e'' k) in
                let good = All-find_by IsEscrowSound _ e l.escrows s.escrows_sound f in
                settle-Keeps o e'' l l' (rw t.balance_same good.balance_nonneg)
                  (rw t.fee_same good.fee_nonneg) (ground arith)
          ]
        ]
      ]

  escrow_dispute-Keeps :
      (o : EscrowDispute) (l l' : Ledger) → escrow_dispute o l ≡ some l' → Keeps n l l'
  unfolding escrow_dispute get_escrow set_escrow
  escrow_dispute-Keeps o l l' h =
      elim (Option-cases (find_by (by_from_id o.sender o.escrow_id) l.escrows)) [
        | inl f ↦ absurd (ground arith)
        | inr (e, f) ↦ same_balances-Keeps n l l' (ground arith) (ground arith)
      ]

  escrow_release-Keeps :
      (o : EscrowRelease) (l l' : Ledger)
      → validate_escrow_release o ≡ some tt
      → escrow_release o l ≡ some l'
      → Keeps n l l'
  unfolding escrow_release validate_escrow_release get_escrow set_escrow remove_escrow
  escrow_release-Keeps o l l' v h =
      elim (Option-cases (find_by (by_from_id o.sender o.escrow_id) l.escrows)) [
        | inl f ↦ absurd (ground arith)
        | inr (e, f) ↦ elim (Option-cases (adjust_balance o.beneficiary o.xgt_amount l)) [
          | inl g ↦ absurd (ground arith)
          | inr (m, g) ↦
              Keeps-trans n l m l'
                (adjust_balance-Keeps n o.beneficiary o.xgt_amount l m g (λ own. ground arith))
                (same_balances-Keeps n m l' (ground arith) (ground arith))
        ]
      ]

  -- Once its validate has passed and its evaluator run.
  pub evaluate-Keeps :
      (o : Operation) (l l' : Ledger)
      → IsSound l
      → evaluate o l ≡ some l'
      → (n == signer o) ≡ false
      → Keeps n l l'
  unfolding evaluate signer
  evaluate-Keeps (transfers keys o) l l' s h other =
      transfer-Keeps keys o l l' (ground arith) other (ground arith)
  evaluate-Keeps (escrow_transfers o) l l' s h other =
      escrow_transfer-Keeps o l l' other (ground arith)
  evaluate-Keeps (escrow_approves o) l l' s h other = escrow_approve-Keeps o l l' s (ground arith)
  evaluate-Keeps (escrow_disputes o) l l' s h other = escrow_dispute-Keeps o l l' (ground arith)
  evaluate-Keeps (escrow_releases o) l l' s h other =
      escrow_release-Keeps o l l' (ground arith) (ground arith)
