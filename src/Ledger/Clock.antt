-- ===== src/Ledger/Clock.antt =====
-- No operation on money moves the time of the head block.
use xgt.Base.{
  ℕ, ◌≡◌, ◌∙◌, ◌&&◌, some, arith, Option-cases, Bool-cases, inl, inr, if◌then◌else◌, ◌==◌,
}
use xgt.Ledger.{
  Asset, EscrowObject, Ledger, adjust_balance, adjust_supply, neg_asset, add_asset, xgt_asset_num,
}
use xgt.Ledger.Balances.{adjust_balance-Adjusts}
use xgt.Ledger.Transfer.{
  TransferOperation, NewKeys, create_wallet, ensure_wallet, transfer, evaluate_transfer,
  with_wallet, clear_null_wallet_balance,
}
use xgt.Ledger.Escrow.{
  EscrowTransfer, EscrowApprove, EscrowDispute, EscrowRelease, escrow_transfer, get_escrow,
  set_escrow, remove_escrow, refund, pay_agent, settle, approve_by_to, approve_by_agent,
  escrow_approve, escrow_dispute, escrow_release,
}
use xgt.Ledger.Operations.{
  Operation, transfers, escrow_transfers, escrow_approves, escrow_disputes, escrow_releases,
  evaluate,
}

pub adjust_balance-time :
    (n : ℕ) (delta : Asset) (l l' : Ledger)
    → adjust_balance n delta l ≡ some l'
    → l'.head_block_time ≡ l.head_block_time
adjust_balance-time n delta l l' h = (adjust_balance-Adjusts n delta l l' h).time_same

ensure_wallet-time :
    (keys : NewKeys) (n : ℕ) (l l' : Ledger)
    → ensure_wallet keys n l ≡ some l'
    → l'.head_block_time ≡ l.head_block_time
unfolding ensure_wallet create_wallet with_wallet
ensure_wallet-time keys n l l' h = ground arith

transfer-time :
    (keys : NewKeys) (o : TransferOperation) (l l' : Ledger)
    → transfer keys o l ≡ some l'
    → l'.head_block_time ≡ l.head_block_time
unfolding transfer
transfer-time keys o l l' h = elim (Option-cases (ensure_wallet keys o.receiver l)) [
  | inl e ↦ absurd (ground arith)
  | inr (m, e) ↦ elim (Option-cases (neg_asset o.amount)) [
    | inl f ↦ absurd (ground arith)
    | inr (minus, f) ↦ elim (Option-cases (adjust_balance o.sender minus m)) [
      | inl g ↦ absurd (ground arith)
      | inr (n, g) ↦
          adjust_balance-time o.receiver o.amount n l' (ground arith)
          ∙ adjust_balance-time o.sender minus m n g
          ∙ ensure_wallet-time keys o.receiver l m e
    ]
  ]
]

-- One payment, and the escrows written after it.
escrow_transfer-time :
    (o : EscrowTransfer) (l l' : Ledger)
    → escrow_transfer o l ≡ some l'
    → l'.head_block_time ≡ l.head_block_time
unfolding escrow_transfer
escrow_transfer-time o l l' h =
    let spent =
      (if o.fee.symbol == xgt_asset_num then add_asset o.xgt_amount o.fee else some o.xgt_amount) in
    elim (Option-cases spent) [
      | inl e ↦ absurd (ground arith)
      | inr (sum, e) ↦ elim (Option-cases (neg_asset sum)) [
        | inl f ↦ absurd (ground arith)
        | inr (minus, f) ↦ elim (Option-cases (adjust_balance o.sender minus l)) [
          | inl g ↦ absurd (ground arith)
          | inr (m, g) ↦
              let paid = adjust_balance-time o.sender minus l m g in
              let same : l'.head_block_time ≡ m.head_block_time = ground arith in same ∙ paid
        ]
      ]
    ]

refund-time :
    (e : EscrowObject) (l l' : Ledger)
    → refund e l ≡ some l'
    → l'.head_block_time ≡ l.head_block_time
unfolding refund remove_escrow
refund-time e l l' h = elim (Option-cases (adjust_balance e.sender e.xgt_balance l)) [
  | inl f ↦ absurd (ground arith)
  | inr (m, f) ↦ elim (Option-cases (adjust_balance e.sender e.pending_fee m)) [
    | inl g ↦ absurd (ground arith)
    | inr (n, g) ↦
        let same : l'.head_block_time ≡ n.head_block_time = ground arith in
        same
        ∙ adjust_balance-time e.sender e.pending_fee m n g
        ∙ adjust_balance-time e.sender e.xgt_balance l m f
  ]
]

pay_agent-time :
    (e : EscrowObject) (l l' : Ledger)
    → pay_agent e l ≡ some l'
    → l'.head_block_time ≡ l.head_block_time
unfolding pay_agent set_escrow
pay_agent-time e l l' h = elim (Option-cases (adjust_balance e.agent e.pending_fee l)) [
  | inl f ↦ absurd (ground arith)
  | inr (m, f) ↦
      let same : l'.head_block_time ≡ m.head_block_time = ground arith in
      same ∙ adjust_balance-time e.agent e.pending_fee l m f
]

settle-time :
    (o : EscrowApprove) (e : EscrowObject) (l l' : Ledger)
    → settle o e l ≡ some l'
    → l'.head_block_time ≡ l.head_block_time
unfolding settle set_escrow
settle-time o e l l' h = elim (Bool-cases o.approve) [
  | inr refused ↦ refund-time e (set_escrow e l) l' (ground arith)
  | inl approved ↦ elim (Bool-cases (e.to_approved && e.agent_approved)) [
    | inl both ↦ pay_agent-time e (set_escrow e l) l' (ground arith)
    | inr one ↦ ground arith
  ]
]

escrow_approve-time :
    (o : EscrowApprove) (l l' : Ledger)
    → escrow_approve o l ≡ some l'
    → l'.head_block_time ≡ l.head_block_time
unfolding escrow_approve
escrow_approve-time o l l' h = elim (Option-cases (get_escrow o.sender o.escrow_id l)) [
  | inl f ↦ absurd (ground arith)
  | inr (e, f) ↦ elim (Option-cases (approve_by_to o e)) [
    | inl g ↦ absurd (ground arith)
    | inr (e', g) ↦ elim (Option-cases (approve_by_agent o e')) [
      | inl k ↦ absurd (ground arith)
      | inr (e'', k) ↦ settle-time o e'' l l' (ground arith)
    ]
  ]
]

escrow_dispute-time :
    (o : EscrowDispute) (l l' : Ledger)
    → escrow_dispute o l ≡ some l'
    → l'.head_block_time ≡ l.head_block_time
unfolding escrow_dispute set_escrow
escrow_dispute-time o l l' h = ground arith

escrow_release-time :
    (o : EscrowRelease) (l l' : Ledger)
    → escrow_release o l ≡ some l'
    → l'.head_block_time ≡ l.head_block_time
unfolding escrow_release set_escrow remove_escrow
escrow_release-time o l l' h = elim (Option-cases (adjust_balance o.beneficiary o.xgt_amount l)) [
  | inl f ↦ absurd (ground arith)
  | inr (m, f) ↦
      let same : l'.head_block_time ≡ m.head_block_time = ground arith in
      same ∙ adjust_balance-time o.beneficiary o.xgt_amount l m f
]

pub evaluate-time :
    (o : Operation) (l l' : Ledger)
    → evaluate o l ≡ some l'
    → l'.head_block_time ≡ l.head_block_time
unfolding evaluate evaluate_transfer
evaluate-time (transfers keys o) l l' h = transfer-time keys o l l' (ground arith)
evaluate-time (escrow_transfers o) l l' h = escrow_transfer-time o l l' (ground arith)
evaluate-time (escrow_approves o) l l' h = escrow_approve-time o l l' (ground arith)
evaluate-time (escrow_disputes o) l l' h = escrow_dispute-time o l l' (ground arith)
evaluate-time (escrow_releases o) l l' h = escrow_release-time o l l' (ground arith)

pub clear_null_wallet_balance-time :
    (l l' : Ledger) → clear_null_wallet_balance l ≡ some l' → l'.head_block_time ≡ l.head_block_time
unfolding clear_null_wallet_balance adjust_supply
clear_null_wallet_balance-time l l' h = ground arith
