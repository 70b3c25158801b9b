-- ===== src/Ledger/Operations.antt =====
-- The operations on money together, each with its validate before its evaluator.
use xgt.Base.{
  ◌≡◌, subst, Option, some, List, [], ◌∷◌, ◌>>=◌, ◌>>◌, arith, Option-cases, inl, inr, refl,
}
use xgt.Ledger.{Ledger}
use xgt.Ledger.Transfer.{TransferOperation, NewKeys, evaluate_transfer}
use xgt.Ledger.Escrow.{
  EscrowTransfer, EscrowApprove, EscrowDispute, EscrowRelease, validate_escrow_transfer,
  validate_escrow_approve, validate_escrow_dispute, validate_escrow_release, escrow_transfer,
  escrow_approve, escrow_dispute, escrow_release,
}
use xgt.Ledger.Conservation.{IsSound, Conserves, Conserves-trans}
use xgt.Ledger.Payments.{transfer-Conserves}
use xgt.Ledger.Opening.{escrow_transfer-Conserves}
use xgt.Ledger.Approval.{escrow_approve-Conserves}
use xgt.Ledger.Settlement.{escrow_dispute-Conserves, escrow_release-Conserves}

pub data Operation : Type 0 where
  transfers : NewKeys → TransferOperation → Operation
  escrow_transfers : EscrowTransfer → Operation
  escrow_approves : EscrowApprove → Operation
  escrow_disputes : EscrowDispute → Operation
  escrow_releases : EscrowRelease → Operation

-- Any exception undoes the whole transaction, so a failed run has no ledger.
unfoldable pub evaluate : Operation → Ledger → Option Ledger
unfolding evaluate_transfer
evaluate (transfers keys o) l = evaluate_transfer keys o l
evaluate (escrow_transfers o) l = do validate_escrow_transfer o; escrow_transfer o l
evaluate (escrow_approves o) l = do validate_escrow_approve o; escrow_approve o l
evaluate (escrow_disputes o) l = do validate_escrow_dispute o; escrow_dispute o l
evaluate (escrow_releases o) l = do validate_escrow_release o; escrow_release o l

unfoldable pub evaluate_all : List Operation → Ledger → Option Ledger
unfolding evaluate
evaluate_all [] l = some l
evaluate_all (o ∷ os) l = evaluate o l >>= λ l'. evaluate_all os l'

pub evaluate-Conserves :
    (o : Operation) (l l' : Ledger) → IsSound l → evaluate o l ≡ some l' → Conserves l l'
unfolding evaluate
evaluate-Conserves (transfers keys o) l l' s h = transfer-Conserves keys o l l' s (ground arith)
evaluate-Conserves (escrow_transfers o) l l' s h =
    escrow_transfer-Conserves o l l' s (ground arith) (ground arith)
evaluate-Conserves (escrow_approves o) l l' s h = escrow_approve-Conserves o l l' s (ground arith)
evaluate-Conserves (escrow_disputes o) l l' s h = escrow_dispute-Conserves o l l' s (ground arith)
evaluate-Conserves (escrow_releases o) l l' s h = escrow_release-Conserves o l l' s (ground arith)

-- After any history of transfers and escrow operations that goes through, no wallet is in debt and
-- every escrow is sound, the XGT in wallets and escrow sum to what they summed to before, and each
-- token's supply has changed by as much as the balances in it.
pub evaluate_all-Conserves :
    (os : List Operation) (l l' : Ledger) → IsSound l → evaluate_all os l ≡ some l' → Conserves l l'
unfolding evaluate_all
evaluate_all-Conserves [] l l' s h =
    subst (Conserves l) {x = l} (ground arith) (record { sound = s; xgt = refl; xtt = λ i. refl })
evaluate_all-Conserves (o ∷ os) l l' s h = elim (Option-cases (evaluate o l)) [
  | inl e ↦ absurd (ground arith)
  | inr (m, e) ↦
      let first = evaluate-Conserves o l m s e in
      Conserves-trans l m l' first (evaluate_all-Conserves os m l' first.sound (ground arith))
]
