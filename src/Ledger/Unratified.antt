-- ===== src/Ledger/Unratified.antt =====
-- An escrow whose ratification has run out. The call of expire_escrow_ratification, which would pay
-- it back, is commented out in _apply_block of libraries/chain/database.cpp.
use xgt.Base.{◌≡◌, true, false, ◌&&◌, none, some, ltb, arith}
use xgt.Ledger.{EscrowObject, Ledger}
use xgt.Ledger.Escrow.{
  get_escrow, EscrowApprove, EscrowDispute, EscrowRelease, escrow_approve, escrow_dispute,
  escrow_release,
}

-- Once the ratification deadline of an escrow has passed without both approvals, no approval, refusal,
-- dispute or release of it goes through, whoever signs it.
pub unratified-locked :
    (o : EscrowApprove) (p : EscrowDispute) (q : EscrowRelease) (e : EscrowObject) (l : Ledger)
    → get_escrow o.sender o.escrow_id l ≡ some e
    → get_escrow p.sender p.escrow_id l ≡ some e
    → get_escrow q.sender q.escrow_id l ≡ some e
    → (e.to_approved && e.agent_approved) ≡ false
    → ltb e.ratification_deadline l.head_block_time ≡ true
    → (escrow_approve o l ≡ none) × (escrow_dispute p l ≡ none) × (escrow_release q l ≡ none)
unfolding escrow_approve escrow_dispute escrow_release
unratified-locked o p q e l f g h pending late = (ground arith, ground arith, ground arith)
