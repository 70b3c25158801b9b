-- ===== src/Ledger/Release.antt =====
-- Who can take money out of an escrow, and when.
use xgt.Base.{ℕ, ◌≡◌, ◌↔◌, ◌⊎◌, ◌≤◌, true, false, none, some, ◌>>◌, arith, Option-cases, inl, inr}
use xgt.Base.Int.{◌≤ℤ◌}
use xgt.Ledger.{Ledger, EscrowObject}
use xgt.Ledger.Escrow.{
  get_escrow, EscrowRelease, may_release, escrow_release, EscrowApprove, escrow_approve,
  approve_by_to, approve_by_agent, validate_escrow_approve,
}

-- In a dispute the agent decides. Without one the two parties do: before the expiration each can
-- only give to the other, after it each can also take.
pub data IsEntitled (now : ℕ) (who to : ℕ) (e : EscrowObject) : Type 0 where
  by_agent : e.disputed ≡ true → who ≡ e.agent → IsEntitled now who to e
  to_receiver : e.disputed ≡ false → who ≡ e.sender → to ≡ e.receiver → IsEntitled now who to e
  to_sender : e.disputed ≡ false → who ≡ e.receiver → to ≡ e.sender → IsEntitled now who to e
  expired :
      e.disputed ≡ false
      → e.escrow_expiration ≤ now
      → (who ≡ e.sender) ⊎ (who ≡ e.receiver)
      → IsEntitled now who to e

pub record IsReleasable (o : EscrowRelease) (e : EscrowObject) (l : Ledger) : Type 0 where
  pub to_approved : e.to_approved ≡ true
  pub agent_approved : e.agent_approved ≡ true
  pub to_party : (o.beneficiary ≡ e.sender) ⊎ (o.beneficiary ≡ e.receiver)
  pub entitled : IsEntitled l.head_block_time o.who o.beneficiary e
  pub enough : o.xgt_amount.amount ≤ℤ e.xgt_balance.amount

may_release-IsEntitled :
    (now : ℕ) (o : EscrowRelease) (e : EscrowObject)
    → may_release now o e ≡ some tt
    → IsEntitled now o.who o.beneficiary e
unfolding may_release
may_release-IsEntitled now o e h = search (arith, IsEntitled.by_agent)

IsEntitled-may_release :
    (now : ℕ) (o : EscrowRelease) (e : EscrowObject)
    → IsEntitled now o.who o.beneficiary e
    → may_release now o e ≡ some tt
unfolding may_release
IsEntitled-may_release now o e (by_agent d w) = ground arith
IsEntitled-may_release now o e (to_receiver d w t) = ground arith
IsEntitled-may_release now o e (to_sender d w t) = ground arith
IsEntitled-may_release now o e (expired d x w) = ground arith

-- The guards on `who` and `receiver` let pass exactly those who are entitled.
pub may_release_iff :
    (now : ℕ) (o : EscrowRelease) (e : EscrowObject)
    → (may_release now o e ≡ some tt) ↔ IsEntitled now o.who o.beneficiary e
may_release_iff now o e = (may_release-IsEntitled now o e, IsEntitled-may_release now o e)

-- A release goes through only from an escrow that both sides have approved, to its sender or its
-- receiver, by one who is entitled to give it, and of no more than the escrow holds.
pub escrow_release-IsReleasable :
    (o : EscrowRelease) (l l' : Ledger)
    → escrow_release o l ≡ some l'
    → (e : EscrowObject) × (get_escrow o.sender o.escrow_id l ≡ some e) × IsReleasable o e l
unfolding escrow_release
escrow_release-IsReleasable o l l' h = elim (Option-cases (get_escrow o.sender o.escrow_id l)) [
  | inl f ↦ absurd (ground arith)
  | inr (e, f) ↦ (
    e,
    f,
    record {
      to_approved = ground arith;
      agent_approved = ground arith;
      to_party = ground arith;
      entitled = may_release-IsEntitled l.head_block_time o e (ground arith);
      enough = ground arith;
    },
  )
]

-- Once both sides have approved an escrow, nobody can approve or refuse it any more: its money
-- leaves it by a release only.
pub escrow_approve-closed :
    (o : EscrowApprove) (e : EscrowObject) (l : Ledger)
    → get_escrow o.sender o.escrow_id l ≡ some e
    → e.to_approved ≡ true
    → e.agent_approved ≡ true
    → (do validate_escrow_approve o; escrow_approve o l) ≡ none
unfolding validate_escrow_approve escrow_approve approve_by_to approve_by_agent
escrow_approve-closed o e l f a b = ground arith
