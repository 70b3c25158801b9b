-- ===== src/Ledger/Approval.antt =====
-- escrow_approve of xgt_evaluator.cpp: soundness of the ledger, and its sums.
use xgt.Base.{
  ◌≡◌, refl, subst, sym, ap, ◌∙◌, false, ◌&&◌, some, arith, Option-cases, Bool-cases, inl, inr,
}
use xgt.Base.Int.{pos, int_laws}
use xgt.Base.Tables.{find_by, All-find_by, find_by-replace_by_self, replace_by, replace_by_twice}
use xgt.Ledger.{EscrowObject, Ledger, adjust_balance}
use xgt.Ledger.Escrow.{
  by_from_id, get_escrow, set_escrow, pay_agent, EscrowApprove, escrow_approve, approve_by_to,
  approve_by_agent, settle,
}
use xgt.Ledger.Conservation.{
  escrowed, IsEscrowSound, IsSound, Conserves, Conserves-trans, adjust_balance-Pays, Pays,
  set_escrow-Conserves, pay_and_set-Conserves,
}
use xgt.Ledger.Payments.{refund-Conserves}
use xgt.Ledger.Settlement.{found_by_key}

-- An escrow that is not fully approved may hold any fee.
unsettled :
    (e e' : EscrowObject)
    → IsEscrowSound e
    → e'.xgt_balance ≡ e.xgt_balance
    → e'.pending_fee ≡ e.pending_fee
    → (e'.to_approved && e'.agent_approved) ≡ false
    → IsEscrowSound e'
unsettled e e' s b p pending = record {
  balance_xgt = rw b s.balance_xgt;
  fee_xgt = rw p s.fee_xgt;
  balance_nonneg = rw b s.balance_nonneg;
  fee_nonneg = rw p s.fee_nonneg;
  settled = λ h. absurd (ground arith);
}

-- The two blocks of an approval change the flags only.
pub record Ticked (e e' : EscrowObject) : Type 0 where
  pub sender_same : e'.sender ≡ e.sender
  pub id_same : e'.escrow_id ≡ e.escrow_id
  pub balance_same : e'.xgt_balance ≡ e.xgt_balance
  pub fee_same : e'.pending_fee ≡ e.pending_fee

pub approve_by_to-Ticked :
    (o : EscrowApprove) (e e' : EscrowObject) → approve_by_to o e ≡ some e' → Ticked e e'
unfolding approve_by_to
approve_by_to-Ticked o e e' h = record {
  sender_same = ground arith;
  id_same = ground arith;
  balance_same = ground arith;
  fee_same = ground arith;
}

pub approve_by_agent-Ticked :
    (o : EscrowApprove) (e e' : EscrowObject) → approve_by_agent o e ≡ some e' → Ticked e e'
unfolding approve_by_agent
approve_by_agent-Ticked o e e' h = record {
  sender_same = ground arith;
  id_same = ground arith;
  balance_same = ground arith;
  fee_same = ground arith;
}

-- A refusal of an escrow.
settled_still :
    (e e' : EscrowObject)
    → IsEscrowSound e
    → Ticked e e'
    → e'.to_approved ≡ e.to_approved
    → e'.agent_approved ≡ e.agent_approved
    → IsEscrowSound e'
settled_still e e' s t a b = record {
  balance_xgt = rw t.balance_same s.balance_xgt;
  fee_xgt = rw t.fee_same s.fee_xgt;
  balance_nonneg = rw t.balance_same s.balance_nonneg;
  fee_nonneg = rw t.fee_same s.fee_nonneg;
  settled = rw (a, b, t.fee_same) s.settled;
}

-- The second approval: the escrow is written with both flags, and again with its fee paid.
second_approval-Conserves :
    (e e' : EscrowObject) (l l' : Ledger)
    → IsSound l
    → find_by (by_from_id e'.sender e'.escrow_id) l.escrows ≡ some e
    → Ticked e e'
    → pay_agent e' (set_escrow e' l) ≡ some l'
    → Conserves l l'
unfolding pay_agent set_escrow
second_approval-Conserves e e' l l' s f t h =
    let m = set_escrow e' l in
    let test = by_from_id e'.sender e'.escrow_id in
    elim (Option-cases (adjust_balance e'.agent e'.pending_fee m)) [
      | inl g ↦ absurd (ground arith)
      | inr (n, g) ↦
          let good = All-find_by IsEscrowSound _ e l.escrows s.escrows_sound f in
          let paid =
            adjust_balance-Pays e'.agent e'.pending_fee m n (rw t.fee_same good.fee_xgt) g in
          let done : EscrowObject = record e' {
            pending_fee = record { amount = pos 0; symbol = e'.pending_fee.symbol };
          } in
          let n' : Ledger = record n { escrows = l.escrows } in
          let paid' : Pays e'.pending_fee.amount l n' = record {
            paid = paid.paid;
            xtt = paid.xtt;
            escrows_same = refl;
            time_same = paid.time_same;
            funded = paid.funded;
          } in
          let twice : replace_by test done n.escrows ≡ replace_by test done l.escrows =
            ap (replace_by test done) paid.escrows_same
            ∙ replace_by_twice test done e' l.escrows (ground arith) in
          subst (Conserves l) {x = set_escrow done n'}
            (ap (λ es. record n { escrows = es }) (sym twice) ∙ ground arith)
            (pay_and_set-Conserves e'.pending_fee.amount e done l n' paid' s f
              (record {
                balance_xgt = rw t.balance_same good.balance_xgt;
                fee_xgt = rw t.fee_same good.fee_xgt;
                balance_nonneg = rw t.balance_same good.balance_nonneg;
                fee_nonneg = omega arith;
                settled = λ b. refl;
              })
              (rw (t.balance_same, t.fee_same) (omega int_laws)))
    ]

pub Ticked-trans : (a b c : EscrowObject) → Ticked a b → Ticked b c → Ticked a c
Ticked-trans a b c t u = record {
  sender_same = u.sender_same ∙ t.sender_same;
  id_same = u.id_same ∙ t.id_same;
  balance_same = u.balance_same ∙ t.balance_same;
  fee_same = u.fee_same ∙ t.fee_same;
}

-- With a refusal the flags stay.
approvals_refused :
    (o : EscrowApprove) (e e' e'' : EscrowObject)
    → o.approve ≡ false
    → approve_by_to o e ≡ some e'
    → approve_by_agent o e' ≡ some e''
    → (e''.to_approved ≡ e.to_approved) × (e''.agent_approved ≡ e.agent_approved)
unfolding approve_by_to approve_by_agent
approvals_refused o e e' e'' n h k = ground arith

settle-Conserves :
    (o : EscrowApprove) (e e' : EscrowObject) (l l' : Ledger)
    → IsSound l
    → find_by (by_from_id e.sender e.escrow_id) l.escrows ≡ some e
    → Ticked e e'
    → (o.approve ≡ false → IsEscrowSound e')
    → settle o e' l ≡ some l'
    → Conserves l l'
unfolding settle set_escrow
settle-Conserves o e e' l l' s f t kept h =
    let test = by_from_id e'.sender e'.escrow_id in
    let key : find_by test l.escrows ≡ some e = rw (t.sender_same, t.id_same) f in
    let again : find_by test (set_escrow e' l).escrows ≡ some e' =
      find_by-replace_by_self test e' e l.escrows key (ground arith) in
    let same : escrowed e' ≡ escrowed e = rw (t.balance_same, t.fee_same) refl in
    let good = All-find_by IsEscrowSound _ e l.escrows s.escrows_sound f in
    elim (Bool-cases o.approve) [
      | inr refused ↦
          let first = set_escrow-Conserves e e' l s key (kept refused) same in
          Conserves-trans l (set_escrow e' l) l' first
            (refund-Conserves e' (set_escrow e' l) l' first.sound again (ground arith))
      | inl approved ↦ elim (Bool-cases (e'.to_approved && e'.agent_approved)) [
        | inl both ↦ second_approval-Conserves e e' l l' s key t (ground arith)
        | inr one ↦ subst (Conserves l) {x = set_escrow e' l} (ground arith) (
            set_escrow-Conserves e e' l s key (unsettled e e' good t.balance_same t.fee_same one)
              same)
      ]
    ]

pub escrow_approve-Conserves :
    (o : EscrowApprove) (l l' : Ledger) → IsSound l → escrow_approve o l ≡ some l' → Conserves l l'
unfolding escrow_approve get_escrow settle
escrow_approve-Conserves o l l' s h =
    elim (Option-cases (find_by (by_from_id o.sender o.escrow_id) l.escrows)) [
      | inl f ↦ absurd (ground arith)
      | inr (e, f) ↦ elim (Option-cases (approve_by_to o e)) [
        | inl g ↦ absurd (ground arith)
        | inr (e', g) ↦ elim (Option-cases (approve_by_agent o e')) [
          | inl k ↦ absurd (ground arith)
          | inr (e'', k) ↦
              let t =
                Ticked-trans e e' e'' (approve_by_to-Ticked o e e' g)
                  (approve_by_agent-Ticked o e' e'' k) in
              let good = All-find_by IsEscrowSound _ e l.escrows s.escrows_sound f in
              settle-Conserves o e e'' l l' s (found_by_key _ _ e l f).0 t
                (λ n.
                  let flags = approvals_refused o e e' e'' n g k in
                  settled_still e e'' good t flags.0 flags.1)
                (ground arith)
        ]
      ]
    ]
