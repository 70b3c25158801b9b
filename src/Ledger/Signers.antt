-- ===== src/Ledger/Signers.antt =====
-- What each operation on money requires: libraries/protocol/include/xgt/protocol/xgt_operations.hpp,
-- get_required_money_authorities; base.hpp has the other three, which add nothing.
mod Tests
use xgt.Base.{
  ℕ, ◌≡◌, refl, subst, sym, Bool, true, false, ◌||◌, some, List, [], ◌∷◌, ◌==◌, ==_iff, ◌⊎◌, inl,
  inr, has_id, arith, if◌then◌else◌, ltb, Bool-cases, Option-cases,
}
use xgt.Base.Int.{◌≤ℤ◌}
use xgt.Protocol.SignState.{is_empty}
use xgt.Protocol.Verify.{
  Required, Requirements, Signing, verified, insert_sorted, visit, visit_all, nothing_required,
  verify_authority,
}
use xgt.Protocol.Verify.Loops.{Each}
use xgt.Protocol.Verify.Authorized.{
  IsMoney, IsAuthorized, socially, by_money, verify_authority-IsAuthorized,
}
use xgt.Ledger.{Ledger}
use xgt.Ledger.Conservation.{IsSound}
use xgt.Ledger.Operations.{Operation, evaluate, evaluate_all, evaluate-Conserves}
use xgt.Ledger.Spending.{Keeps, Keeps-trans, Keeps-balance_at, same_balances-Keeps, balance_at}
use xgt.Ledger.Outlays.{signer, evaluate-Keeps}

unfoldable pub requirements : Requirements Operation
unfolding signer insert_sorted
requirements = record {
  get_required_money_authorities = λ o ns. insert_sorted (signer o) ns;
  get_required_recovery_authorities = λ o ns. ns;
  get_required_social_authorities = λ o ns. ns;
  get_required_authorities = λ o auths. auths;
}

has_id-insert_sorted :
    (i k : ℕ) (js : List ℕ) → has_id i (insert_sorted k js) ≡ (i == k || has_id i js)
unfolding insert_sorted
has_id-insert_sorted i k [] = ground arith
has_id-insert_sorted i k (j ∷ js) = ground (arith, has_id-insert_sorted i k js)

requires_more :
    (n : ℕ) (os : List Operation) (r : Required)
    → has_id n (visit_all requirements os r).money ≡ false
    → has_id n r.money ≡ false
unfolding visit_all visit requirements
requires_more n [] r h = h
requires_more n (o ∷ os) r h =
    let later = requires_more n os (visit requirements r o) h in
    ground (arith, has_id-insert_sorted n (signer o) r.money)

not_signer :
    (n : ℕ) (o : Operation) (os : List Operation) (r : Required)
    → has_id n (visit_all requirements (o ∷ os) r).money ≡ false
    → (n == signer o) ≡ false
unfolding visit_all visit requirements
not_signer n o os r h =
    let later = requires_more n os (visit requirements r o) h in
    ground (arith, has_id-insert_sorted n (signer o) r.money)

-- No wallet pays whose money authority is not required.
evaluate_all-Keeps :
    (n : ℕ) (os : List Operation) (r : Required) (l l' : Ledger)
    → IsSound l
    → evaluate_all os l ≡ some l'
    → has_id n (visit_all requirements os r).money ≡ false
    → Keeps n l l'
unfolding evaluate_all visit_all
evaluate_all-Keeps n [] r l l' s h other = same_balances-Keeps n l l' (ground arith) (ground arith)
evaluate_all-Keeps n (o ∷ os) r l l' s h other = elim (Option-cases (evaluate o l)) [
  | inl e ↦ absurd (ground arith)
  | inr (m, e) ↦ Keeps-trans n l m l' (evaluate-Keeps n o l m s e (not_signer n o os r other)) (
      evaluate_all-Keeps n os (visit requirements r o) m l' (evaluate-Conserves o l m s e).sound
        (ground arith) other)
]

Each-member : (P : ℕ → Type 0) (n : ℕ) (ns : List ℕ) → Each P ns → has_id n ns ≡ true → P n
Each-member P n [] all h = absurd (ground arith)
Each-member P n (k ∷ ns) all h = elim (Bool-cases (n == k)) [
  | inl same ↦ subst P (sym ((==_iff n k).0 same)) all.0
  | inr other ↦ Each-member P n ns all.1 (ground arith)
]

empty-has_id : (n : ℕ) (ns : List ℕ) → is_empty ns ≡ true → has_id n ns ≡ false
empty-has_id n [] h = refl
empty-has_id n (k ∷ ns) h = absurd (ground arith)

required-IsMoney :
    (g : Signing) (r : Required) (n : ℕ) → IsAuthorized g r → has_id n r.money ≡ true → IsMoney g n
required-IsMoney g r n (socially no_money no_recovery no_other all) h =
    let empty = empty-has_id n r.money no_money in absurd (ground arith)
required-IsMoney g r n (by_money no_social other money recovery) h =
    Each-member (IsMoney g) n r.money money h

-- If a transaction of transfers and escrow operations passes verify_authority and goes through on a
-- sound ledger, then for each wallet, either no balance of it has fallen, in XGT or in any token; or
-- it is `temp` or in the caller's lists of money and recovery approvals, which need no signature; or
-- its money or its recovery authority is satisfied by the keys that signed, together with wallets
-- that approve in the same two ways.
pub verify_authority-protects :
    (g : Signing) (os : List Operation) (l l' : Ledger) (n s : ℕ)
    → IsSound l
    → verify_authority requirements g os ≡ verified
    → evaluate_all os l ≡ some l'
    → (balance_at n s l ≤ℤ balance_at n s l') ⊎ IsMoney g n
verify_authority-protects g os l l' n s sound v h =
    let r = visit_all requirements os nothing_required in
    elim (Bool-cases (has_id n r.money)) [
      | inl required ↦
          inr (required-IsMoney g r n (verify_authority-IsAuthorized requirements g os v) required)
      | inr other ↦
          inl (
            Keeps-balance_at n s l l' (evaluate_all-Keeps n os nothing_required l l' sound h other))
    ]
