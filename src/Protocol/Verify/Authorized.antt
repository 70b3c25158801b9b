-- ===== src/Protocol/Verify/Authorized.antt =====
-- verify_authority against the authorities that a transaction requires.
use xgt.Base.{ℕ, ◌≡◌, refl, true, ◌&&◌, List, ◌⊎◌, inl, inr, arith, Bool-cases, has_id}
use xgt.Protocol.SignState.{is_empty}
use xgt.Protocol.SignState.Grants.{Approves, Satisfies}
use xgt.Protocol.SignState.Soundness.{start-Known, check_wallet-Known}
use xgt.Protocol.Verify.{
  Required, Requirements, Signing, verified, missing_social_auth, missing_other_auth,
  missing_money_auth, missing_recovery_auth, check_authority, check_each, social_context,
  money_context, social_start, money_start, check_social, check_money, check_recovery,
  verify_social, verify_money, verify_required, verify_authority, visit_all, nothing_required,
}
use xgt.Protocol.Verify.Loops.{
  Each, Finds, check_authority-Finds, or_check-Finds, check_each-Shows, and_then-Shows,
}

-- A wallet's social authority is there, or its money or recovery authority in place of it.
abbrev pub IsSocial : Signing → ℕ → Type 0
IsSocial g n =
    let c = social_context g in
    let s = social_start g in
    (Approves c s n ⊎ Satisfies c s (g.get_money n)) ⊎ Satisfies c s (g.get_recovery n)

abbrev pub IsMoney : Signing → ℕ → Type 0
IsMoney g n =
    let c = money_context g in
    let s = money_start g in Approves c s n ⊎ Satisfies c s (g.get_recovery n)

abbrev pub IsRecovery : Signing → ℕ → Type 0
IsRecovery g n =
    (has_id n g.recovery_approvals ≡ true)
    ⊎ Satisfies (money_context g) (money_start g) (g.get_recovery n)

-- All that a transaction requires, where social authorities are never mixed with others.
pub data IsAuthorized (g : Signing) (r : Required) : Type 0 where
  socially :
      is_empty r.money ≡ true
      → is_empty r.recovery ≡ true
      → is_empty r.other ≡ true
      → Each (IsSocial g) r.social
      → IsAuthorized g r
  by_money :
      is_empty r.social ≡ true
      → Each (Satisfies (money_context g) (money_start g)) r.other
      → Each (IsMoney g) r.money
      → Each (IsRecovery g) r.recovery
      → IsAuthorized g r

module _ (g : Signing) where
  check_social-Finds :
      (n : ℕ) → Finds (social_context g) (social_start g) (check_social g n) (IsSocial g n)
  unfolding check_social
  check_social-Finds n =
      let c = social_context g in
      let s = social_start g in
      or_check-Finds c s _ _
        (or_check-Finds c s _ _ (check_wallet-Known c s n)
          (check_authority-Finds c s (g.get_money n)))
        (check_authority-Finds c s (g.get_recovery n))

  check_money-Finds :
      (n : ℕ) → Finds (money_context g) (money_start g) (check_money g n) (IsMoney g n)
  unfolding check_money
  check_money-Finds n =
      let c = money_context g in
      let s = money_start g in
      or_check-Finds c s _ _ (check_wallet-Known c s n)
        (check_authority-Finds c s (g.get_recovery n))

  check_recovery-Finds :
      (n : ℕ) → Finds (money_context g) (money_start g) (check_recovery g n) (IsRecovery g n)
  unfolding check_recovery
  check_recovery-Finds n s known = elim (Bool-cases (has_id n g.recovery_approvals)) [
    | inl h ↦ rw h (known, λ x. inl refl)
    | inr h ↦
        let (known', found) =
          check_authority-Finds (money_context g) (money_start g) (g.get_recovery n) s known in
        rw h (known', λ yes. inr (found yes))
  ]

  verify_social-IsAuthorized : (r : Required) → verify_social g r ≡ verified → IsAuthorized g r
  unfolding verify_social
  verify_social-IsAuthorized r h =
      elim (Bool-cases (is_empty r.money && is_empty r.recovery && is_empty r.other)) [
        | inl alone ↦ socially (ground arith) (ground arith) (ground arith) (
            (check_each-Shows (social_context g) (social_start g) (IsSocial g) (check_social g)
                missing_social_auth (λ n e. ground arith) check_social-Finds r.social
                (social_start g) (start-Known (social_context g) (social_start g))).1
              (ground arith))
        | inr mixed ↦ absurd (ground arith)
      ]

  verify_money-IsAuthorized :
      (r : Required) → is_empty r.social ≡ true → verify_money g r ≡ verified → IsAuthorized g r
  unfolding verify_money
  verify_money-IsAuthorized r none_social h =
      let c = money_context g in
      let s = money_start g in
      let others =
        check_each-Shows c s (Satisfies c s) (check_authority c) missing_other_auth
          (λ a e. ground arith) (check_authority-Finds c s) r.other s (start-Known c s) in
      let moneys =
        and_then-Shows c s _ (check_each (check_money g) missing_money_auth r.money) others (
          check_each-Shows c s (IsMoney g) (check_money g) missing_money_auth (λ a e. ground arith)
            check_money-Finds r.money) in
      let all =
        and_then-Shows c s _ (check_each (check_recovery g) missing_recovery_auth r.recovery) moneys
          (check_each-Shows c s (IsRecovery g) (check_recovery g) missing_recovery_auth
            (λ a e. ground arith) check_recovery-Finds r.recovery) in
      let ((other, money), recovery) = all.1 h in by_money none_social other money recovery

  pub verify_required-IsAuthorized :
      (r : Required) → verify_required g r ≡ verified → IsAuthorized g r
  unfolding verify_required
  verify_required-IsAuthorized r h = elim (Bool-cases (is_empty r.social)) [
    | inl none_social ↦ verify_money-IsAuthorized r none_social (ground arith)
    | inr some_social ↦ verify_social-IsAuthorized r (ground arith)
  ]

pub verify_authority-IsAuthorized {ℓ} :
    {Operation : Type ℓ} (m : Requirements Operation) (g : Signing) (os : List Operation)
    → verify_authority m g os ≡ verified
    → IsAuthorized g (visit_all m os nothing_required)
unfolding verify_authority
verify_authority-IsAuthorized m g os h =
    verify_required-IsAuthorized g (visit_all m os nothing_required) h
