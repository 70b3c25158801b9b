-- ===== src/Protocol/Verify/Loops.antt =====
-- What a check that may be followed by others has to keep, and what a loop of checks then gives.
use xgt.Base.{◌≡◌, refl, true, List, [], ◌∷◌, ◌≢◌, ◌⊎◌, inl, inr, arith, Bool-cases}
use xgt.Protocol.Authority.{Authority}
use xgt.Protocol.SignState.{SignContext, SignState}
use xgt.Protocol.SignState.Grants.{Satisfies}
use xgt.Protocol.SignState.Soundness.{Known, check_authority_impl-IsSound}
use xgt.Protocol.Verify.{Check, Verdict, verified, check_authority, or_check, check_each, and_then}

-- A property of each member of a list.
abbrev pub Each {ℓ} : {A : Type ℓ} → (A → Type 0) → List A → Type 0
Each P [] = Unit
Each P (a ∷ rest) = P a × Each P rest

module _ (c : SignContext) (start : SignState) where
  -- A check that says yes only where P holds, from any state that the checks before can leave.
  abbrev pub Finds : Check → Type 0 → Type 0
  Finds check P =
      (s : SignState) → Known c start s → Known c start (check s).1 × ((check s).0 ≡ true → P)

  -- A run of loops that came to its end only where P holds.
  abbrev pub Shows : Verdict × SignState → Type 0 → Type 0
  Shows r P = Known c start r.1 × (r.0 ≡ verified → P)

  pub check_authority-Finds : (a : Authority) → Finds (check_authority c a) (Satisfies c start a)
  unfolding check_authority
  check_authority-Finds a s known =
      check_authority_impl-IsSound c start c.max_recursion a (record s { account_auth_count = 0 })
        (record { keys = known.keys; wallets = known.wallets })

  pub or_check-Finds :
      {P Q : Type 0} (f g : Check) → Finds f P → Finds g Q → Finds (or_check f g) (P ⊎ Q)
  unfolding or_check
  or_check-Finds f g first second s known = elim (Bool-cases (f s).0) [
    | inl yes_first ↦ rw yes_first ((first s known).0, λ h. inl ((first s known).1 yes_first))
    | inr no_first ↦
        let (known', found) = second (f s).1 (first s known).0 in
        rw no_first (known', λ h. inr (found h))
  ]

  pub check_each-Shows {ℓ} :
      {A : Type ℓ} (P : A → Type 0) (check : A → Check) (missing : A → Verdict)
      → ((a : A) → missing a ≢ verified)
      → ((a : A) → Finds (check a) (P a))
      → (xs : List A) (s : SignState) → Known c start s
      → Shows (check_each check missing xs s) (Each P xs)
  unfolding check_each
  check_each-Shows P check missing throws finds [] s known = (known, λ h. tt)
  check_each-Shows P check missing throws finds (a ∷ rest) s known =
      let (known', found) = finds a s known in
      elim (Bool-cases (check a s).0) [
        | inl yes_found ↦
            let (after, others) =
              check_each-Shows P check missing throws finds rest (check a s).1 known' in
            rw yes_found (after, λ h. (found yes_found, others h))
        | inr no_found ↦ rw no_found (known', λ h. absurd (throws a h))
      ]

  pub and_then-Shows :
      {P Q : Type 0} (r : Verdict × SignState) (next : SignState → Verdict × SignState)
      → Shows r P
      → ((s : SignState) → Known c start s → Shows (next s) Q)
      → Shows (and_then r next) (P × Q)
  unfolding and_then
  and_then-Shows (verified, s) next (known, first) rest =
      let (after, second) = rest s known in (after, λ h. (first refl, second h))
  and_then-Shows (thrown, s) next (known, first) rest = (known, λ h. absurd (ground arith))
