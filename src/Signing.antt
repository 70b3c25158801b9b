-- ===== src/Signing.antt =====
-- The checks on signatures of libraries/chain/database.cpp, _apply_transaction, with verify_authority
-- of libraries/protocol: what the interface Setting of Blocks leaves open, filled. The keys that
-- signed a transaction are a parameter. A name that has no authorities is looked up as one that no
-- signature satisfies, where the program throws, so that what the program accepts is accepted here.
mod Tests
use xgt.Base.{
  ℕ, ◌+◌, ◌%◌, ◌^◌, ◌≡◌, refl, sym, subst, ap, ◌∙◌, Bool, true, false, ◌&&◌, ◌||◌, Option, none,
  some, List, [], ◌∷◌, ◌++◌, map, ◌⊎◌, inl, inr, arith, has_id, is_some, find, Map, if◌then◌else◌,
  ◌>>=◌, ◌>>◌, Option-cases, Bool-cases, not, require,
}
use xgt.Base.Int.{◌≤ℤ◌}
use xgt.Base.Tables.{find_by}
use xgt.Protocol.Authority.{Authority, no_auths, add_key_authority}
use xgt.Protocol.Verify.{
  Required, Requirements, Signing, Verdict, verified, assert_failed, missing_social_auth,
  missing_other_auth, missing_money_auth, missing_recovery_auth, insert_sorted, visit, visit_all,
  nothing_required, verify_authority, verify_required, money_context, money_start, approve_all,
}
use xgt.Protocol.Verify.Authorized.{IsMoney}
use xgt.Protocol.SignState.{sign_state}
use xgt.Protocol.SignState.Grants.{Approves, at_start, by_members, Satisfies}
use xgt.Ledger.{AccountAuthority, Ledger}
use xgt.Ledger.Transfer.{by_account}
use xgt.Ledger.Conservation.{IsSound}
use xgt.Ledger.Operations
use xgt.Ledger.Operations.{evaluate_all}
use xgt.Ledger.Spending.{balance_at}
use xgt.Ledger.Signers.{requirements, verify_authority-protects}
use xgt.Database.{Database}
use xgt.Mining.{PowOperation}
use xgt.Blocks.{
  Operation, on_money, pow, Transaction, Setting, Skip, is_let_pass, remember, apply_operation,
  apply_operations, apply_transaction,
}

-- `get_required_money_authorities` of each operation; the others add nothing.
unfoldable pub required_money : Operation → List ℕ → List ℕ
unfolding requirements insert_sorted
required_money (on_money o) ns = requirements.get_required_money_authorities o ns
required_money (pow o) ns =
    if is_some o.new_recovery_key then ns else insert_sorted o.worker_account ns

-- `get_required_authorities`: a new recovery key signs by itself.
unfoldable pub required_authorities : Operation → List Authority → List Authority
unfolding add_key_authority
required_authorities (on_money o) auths = requirements.get_required_authorities o auths
required_authorities (pow o) auths = elim o.new_recovery_key [
  | none ↦ auths
  | some key ↦ auths ++ add_key_authority key 1 (no_auths 1) ∷ []
]

abbrev pub all_requirements : Requirements Operation
all_requirements = record {
  get_required_money_authorities = required_money;
  get_required_recovery_authorities = λ o ns. ns;
  get_required_social_authorities = λ o ns. ns;
  get_required_authorities = required_authorities;
}

-- `get_money` and its kin.
unfoldable pub authority_of : (AccountAuthority → Authority) → List AccountAuthority → ℕ → Authority
authority_of f table n = elim (find_by (by_account n) table) [ none ↦ no_auths 1 | some a ↦ f a ]

-- One of the keys of an authority is among those that signed.
abbrev pub has_key : List ℕ → Map ℕ → Bool
has_key keys [] = false
has_key keys ((k, w) ∷ rest) = has_id k keys || has_key keys rest

-- The loop over the operations: a proof of work is signed by a key of its worker.
unfoldable pub pows_are_signed : List ℕ → List AccountAuthority → List Operation → Bool
pows_are_signed keys table [] = true
pows_are_signed keys table (on_money o ∷ os) = pows_are_signed keys table os
pows_are_signed keys table (pow o ∷ os) =
    elim (find_by (by_account o.worker_account) table) [
      | none ↦ false
      | some a ↦ has_key keys a.money.key_auths || has_key keys a.recovery.key_auths
    ]
    && pows_are_signed keys table os

module _ (keys_of : Transaction → List ℕ) (temp : ℕ) where
  -- `XGT_MAX_SIG_CHECK_DEPTH`, `XGT_MAX_AUTHORITY_MEMBERSHIP`, `XGT_MAX_SIG_CHECK_WALLETS`
  abbrev pub signing : Transaction → List AccountAuthority → Signing
  signing t table = record {
    sigs = keys_of t;
    get_money = authority_of (λ a. a.money) table;
    get_recovery = authority_of (λ a. a.recovery) table;
    get_social = authority_of (λ a. a.social) table;
    max_recursion_depth = 2;
    max_membership = 40;
    max_wallet_auths = 125;
    money_approvals = [];
    recovery_approvals = [];
    social_approvals = [];
    temp = temp;
  }

  unfoldable pub authorize : Transaction → List AccountAuthority → Verdict
  unfolding pows_are_signed
  authorize t table =
      if pows_are_signed (keys_of t) table t.operations
      then verify_authority all_requirements (signing t table) t.operations
      else assert_failed

  abbrev pub with_checks : Setting → Setting
  with_checks st = record st { authorize = authorize }

  module _ (st : Setting) (skip : Skip) where
    money_operations :
        (os : List Operations.Operation) (d d' : Database)
        → apply_operations st skip (map on_money os) d ≡ some d'
        → evaluate_all os d.ledger ≡ some d'.ledger
    unfolding apply_operations apply_operation evaluate_all
    money_operations [] d d' h = ground arith
    money_operations (o ∷ os) d d' h = elim (Option-cases (Operations.evaluate o d.ledger)) [
      | inl e ↦ absurd (ground arith)
      | inr (l, e) ↦ rw e (money_operations os (record d { ledger = l }) d' (ground arith))
    ]

    let_pass-verified :
        (v : Verdict) (d : Database)
        → find ((d.properties.head_block_number + 1) % 2 ^ 32) st.shared_db_merkle ≡ none
        → is_let_pass st skip v d ≡ true
        → v ≡ verified
    unfolding is_let_pass
    let_pass-verified verified d f h = refl
    let_pass-verified (missing_money_auth n) d f h = absurd (ground arith)
    let_pass-verified assert_failed d f h = absurd (ground arith)
    let_pass-verified (missing_social_auth n) d f h = absurd (ground arith)
    let_pass-verified (missing_other_auth a) d f h = absurd (ground arith)
    let_pass-verified (missing_recovery_auth n) d f h = absurd (ground arith)

  visit_all-money :
      (os : List Operations.Operation) (r : Required)
      → visit_all all_requirements (map on_money os) r ≡ visit_all requirements os r
  unfolding visit_all visit required_money required_authorities requirements
  visit_all-money [] r = refl
  visit_all-money (o ∷ os) r = visit_all-money os (visit requirements r o)

  authorize-inv :
      (t : Transaction) (table : List AccountAuthority)
      → authorize t table ≡ verified
      → verify_authority all_requirements (signing t table) t.operations ≡ verified
  unfolding authorize
  authorize-inv t table h = elim (Bool-cases (pows_are_signed (keys_of t) table t.operations)) [
    | inl s ↦ ground arith
    | inr s ↦ absurd (ground arith)
  ]

  verify_authority-money :
      (g : Signing) (os : List Operations.Operation)
      → verify_authority all_requirements g (map on_money os) ≡ verify_authority requirements g os
  unfolding verify_authority
  verify_authority-money g os = ap (verify_required g) (visit_all-money os nothing_required)

  -- The wallet is `temp`, which needs no signature, or the keys that signed satisfy its money or its
  -- recovery authority, where `temp` may be among the wallets that approve.
  abbrev pub IsCovered : Transaction → List AccountAuthority → ℕ → Type 0
  IsCovered t table n =
      let g = signing t table in
      (n ≡ temp)
      ⊎ Satisfies (money_context g) (money_start g) (g.get_money n)
      ⊎ Satisfies (money_context g) (money_start g) (g.get_recovery n)

  IsMoney-IsCovered :
      (t : Transaction) (table : List AccountAuthority) (n : ℕ)
      → IsMoney (signing t table) n
      → IsCovered t table n
  unfolding money_start approve_all sign_state
  IsMoney-IsCovered t table n (inl (at_start h)) = inl (ground arith)
  IsMoney-IsCovered t table n (inl (by_members h)) = inr (inl h)
  IsMoney-IsCovered t table n (inr h) = inr (inr h)

  -- If a transaction of transfers and escrow operations goes through _apply_transaction on a sound
  -- ledger, with the check of authorities on and no entry for the next block in the table that lets
  -- missing authorities pass, then for each wallet, either no balance of it has fallen, in XGT or in
  -- any token; or it is the wallet `temp`, which needs no signature; or its money or its recovery
  -- authority is satisfied by the keys that signed, together with wallets that approve by `temp` or
  -- by their money authorities in the same way.
  pub apply_transaction-protects :
      (st : Setting) (skip : Skip) (t : Transaction) (os : List Operations.Operation)
      (d d' : Database) (n s : ℕ)
      → t.operations ≡ map on_money os
      → skip.authority_check ≡ false
      → find ((d.properties.head_block_number + 1) % 2 ^ 32) st.shared_db_merkle ≡ none
      → IsSound d.ledger
      → apply_transaction (with_checks st) skip t d ≡ some d'
      → (balance_at n s d.ledger ≤ℤ balance_at n s d'.ledger) ⊎ IsCovered t d.ledger.authorities n
  unfolding apply_transaction remember
  apply_transaction-protects st skip t os d d' n s e on table sound h =
      let passed : is_let_pass (with_checks st) skip (authorize t d.ledger.authorities) d ≡ true =
        ground arith in
      let ok = authorize-inv t d.ledger.authorities (
        let_pass-verified (with_checks st) skip (authorize t d.ledger.authorities) d table
          passed) in
      let g = signing t d.ledger.authorities in
      let m = remember (with_checks st) skip t d in
      let same : m.ledger ≡ d.ledger = ground arith in
      let ran : apply_operations (with_checks st) skip t.operations m ≡ some d' = ground arith in
      elim (verify_authority-protects g os d.ledger d'.ledger n s sound
        (sym (verify_authority-money g os)
          ∙ subst (λ l. verify_authority all_requirements g l ≡ verified) e ok)
        (subst (λ l. evaluate_all os l ≡ some d'.ledger) same
          (money_operations (with_checks st) skip os m d'
            (subst (λ l. apply_operations (with_checks st) skip l m ≡ some d') e ran)))) [
              | inl kept ↦ inl kept
              | inr money ↦ inr (IsMoney-IsCovered t d.ledger.authorities n money)
            ]
