-- ===== src/Protocol/Verify.antt =====
-- libraries/protocol/include/xgt/protocol/transaction_util.hpp and operation_util.hpp: whether the
-- signatures of a transaction satisfy every authority that its operations require. The argument
-- `allow_committe` is not used there.
pub mod Loops
pub mod Authorized
use xgt.Base.{ℕ, Bool, true, List, [], ◌∷◌, has_id, insert_id, if◌then◌else◌, ◌==◌, ltb, ◌&&◌}
use xgt.Protocol.Authority.{Authority}
use xgt.Protocol.SignState.{
  SignContext, SignState, sign_state, check_authority_impl, check_wallet, is_empty,
}

-- `flat_set::insert`, in order.
unfoldable pub insert_sorted : ℕ → List ℕ → List ℕ
insert_sorted i [] = i ∷ []
insert_sorted i (j ∷ js) =
    if i == j then j ∷ js else if ltb i j then i ∷ j ∷ js else j ∷ insert_sorted i js

-- The four references that `get_required_auth_visitor` fills.
pub record Required : Type 0 where
  pub money : List ℕ
  pub recovery : List ℕ
  pub social : List ℕ
  pub other : List Authority

abbrev pub nothing_required : Required
nothing_required = record { money = []; recovery = []; social = []; other = [] }

-- What an operation type has to say, each as the method that adds to a set.
pub record Requirements {ℓ} (Operation : Type ℓ) : Type ℓ where
  pub get_required_money_authorities : Operation → List ℕ → List ℕ
  pub get_required_recovery_authorities : Operation → List ℕ → List ℕ
  pub get_required_social_authorities : Operation → List ℕ → List ℕ
  pub get_required_authorities : Operation → List Authority → List Authority

-- `get_required_auth_visitor::operator()` and the loop that applies it to each operation.
module _ {ℓ} {Operation : Type ℓ} (m : Requirements Operation) where
  unfoldable pub visit : Required → Operation → Required
  visit r o = record {
    money = m.get_required_money_authorities o r.money;
    recovery = m.get_required_recovery_authorities o r.recovery;
    social = m.get_required_social_authorities o r.social;
    other = m.get_required_authorities o r.other;
  }

  unfoldable pub visit_all : List Operation → Required → Required
  unfolding visit
  visit_all [] r = r
  visit_all (o ∷ os) r = visit_all os (visit r o)

-- The arguments of verify_authority after the first.
pub record Signing : Type 0 where
  pub sigs : List ℕ
  pub get_money : ℕ → Authority
  pub get_recovery : ℕ → Authority
  pub get_social : ℕ → Authority
  pub max_recursion_depth : ℕ
  pub max_membership : ℕ
  pub max_wallet_auths : ℕ
  pub money_approvals : List ℕ
  pub recovery_approvals : List ℕ
  pub social_approvals : List ℕ
  -- The wallet that always approves.
  pub temp : ℕ

-- The function returns or throws.
pub data Verdict : Type 0 where
  verified : Verdict
  assert_failed : Verdict
  missing_social_auth : ℕ → Verdict
  missing_other_auth : Authority → Verdict
  missing_money_auth : ℕ → Verdict
  missing_recovery_auth : ℕ → Verdict

-- What reads and marks signatures.
abbrev pub Check : Type 0
Check = SignState → Bool × SignState

-- `check_authority( const authority& )` with its default arguments.
unfoldable pub check_authority : SignContext → Authority → Check
check_authority c a s =
    check_authority_impl c c.max_recursion a (record s { account_auth_count = 0 })

-- `||`
unfoldable pub or_check : Check → Check → Check
or_check f g s = let (ok, s') = f s in if ok then (true, s') else g s'

-- `for( ... ) XGT_ASSERT( check, missing )`
unfoldable pub check_each {ℓ} :
    {A : Type ℓ} → (A → Check) → (A → Verdict) → List A → SignState → Verdict × SignState
check_each check missing [] s = (verified, s)
check_each check missing (a ∷ rest) s =
    let (ok, s') = check a s in
    let next = check_each check missing rest s' in if ok then next else (missing a, s')

unfoldable pub and_then :
    Verdict × SignState → (SignState → Verdict × SignState) → Verdict × SignState
and_then (verified, s) next = next s
and_then (thrown, s) next = (thrown, s)

-- `s.approved_by.insert( id )` for each.
unfoldable pub approve_all : List ℕ → SignState → SignState
approve_all [] s = s
approve_all (n ∷ ns) s = approve_all ns (record s { approved_by = insert_id n s.approved_by })

abbrev pub sign_context : Signing → (ℕ → Authority) → SignContext
sign_context g get = record {
  get_money = get;
  available_keys = [];
  max_recursion = g.max_recursion_depth;
  max_membership = g.max_membership;
  max_wallet_auths = g.max_wallet_auths;
}

-- In the social branch, wallets among the members are asked for their social authority.
abbrev pub social_context : Signing → SignContext
social_context g = sign_context g g.get_social

abbrev pub money_context : Signing → SignContext
money_context g = sign_context g g.get_money

unfoldable pub social_start : Signing → SignState
social_start g = approve_all g.social_approvals (sign_state g.sigs g.temp)

unfoldable pub money_start : Signing → SignState
money_start g =
    approve_all g.recovery_approvals (approve_all g.money_approvals (sign_state g.sigs g.temp))

unfoldable pub check_social : Signing → ℕ → Check
unfolding or_check check_authority
check_social g n =
    let c = social_context g in
    or_check (or_check (check_wallet c n) (check_authority c (g.get_money n)))
      (check_authority c (g.get_recovery n))

unfoldable pub check_money : Signing → ℕ → Check
unfolding or_check check_authority
check_money g n =
    let c = money_context g in or_check (check_wallet c n) (check_authority c (g.get_recovery n))

unfoldable pub check_recovery : Signing → ℕ → Check
unfolding check_authority
check_recovery g n s =
    if has_id n g.recovery_approvals
    then (true, s)
    else check_authority (money_context g) (g.get_recovery n) s

unfoldable pub verify_social : Signing → Required → Verdict
unfolding check_each check_social
verify_social g r =
    if is_empty r.money && is_empty r.recovery && is_empty r.other
    then (check_each (check_social g) missing_social_auth r.social (social_start g)).0
    else assert_failed

unfoldable pub verify_money : Signing → Required → Verdict
unfolding check_each and_then check_money check_recovery
verify_money g r =
    (and_then
      (and_then
        (check_each (check_authority (money_context g)) missing_other_auth r.other (money_start g))
        (check_each (check_money g) missing_money_auth r.money))
      (check_each (check_recovery g) missing_recovery_auth r.recovery)).0

unfoldable pub verify_required : Signing → Required → Verdict
unfolding verify_social verify_money
verify_required g r = if is_empty r.social then verify_money g r else verify_social g r

unfoldable pub verify_authority {ℓ} :
    {Operation : Type ℓ} → Requirements Operation → Signing → List Operation → Verdict
unfolding verify_required
verify_authority m g os = verify_required g (visit_all m os nothing_required)
