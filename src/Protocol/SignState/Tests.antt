-- ===== src/Protocol/SignState/Tests.antt =====
-- A wallet that two others sign for, and the theorems on it.
use xgt.Base.{
  ℕ, ◌≡◌, refl, true, false, [], ◌∷◌, find, put, insert, assign, Distinct, ◌==◌, if◌then◌else◌,
}
use xgt.Protocol.Authority.{Authority}
use xgt.Protocol.SignState.{
  SignContext, SignState, sign_state, check_wallet, remove_unused_signatures,
}
use xgt.Protocol.SignState.Grants.{Approves}
use xgt.Protocol.SignState.Soundness.{check_wallet-Approves}
use xgt.Protocol.SignState.Unused.{used_only, is_unused, remove_unused_signatures-Used}

abbrev money : ℕ → Authority
money n =
    if n == 1
    then record { weight_threshold = 2; wallet_auths = (2, 1) ∷ (3, 1) ∷ []; key_auths = [] }
    else if n == 2
    then record { weight_threshold = 1; wallet_auths = []; key_auths = (20, 1) ∷ [] }
    else record { weight_threshold = 1; wallet_auths = []; key_auths = (30, 1) ∷ [] }

abbrev context : SignContext
context = record {
  get_money = money;
  available_keys = [];
  max_recursion = 2;
  max_membership = 10;
  max_wallet_auths = 10;
}

abbrev start : SignState
start = record {
  provided_signatures = (20, false) ∷ (30, false) ∷ (40, false) ∷ [];
  approved_by = 0 ∷ [];
  account_auth_count = 0;
}

abbrev checked : SignState
checked = record {
  provided_signatures = (20, true) ∷ (30, true) ∷ (40, false) ∷ [];
  approved_by = 3 ∷ 2 ∷ 0 ∷ [];
  account_auth_count = 3;
}

built : sign_state (40 ∷ 30 ∷ 20 ∷ []) 0 ≡ start
unfolding sign_state put insert find assign
built = refl

run-check : check_wallet context 1 start ≡ (true, checked)
unfolding check_wallet find put assign
run-check = refl

-- With no level below the first, nobody is asked.
run-flat : (check_wallet (record context { max_recursion = 0 }) 1 start).0 ≡ false
unfolding check_wallet find put assign
run-flat = refl

run-yes : (check_wallet context 1 start).0 ≡ true
unfolding check_wallet find put assign
run-yes = refl

check_wallet-Approves_example : Approves context start 1
check_wallet-Approves_example = check_wallet-Approves context start 1 run-yes

checked-Distinct : Distinct checked.provided_signatures
unfolding find
checked-Distinct = (refl, (refl, (refl, tt)))

remove_unused_signatures-Used_example :
    ((k : ℕ)
      → find k (remove_unused_signatures checked).1.provided_signatures
        ≡ used_only (find k checked.provided_signatures))
    × ((remove_unused_signatures checked).0 ≡ false
        → (k : ℕ) → is_unused (find k checked.provided_signatures) ≡ false)
remove_unused_signatures-Used_example = remove_unused_signatures-Used checked checked-Distinct
