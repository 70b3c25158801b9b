-- ===== src/Protocol/SignState.antt =====
-- libraries/protocol/sign_state.cpp: whether the signatures of a transaction satisfy an authority.
-- Keys and wallet names are numbers. The recursion is on the levels that are left, which are
-- max_recursion at depth 0, so it ends by itself.
pub mod Grants
pub mod Soundness
pub mod Unused
mod Tests
use xgt.Base.{
  ℕ, zero, suc, ◌+◌, ◌%◌, ◌^◌, Bool, true, false, not, ◌&&◌, Option, none, some, List, [], ◌∷◌, leb,
  ltb, is_some, if◌then◌else◌, Map, find, put, erase, has_id, insert_id,
}
use xgt.Protocol.Authority.{Authority}

-- `remove_sigs`
abbrev pub unused_keys : Map Bool → List ℕ
unused_keys [] = []
unused_keys ((k, used) ∷ m) = if used then unused_keys m else k ∷ unused_keys m

abbrev pub is_empty {ℓ} : {A : Type ℓ} → List A → Bool
is_empty [] = true
is_empty (k ∷ ks) = false

-- The fields of `sign_state` that a check does not change.
pub record SignContext : Type 0 where
  pub get_money : ℕ → Authority
  pub available_keys : List ℕ
  pub max_recursion : ℕ
  pub max_membership : ℕ
  pub max_wallet_auths : ℕ

-- Those that it does, and `*account_auth_count`.
pub record SignState : Type 0 where
  pub provided_signatures : Map Bool
  pub approved_by : List ℕ
  pub account_auth_count : ℕ

unfoldable pub signed_by : SignContext → ℕ → SignState → Bool × SignState
signed_by c k s = elim (find k s.provided_signatures) [
  | none ↦
      if has_id k c.available_keys
      then (true, record s { provided_signatures = put k true s.provided_signatures })
      else (false, s)
  | some used ↦ (true, record s { provided_signatures = put k true s.provided_signatures })
]

-- A loop that returned from the function, or came to its end with a weight and a membership.
pub data Progress : Type 0 where
  returned : Bool → Progress
  goes_on : ℕ → ℕ → Progress

-- A limit on a counter; the limit 0 is none.
abbrev pub is_reached : ℕ → ℕ → Bool
is_reached limit n = ltb 0 limit && leb limit n

-- `total_weight += w` of a uint32_t.
abbrev pub add_weight : ℕ → ℕ → ℕ
add_weight total w = (total + w) % 2 ^ 32

-- The end of a loop's body: the threshold is met, the limit on members is reached, or `rest`.
unfoldable pub next_member :
    SignContext → ℕ → Bool → ℕ → ℕ → SignState → Progress × SignState → Progress × SignState
next_member c threshold granted total membership s rest =
    if granted && leb threshold total
    then (returned true, s)
    else if is_reached c.max_membership membership
    then (returned false, s)
    else rest

unfoldable pub check_keys : SignContext → ℕ → Map ℕ → ℕ → ℕ → SignState → Progress × SignState
unfolding signed_by next_member
check_keys c threshold [] total membership s = (goes_on total membership, s)
check_keys c threshold ((k, w) ∷ ks) total membership s =
    let (ok, s') = signed_by c k s in
    let total' = if ok then add_weight total w else total in
    next_member c threshold ok total' (suc membership) s'
      (check_keys c threshold ks total' (suc membership) s')

-- The call of check_authority_impl one level down; at the last level there is none.
abbrev pub Deeper : Type 0
Deeper = Option (Authority → SignState → Bool × SignState)

-- What the loop does with a wallet that has not approved yet: whether to go on with it, and whether
-- it approves.
pub data Answer : Type 0 where
  skipped : Answer
  gives_up : Answer
  answered : Bool → Answer

unfoldable pub ask : SignContext → Deeper → ℕ → SignState → Answer × SignState
ask c none n s = (if has_id n s.approved_by then answered true else skipped, s)
ask c (some check) n s =
    if has_id n s.approved_by
    then (answered true, s)
    else if is_reached c.max_wallet_auths s.account_auth_count
    then (gives_up, s)
    else let (ok, s') =
        check (c.get_money n)
          (record s { account_auth_count = (s.account_auth_count + 1) % 2 ^ 32 }) in
      (answered ok, if ok then record s' { approved_by = insert_id n s'.approved_by } else s')

unfoldable pub check_wallets :
    SignContext → Deeper → ℕ → Map ℕ → ℕ → ℕ → SignState → Progress × SignState
unfolding ask next_member
check_wallets c deeper threshold [] total membership s = (goes_on total membership, s)
check_wallets c deeper threshold ((n, w) ∷ ns) total membership s =
    let (answer, s') = ask c deeper n s in
    elim answer [
      | skipped ↦ check_wallets c deeper threshold ns total membership s'
      | gives_up ↦ (returned false, s')
      | answered ok ↦
          let total' = if ok then add_weight total w else total in
          next_member c threshold ok total' (suc membership) s'
            (check_wallets c deeper threshold ns total' (suc membership) s')
    ]

unfoldable pub check_members : SignContext → Deeper → Authority → SignState → Bool × SignState
unfolding check_keys check_wallets
check_members c deeper auth s =
    let (keys, s') = check_keys c auth.weight_threshold auth.key_auths 0 0 s in
    elim keys [
      | returned b ↦ (b, s')
      | goes_on total membership ↦
          let (wallets, s'') =
            check_wallets c deeper auth.weight_threshold auth.wallet_auths total membership s' in
          elim wallets [
            | returned b ↦ (b, s'')
            | goes_on total' membership' ↦ (leb auth.weight_threshold total', s'')
          ]
    ]

unfoldable pub check_authority_impl : SignContext → ℕ → Authority → SignState → Bool × SignState
unfolding check_members
check_authority_impl c zero auth s = check_members c none auth s
check_authority_impl c (suc levels) auth s =
    check_members c (some (check_authority_impl c levels)) auth s

-- `check_authority( string id )`
unfoldable pub check_wallet : SignContext → ℕ → SignState → Bool × SignState
unfolding check_authority_impl
check_wallet c n s =
    if has_id n s.approved_by
    then (true, s)
    else check_authority_impl c c.max_recursion (c.get_money n)
        (record s { account_auth_count = 1 })

-- Every signature at first, with none used.
abbrev unused_signatures : List ℕ → Map Bool
unused_signatures [] = []
unused_signatures (k ∷ ks) = put k false (unused_signatures ks)

-- The constructor, where `temp` is the wallet that always approves.
unfoldable pub sign_state : List ℕ → ℕ → SignState
sign_state sigs temp = record {
  provided_signatures = unused_signatures sigs;
  approved_by = temp ∷ [];
  account_auth_count = 0;
}

abbrev pub erase_all : List ℕ → Map Bool → Map Bool
erase_all [] m = m
erase_all (k ∷ ks) m = erase_all ks (erase k m)

-- The keys whose signatures no check has used go; the answer is whether there were any.
unfoldable pub remove_unused_signatures : SignState → Bool × SignState
remove_unused_signatures s =
    let unused = unused_keys s.provided_signatures in
    (
      not (is_empty unused),
      record s { provided_signatures = erase_all unused s.provided_signatures },
    )
