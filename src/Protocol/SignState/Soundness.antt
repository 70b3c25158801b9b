-- ===== src/Protocol/SignState/Soundness.antt =====
-- The checks of sign_state.cpp against what it means that a wallet approves.
use xgt.Base.{
  ℕ, zero, suc, ◌+◌, ◌%◌, ◌^◌, ◌≤◌, ◌≡◌, refl, subst, sym, ap, Bool, true, false, none, some, [],
  ◌∷◌, Map, has_id, find, put, find-put, is_some, arith, leb, if◌then◌else◌, Bool-cases,
  Option-cases, inl, inr, has_id-insert_id, ◌==◌, ==_iff,
}
use xgt.Protocol.Authority.{Authority}
use xgt.Protocol.SignState.{
  SignContext, SignState, signed_by, Progress, returned, goes_on, is_reached, add_weight,
  next_member, check_keys, Deeper, Answer, skipped, gives_up, answered, ask, check_wallets,
  check_members, check_authority_impl, check_wallet,
}
use xgt.Protocol.SignState.Grants.{
  IsSigned, KeyWeight, none_left, leave, take, Approves, at_start, by_members, Satisfies, reaches,
  WalletWeight, no_wallets, leave_wallet, take_wallet, no_keys-KeyWeight, no_wallets-WalletWeight,
}

-- The weight that the end of a loop stands for.
abbrev earned : ℕ → Progress → ℕ
earned threshold (returned true) = threshold
earned threshold (returned false) = 0
earned threshold (goes_on total membership) = total

module _ (c : SignContext) (start : SignState) where
  -- What the state has taken up since the start is right.
  pub record Known (s : SignState) : Type 0 where
    pub keys : (k : ℕ) → is_some (find k s.provided_signatures) ≡ true → IsSigned c start k
    pub wallets : (n : ℕ) → has_id n s.approved_by ≡ true → Approves c start n

  -- A loop started with `total` ends in a state that is right, with a weight that it may count.
  record Earns (Weight : ℕ → Type 0) (threshold total : ℕ) (r : Progress × SignState) : Type 0 where
    known : Known r.1
    weight : ℕ
    counted : Weight weight
    bound : earned threshold r.0 ≤ total + weight

  mark-Known :
      (k : ℕ) (s : SignState)
      → Known s
      → IsSigned c start k
      → Known (record s { provided_signatures = put k true s.provided_signatures })
  mark-Known k s known signed = record {
    keys = λ i h. elim (Bool-cases (i == k)) [
      | inl same ↦ subst (IsSigned c start) (sym ((==_iff i k).0 same)) signed
      | inr other ↦ known.keys i (ground (arith, find-put i k true s.provided_signatures))
    ];
    wallets = known.wallets;
  }

  signed_by-Known :
      (k : ℕ) (s : SignState)
      → Known s
      → Known (signed_by c k s).1 × ((signed_by c k s).0 ≡ true → IsSigned c start k)
  unfolding signed_by
  signed_by-Known k s known =
      let fits = λ (r : Bool × SignState). Known r.1 × (r.0 ≡ true → IsSigned c start k) in
      let marked : SignState = record s {
        provided_signatures = put k true s.provided_signatures;
      } in
      elim (Option-cases (find k s.provided_signatures)) [
        | inl e ↦ elim (Bool-cases (has_id k c.available_keys)) [
          | inl h ↦
              let signed : IsSigned c start k = ground arith in
              subst fits {x = (true, marked)} (ground arith)
                (mark-Known k s known signed, λ x. signed)
          | inr h ↦ subst fits {x = (false, s)} (ground arith) (known, λ x. absurd (ground arith))
        ]
        | inr (b, e) ↦
            let signed = known.keys k (ap is_some e) in
            subst fits {x = (true, marked)} (ground arith)
              (mark-Known k s known signed, λ x. signed)
      ]

  add_weight-le : (total w : ℕ) → add_weight total w ≤ total + w
  add_weight-le total w = ground arith

  next_member-Earns :
      {Weight Weight' : ℕ → Type 0} (threshold total w membership : ℕ) (ok : Bool) (s : SignState)
      (rest : Progress × SignState)
      → Known s
      → Weight 0
      → ((t : ℕ) → Weight t → Weight' (if ok then w + t else t))
      → Weight' 0
      → Earns Weight threshold (if ok then add_weight total w else total) rest
      → Earns Weight' threshold total
          (next_member c threshold ok (if ok then add_weight total w else total) membership s rest)
  unfolding next_member
  next_member-Earns threshold total w membership true s rest known base grow base' e =
      elim (Bool-cases (leb threshold (add_weight total w))) [
        | inl met ↦ rw met (record {
          known = known;
          weight = w + 0;
          counted = grow 0 base;
          bound = let le = add_weight-le total w in ground arith;
        })
        | inr unmet ↦ elim (Bool-cases (is_reached c.max_membership membership)) [
          | inl stop ↦
              rw (unmet, stop)
                (record { known = known; weight = 0; counted = base'; bound = omega arith })
          | inr more ↦
              rw (unmet, more)
                (record {
                  known = e.known;
                  weight = w + e.weight;
                  counted = grow e.weight e.counted;
                  bound = let le = add_weight-le total w in let b = e.bound in omega (arith, le, b);
                })
        ]
      ]
  next_member-Earns threshold total w membership false s rest known base grow base' e =
      elim (Bool-cases (is_reached c.max_membership membership)) [
        | inl stop ↦
            rw stop (record { known = known; weight = 0; counted = base'; bound = omega arith })
        | inr more ↦ rw more (record {
          known = e.known;
          weight = e.weight;
          counted = grow e.weight e.counted;
          bound = e.bound;
        })
      ]

  check_keys-Earns :
      (threshold : ℕ) (ks : Map ℕ) (total membership : ℕ) (s : SignState)
      → Known s
      → Earns (KeyWeight c start ks) threshold total (check_keys c threshold ks total membership s)
  unfolding check_keys
  check_keys-Earns threshold [] total membership s known = record {
    known = known;
    weight = 0;
    counted = none_left;
    bound = omega arith;
  }
  check_keys-Earns threshold ((k, w) ∷ ks) total membership s known =
      let (known', signed) = signed_by-Known k s known in
      let ok = (signed_by c k s).0 in
      next_member-Earns {Weight = KeyWeight c start ks} {Weight' = KeyWeight c start ((k, w) ∷ ks)}
        threshold total w (suc membership) ok (signed_by c k s).1 _ known'
        (no_keys-KeyWeight c start ks)
        (λ t counted. elim (Bool-cases ok) [
          | inl yes_signed ↦
              subst (λ b. KeyWeight c start ((k, w) ∷ ks) (if b then w + t else t)) (sym yes_signed)
                (take (signed yes_signed) counted)
          | inr not_signed ↦
              subst (λ b. KeyWeight c start ((k, w) ∷ ks) (if b then w + t else t)) (sym not_signed)
                (leave counted)
        ])
        (no_keys-KeyWeight c start ((k, w) ∷ ks))
        (check_keys-Earns threshold ks _ (suc membership) (signed_by c k s).1 known')

  -- The call one level down is right, where there is one.
  abbrev IsRight : Deeper → Type 0
  IsRight none = Unit
  IsRight (some check) =
      (a : Authority) (s : SignState)
      → Known s
      → Known (check a s).1 × ((check a s).0 ≡ true → Satisfies c start a)

  abbrev ApprovesBy : ℕ → Answer → Type 0
  ApprovesBy n (answered true) = Approves c start n
  ApprovesBy n other = Unit

  ask-Known :
      (deeper : Deeper) (n : ℕ) (s : SignState)
      → IsRight deeper
      → Known s
      → Known (ask c deeper n s).1 × ApprovesBy n (ask c deeper n s).0
  unfolding ask
  ask-Known none n s right known = elim (Bool-cases (has_id n s.approved_by)) [
    | inl h ↦ rw h (known, known.wallets n h)
    | inr h ↦ rw h (known, tt)
  ]
  ask-Known (some check) n s right known = elim (Bool-cases (has_id n s.approved_by)) [
    | inl h ↦ rw h (known, known.wallets n h)
    | inr h ↦ elim (Bool-cases (is_reached c.max_wallet_auths s.account_auth_count)) [
      | inl limit ↦ rw (h, limit) (known, tt)
      | inr below ↦
          let s' : SignState = record s {
            account_auth_count = (s.account_auth_count + 1) % 2 ^ 32;
          } in
          let known' : Known s' = record { keys = known.keys; wallets = known.wallets } in
          let (after, satisfied) = right (c.get_money n) s' known' in
          elim (Bool-cases (check (c.get_money n) s').0) [
            | inl ok ↦
                rw (h, below, ok)
                  (
                    record {
                      keys = after.keys;
                      wallets = λ i g. elim (Bool-cases (i == n)) [
                        | inl same ↦
                            subst (Approves c start) (sym ((==_iff i n).0 same))
                              (by_members (satisfied ok))
                        | inr other ↦ after.wallets i (
                            ground (
                              arith,
                              has_id-insert_id i n (check (c.get_money n) s').1.approved_by,
                            ))
                      ];
                    },
                    by_members (satisfied ok),
                  )
            | inr no_ok ↦ rw (h, below, no_ok) (after, tt)
          ]
    ]
  ]

  -- The body of the loop on wallets, given that the rest of the loop is right.
  after_answer-Earns :
      (deeper : Deeper) (threshold n w : ℕ) (ns : Map ℕ) (total membership : ℕ) (answer : Answer)
      (s : SignState)
      → Known s
      → ApprovesBy n answer
      → ((total' membership' : ℕ)
          → Earns
              (WalletWeight c start ns)
              threshold
              total'
              (check_wallets c deeper threshold ns total' membership' s))
      → Earns (WalletWeight c start ((n, w) ∷ ns)) threshold total (elim answer [
        | skipped ↦ check_wallets c deeper threshold ns total membership s
        | gives_up ↦ (returned false, s)
        | answered ok ↦
            let total' = if ok then add_weight total w else total in
            next_member c threshold ok total'
              (suc membership)
              s
              (check_wallets c deeper threshold ns total' (suc membership) s)
      ])
  after_answer-Earns deeper threshold n w ns total membership skipped s known approves rest =
      let e = rest total membership in
      record {
        known = e.known;
        weight = e.weight;
        counted = leave_wallet e.counted;
        bound = e.bound;
      }
  after_answer-Earns deeper threshold n w ns total membership gives_up s known approves rest =
      record {
        known = known;
        weight = 0;
        counted = no_wallets-WalletWeight c start ((n, w) ∷ ns);
        bound = omega arith;
      }
  after_answer-Earns deeper threshold n w ns total membership (answered true) s known approves
        rest =
      next_member-Earns {Weight = WalletWeight c start ns}
        {Weight' = WalletWeight c start ((n, w) ∷ ns)} threshold total w (suc membership) true s _
        known (no_wallets-WalletWeight c start ns) (λ t counted. take_wallet approves counted)
        (no_wallets-WalletWeight c start ((n, w) ∷ ns)) (rest _ (suc membership))
  after_answer-Earns deeper threshold n w ns total membership (answered false) s known approves
        rest =
      next_member-Earns {Weight = WalletWeight c start ns}
        {Weight' = WalletWeight c start ((n, w) ∷ ns)} threshold total w (suc membership) false s _
        known (no_wallets-WalletWeight c start ns) (λ t counted. leave_wallet counted)
        (no_wallets-WalletWeight c start ((n, w) ∷ ns)) (rest _ (suc membership))

  check_wallets-Earns :
      (deeper : Deeper) (threshold : ℕ) (ns : Map ℕ) (total membership : ℕ) (s : SignState)
      → IsRight deeper
      → Known s
      → Earns
          (WalletWeight c start ns)
          threshold
          total
          (check_wallets c deeper threshold ns total membership s)
  unfolding check_wallets
  check_wallets-Earns deeper threshold [] total membership s right known = record {
    known = known;
    weight = 0;
    counted = no_wallets;
    bound = omega arith;
  }
  check_wallets-Earns deeper threshold ((n, w) ∷ ns) total membership s right known =
      let (known', approves) = ask-Known deeper n s right known in
      after_answer-Earns deeper threshold n w ns total membership (ask c deeper n s).0
        (ask c deeper n s).1 known' approves
        (λ total' membership'.
          check_wallets-Earns deeper threshold ns total' membership' (ask c deeper n s).1 right
            known')

  -- What a check answers, and in which state.
  abbrev pub IsSound : Authority → Bool × SignState → Type 0
  IsSound a r = Known r.1 × (r.0 ≡ true → Satisfies c start a)

  after_wallets-IsSound :
      (a : Authority) (t : ℕ) (total : ℕ) (r : Progress × SignState)
      → KeyWeight c start a.key_auths t
      → total ≤ t
      → Earns (WalletWeight c start a.wallet_auths) a.weight_threshold total r
      → IsSound a (elim r.0 [
        | returned b ↦ (b, r.1)
        | goes_on total' membership' ↦ (leb a.weight_threshold total', r.1)
      ])
  after_wallets-IsSound a t total (returned true, s) keys le e =
      (e.known, λ h. reaches keys e.counted (let b = e.bound in omega (arith, le, b)))
  after_wallets-IsSound a t total (returned false, s) keys le e =
      (e.known, λ h. absurd (ground arith))
  after_wallets-IsSound a t total (goes_on total' m, s) keys le e =
      (e.known, λ h. reaches keys e.counted (let b = e.bound in ground arith))

  after_keys-IsSound :
      (deeper : Deeper) (a : Authority) (r : Progress × SignState)
      → IsRight deeper
      → Earns (KeyWeight c start a.key_auths) a.weight_threshold 0 r
      → IsSound a (elim r.0 [
        | returned b ↦ (b, r.1)
        | goes_on total membership ↦
            let (wallets, s'') =
              check_wallets c deeper a.weight_threshold a.wallet_auths total membership r.1 in
            elim wallets [
              | returned b ↦ (b, s'')
              | goes_on total' membership' ↦ (leb a.weight_threshold total', s'')
            ]
      ])
  after_keys-IsSound deeper a (returned true, s) right e = (
    e.known,
    λ h.
        reaches e.counted (no_wallets-WalletWeight c start a.wallet_auths)
          (let b = e.bound in omega (arith, b)),
  )
  after_keys-IsSound deeper a (returned false, s) right e = (e.known, λ h. absurd (ground arith))
  after_keys-IsSound deeper a (goes_on total m, s) right e =
      after_wallets-IsSound a e.weight total _ e.counted (let b = e.bound in omega (arith, b))
        (check_wallets-Earns deeper a.weight_threshold a.wallet_auths total m s right e.known)

  check_members-IsSound :
      (deeper : Deeper) (a : Authority) (s : SignState)
      → IsRight deeper
      → Known s
      → IsSound a (check_members c deeper a s)
  unfolding check_members
  check_members-IsSound deeper a s right known =
      after_keys-IsSound deeper a (check_keys c a.weight_threshold a.key_auths 0 0 s) right
        (check_keys-Earns a.weight_threshold a.key_auths 0 0 s known)

  pub check_authority_impl-IsSound :
      (levels : ℕ) (a : Authority) (s : SignState)
      → Known s
      → IsSound a (check_authority_impl c levels a s)
  unfolding check_authority_impl
  check_authority_impl-IsSound zero a s known = check_members-IsSound none a s tt known
  check_authority_impl-IsSound (suc levels) a s known =
      check_members-IsSound (some (check_authority_impl c levels)) a s
        (check_authority_impl-IsSound levels) known

  pub start-Known : Known start
  start-Known = record { keys = λ k h. rw h refl; wallets = λ n h. at_start h }

  pub check_wallet-Known :
      (n : ℕ) (s : SignState)
      → Known s
      → Known (check_wallet c n s).1 × ((check_wallet c n s).0 ≡ true → Approves c start n)
  unfolding check_wallet
  check_wallet-Known n s known = elim (Bool-cases (has_id n s.approved_by)) [
    | inl h ↦ rw h (known, λ yes. known.wallets n h)
    | inr h ↦
        let counting : SignState = record s { account_auth_count = 1 } in
        let known' : Known counting = record { keys = known.keys; wallets = known.wallets } in
        let (after, satisfied) =
          check_authority_impl-IsSound c.max_recursion (c.get_money n) counting known' in
        rw h (after, λ yes. by_members (satisfied yes))
  ]

  -- Whatever the limits on depth, members and wallets: check_authority says yes only to a wallet
  -- that approves. That is one in approved_by to begin with, as `temp` always is, with no signature;
  -- or one whose authority is reached by keys that are signed and wallets that approve in their turn.
  pub check_wallet-Approves : (n : ℕ) → (check_wallet c n start).0 ≡ true → Approves c start n
  check_wallet-Approves n = (check_wallet-Known n start start-Known).1
