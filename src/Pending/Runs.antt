-- ===== src/Pending/Runs.antt =====
-- The state that pending transactions leave, and which of them it has seen.
use xgt.Base.{
  ℕ, suc, ◌≡◌, refl, subst, ◌∙◌, Bool, true, false, not, ◌&&◌, none, some, List, [], ◌∷◌, ◌++◌,
  arith, Option-cases, Bool-cases, inl, inr, is_some, ltb,
}
use xgt.Database.{Database, find_transaction}
use xgt.Blocks.{Transaction, Setting, Skip, apply_transaction, apply_transactions}
use xgt.Blocks.Supply.{apply_transaction-Evolves}
use xgt.Pending.{Chain, state, has_pow_op, push_transaction_, restore_one, restore_all}

module _ (st : Setting) (skip : Skip) where
  -- A state that some of the transactions lead to, in their order, from another; the rest are put off.
  pub data Ran : List Transaction → Database → Database → Type 0 where
    finished : (d : Database) → Ran [] d d
    applied :
        (t : Transaction) (ts : List Transaction) (d m d' : Database)
        → apply_transaction st skip t d ≡ some m
        → Ran ts m d'
        → Ran (t ∷ ts) d d'
    postponed :
        (t : Transaction) (ts : List Transaction) (d d' : Database)
        → Ran ts d d'
        → Ran (t ∷ ts) d d'

  Ran-append :
      (ts us : List Transaction) (c d e : Database) → Ran ts c d → Ran us d e → Ran (ts ++ us) c e
  Ran-append _ us _ _ e (finished d) s = s
  Ran-append _ us _ _ e (applied t ts d m d' h r) s =
      applied t (ts ++ us) d m e h (Ran-append ts us m d' e r s)
  Ran-append _ us _ _ e (postponed t ts d d' r) s =
      postponed t (ts ++ us) d e (Ran-append ts us d d' e r s)

  pub apply_transactions-append :
      (ts us : List Transaction) (c d e : Database)
      → apply_transactions st skip ts c ≡ some d
      → apply_transactions st skip us d ≡ some e
      → apply_transactions st skip (ts ++ us) c ≡ some e
  unfolding apply_transactions
  apply_transactions-append [] us c d e h k =
      subst (λ x. apply_transactions st skip us x ≡ some e) {x = d} (ground arith) k
  apply_transactions-append (t ∷ ts) us c d e h k =
      elim (Option-cases (apply_transaction st skip t c)) [
        | inl f ↦ absurd (ground arith)
        | inr (m, f) ↦ rw f (apply_transactions-append ts us m d e (ground arith) k)
      ]

  pub apply_transactions-single :
      (t : Transaction) (c d : Database)
      → apply_transaction st skip t c ≡ some d
      → apply_transactions st skip (t ∷ []) c ≡ some d
  unfolding apply_transactions
  apply_transactions-single t c d e = rw e refl

  pub Ran-head :
      (ts : List Transaction) (d d' : Database)
      → Ran ts d d'
      → d'.properties.head_block_number ≡ d.properties.head_block_number
  Ran-head _ d _ (finished _) = refl
  Ran-head _ _ d' (applied t ts d m _ h r) =
      Ran-head ts m d' r ∙ (apply_transaction-Evolves st skip t d m h).same_head
  Ran-head _ _ _ (postponed t ts d d' r) = Ran-head ts d d' r

  -- Of what was pending, the state has some, and has all of it if nothing was put off.
  pub record IsCurrent (all : Bool) (c : Chain) : Type 0 where
    pub ran : Ran c.pending_tx c.head (state c)
    pub ran_all : all ≡ true → apply_transactions st skip c.pending_tx c.head ≡ some (state c)

  pub IsCurrent-clear :
      (c : Chain) → c.pending_tx ≡ [] → c.pending_tx_session ≡ none → IsCurrent true c
  unfolding apply_transactions state
  IsCurrent-clear c e f = record {
    ran = rw (e, f) (finished c.head);
    ran_all = λ h. rw (e, f) refl;
  }

  module _ (all : Bool) (t : Transaction) (c : Chain) (r : IsCurrent all c) where
    refused-IsCurrent : IsCurrent all (record c { pending_tx_session = some (state c) })
    unfolding state
    refused-IsCurrent = record { ran = r.ran; ran_all = r.ran_all }

    accepted-IsCurrent :
        (d : Database)
        → apply_transaction st skip t (state c) ≡ some d
        → IsCurrent all
            (record c { pending_tx_session = some d; pending_tx = c.pending_tx ++ t ∷ [] })
    unfolding state apply_transactions
    accepted-IsCurrent d e = record {
      ran =
          Ran-append c.pending_tx (t ∷ []) c.head (state c) d r.ran
            (applied t [] (state c) d d e (finished d));
      ran_all = λ h.
          apply_transactions-append c.pending_tx (t ∷ []) c.head (state c) d (r.ran_all h)
            (apply_transactions-single t (state c) d e);
    }

    pub postponed-IsCurrent : IsCurrent false (record c { pending_tx = c.pending_tx ++ t ∷ [] })
    unfolding state
    postponed-IsCurrent = record {
      ran =
          Ran-append c.pending_tx (t ∷ []) c.head (state c) (state c) r.ran
            (postponed t [] (state c) (state c) (finished (state c)));
      ran_all = λ h. absurd (ground arith);
    }

    pub push_transaction_-IsCurrent : IsCurrent all (push_transaction_ st skip t c).1
    unfolding push_transaction_
    push_transaction_-IsCurrent = elim (Option-cases (apply_transaction st skip t (state c))) [
      | inl e ↦ rw (e, push_transaction_) refused-IsCurrent
      | inr (d, e) ↦ rw (e, push_transaction_) (accepted-IsCurrent d e)
    ]

  -- The four ways of a round.
  pub data Round (late b : Bool) (t : Transaction) (c : Chain) : Bool × Chain → Type 0 where
    is_pow :
        (ltb 2116800 (state c).properties.head_block_number && has_pow_op t.operations) ≡ true
        → Round late b t c (b, c)
    is_known : is_some (find_transaction t.id (state c)) ≡ true → Round late b t c (b, c)
    pushed : (b && not late) ≡ true → Round late b t c (true, (push_transaction_ st skip t c).1)
    put_off :
        (b && not late) ≡ false
        → Round late b t c (false, record c { pending_tx = c.pending_tx ++ t ∷ [] })

  pub restore_one-Round :
      (late b : Bool) (t : Transaction) (c : Chain)
      → Round late b t c (restore_one st skip late t (b, c))
  unfolding restore_one
  restore_one-Round late b t c =
      elim (Bool-cases
        (ltb 2116800 (state c).properties.head_block_number && has_pow_op t.operations)) [
          | inl e ↦ rw e (is_pow e)
          | inr e ↦ elim (Bool-cases (is_some (find_transaction t.id (state c)))) [
            | inl f ↦ rw (e, f) (is_known f)
            | inr f ↦ elim (Bool-cases (b && not late)) [
              | inl g ↦ rw (e, f, g) (pushed g)
              | inr g ↦ rw (e, f, g) (put_off g)
            ]
          ]
        ]

  push_transaction_-head :
      (t : Transaction) (c : Chain) → (push_transaction_ st skip t c).1.head ≡ c.head
  unfolding push_transaction_
  push_transaction_-head t c = elim (Option-cases (apply_transaction st skip t (state c))) [
    | inl e ↦ rw (e, push_transaction_) refl
    | inr (d, e) ↦ rw (e, push_transaction_) refl
  ]

  -- What a round keeps.
  pub record Carries (late b : Bool) (c : Chain) (r : Bool × Chain) : Type 0 where
    pub current : IsCurrent r.0 r.1
    pub on_time : late ≡ false → b ≡ true → r.0 ≡ true
    pub same_head : r.1.head ≡ c.head

  pub Round-Carries :
      (late b : Bool) (t : Transaction) (c : Chain) (r : Bool × Chain)
      → IsCurrent b c
      → Round late b t c r
      → Carries late b c r
  Round-Carries late b t c _ i (is_pow h) = record {
    current = i;
    on_time = λ l e. e;
    same_head = refl;
  }
  Round-Carries late b t c _ i (is_known h) = record {
    current = i;
    on_time = λ l e. e;
    same_head = refl;
  }
  Round-Carries late b t c _ i (pushed h) = record {
    current = push_transaction_-IsCurrent true t c (subst (λ a. IsCurrent a c) (ground arith) i);
    on_time = λ l e. refl;
    same_head = push_transaction_-head t c;
  }
  Round-Carries late b t c _ i (put_off h) = record {
    current = postponed-IsCurrent b t c i;
    on_time = λ l e. absurd (ground arith);
    same_head = refl;
  }

  pub restore_all-Carries :
      (late : ℕ → Bool) (n : ℕ) (ts : List Transaction) (b : Bool) (c : Chain)
      → IsCurrent b c
      → IsCurrent (restore_all st skip late n ts (b, c)).0 (restore_all st skip late n ts (b, c)).1
        × (((k : ℕ) → late k ≡ false) → b ≡ true → (restore_all st skip late n ts (b, c)).0 ≡ true)
        × ((restore_all st skip late n ts (b, c)).1.head ≡ c.head)
  unfolding restore_all
  restore_all-Carries late n [] b c i = (i, (λ l e. e), refl)
  restore_all-Carries late n (t ∷ ts) b c i =
      let r = restore_one st skip (late n) t (b, c) in
      let now = Round-Carries (late n) b t c r i (restore_one-Round (late n) b t c) in
      let (current, on_time, same_head) = restore_all-Carries late (suc n) ts r.0 r.1 now.current in
      (current, (λ l e. on_time l (now.on_time (l n) e)), same_head ∙ now.same_head)
