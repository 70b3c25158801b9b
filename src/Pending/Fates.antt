-- ===== src/Pending/Fates.antt =====
-- What becomes of a transaction that was pending or popped.
use mathlib.Core.List.{append-nil, append_assoc}
use xgt.Base.{
  ℕ, suc, ◌<◌, ◌≡◌, refl, sym, ◌∙◌, Bool, true, ◌||◌, none, some, List, [], ◌∷◌, ◌++◌, arith,
  Option-cases, Bool-cases, inl, inr, is_some, has_id, ◌==◌,
}
use xgt.Base.Tables.{find_by, All}
use xgt.Database.{Database, find_transaction}
use xgt.Blocks.{
  Transaction, Setting, Skip, remember, apply_operations, apply_transaction, apply_transactions,
}
use xgt.Blocks.Steady.{apply_operations-Steady}
use xgt.Blocks.Replay.{ids_in}
use xgt.Pending.{Chain, state, has_pow_op, push_transaction_, restore_one, restore_all}
use xgt.Pending.Runs.{
  Ran-head, IsCurrent, Round, is_pow, is_known, pushed, put_off, restore_one-Round, Round-Carries,
}

has_id-append :
    (i : ℕ) (ts us : List Transaction)
    → has_id i (ids_in (ts ++ us)) ≡ (has_id i (ids_in ts) || has_id i (ids_in us))
has_id-append i [] us = refl
has_id-append i (t ∷ ts) us = ground (arith, has_id-append i ts us)

module _ (st : Setting) (skip : Skip) where
  -- The index only gains transactions.
  apply_transaction-finds :
      (i : ℕ) (t : Transaction) (d d' : Database)
      → apply_transaction st skip t d ≡ some d'
      → is_some (find_transaction i d) ≡ true
      → is_some (find_transaction i d') ≡ true
  unfolding apply_transaction remember find_transaction find_by
  apply_transaction-finds i t d d' h f =
      let rest : apply_operations st skip t.operations (remember st skip t d) ≡ some d' =
        ground arith in
      let steady = apply_operations-Steady st skip t.operations (remember st skip t d) d' rest in
      elim (Bool-cases skip.transaction_dupe_check) [
        | inl off ↦ rw (steady.transactions, off) f
        | inr on ↦ elim (Bool-cases (t.id == i)) [
          | inl e ↦ rw (steady.transactions, on, e) refl
          | inr e ↦ rw (steady.transactions, on, e) f
        ]
      ]

  -- It waits, the chain knows it, it holds a proof of work that comes too late for the evaluator, or
  -- it is refused where the first of the transactions that wait have gone through, one on another.
  pub data Fate (t : Transaction) (c : Chain) : Type 0 where
    waits : has_id t.id (ids_in c.pending_tx) ≡ true → Fate t c
    known : is_some (find_transaction t.id (state c)) ≡ true → Fate t c
    holds_pow :
        has_pow_op t.operations ≡ true → 2116800 < c.head.properties.head_block_number → Fate t c
    refused :
        (ts us : List Transaction) (d : Database)
        → ts ++ us ≡ c.pending_tx
        → apply_transactions st skip ts c.head ≡ some d
        → apply_transaction st skip t d ≡ none
        → Fate t c

  -- Waiting and known transactions stay so.
  pub record Grows (c c' : Chain) : Type 0 where
    pub still_waits :
        (i : ℕ) → has_id i (ids_in c.pending_tx) ≡ true → has_id i (ids_in c'.pending_tx) ≡ true
    pub still_known :
        (i : ℕ)
        → is_some (find_transaction i (state c)) ≡ true
        → is_some (find_transaction i (state c')) ≡ true
    pub same_head : c'.head ≡ c.head
    pub more_wait : (us : List Transaction) × (c.pending_tx ++ us ≡ c'.pending_tx)

  Grows-refl : (c : Chain) → Grows c c
  Grows-refl c = record {
    still_waits = λ i h. h;
    still_known = λ i h. h;
    same_head = refl;
    more_wait = ([], append-nil c.pending_tx);
  }

  Grows-trans : (c d e : Chain) → Grows c d → Grows d e → Grows c e
  Grows-trans c d e f g = record {
    still_waits = λ i h. g.still_waits i (f.still_waits i h);
    still_known = λ i h. g.still_known i (f.still_known i h);
    same_head = g.same_head ∙ f.same_head;
    more_wait =
        let (us, a) = f.more_wait in
        let (vs, b) = g.more_wait in (us ++ vs, sym (append_assoc c.pending_tx us vs) ∙ rw a b);
  }

  pub Grows-Fate : (t : Transaction) (c c' : Chain) → Grows c c' → Fate t c → Fate t c'
  Grows-Fate t c c' g (waits h) = waits (g.still_waits t.id h)
  Grows-Fate t c c' g (known h) = known (g.still_known t.id h)
  Grows-Fate t c c' g (holds_pow h late) = holds_pow h (rw g.same_head late)
  Grows-Fate t c c' g (refused ts us d e r h) =
      let (vs, a) = g.more_wait in
      refused ts (us ++ vs) d (sym (append_assoc ts us vs) ∙ rw e a) (rw g.same_head r) h

  session_state : (d : Database) (c : Chain) → state (record c { pending_tx_session = some d }) ≡ d
  unfolding state
  session_state d c = refl

  appended_state :
      (ts : List Transaction) (c : Chain) → state (record c { pending_tx = ts }) ≡ state c
  unfolding state
  appended_state ts c = refl

  waits_after :
      (t : Transaction) (ts : List Transaction) → has_id t.id (ids_in (ts ++ t ∷ [])) ≡ true
  waits_after t ts = ground (arith, has_id-append t.id ts (t ∷ []))

  waits_on :
      (i : ℕ) (t : Transaction) (ts : List Transaction)
      → has_id i (ids_in ts) ≡ true
      → has_id i (ids_in (ts ++ t ∷ [])) ≡ true
  waits_on i t ts h = ground (arith, has_id-append i ts (t ∷ []))

  -- The transaction of a round has its fate, and the others keep theirs.
  module _ (t : Transaction) (c : Chain) where
    push_transaction_-Fate :
        apply_transactions st skip c.pending_tx c.head ≡ some (state c)
        → Fate t (push_transaction_ st skip t c).1 × Grows c (push_transaction_ st skip t c).1
    unfolding push_transaction_
    push_transaction_-Fate i = elim (Option-cases (apply_transaction st skip t (state c))) [
      | inl e ↦
          rw (e, push_transaction_)
            (
              refused c.pending_tx [] (state c) (append-nil c.pending_tx) i e,
              record {
                still_waits = λ k h. h;
                still_known = λ k h. rw (session_state (state c) c) h;
                same_head = refl;
                more_wait = ([], append-nil c.pending_tx);
              },
            )
      | inr (d, e) ↦
          rw (e, push_transaction_)
            (
              waits (waits_after t c.pending_tx),
              record {
                still_waits = λ k h. waits_on k t c.pending_tx h;
                still_known = λ k h.
                    rw (session_state d (record c { pending_tx = c.pending_tx ++ t ∷ [] }))
                      (apply_transaction-finds k t (state c) d e h);
                same_head = refl;
                more_wait = (t ∷ [], refl);
              },
            )
    ]

    Round-Fate :
        (late b : Bool) (r : Bool × Chain)
        → IsCurrent st skip b c
        → Round st skip late b t c r
        → Fate t r.1 × Grows c r.1
    Round-Fate late b _ i (is_pow h) =
        let same = Ran-head st skip c.pending_tx c.head (state c) i.ran in
        (holds_pow (ground arith) (ground arith), Grows-refl c)
    Round-Fate late b _ i (is_known h) = (known h, Grows-refl c)
    Round-Fate late b _ i (pushed h) = push_transaction_-Fate (i.ran_all (ground arith))
    Round-Fate late b _ i (put_off h) = (
      waits (waits_after t c.pending_tx),
      record {
        still_waits = λ k h. waits_on k t c.pending_tx h;
        still_known = λ k h. rw (appended_state (c.pending_tx ++ t ∷ []) c) h;
        same_head = refl;
        more_wait = (t ∷ [], refl);
      },
    )

  -- Every transaction of a loop has its fate.
  pub restore_all-Fates :
      (late : ℕ → Bool) (n : ℕ) (ts : List Transaction) (b : Bool) (c : Chain)
      → IsCurrent st skip b c
      → All (λ t. Fate t (restore_all st skip late n ts (b, c)).1) ts
        × Grows c (restore_all st skip late n ts (b, c)).1
  unfolding restore_all
  restore_all-Fates late n [] b c i = (tt, Grows-refl c)
  restore_all-Fates late n (t ∷ ts) b c i =
      let r = restore_one st skip (late n) t (b, c) in
      let round = restore_one-Round st skip (late n) b t c in
      let (fate, grows) = Round-Fate t c (late n) b r i round in
      let now = Round-Carries st skip (late n) b t c r i round in
      let (fates, later) = restore_all-Fates late (suc n) ts r.0 r.1 now.current in
      ((Grows-Fate t r.1 _ later fate, fates), Grows-trans c r.1 _ grows later)
