-- ===== src/Pending/Restored.antt =====
-- Pending transactions after a block was pushed: the whole of pending_transactions_restorer.
use mathlib.Core.List.{append-nil}
use xgt.Base.{ℕ, ◌≡◌, refl, subst, ◌∙◌, Bool, true, false, none, some, List, [], ◌∷◌, ◌++◌, length}
use xgt.Base.Tables.{All}
use xgt.Blocks.{Transaction, Setting, Skip, apply_transactions}
use xgt.Pending.{Chain, state, clear_pending, restore_all, restore, without_pending_transactions}
use xgt.Pending.Runs.{IsCurrent, IsCurrent-clear, restore_all-Carries}
use xgt.Pending.Fates.{Fate, Grows, Grows-Fate, restore_all-Fates}

All-append :
    (P : Transaction → Type 0) (ts us : List Transaction) → All P ts → All P us → All P (ts ++ us)
All-append P [] us a b = b
All-append P (t ∷ ts) us a b = (a.0, All-append P ts us a.1 b)

All-map :
    (P Q : Transaction → Type 0) (ts : List Transaction)
    → ((t : Transaction) → P t → Q t)
    → All P ts
    → All Q ts
All-map P Q [] f a = tt
All-map P Q (t ∷ ts) f a = (f t a.0, All-map P Q ts f a.1)

module _ (st : Setting) (skip : Skip) where
  unpopped-IsCurrent :
      (b : Bool) (c : Chain)
      → IsCurrent st skip b c
      → IsCurrent st skip b (record c { popped_tx = [] })
  unfolding state
  unpopped-IsCurrent b c i = record { ran = i.ran; ran_all = i.ran_all }

  unpopped-Grows : (c : Chain) → Grows st skip c (record c { popped_tx = [] })
  unfolding state
  unpopped-Grows c = record {
    still_waits = λ i h. h;
    still_known = λ i h. h;
    same_head = refl;
    more_wait = ([], append-nil c.pending_tx);
  }

  -- What the restorer leaves of the chain `c` that it finds, with `pending` kept aside.
  record Restores (late : ℕ → Bool) (pending : List Transaction) (c c' : Chain) : Type 0 where
    current :
        ((k : ℕ) → late k ≡ false)
        → apply_transactions st skip c'.pending_tx c'.head ≡ some (state c')
    same_head : c'.head ≡ c.head
    fates : All (λ t. Fate st skip t c') (c.popped_tx ++ pending)

  restore-Restores :
      (late : ℕ → Bool) (pending : List Transaction) (c : Chain)
      → c.pending_tx ≡ []
      → c.pending_tx_session ≡ none
      → Restores late pending c (restore st skip late pending c)
  unfolding restore
  restore-Restores late pending c empty closed =
      let i = IsCurrent-clear st skip c empty closed in
      let r = restore_all st skip late 0 c.popped_tx (true, c) in
      let m = record r.1 { popped_tx = [] } in
      let (current, on_time, same_head) = restore_all-Carries st skip late 0 c.popped_tx true c i in
      let (first, grows) = restore_all-Fates st skip late 0 c.popped_tx true c i in
      let j = unpopped-IsCurrent r.0 r.1 current in
      let n = length c.popped_tx in
      let last = restore_all st skip late n pending (r.0, m) in
      let (current', on_time', same_head') = restore_all-Carries st skip late n pending r.0 m j in
      let (second, grows') = restore_all-Fates st skip late n pending r.0 m j in
      record {
        current = λ l. current'.ran_all (on_time' l (on_time l refl));
        same_head = same_head' ∙ same_head;
        fates =
            All-append (λ t. Fate st skip t last.1) c.popped_tx pending
              (All-map (λ t. Fate st skip t r.1) (λ t. Fate st skip t last.1) c.popped_tx
                (λ t f.
                  Grows-Fate st skip t m last.1 grows'
                    (Grows-Fate st skip t r.1 m (unpopped-Grows r.1) f))
                first)
              second;
      }

  module _ (late : ℕ → Bool) (callback : Chain → Bool × Chain) (c : Chain)
      (empty : (callback (clear_pending c)).1.pending_tx ≡ [])
      (closed : (callback (clear_pending c)).1.pending_tx_session ≡ none) where
    -- If the callback of without_pending_transactions leaves no pending transaction and no session for
    -- them, and the clock never runs out, then whatever it did, and also if it threw, the session is
    -- what the transactions that are pending afterwards make, in their order, of the head that the
    -- callback left.
    pub without_pending_transactions-current :
        ((k : ℕ) → late k ≡ false)
        → apply_transactions st skip
            (without_pending_transactions st skip late callback c).1.pending_tx
            (callback (clear_pending c)).1.head
          ≡ some (state (without_pending_transactions st skip late callback c).1)
    unfolding without_pending_transactions
    without_pending_transactions-current l =
        let restores =
          restore-Restores late c.pending_tx (callback (clear_pending c)).1 empty closed in
        let end = (without_pending_transactions st skip late callback c).1 in
        subst (λ d. apply_transactions st skip end.pending_tx d ≡ some (state end))
          restores.same_head (restores.current l)

    -- If the callback of without_pending_transactions leaves no pending transaction and no session for
    -- them, then afterwards each transaction that was pending before or that the callback popped is
    -- pending, by its id, or known to the chain, by its id, or holds a proof of work while the head
    -- that the callback left is above 2116800; or else the first so many of those that are pending
    -- afterwards go through one on another from that head, and the state that they lead to refuses
    -- it. This also holds where the clock runs out.
    pub without_pending_transactions-Fates :
        All
          (λ t. Fate st skip t (without_pending_transactions st skip late callback c).1)
          ((callback (clear_pending c)).1.popped_tx ++ c.pending_tx)
    unfolding without_pending_transactions
    without_pending_transactions-Fates =
        (restore-Restores late c.pending_tx (callback (clear_pending c)).1 empty closed).fates
