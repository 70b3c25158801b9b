-- ===== src/Blocks/Replay.antt =====
-- Transactions in a chain of blocks, and the index that tells which are known.
use xgt.Base.{
  ℕ, ◌<◌, ◌≡◌, refl, subst, sym, ap, ◌∙◌, true, false, some, List, [], ◌∷◌, ◌++◌, arith, ◌⊎◌,
  Option-cases, Bool-cases, inl, inr, is_some, ltb, has_id, ◌==◌, ==_iff,
}
use xgt.Base.Tables.{All, find_by}
use xgt.Database.{Database, SeenTransaction, find_transaction}
use xgt.Blocks.{
  Transaction, Setting, Skip, unexpired, apply_operations, is_in_time, remember, apply_transaction,
  apply_transactions,
}
use xgt.Blocks.Steady.{apply_operations-Steady}

-- Each differs from those before it, and from those in `seen`.
abbrev pub IsFresh : List ℕ → List ℕ → Type 0
IsFresh seen [] = Unit
IsFresh seen (i ∷ is) = (has_id i seen ≡ false) × IsFresh (i ∷ seen) is

abbrev pub ids_in : List Transaction → List ℕ
ids_in [] = []
ids_in (t ∷ ts) = t.id ∷ ids_in ts

abbrev pub add_all : List ℕ → List ℕ → List ℕ
add_all seen [] = seen
add_all seen (i ∷ is) = add_all (i ∷ seen) is

pub IsFresh-append :
    (seen is js : List ℕ) → IsFresh seen is → IsFresh (add_all seen is) js → IsFresh seen (is ++ js)
IsFresh-append seen [] js f g = g
IsFresh-append seen (i ∷ is) js f g = (f.0, IsFresh-append (i ∷ seen) is js f.1 g)

-- An id stands for a whole transaction, so it tells the expiration.
module _ (expiry : ℕ → ℕ) where
  abbrev pub IsDated : Transaction → Type 0
  IsDated t = t.expiration ≡ expiry t.id

  abbrev pub IsKept : SeenTransaction → Type 0
  IsKept s = s.expiration ≡ expiry s.trx_id

  -- What was applied is in the index, or has expired after the first block.
  abbrev pub IsKnown : ℕ → Database → Type 0
  IsKnown i d =
      (is_some (find_transaction i d) ≡ true)
      ⊎ ((expiry i < d.ledger.head_block_time) × ((d.properties.head_block_number == 0) ≡ false))

  pub record Remembers (seen : List ℕ) (d : Database) : Type 0 where
    pub known : (i : ℕ) → has_id i seen ≡ true → IsKnown i d
    pub dated : All IsKept d.transactions

  pub unexpired-dated :
      (now : ℕ) (ts : List SeenTransaction) → All IsKept ts → All IsKept (unexpired now ts)
  unexpired-dated now [] a = a
  unexpired-dated now (t ∷ ts) a = elim (Bool-cases (ltb t.expiration now)) [
    | inl past ↦ rw past (unexpired-dated now ts a.1)
    | inr still ↦ rw still (a.0, unexpired-dated now ts a.1)
  ]

  -- Only what has expired leaves the index.
  pub unexpired-known :
      (now i : ℕ) (ts : List SeenTransaction)
      → All IsKept ts
      → is_some (find_by (λ s. s.trx_id == i) ts) ≡ true
      → (is_some (find_by (λ s. s.trx_id == i) (unexpired now ts)) ≡ true) ⊎ (expiry i < now)
  unfolding find_by
  unexpired-known now i [] a h = absurd (ground arith)
  unexpired-known now i (t ∷ ts) a h =
      let same : (t.trx_id == i) ≡ true → expiry i ≡ t.expiration =
        λ e. sym (a.0 ∙ ap expiry ((==_iff t.trx_id i).0 e)) in
      elim (Bool-cases (ltb t.expiration now)) [
        | inl past ↦ elim (Bool-cases (t.trx_id == i)) [
          | inl e ↦ inr (rw (same e) (ground arith))
          | inr e ↦ rw past (unexpired-known now i ts a.1 (ground arith))
        ]
        | inr still ↦ elim (Bool-cases (t.trx_id == i)) [
          | inl e ↦ rw (still, e) (inl refl)
          | inr e ↦ rw (still, e) (unexpired-known now i ts a.1 (ground arith))
        ]
      ]

  module _ (st : Setting) (skip : Skip) (checks : skip.transaction_dupe_check ≡ false) where
    apply_transaction-inv :
        (t : Transaction) (d d' : Database)
        → apply_transaction st skip t d ≡ some d'
        → (is_some (find_transaction t.id d) ≡ false)
          × (is_in_time st skip t d ≡ true)
          × (apply_operations st skip t.operations (remember st skip t d) ≡ some d')
    unfolding apply_transaction
    apply_transaction-inv t d d' h = (ground arith, ground arith, ground arith)

    was_new :
        (seen : List ℕ) (t : Transaction) (d d' : Database)
        → Remembers seen d
        → IsDated t
        → apply_transaction st skip t d ≡ some d'
        → has_id t.id seen ≡ false
    unfolding is_in_time
    was_new seen t d d' r k h = elim (Bool-cases (has_id t.id seen)) [
      | inr new ↦ new
      | inl old ↦
          let (absent, in_time, rest) = apply_transaction-inv t d d' h in
          elim (r.known t.id old) [
            | inl found ↦ absurd (ground arith)
            | inr (past, later) ↦ absurd (ground arith)
          ]
    ]

    apply_transaction-Remembers :
        (seen : List ℕ) (t : Transaction) (d d' : Database)
        → Remembers seen d
        → IsDated t
        → apply_transaction st skip t d ≡ some d'
        → Remembers (t.id ∷ seen) d'
    unfolding remember find_transaction find_by
    apply_transaction-Remembers seen t d d' r k h =
        let (absent, in_time, rest) = apply_transaction-inv t d d' h in
        let steady = apply_operations-Steady st skip t.operations (remember st skip t d) d' rest in
        let added : d'.transactions
            ≡ record { trx_id = t.id; expiration = t.expiration } ∷ d.transactions =
          steady.transactions ∙ ground arith in
        let time : d'.ledger.head_block_time ≡ d.ledger.head_block_time =
          steady.time ∙ ground arith in
        let head : d'.properties.head_block_number ≡ d.properties.head_block_number =
          steady.head ∙ ground arith in
        record {
          known = λ i m. elim (Bool-cases (t.id == i)) [
            | inl e ↦ inl (rw (added, e) refl)
            | inr e ↦ elim (r.known i (ground arith)) [
              | inl found ↦ inl (rw (added, e) found)
              | inr (past, later) ↦ inr (rw time past, rw head later)
            ]
          ];
          dated = rw added (k, r.dated);
        }

    pub apply_transactions-Remembers :
        (seen : List ℕ) (ts : List Transaction) (d d' : Database)
        → Remembers seen d
        → All IsDated ts
        → apply_transactions st skip ts d ≡ some d'
        → IsFresh seen (ids_in ts) × Remembers (add_all seen (ids_in ts)) d'
    unfolding apply_transactions
    apply_transactions-Remembers seen [] d d' r k h =
        (tt, subst (Remembers seen) {x = d} (ground arith) r)
    apply_transactions-Remembers seen (t ∷ ts) d d' r k h =
        elim (Option-cases (apply_transaction st skip t d)) [
          | inl e ↦ absurd (ground arith)
          | inr (m, e) ↦
              let first = apply_transaction-Remembers seen t d m r k.0 e in
              let (fresh, last) =
                apply_transactions-Remembers (t.id ∷ seen) ts m d' first k.1 (ground arith) in
              ((was_new seen t d m r k.0 e, fresh), last)
        ]

    pub apply_transactions-time :
        (ts : List Transaction) (d d' : Database)
        → apply_transactions st skip ts d ≡ some d'
        → d'.ledger.head_block_time ≡ d.ledger.head_block_time
    unfolding apply_transactions remember
    apply_transactions-time [] d d' h = ground arith
    apply_transactions-time (t ∷ ts) d d' h = elim (Option-cases (apply_transaction st skip t d)) [
      | inl e ↦ absurd (ground arith)
      | inr (m, e) ↦
          let (absent, in_time, rest) = apply_transaction-inv t d m e in
          let steady = apply_operations-Steady st skip t.operations (remember st skip t d) m rest in
          let known : (remember st skip t d).ledger.head_block_time ≡ d.ledger.head_block_time =
            ground arith in
          apply_transactions-time ts m d' (ground arith) ∙ steady.time ∙ known
    ]
