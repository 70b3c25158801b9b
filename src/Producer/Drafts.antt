-- ===== src/Producer/Drafts.antt =====
-- What the loop over pending transactions keeps true of a draft.
use native.Mathlib.Nat.{mul-le-mul}
use xgt.Base.{
  ℕ, ◌+◌, ◌^◌, ◌≤◌, ◌<◌, ◌≡◌, subst, ◌∙◌, Bool, false, ◌&&◌, Option, none, some, List, [], ◌∷◌,
  ◌++◌, ltb, leb, arith, ◌⊎◌, Option-cases, Bool-cases, inl, inr,
}
use xgt.Database.{Properties, Database}
use xgt.Blocks.{Transaction, Setting, Skip, apply_transaction, apply_transactions}
use xgt.Pending.{has_pow_op}
use xgt.Pending.Runs.{apply_transactions-append, apply_transactions-single}
use xgt.Producer.{
  Packing, Draft, partition_size, new_total_size, postpone, include, take_reward, take_one,
  take_pending, postponed_tx_limit,
}

pub partition_size-le :
    (percent : ℕ) (p : Properties)
    → percent ≤ 10000
    → p.maximum_block_size < 2 ^ 32
    → partition_size percent p ≤ p.maximum_block_size
unfolding partition_size
partition_size-le percent p h k =
    let part = mul-le-mul {n₁ = p.maximum_block_size} {n₂ = p.maximum_block_size} (omega arith) h in
    ground (arith, part)

abbrev pub sum_of_sizes : (Transaction → ℕ) → List Transaction → ℕ
sum_of_sizes size [] = 0
sum_of_sizes size (t ∷ ts) = size t + sum_of_sizes size ts

sum_of_sizes-append :
    (size : Transaction → ℕ) (ts us : List Transaction)
    → sum_of_sizes size (ts ++ us) ≡ sum_of_sizes size ts + sum_of_sizes size us
sum_of_sizes-append size [] us = omega arith
sum_of_sizes-append size (t ∷ ts) us = omega (arith, sum_of_sizes-append size ts us)

module _ (st : Setting) (skip : Skip) (pk : Packing) (d : Database) (base limit : ℕ) where
  -- The transactions lead from the head to the state, and their sizes are counted.
  pub record IsDraft (dr : Draft) : Type 0 where
    pub applied : apply_transactions st skip dr.transactions d ≡ some dr.db
    pub total : dr.total_block_size ≡ base + sum_of_sizes pk.transaction_size dr.transactions
    pub fits : (dr.transactions ≡ []) ⊎ (dr.total_block_size < limit)

  module _ (sizes : (t : Transaction) → pk.transaction_size t < 2 ^ 63) (small : base < 2 ^ 63)
      (bounded : limit < 2 ^ 63) where
    no_wrap :
        (t : Transaction) (dr : Draft)
        → IsDraft dr
        → new_total_size st skip pk t dr ≡ dr.total_block_size + pk.transaction_size t
    no_wrap t dr i =
        let size = sizes t in
        elim i.fits [
          | inl none_yet ↦
              let start : dr.total_block_size ≡ base = i.total ∙ rw none_yet (omega arith) in
              ground (arith, start, size, small)
          | inr less ↦ ground (arith, less, size, bounded)
        ]

    include-IsDraft :
        (t : Transaction) (dr dr' : Draft)
        → IsDraft dr
        → leb limit (new_total_size st skip pk t dr) ≡ false
        → include st skip pk t dr ≡ some dr'
        → IsDraft dr'
    unfolding include
    include-IsDraft t dr dr' i room h = elim (Option-cases (apply_transaction st skip t dr.db)) [
      | inl e ↦ absurd (ground arith)
      | inr (m, e) ↦
          let made : Draft = record {
            db = m;
            total_block_size = new_total_size st skip pk t dr;
            transactions = dr.transactions ++ t ∷ [];
            postponed_tx_count = dr.postponed_tx_count;
          } in
          let sum = sum_of_sizes-append pk.transaction_size dr.transactions (t ∷ []) in
          subst IsDraft {x = made} (ground arith) (record {
            applied =
                apply_transactions-append st skip dr.transactions (t ∷ []) d dr.db m i.applied
                  (apply_transactions-single st skip t dr.db m e);
            total = omega (arith, no_wrap t dr i, i.total, sum);
            fits = inr (ground arith);
          })
    ]

    postpone-IsDraft : (dr : Draft) → IsDraft dr → IsDraft (postpone st skip pk dr)
    postpone-IsDraft dr i = record { applied = i.applied; total = i.total; fits = i.fits }

    pub take_reward-IsDraft :
        (reward : Option Transaction) (dr dr' : Draft)
        → IsDraft dr
        → take_reward st skip pk limit reward dr ≡ some dr'
        → IsDraft dr'
    unfolding take_reward
    take_reward-IsDraft none dr dr' i h = subst IsDraft (ground arith) i
    take_reward-IsDraft (some t) dr dr' i h =
        elim (Bool-cases (leb limit (new_total_size st skip pk t dr))) [
          | inl full ↦
              subst IsDraft {x = postpone st skip pk dr} (ground arith) (postpone-IsDraft dr i)
          | inr room ↦ include-IsDraft t dr dr' i room (ground arith)
        ]

    take_one-IsDraft :
        (when : ℕ) (r : Bool) (t : Transaction) (dr : Draft)
        → IsDraft dr
        → IsDraft (take_one st skip pk limit when r t dr)
    unfolding take_one
    take_one-IsDraft when r t dr i = elim (Bool-cases (ltb t.expiration when)) [
      | inl e ↦ rw e i
      | inr e ↦ elim (Bool-cases (r && has_pow_op t.operations)) [
        | inl f ↦ rw (e, f) i
        | inr f ↦ elim (Bool-cases (leb limit (new_total_size st skip pk t dr))) [
          | inl g ↦ rw (e, f, g) (postpone-IsDraft dr i)
          | inr g ↦ elim (Option-cases (include st skip pk t dr)) [
            | inl k ↦ rw (e, f, g, k) i
            | inr (dr', k) ↦ rw (e, f, g, k) (include-IsDraft t dr dr' i g k)
          ]
        ]
      ]
    ]

    pub take_pending-IsDraft :
        (when : ℕ) (r : Bool) (ts : List Transaction) (dr : Draft)
        → IsDraft dr
        → IsDraft (take_pending st skip pk limit when r ts dr)
    unfolding take_pending
    take_pending-IsDraft when r [] dr i = i
    take_pending-IsDraft when r (t ∷ ts) dr i =
        elim (Bool-cases (ltb postponed_tx_limit dr.postponed_tx_count)) [
          | inl e ↦ rw e i
          | inr e ↦ rw e (
              take_pending-IsDraft when r ts (take_one st skip pk limit when r t dr)
                (take_one-IsDraft when r t dr i))
        ]
