-- ===== src/Blocks/Supply.antt =====
-- XGT through a transaction: operations change no sum of it but by mining rewards.
use xgt.Base.{
  ℕ, ◌≡◌, refl, subst, ◌∙◌, true, some, List, [], ◌∷◌, arith, Option-cases, Bool-cases, inl, inr,
  is_some, leb,
}
use xgt.Ledger.{Asset, Ledger, xgt_asset_num, get_account, adjust_balance}
use xgt.Ledger.Conservation.{IsSound, total, adjust_balance-Pays}
use xgt.Ledger.Payments.{with_wallet-Conserves}
use xgt.Ledger.Transfer.{NewKeys, create_wallet, with_wallet}
use xgt.Ledger.Operations
use xgt.Database.{Database, find_witness, set_witness}
use xgt.Mining.{
  PowOperation, Hashes, first_miner_block, reward_at, count_work, create_worker, reward_worker,
  ensure_worker, evaluate_pow,
}
use xgt.Mining.Emission.{reward_at-symbol}
use xgt.Blocks.{
  Operation, on_money, pow, Transaction, Setting, Skip, apply_operation, apply_operations, remember,
  apply_transaction, apply_transactions,
}

-- Before the first miner's block, proofs of work in transactions are rewarded.
pub record Evolves (d d' : Database) : Type 0 where
  pub sound : IsSound d.ledger → IsSound d'.ledger
  pub same_head : d'.properties.head_block_number ≡ d.properties.head_block_number
  pub same_total :
      IsSound d.ledger
      → leb first_miner_block d.properties.head_block_number ≡ true
      → total d'.ledger ≡ total d.ledger

pub same_ledger-Evolves :
    (d d' : Database)
    → d'.ledger ≡ d.ledger
    → d'.properties.head_block_number ≡ d.properties.head_block_number
    → Evolves d d'
same_ledger-Evolves d d' l p = record {
  sound = λ s. rw l s;
  same_head = p;
  same_total = λ s late. rw l refl;
}

pub Evolves-trans : (c d e : Database) → Evolves c d → Evolves d e → Evolves c e
Evolves-trans c d e f g = record {
  sound = λ s. g.sound (f.sound s);
  same_head = g.same_head ∙ f.same_head;
  same_total = λ s late. g.same_total (f.sound s) (rw f.same_head late) ∙ f.same_total s late;
}

-- What is not a matter of the sum: the ledger stays sound, and the head stays.
record Keeps (d d' : Database) : Type 0 where
  sound : IsSound d.ledger → IsSound d'.ledger
  same_head : d'.properties.head_block_number ≡ d.properties.head_block_number

Keeps-trans : (c d e : Database) → Keeps c d → Keeps d e → Keeps c e
Keeps-trans c d e f g = record {
  sound = λ s. g.sound (f.sound s);
  same_head = g.same_head ∙ f.same_head;
}

module _ (o : PowOperation) (reward : Asset) (x : reward.symbol ≡ xgt_asset_num) where
  rewarded-Keeps :
      (d d' : Database) (l : Ledger)
      → adjust_balance o.worker_account reward d.ledger ≡ some l
      → d'.ledger ≡ l
      → d'.properties ≡ d.properties
      → Keeps d d'
  rewarded-Keeps d d' l g e p =
      let pays = adjust_balance-Pays o.worker_account reward d.ledger l (rw x refl) g in
      record {
        sound = λ s. rw e (record {
          funded = pays.funded s.funded;
          escrows_sound = rw pays.escrows_same s.escrows_sound;
        });
        same_head = rw p refl;
      }

  reward_worker-Keeps : (d d' : Database) → reward_worker o reward d ≡ some d' → Keeps d d'
  unfolding reward_worker set_witness
  reward_worker-Keeps d d' h = elim (Option-cases (find_witness o.worker_account d)) [
    | inl e ↦ subst (Keeps d) {x = d} (ground arith) (record { sound = λ s. s; same_head = refl })
    | inr (w, e) ↦ elim (Option-cases (adjust_balance o.worker_account reward d.ledger)) [
      | inl g ↦ absurd (ground arith)
      | inr (l, g) ↦ rewarded-Keeps d d' l g (ground arith) (ground arith)
    ]
  ]

  create_worker-Keeps : (key : ℕ) (d d' : Database) → create_worker o key d ≡ some d' → Keeps d d'
  unfolding create_worker create_wallet
  create_worker-Keeps key d d' h =
      let keys : NewKeys = record { recovery = key; money = key; social = key; memo = key } in
      let e : d'.ledger ≡ with_wallet keys o.worker_account d.ledger = ground arith in
      let p : d'.properties ≡ d.properties = ground arith in
      record {
        sound = λ s. rw e (with_wallet-Conserves keys o.worker_account d.ledger s).sound;
        same_head = rw p refl;
      }

  ensure_worker-Keeps : (d d' : Database) → ensure_worker o reward d ≡ some d' → Keeps d d'
  unfolding ensure_worker
  ensure_worker-Keeps d d' h = elim (Bool-cases (is_some (get_account o.worker_account d.ledger))) [
    | inl old ↦ reward_worker-Keeps d d' (ground arith)
    | inr new ↦ elim (Option-cases o.new_recovery_key) [
      | inl e ↦ subst (Keeps d) {x = d} (ground arith) (record { sound = λ s. s; same_head = refl })
      | inr (key, e) ↦ elim (Option-cases (create_worker o key d)) [
        | inl f ↦ absurd (ground arith)
        | inr (m, f) ↦
            Keeps-trans d m d' (create_worker-Keeps key d m f)
              (reward_worker-Keeps m d' (ground arith))
      ]
    ]
  ]

evaluate_pow-Keeps :
    (hs : Hashes) (o : PowOperation) (d d' : Database) → evaluate_pow hs o d ≡ some d' → Keeps d d'
unfolding evaluate_pow
evaluate_pow-Keeps hs o d d' h =
    elim (Bool-cases (leb first_miner_block d.properties.head_block_number)) [
      | inl late ↦
          subst (Keeps d) {x = d} (ground arith) (record { sound = λ s. s; same_head = refl })
      | inr early ↦ elim (Option-cases (reward_at d.properties.head_block_number)) [
        | inl e ↦ absurd (ground arith)
        | inr (reward, e) ↦
            let counted = record d { properties = count_work d.properties } in
            Keeps-trans d counted d' (record { sound = λ s. s; same_head = refl })
              (ensure_worker-Keeps o reward
                (reward_at-symbol d.properties.head_block_number reward e) counted d'
                (ground arith))
      ]
    ]

evaluate_pow-late :
    (hs : Hashes) (o : PowOperation) (d d' : Database)
    → leb first_miner_block d.properties.head_block_number ≡ true
    → evaluate_pow hs o d ≡ some d'
    → d ≡ d'
unfolding evaluate_pow
evaluate_pow-late hs o d d' late h = ground arith

module _ (st : Setting) (skip : Skip) where
  apply_operation-Evolves :
      (o : Operation) (d d' : Database) → apply_operation st skip o d ≡ some d' → Evolves d d'
  unfolding apply_operation
  apply_operation-Evolves (on_money o) d d' h =
      elim (Option-cases (Operations.evaluate o d.ledger)) [
        | inl e ↦ absurd (ground arith)
        | inr (l, e) ↦ subst (Evolves d) {x = record d { ledger = l }} (ground arith) (record {
          sound = λ s. (Operations.evaluate-Conserves o d.ledger l s e).sound;
          same_head = refl;
          same_total = λ s late. (Operations.evaluate-Conserves o d.ledger l s e).xgt;
        })
      ]
  apply_operation-Evolves (pow o) d d' h =
      let applied : evaluate_pow st.hashes o d ≡ some d' = ground arith in
      let keeps = evaluate_pow-Keeps st.hashes o d d' applied in
      record {
        sound = keeps.sound;
        same_head = keeps.same_head;
        same_total = λ s late. rw (evaluate_pow-late st.hashes o d d' late applied) refl;
      }

  apply_operations-Evolves :
      (os : List Operation) (d d' : Database)
      → apply_operations st skip os d ≡ some d'
      → Evolves d d'
  unfolding apply_operations
  apply_operations-Evolves [] d d' h =
      subst (Evolves d) {x = d} (ground arith) (same_ledger-Evolves d d refl refl)
  apply_operations-Evolves (o ∷ os) d d' h = elim (Option-cases (apply_operation st skip o d)) [
    | inl e ↦ absurd (ground arith)
    | inr (m, e) ↦
        Evolves-trans d m d' (apply_operation-Evolves o d m e)
          (apply_operations-Evolves os m d' (ground arith))
  ]

  pub apply_transaction-Evolves :
      (t : Transaction) (d d' : Database) → apply_transaction st skip t d ≡ some d' → Evolves d d'
  unfolding apply_transaction remember
  apply_transaction-Evolves t d d' h =
      Evolves-trans d (remember st skip t d) d'
        (same_ledger-Evolves d _ (ground arith) (ground arith))
        (apply_operations-Evolves t.operations (remember st skip t d) d' (ground arith))

  pub apply_transactions-Evolves :
      (ts : List Transaction) (d d' : Database)
      → apply_transactions st skip ts d ≡ some d'
      → Evolves d d'
  unfolding apply_transactions
  apply_transactions-Evolves [] d d' h =
      subst (Evolves d) {x = d} (ground arith) (same_ledger-Evolves d d refl refl)
  apply_transactions-Evolves (t ∷ ts) d d' h = elim (Option-cases (apply_transaction st skip t d)) [
    | inl e ↦ absurd (ground arith)
    | inr (m, e) ↦
        Evolves-trans d m d' (apply_transaction-Evolves t d m e)
          (apply_transactions-Evolves ts m d' (ground arith))
  ]
