-- ===== src/Blocks/Steady.antt =====
-- What operations leave alone: the index of transactions, the time and the number of the head.
use xgt.Base.{
  ℕ, ◌≡◌, refl, subst, ◌∙◌, ap, some, List, [], ◌∷◌, arith, Option-cases, Bool-cases, inl, inr,
  is_some, leb,
}
use xgt.Ledger.{Asset, get_account, adjust_balance}
use xgt.Ledger.Transfer.{create_wallet, with_wallet}
use xgt.Ledger.Operations
use xgt.Ledger.Clock.{adjust_balance-time, evaluate-time}
use xgt.Database.{Database, find_witness, set_witness}
use xgt.Mining.{
  PowOperation, Hashes, first_miner_block, reward_at, count_work, create_worker, reward_worker,
  ensure_worker, evaluate_pow,
}
use xgt.Blocks.{
  Transaction, remember, apply_transaction, apply_transactions, Operation, on_money, pow,
  SignedBlock, Extension, no_extension, running_version, hardfork_vote, automated_actions, Setting,
  Skip, apply_operation, apply_operations, process_header_extension, process_header_extensions,
  check_header,
}

pub record Steady (d d' : Database) : Type 0 where
  pub transactions : d'.transactions ≡ d.transactions
  pub time : d'.ledger.head_block_time ≡ d.ledger.head_block_time
  pub head : d'.properties.head_block_number ≡ d.properties.head_block_number
  pub irreversible :
      d'.properties.last_irreversible_block_num ≡ d.properties.last_irreversible_block_num

Steady-refl : (d d' : Database) → d ≡ d' → Steady d d'
Steady-refl d d' e =
    subst (Steady d) e
      (record { transactions = refl; time = refl; head = refl; irreversible = refl })

Steady-trans : (c d e : Database) → Steady c d → Steady d e → Steady c e
Steady-trans c d e f g = record {
  transactions = g.transactions ∙ f.transactions;
  time = g.time ∙ f.time;
  head = g.head ∙ f.head;
  irreversible = g.irreversible ∙ f.irreversible;
}

reward_worker-Steady :
    (o : PowOperation) (a : Asset) (d d' : Database) → reward_worker o a d ≡ some d' → Steady d d'
unfolding reward_worker set_witness
reward_worker-Steady o a d d' h = elim (Option-cases (find_witness o.worker_account d)) [
  | inl e ↦ Steady-refl d d' (ground arith)
  | inr (w, e) ↦ elim (Option-cases (adjust_balance o.worker_account a d.ledger)) [
    | inl f ↦ absurd (ground arith)
    | inr (l, f) ↦
        let same : d'.ledger ≡ l = ground arith in
        record {
          transactions = ground arith;
          time =
              ap (λ x. x.head_block_time) same
              ∙ adjust_balance-time o.worker_account a d.ledger l f;
          head = ground arith;
          irreversible = ground arith;
        }
  ]
]

create_worker-Steady :
    (o : PowOperation) (k : ℕ) (d d' : Database) → create_worker o k d ≡ some d' → Steady d d'
unfolding create_worker create_wallet with_wallet
create_worker-Steady o k d d' h = record {
  transactions = ground arith;
  time = ground arith;
  head = ground arith;
  irreversible = ground arith;
}

ensure_worker-Steady :
    (o : PowOperation) (a : Asset) (d d' : Database) → ensure_worker o a d ≡ some d' → Steady d d'
unfolding ensure_worker
ensure_worker-Steady o a d d' h =
    elim (Bool-cases (is_some (get_account o.worker_account d.ledger))) [
      | inl old ↦ reward_worker-Steady o a d d' (ground arith)
      | inr new ↦ elim (Option-cases o.new_recovery_key) [
        | inl e ↦ Steady-refl d d' (ground arith)
        | inr (k, e) ↦ elim (Option-cases (create_worker o k d)) [
          | inl f ↦ absurd (ground arith)
          | inr (m, f) ↦
              Steady-trans d m d' (create_worker-Steady o k d m f)
                (reward_worker-Steady o a m d' (ground arith))
        ]
      ]
    ]

evaluate_pow-Steady :
    (hs : Hashes) (o : PowOperation) (d d' : Database) → evaluate_pow hs o d ≡ some d' → Steady d d'
unfolding evaluate_pow
evaluate_pow-Steady hs o d d' h =
    elim (Bool-cases (leb first_miner_block d.properties.head_block_number)) [
      | inl late ↦ Steady-refl d d' (ground arith)
      | inr early ↦ elim (Option-cases (reward_at d.properties.head_block_number)) [
        | inl e ↦ absurd (ground arith)
        | inr (a, e) ↦
            let counted = record d { properties = count_work d.properties } in
            Steady-trans d counted d'
              (record { transactions = refl; time = refl; head = refl; irreversible = refl })
              (ensure_worker-Steady o a counted d' (ground arith))
      ]
    ]

module _ (st : Setting) (skip : Skip) where
  apply_operation-Steady :
      (o : Operation) (d d' : Database) → apply_operation st skip o d ≡ some d' → Steady d d'
  unfolding apply_operation
  apply_operation-Steady (pow o) d d' h = evaluate_pow-Steady st.hashes o d d' (ground arith)
  apply_operation-Steady (on_money o) d d' h =
      elim (Option-cases (Operations.evaluate o d.ledger)) [
        | inl e ↦ absurd (ground arith)
        | inr (l, e) ↦ subst (Steady d) {x = record d { ledger = l }} (ground arith) (record {
          transactions = refl;
          time = evaluate-time o d.ledger l e;
          head = refl;
          irreversible = refl;
        })
      ]

  pub apply_operations-Steady :
      (os : List Operation) (d d' : Database)
      → apply_operations st skip os d ≡ some d'
      → Steady d d'
  unfolding apply_operations
  apply_operations-Steady [] d d' h = Steady-refl d d' (ground arith)
  apply_operations-Steady (o ∷ os) d d' h = elim (Option-cases (apply_operation st skip o d)) [
    | inl e ↦ absurd (ground arith)
    | inr (m, e) ↦
        Steady-trans d m d' (apply_operation-Steady o d m e)
          (apply_operations-Steady os m d' (ground arith))
  ]

process_header_extension-Steady :
    (n : ℕ) (e : Extension) (d d' : Database)
    → process_header_extension n e d ≡ some d'
    → Steady d d'
unfolding process_header_extension set_witness
process_header_extension-Steady n no_extension d d' h = Steady-refl d d' (ground arith)
process_header_extension-Steady n automated_actions d d' h = Steady-refl d d' (ground arith)
process_header_extension-Steady n (running_version v) d d' h = record {
  transactions = ground arith;
  time = ground arith;
  head = ground arith;
  irreversible = ground arith;
}
process_header_extension-Steady n (hardfork_vote v t) d d' h = record {
  transactions = ground arith;
  time = ground arith;
  head = ground arith;
  irreversible = ground arith;
}

process_header_extensions-Steady :
    (n : ℕ) (es : List Extension) (d d' : Database)
    → process_header_extensions n es d ≡ some d'
    → Steady d d'
unfolding process_header_extensions
process_header_extensions-Steady n [] d d' h = Steady-refl d d' (ground arith)
process_header_extensions-Steady n (e ∷ es) d d' h =
    elim (Option-cases (process_header_extension n e d)) [
      | inl f ↦ absurd (ground arith)
      | inr (m, f) ↦
          Steady-trans d m d' (process_header_extension-Steady n e d m f)
            (process_header_extensions-Steady n es m d' (ground arith))
    ]

pub check_header-Steady :
    (st : Setting) (skip : Skip) (b : SignedBlock) (d d' : Database)
    → check_header st skip b d ≡ some d'
    → Steady d d'
unfolding check_header
check_header-Steady st skip b d d' h =
    elim (Option-cases (process_header_extensions b.witness b.extensions d)) [
      | inl e ↦ absurd (ground arith)
      | inr (m, e) ↦
          let same : m ≡ d' = ground arith in
          subst (Steady d) same (process_header_extensions-Steady b.witness b.extensions d m e)
    ]

module _ (st : Setting) (skip : Skip) where
  pub apply_transactions-irreversible :
      (ts : List Transaction) (d d' : Database)
      → apply_transactions st skip ts d ≡ some d'
      → d'.properties.last_irreversible_block_num ≡ d.properties.last_irreversible_block_num
  unfolding apply_transactions apply_transaction remember
  apply_transactions-irreversible [] d d' h = ground arith
  apply_transactions-irreversible (t ∷ ts) d d' h =
      elim (Option-cases (apply_transaction st skip t d)) [
        | inl e ↦ absurd (ground arith)
        | inr (m, e) ↦
            let rest : apply_operations st skip t.operations (remember st skip t d) ≡ some m =
              ground arith in
            let steady =
              apply_operations-Steady st skip t.operations (remember st skip t d) m rest in
            let same : (remember st skip t d).properties.last_irreversible_block_num
                ≡ d.properties.last_irreversible_block_num =
              ground arith in
            apply_transactions-irreversible ts m d' (ground arith) ∙ steady.irreversible ∙ same
      ]
