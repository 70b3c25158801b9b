-- ===== src/Blocks/Once.antt =====
-- Transactions in a chain of blocks whose timestamps do not fall.
use xgt.Base.{
  ℕ, suc, ◌≤◌, ◌≡◌, refl, ap, ◌∙◌, false, some, List, [], ◌∷◌, ◌++◌, arith, Option-cases,
  Bool-cases, inl, inr, leb, ◌==◌,
}
use xgt.Base.Tables.{All}
use xgt.Ledger.{adjust_balance}
use xgt.Ledger.Transfer.{clear_null_wallet_balance}
use xgt.Ledger.Clock.{adjust_balance-time, clear_null_wallet_balance-time}
use xgt.Database.{Database, find_transaction}
use xgt.Mining.{PowOperation, first_miner_block, reward_at}
use xgt.Blocks.{
  SignedBlock, Setting, Skip, unexpired, apply_transactions, update_global_dynamic_data,
  settle_head, clear_expired_transactions, reward_miner, reward_first_miner, first_pow,
  adjust_mining_target, finish_block, check_header, apply_block,
}
use xgt.Blocks.Emission.{apply_blocks, IsNumberedFrom}
use xgt.Blocks.Issue.{reward_first_miner-head}
use xgt.Blocks.Steady.{Steady, check_header-Steady}
use xgt.Blocks.Replay.{
  IsFresh, ids_in, add_all, IsFresh-append, IsDated, Remembers, unexpired-dated, unexpired-known,
  apply_transactions-Remembers, apply_transactions-time,
}

-- No block is older than the one before it, the first not older than `time`.
abbrev pub IsTimedFrom : ℕ → List SignedBlock → Type 0
IsTimedFrom time [] = Unit
IsTimedFrom time (b ∷ bs) = (time ≤ b.timestamp) × IsTimedFrom b.timestamp bs

abbrev pub trx_ids : List SignedBlock → List ℕ
trx_ids [] = []
trx_ids (b ∷ bs) = ids_in b.transactions ++ trx_ids bs

reward_miner-inv :
    (st : Setting) (skip : Skip) (b : SignedBlock) (o : PowOperation) (d d' : Database)
    → reward_miner st skip b o d ≡ some d'
    → (d'.transactions ≡ d.transactions) × (d'.ledger.head_block_time ≡ d.ledger.head_block_time)
unfolding reward_miner
reward_miner-inv st skip b o d d' h =
    elim (Option-cases (reward_at d.properties.head_block_number)) [
      | inl e ↦ absurd (ground arith)
      | inr (a, e) ↦ elim (Option-cases (adjust_balance o.worker_account a d.ledger)) [
        | inl f ↦ absurd (ground arith)
        | inr (l, f) ↦
            let same : d'.ledger ≡ l = ground arith in
            (
              ground arith,
              ap (λ x. x.head_block_time) same
                  ∙ adjust_balance-time o.worker_account a d.ledger l f,
            )
      ]
    ]

reward_first_miner-inv :
    (st : Setting) (skip : Skip) (b : SignedBlock) (d d' : Database)
    → reward_first_miner st skip b d ≡ some d'
    → (d'.transactions ≡ d.transactions) × (d'.ledger.head_block_time ≡ d.ledger.head_block_time)
unfolding reward_first_miner
reward_first_miner-inv st skip b d d' h =
    elim (Bool-cases (leb first_miner_block d.properties.head_block_number)) [
      | inr early ↦ (ground arith, ground arith)
      | inl late ↦ elim (Option-cases (first_pow b.transactions)) [
        | inl e ↦ (ground arith, ground arith)
        | inr (o, e) ↦ reward_miner-inv st skip b o d d' (ground arith)
      ]
    ]

-- What a block leaves of the index of transactions, with its time.
record Ends (b : SignedBlock) (d d' : Database) : Type 0 where
  transactions : d'.transactions ≡ unexpired b.timestamp d.transactions
  time : d'.ledger.head_block_time ≡ b.timestamp
  head : d'.properties.head_block_number ≡ b.num

finish_block-Ends :
    (st : Setting) (skip : Skip) (b : SignedBlock) (d d' : Database)
    → finish_block st skip b d ≡ some d'
    → Ends b d d'
unfolding finish_block update_global_dynamic_data settle_head clear_expired_transactions
    adjust_mining_target
finish_block-Ends st skip b d d' h = elim (Option-cases (update_global_dynamic_data st skip b d)) [
  | inl e ↦ absurd (ground arith)
  | inr (d1, e) ↦
      let d2 = clear_expired_transactions (settle_head st skip b d1) in
      let kept : d1.transactions ≡ d.transactions = ground arith in
      let timed : d1.ledger.head_block_time ≡ b.timestamp = ground arith in
      let numbered : d1.properties.head_block_number ≡ b.num = ground arith in
      elim (Option-cases (clear_null_wallet_balance d2.ledger)) [
        | inl f ↦ absurd (ground arith)
        | inr (l, f) ↦
            elim (Option-cases (reward_first_miner st skip b (record d2 { ledger = l }))) [
              | inl g ↦ absurd (ground arith)
              | inr (d3, g) ↦
                  let rewarded = record d2 { ledger = l } in
                  let (same, still) = reward_first_miner-inv st skip b rewarded d3 g in
                  let last : d'.transactions ≡ d3.transactions = ground arith in
                  let end : d'.ledger.head_block_time ≡ d3.ledger.head_block_time = ground arith in
                  let number : d'.properties.head_block_number ≡ d3.properties.head_block_number =
                    ground arith in
                  record {
                    transactions = last ∙ same ∙ rw (kept, timed) refl;
                    head =
                        number
                        ∙ ap (λ q. q.head_block_number)
                            (reward_first_miner-head st skip b rewarded d3 g)
                        ∙ numbered;
                    time = end ∙ still ∙ clear_null_wallet_balance-time d1.ledger l f ∙ timed;
                  }
            ]
      ]
]

module _ (expiry : ℕ → ℕ) where
  Ends-Remembers :
      (seen : List ℕ) (b : SignedBlock) (d d' : Database)
      → Remembers expiry seen d
      → d.ledger.head_block_time ≤ b.timestamp
      → (b.num == 0) ≡ false
      → Ends b d d'
      → Remembers expiry seen d'
  unfolding find_transaction
  Ends-Remembers seen b d d' r later numbered ends = record {
    known = λ i m. elim (r.known i m) [
      | inr (past, on) ↦ inr (rw ends.time (omega (arith, past, later)), rw ends.head numbered)
      | inl found ↦ elim (unexpired-known expiry b.timestamp i d.transactions r.dated found) [
        | inl still ↦ inl (rw ends.transactions still)
        | inr past ↦ inr (rw ends.time past, rw ends.head numbered)
      ]
    ];
    dated = rw ends.transactions (unexpired-dated expiry b.timestamp d.transactions r.dated);
  }

  Steady-Remembers :
      (seen : List ℕ) (d d' : Database)
      → Steady d d'
      → Remembers expiry seen d
      → Remembers expiry seen d'
  unfolding find_transaction
  Steady-Remembers seen d d' s r = record {
    known = λ i m. elim (r.known i m) [
      | inl found ↦ inl (rw s.transactions found)
      | inr (past, on) ↦ inr (rw s.time past, rw s.head on)
    ];
    dated = rw s.transactions r.dated;
  }

  module _ (st : Setting) (skip : Skip) (checks : skip.transaction_dupe_check ≡ false) where
    apply_block-Remembers :
        (seen : List ℕ) (b : SignedBlock) (d d' : Database)
        → Remembers expiry seen d
        → d.ledger.head_block_time ≤ b.timestamp
        → b.num ≡ suc d.properties.head_block_number
        → All (IsDated expiry) b.transactions
        → apply_block st skip b d ≡ some d'
        → IsFresh seen (ids_in b.transactions)
          × Remembers expiry (add_all seen (ids_in b.transactions)) d'
          × (d'.ledger.head_block_time ≡ b.timestamp)
          × (d'.properties.head_block_number ≡ b.num)
    unfolding apply_block
    apply_block-Remembers seen b d d' r later numbered dated h =
        elim (Option-cases (check_header st skip b d)) [
          | inl e ↦ absurd (ground arith)
          | inr (d1, e) ↦ elim (Option-cases (apply_transactions st skip b.transactions d1)) [
            | inl f ↦ absurd (ground arith)
            | inr (d2, f) ↦
                let steady = check_header-Steady st skip b d d1 e in
                let (fresh, known) =
                  apply_transactions-Remembers expiry st skip checks seen b.transactions d1 d2
                    (Steady-Remembers seen d d1 steady r) dated f in
                let ends = finish_block-Ends st skip b d2 d' (ground arith) in
                let time : d2.ledger.head_block_time ≡ d.ledger.head_block_time =
                  apply_transactions-time expiry st skip checks b.transactions d1 d2 f
                  ∙ steady.time in
                (
                  fresh,
                  Ends-Remembers (add_all seen (ids_in b.transactions)) b d2 d' known
                      (rw time later) (ground arith) ends,
                  ends.time,
                  ends.head,
                )
          ]
        ]

    apply_blocks-Fresh :
        (seen : List ℕ) (bs : List SignedBlock) (d d' : Database)
        → Remembers expiry seen d
        → IsTimedFrom d.ledger.head_block_time bs
        → IsNumberedFrom d.properties.head_block_number bs
        → All (λ b. All (IsDated expiry) b.transactions) bs
        → apply_blocks st skip bs d ≡ some d'
        → IsFresh seen (trx_ids bs)
    unfolding apply_blocks
    apply_blocks-Fresh seen [] d d' r timed numbered dated h = tt
    apply_blocks-Fresh seen (b ∷ bs) d d' r timed numbered dated h =
        elim (Option-cases (apply_block st skip b d)) [
          | inl e ↦ absurd (ground arith)
          | inr (m, e) ↦
              let (fresh, known, time, head) =
                apply_block-Remembers seen b d m r timed.0 numbered.0 dated.0 e in
              IsFresh-append seen (ids_in b.transactions) (trx_ids bs) fresh (
                apply_blocks-Fresh (add_all seen (ids_in b.transactions)) bs m d' known
                  (rw time timed.1) (rw (head, numbered.0) numbered.1) dated.1 (ground arith))
        ]

    -- If an id stands for one expiration, blocks that are numbered on and go through one on another,
    -- with the check for duplicates on and no timestamp below the one before, from a chain that knows
    -- no transaction, hold no two transactions with one id.
    pub apply_blocks-Once :
        (bs : List SignedBlock) (d d' : Database)
        → d.transactions ≡ []
        → IsTimedFrom d.ledger.head_block_time bs
        → IsNumberedFrom d.properties.head_block_number bs
        → All (λ b. All (IsDated expiry) b.transactions) bs
        → apply_blocks st skip bs d ≡ some d'
        → IsFresh [] (trx_ids bs)
    apply_blocks-Once bs d d' empty =
        apply_blocks-Fresh [] bs d d'
          (record { known = λ i m. absurd (ground arith); dated = rw empty tt })
