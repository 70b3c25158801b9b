-- ===== src/Blocks/Issue.antt =====
-- XGT through a block: what its first miner is paid, less what the null wallet loses.
use xgt.Base.{
  ℕ, ap, ◌≡◌, refl, subst, ◌∙◌, true, some, List, [], ◌∷◌, arith, Option-cases, Bool-cases, inl,
  inr, leb,
}
use xgt.Ledger.{adjust_balance}
use xgt.Ledger.Conservation.{IsSound, adjust_balance-Pays}
use xgt.Ledger.Transfer.{clear_null_wallet_balance}
use xgt.Database.{Database, find_witness, set_witness}
use xgt.Mining.{PowOperation, first_miner_block, reward_at}
use xgt.Mining.Emission.{reward_of, reward_at-amount, reward_at-symbol}
use xgt.Blocks.{
  Extension, no_extension, running_version, hardfork_vote, automated_actions, SignedBlock, Setting,
  Skip, process_header_extension, process_header_extensions, apply_transactions, check_header,
  update_global_dynamic_data, settle_head, clear_expired_transactions, reward_miner, first_pow,
  reward_first_miner, adjust_mining_target, finish_block, apply_block,
}
use xgt.Blocks.Gains.{
  Gains, Pays-Gains, clear_null_wallet_balance-Gains, burnt_and_paid, same-Gains, Gains-from,
  timed_IsSound,
}
use xgt.Blocks.Supply.{Evolves, Evolves-trans, same_ledger-Evolves, apply_transactions-Evolves}

process_header_extension-Evolves :
    (n : ℕ) (e : Extension) (d d' : Database)
    → process_header_extension n e d ≡ some d'
    → Evolves d d'
unfolding process_header_extension set_witness
process_header_extension-Evolves n no_extension d d' h =
    same_ledger-Evolves d d' (ground arith) (ground arith)
process_header_extension-Evolves n automated_actions d d' h =
    same_ledger-Evolves d d' (ground arith) (ground arith)
process_header_extension-Evolves n (running_version v) d d' h =
    elim (Option-cases (find_witness n d)) [
      | inl e ↦ absurd (ground arith)
      | inr (w, e) ↦ same_ledger-Evolves d d' (ground arith) (ground arith)
    ]
process_header_extension-Evolves n (hardfork_vote v t) d d' h =
    elim (Option-cases (find_witness n d)) [
      | inl e ↦ absurd (ground arith)
      | inr (w, e) ↦ same_ledger-Evolves d d' (ground arith) (ground arith)
    ]

process_header_extensions-Evolves :
    (n : ℕ) (es : List Extension) (d d' : Database)
    → process_header_extensions n es d ≡ some d'
    → Evolves d d'
unfolding process_header_extensions
process_header_extensions-Evolves n [] d d' h =
    same_ledger-Evolves d d' (ground arith) (ground arith)
process_header_extensions-Evolves n (e ∷ es) d d' h =
    elim (Option-cases (process_header_extension n e d)) [
      | inl f ↦ absurd (ground arith)
      | inr (m, f) ↦
          Evolves-trans d m d' (process_header_extension-Evolves n e d m f)
            (process_header_extensions-Evolves n es m d' (ground arith))
    ]

module _ (st : Setting) (skip : Skip) where
  check_header-Evolves :
      (b : SignedBlock) (d d' : Database) → check_header st skip b d ≡ some d' → Evolves d d'
  unfolding check_header
  check_header-Evolves b d d' h =
      elim (Option-cases (process_header_extensions b.witness b.extensions d)) [
        | inl e ↦ absurd (ground arith)
        | inr (m, e) ↦
            let same : m ≡ d' = ground arith in
            subst (Evolves d) same (process_header_extensions-Evolves b.witness b.extensions d m e)
      ]

  reward_miner-Gains :
      (b : SignedBlock) (o : PowOperation) (d d' : Database)
      → IsSound d.ledger
      → reward_miner st skip b o d ≡ some d'
      → Gains (reward_of d.properties.head_block_number) d.ledger d'.ledger
  unfolding reward_miner reward_of
  reward_miner-Gains b o d d' s h = elim (Option-cases (reward_at d.properties.head_block_number)) [
    | inl e ↦ absurd (ground arith)
    | inr (reward, e) ↦ elim (Option-cases (adjust_balance o.worker_account reward d.ledger)) [
      | inl f ↦ absurd (ground arith)
      | inr (l, f) ↦
          let pays =
            adjust_balance-Pays o.worker_account reward d.ledger l
              (rw (reward_at-symbol d.properties.head_block_number reward e) refl) f in
          let same : d'.ledger ≡ l = ground arith in
          rw (same) (
            Pays-Gains (reward_of d.properties.head_block_number) reward.amount d.ledger l
              (reward_at-amount d.properties.head_block_number reward e) pays s)
    ]
  ]

  reward_first_miner-Gains :
      (b : SignedBlock) (d d' : Database)
      → IsSound d.ledger
      → reward_first_miner st skip b d ≡ some d'
      → Gains (reward_of d.properties.head_block_number) d.ledger d'.ledger
  unfolding reward_first_miner
  reward_first_miner-Gains b d d' s h =
      elim (Bool-cases (leb first_miner_block d.properties.head_block_number)) [
        | inr early ↦
            let same : d'.ledger ≡ d.ledger = ground arith in same-Gains _ d.ledger d'.ledger same s
        | inl late ↦ elim (Option-cases (first_pow b.transactions)) [
          | inl e ↦
              let same : d'.ledger ≡ d.ledger = ground arith in
              same-Gains _ d.ledger d'.ledger same s
          | inr (o, e) ↦ reward_miner-Gains b o d d' s (ground arith)
        ]
      ]

  update_global_dynamic_data-inv :
      (b : SignedBlock) (d d' : Database)
      → update_global_dynamic_data st skip b d ≡ some d'
      → (d'.ledger ≡ record d.ledger { head_block_time = b.timestamp })
        × (d'.properties.head_block_number ≡ b.num)
  unfolding update_global_dynamic_data
  update_global_dynamic_data-inv b d d' h = (ground arith, ground arith)

  pub reward_first_miner-head :
      (b : SignedBlock) (d d' : Database)
      → reward_first_miner st skip b d ≡ some d'
      → d'.properties ≡ d.properties
  unfolding reward_first_miner reward_miner
  reward_first_miner-head b d d' h = ground arith

  finish_block-Gains :
      (b : SignedBlock) (d d' : Database)
      → IsSound d.ledger
      → finish_block st skip b d ≡ some d'
      → Gains (reward_of b.num) d.ledger d'.ledger × (d'.properties.head_block_number ≡ b.num)
  unfolding finish_block settle_head clear_expired_transactions adjust_mining_target
  finish_block-Gains b d d' s h = elim (Option-cases (update_global_dynamic_data st skip b d)) [
    | inl e ↦ absurd (ground arith)
    | inr (d1, e) ↦
        let (timed, numbered) = update_global_dynamic_data-inv b d d1 e in
        let d2 = clear_expired_transactions (settle_head st skip b d1) in
        elim (Option-cases (clear_null_wallet_balance d2.ledger)) [
          | inl f ↦ absurd (ground arith)
          | inr (l, f) ↦
              elim (Option-cases (reward_first_miner st skip b (record d2 { ledger = l }))) [
                | inl g ↦ absurd (ground arith)
                | inr (d3, g) ↦
                    let rewarded = record d2 { ledger = l } in
                    let burnt =
                      clear_null_wallet_balance-Gains d1.ledger l
                        (rw timed (timed_IsSound b.timestamp d.ledger s)) f in
                    let paid = reward_first_miner-Gains b rewarded d3 burnt.sound g in
                    let kept = reward_first_miner-head b rewarded d3 g in
                    let last : d'.ledger ≡ d3.ledger = ground arith in
                    let head : d'.properties.head_block_number ≡ d3.properties.head_block_number =
                      ground arith in
                    (
                      rw last (
                          subst (λ n. Gains (reward_of n) d.ledger d3.ledger) numbered
                            (burnt_and_paid (reward_of d1.properties.head_block_number) b.timestamp
                              d.ledger d1.ledger l d3.ledger timed burnt paid)),
                      head ∙ ap (λ q. q.head_block_number) kept ∙ numbered,
                    )
              ]
        ]
  ]

  pub apply_block-Gains :
      (b : SignedBlock) (d d' : Database)
      → IsSound d.ledger
      → leb first_miner_block d.properties.head_block_number ≡ true
      → apply_block st skip b d ≡ some d'
      → Gains (reward_of b.num) d.ledger d'.ledger × (d'.properties.head_block_number ≡ b.num)
  unfolding apply_block
  apply_block-Gains b d d' s late h = elim (Option-cases (check_header st skip b d)) [
    | inl e ↦ absurd (ground arith)
    | inr (d1, e) ↦ elim (Option-cases (apply_transactions st skip b.transactions d1)) [
      | inl f ↦ absurd (ground arith)
      | inr (d2, f) ↦
          let evolves =
            Evolves-trans d d1 d2 (check_header-Evolves b d d1 e)
              (apply_transactions-Evolves st skip b.transactions d1 d2 f) in
          let (gains, head) = finish_block-Gains b d2 d' (evolves.sound s) (ground arith) in
          (
            Gains-from (reward_of b.num) d.ledger d2.ledger d'.ledger (evolves.same_total s late)
                gains,
            head,
          )
    ]
  ]

  pub apply_block-IsSound :
      (b : SignedBlock) (d d' : Database)
      → apply_block st skip b d ≡ some d'
      → IsSound d.ledger
      → IsSound d'.ledger
  unfolding apply_block
  apply_block-IsSound b d d' h s = elim (Option-cases (check_header st skip b d)) [
    | inl e ↦ absurd (ground arith)
    | inr (d1, e) ↦ elim (Option-cases (apply_transactions st skip b.transactions d1)) [
      | inl f ↦ absurd (ground arith)
      | inr (d2, f) ↦
          let sound =
            (apply_transactions-Evolves st skip b.transactions d1 d2 f).sound
              ((check_header-Evolves b d d1 e).sound s) in
          (finish_block-Gains b d2 d' sound (ground arith)).0.sound
    ]
  ]
