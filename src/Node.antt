-- ===== src/Node.antt =====
-- The node: blocks that are pushed to the chain are evaluated by _apply_block of
-- libraries/chain/database.cpp. A block is found by its id, and its number follows the number in the
-- id of the one before it.
mod Tests
use xgt.Base.{
  ℕ, suc, ◌≡◌, refl, sym, subst, ap, ◌∙◌, Bool, true, false, Option, none, some, List, [], ◌∷◌,
  arith, Option-cases, inl, inr, if◌then◌else◌, ◌>>=◌, ◌>>◌, length, require,
}
use xgt.Base.Tables.{All}
use xgt.Ledger.Conservation.{IsSound}
use xgt.Ledger.Transfer.{clear_null_wallet_balance}
use xgt.Chain.{Block, Application, Chain, push_block, update_last_irreversible_block}
use xgt.Chain.Everywhere.{Everywhere, push_block-Everywhere}
use xgt.Database.{Database}
use xgt.Blocks.{
  Transaction, SignedBlock, Setting, Skip, apply_transactions, check_header,
  update_global_dynamic_data, settle_head, clear_expired_transactions, reward_miner,
  reward_first_miner, adjust_mining_target, finish_block, apply_block,
}
use xgt.Blocks.Steady.{Steady, check_header-Steady, apply_transactions-irreversible}
use xgt.Blocks.Issue.{apply_block-IsSound, reward_first_miner-head}

abbrev pub HasSoundLedger : Database → Type 0
HasSoundLedger d = IsSound d.ledger

module _ (st : Setting) (skip : Skip) (contents : ℕ → SignedBlock) where
  unfoldable pub signed_block : Block → SignedBlock
  signed_block b = record (contents b.id) { id = b.id; previous = b.previous; num = b.num }

  unfoldable pub evaluate_block : Block → Database → Option Database
  unfolding signed_block
  evaluate_block b d = apply_block st skip (signed_block b) d

  -- What a block writes of the properties.
  record Writes (b : SignedBlock) (n : ℕ) (d : Database) : Type 0 where
    id : d.properties.head_block_id ≡ b.id
    num : d.properties.head_block_number ≡ b.num
    irreversible : d.properties.last_irreversible_block_num ≡ update_last_irreversible_block b.num n

  finish_block-Writes :
      (b : SignedBlock) (d d' : Database)
      → finish_block st skip b d ≡ some d'
      → Writes b d.properties.last_irreversible_block_num d'
  unfolding finish_block update_global_dynamic_data settle_head clear_expired_transactions
      adjust_mining_target
  finish_block-Writes b d d' h = elim (Option-cases (update_global_dynamic_data st skip b d)) [
    | inl e ↦ absurd (ground arith)
    | inr (d1, e) ↦
        let d2 = clear_expired_transactions (settle_head st skip b d1) in
        let id : d1.properties.head_block_id ≡ b.id = ground arith in
        let num : d1.properties.head_block_number ≡ b.num = ground arith in
        let old : d1.properties.last_irreversible_block_num
            ≡ d.properties.last_irreversible_block_num =
          ground arith in
        elim (Option-cases (clear_null_wallet_balance d2.ledger)) [
          | inl f ↦ absurd (ground arith)
          | inr (l, f) ↦
              elim (Option-cases (reward_first_miner st skip b (record d2 { ledger = l }))) [
                | inl g ↦ absurd (ground arith)
                | inr (d3, g) ↦
                    let same = reward_first_miner-head st skip b (record d2 { ledger = l }) d3 g in
                    let id' : d'.properties.head_block_id ≡ d3.properties.head_block_id =
                      ground arith in
                    let num' : d'.properties.head_block_number ≡ d3.properties.head_block_number =
                      ground arith in
                    let last : d'.properties.last_irreversible_block_num
                        ≡ d3.properties.last_irreversible_block_num =
                      ground arith in
                    record {
                      id = id' ∙ ap (λ q. q.head_block_id) same ∙ id;
                      num = num' ∙ ap (λ q. q.head_block_number) same ∙ num;
                      irreversible =
                          last ∙ ap (λ q. q.last_irreversible_block_num) same ∙ rw (num, old) refl;
                    }
              ]
        ]
  ]

  apply_block-Writes :
      (b : SignedBlock) (d d' : Database)
      → apply_block st skip b d ≡ some d'
      → Writes b d.properties.last_irreversible_block_num d'
  unfolding apply_block
  apply_block-Writes b d d' h = elim (Option-cases (check_header st skip b d)) [
    | inl e ↦ absurd (ground arith)
    | inr (d1, e) ↦ elim (Option-cases (apply_transactions st skip b.transactions d1)) [
      | inl f ↦ absurd (ground arith)
      | inr (d2, f) ↦
          let same =
            apply_transactions-irreversible st skip b.transactions d1 d2 f
            ∙ (check_header-Steady st skip b d d1 e).irreversible in
          subst (λ n. Writes b n d') same (finish_block-Writes b d2 d' (ground arith))
    ]
  ]

  evaluate_block-Writes :
      (b : Block) (d d' : Database)
      → evaluate_block b d ≡ some d'
      → Writes (signed_block b) d.properties.last_irreversible_block_num d'
  unfolding evaluate_block
  evaluate_block-Writes b d d' h = apply_block-Writes (signed_block b) d d' h

  pub sets_id :
      (b : Block) (d d' : Database)
      → evaluate_block b d ≡ some d'
      → d'.properties.head_block_id ≡ b.id
  unfolding signed_block
  sets_id b d d' h = (evaluate_block-Writes b d d' h).id

  pub sets_num :
      (b : Block) (d d' : Database)
      → evaluate_block b d ≡ some d'
      → d'.properties.head_block_number ≡ b.num
  unfolding signed_block
  sets_num b d d' h = (evaluate_block-Writes b d d' h).num

  pub sets_irreversible :
      (b : Block) (d d' : Database)
      → evaluate_block b d ≡ some d'
      → d'.properties.last_irreversible_block_num
        ≡ update_last_irreversible_block b.num d.properties.last_irreversible_block_num
  unfolding signed_block
  sets_irreversible b d d' h = (evaluate_block-Writes b d d' h).irreversible

  abbrev pub application : Application
  application = record {
    State = Database;
    evaluate = evaluate_block;
    head_id = λ d. d.properties.head_block_id;
    head_num = λ d. d.properties.head_block_number;
    last_irreversible = λ d. d.properties.last_irreversible_block_num;
    num_from_id = st.hashes.num_from_id;
    sets_id = sets_id;
    sets_num = sets_num;
    sets_irreversible = sets_irreversible;
  }

  -- However push_block ends, with a block on the head, a switch of forks, a failed switch or an
  -- exception, if in the chain's state and in each state that it can undo to no wallet was in debt and
  -- every escrow was sound, then so it is in all of them afterwards.
  pub push_block-IsSound :
      (id previous : ℕ) (c : Chain application)
      → Everywhere application HasSoundLedger c
      → Everywhere application HasSoundLedger (push_block application id previous c).1
  unfolding evaluate_block
  push_block-IsSound =
      push_block-Everywhere application HasSoundLedger
        (λ b d d' h. apply_block-IsSound st skip (signed_block b) d d' h)
