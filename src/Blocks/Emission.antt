-- ===== src/Blocks/Emission.antt =====
-- XGT through a chain of blocks, from the first that pays its first miner in _apply_block on.
use xgt.Base.{
  ℕ, suc, ◌≡◌, subst, sym, ◌∙◌, true, Option, some, List, [], ◌∷◌, arith, Option-cases, inl, inr,
  leb, length, ◌>>=◌,
}
use xgt.Ledger.Conservation.{IsSound}
use xgt.Database.{Database}
use xgt.Mining.{first_miner_block}
use xgt.Mining.Emission.{reward_of, rewards}
use xgt.Blocks.{SignedBlock, Setting, Skip, apply_block}
use xgt.Blocks.Gains.{Gains, Gains-trans, same-Gains}
use xgt.Blocks.Issue.{apply_block-Gains}

-- Each block has the number after the one before it, the first after `n`.
abbrev pub IsNumberedFrom : ℕ → List SignedBlock → Type 0
IsNumberedFrom n [] = Unit
IsNumberedFrom n (b ∷ bs) = (b.num ≡ suc n) × IsNumberedFrom (suc n) bs

later : (n m : ℕ) → leb first_miner_block n ≡ true → m ≡ suc n → leb first_miner_block m ≡ true
later n m h e = ground arith

module _ (st : Setting) (skip : Skip) where
  unfoldable pub apply_blocks : List SignedBlock → Database → Option Database
  unfolding apply_block
  apply_blocks [] d = some d
  apply_blocks (b ∷ bs) d = apply_block st skip b d >>= apply_blocks bs

  -- Blocks that are numbered on from a head of 2116800 or more, and go through one on another, leave
  -- no wallet in debt and every escrow sound, and the XGT in wallets and escrow has risen by no more
  -- than one mining reward for each of them, whatever their transactions.
  pub apply_blocks-Gains :
      (bs : List SignedBlock) (d d' : Database)
      → IsSound d.ledger
      → leb first_miner_block d.properties.head_block_number ≡ true
      → IsNumberedFrom d.properties.head_block_number bs
      → apply_blocks bs d ≡ some d'
      → Gains (rewards (length bs) (suc d.properties.head_block_number)) d.ledger d'.ledger
  unfolding apply_blocks rewards
  apply_blocks-Gains [] d d' s late numbered h = same-Gains 0 d.ledger d'.ledger (ground arith) s
  apply_blocks-Gains (b ∷ bs) d d' s late (first, numbered) h =
      elim (Option-cases (apply_block st skip b d)) [
        | inl e ↦ absurd (ground arith)
        | inr (m, e) ↦
            let (gains, head) = apply_block-Gains st skip b d m s late e in
            let on = head ∙ first in
            let more =
              apply_blocks-Gains bs m d' gains.sound
                (later d.properties.head_block_number m.properties.head_block_number late on)
                (subst (λ n. IsNumberedFrom n bs) (sym on) numbered) (ground arith) in
            Gains-trans (reward_of (suc d.properties.head_block_number))
              (rewards (length bs) (suc (suc d.properties.head_block_number))) d.ledger m.ledger
              d'.ledger (subst (λ n. Gains (reward_of n) d.ledger m.ledger) first gains)
              (subst (λ n. Gains (rewards (length bs) (suc n)) m.ledger d'.ledger) on more)
      ]
