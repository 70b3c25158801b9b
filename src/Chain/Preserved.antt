-- ===== src/Chain/Preserved.antt =====
-- The sessions of the chain after a push.
use xgt.Base.{ℕ}
use xgt.Chain.{Application, Chain, push_block}
use xgt.Chain.History.{HasHistory}
use xgt.Chain.Steps.{apply_block-History, undo-History}
use xgt.Chain.Kept.{push_block-Kept}

module _ (app : Application) where
  -- However push_block ends, by itself or by an exception, each saved state is still the one that a
  -- block was evaluated on to give the next, up to the state, and the revisions count the blocks.
  pub push_block-History :
      (id previous : ℕ) (c : Chain app)
      → HasHistory app c
      → HasHistory app (push_block app id previous c).1
  push_block-History =
      push_block-Kept app (HasHistory app) (λ c f g. g) (apply_block-History app) (undo-History app)
