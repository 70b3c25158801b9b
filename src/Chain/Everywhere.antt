-- ===== src/Chain/Everywhere.antt =====
-- Invariants of the states that the chain holds: its own, and those it can undo to.
use xgt.Base.{ℕ, suc, ◌≡◌, sym, subst, some, List, [], ◌∷◌, leb, Bool-cases, inl, inr}
use xgt.Base.Tables.{All}
use xgt.ForkDatabase.{ForkDatabase}
use xgt.Chain.{Block, Application, Chain, keep_saved, drop_saved, apply_block, undo, push_block}
use xgt.Chain.Steps.{apply_block-Applied}
use xgt.Chain.Kept.{push_block-Kept}

module _ (app : Application) (P : app.State → Type 0) where
  open app use {State, evaluate, last_irreversible}

  abbrev IsSaved : ℕ × State → Type 0
  IsSaved p = P p.1

  -- The state and every saved state.
  abbrev pub Everywhere : Chain app → Type 0
  Everywhere c = P c.state × All IsSaved c.saved

  All-drop_saved :
      (k : ℕ) (saved : List (ℕ × State)) → All IsSaved saved → All IsSaved (drop_saved app k saved)
  unfolding drop_saved
  All-drop_saved k [] a = tt
  All-drop_saved k (p ∷ older) a =
      All-keep_saved (drop_saved app k older) (All-drop_saved k older a.1)
    where
      All-keep_saved :
          (rest : List (ℕ × State)) → All IsSaved rest → All IsSaved (keep_saved app k p rest)
      All-keep_saved [] b = elim (Bool-cases (leb p.0 k)) [
        | inl y ↦ rw y tt
        | inr n ↦ rw n (a.0, tt)
      ]
      All-keep_saved (q ∷ rest) b = (a.0, b)

  undo-Everywhere : (c : Chain app) → Everywhere c → Everywhere (undo app c)
  unfolding undo
  undo-Everywhere c e = go c.fork_db c.state c.saved c.revision c.log e
    where
      go :
          (d : ForkDatabase) (s : State) (saved : List (ℕ × State)) (r : ℕ) (log : List Block)
          → P s × All IsSaved saved
          → Everywhere
              (undo app (record { fork_db = d; state = s; saved = saved; revision = r; log = log }))
      go d s [] r log e = e
      go d s (p ∷ older) r log e = e.1

  module _ (closed : (b : Block) (s s' : State) → evaluate b s ≡ some s' → P s → P s') where
    apply_block-Everywhere :
        (b : Block) (c c' : Chain app)
        → Everywhere c
        → apply_block app b c ≡ some c'
        → Everywhere c'
    apply_block-Everywhere b c c' e h =
        let a = apply_block-Applied app b c c' h in
        (
          closed b c.state c'.state a.evaluated e.0,
          subst (All IsSaved) (sym a.kept)
              (All-drop_saved (last_irreversible c'.state) ((suc c.revision, c.state) ∷ c.saved) e),
        )

    pub push_block-Everywhere :
        (id previous : ℕ) (c : Chain app)
        → Everywhere c
        → Everywhere (push_block app id previous c).1
    push_block-Everywhere =
        push_block-Kept app Everywhere (λ c f e. e) apply_block-Everywhere undo-Everywhere
