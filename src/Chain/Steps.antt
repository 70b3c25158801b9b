-- ===== src/Chain/Steps.antt =====
-- What each step of a push does to the state, its sessions and their revisions.
use xgt.Base.{ℕ, suc, ◌≡◌, subst, sym, ap, ◌∙◌, some, List, [], ◌∷◌, arith, inl, inr, Option-cases}
use xgt.ForkDatabase
use xgt.ForkDatabase.{Item, ForkDatabase, set_head, is_pushed}
use xgt.Chain.{Block, Application, Chain, drop_saved, apply_block, undo, pop_block}
use xgt.Chain.History.{History, applied, HasHistory, drop_saved-History, migrate-inv}

module _ (app : Application) where
  open app use {State, evaluate, head_id, head_num, last_irreversible, num_from_id, sets_id}

  pub record Applied (b : Block) (c c' : Chain app) : Type 0 where
    pub evaluated : evaluate b c.state ≡ some c'.state
    pub revised : c'.revision ≡ suc c.revision
    pub kept :
        c'.saved ≡ drop_saved app (last_irreversible c'.state) ((suc c.revision, c.state) ∷ c.saved)

  pub apply_block-Applied :
      (b : Block) (c c' : Chain app) → apply_block app b c ≡ some c' → Applied b c c'
  unfolding apply_block
  apply_block-Applied b c c' h = elim (Option-cases (evaluate b c.state)) [
    | inl e ↦ absurd (ground arith)
    | inr (s, e) ↦
        let m : Chain app = record c {
          state = s;
          saved = (suc c.revision, c.state) ∷ c.saved;
          revision = suc c.revision;
        } in
        let (i, j, k) = migrate-inv app m c' (ground arith) in
        record {
          evaluated = e ∙ ap some (sym i);
          revised = j;
          kept =
              subst
                (λ t.
                  c'.saved
                  ≡ drop_saved app (last_irreversible t) ((suc c.revision, c.state) ∷ c.saved))
                (sym i) k;
        }
  ]

  pub apply_block-History :
      (b : Block) (c c' : Chain app)
      → HasHistory app c
      → apply_block app b c ≡ some c'
      → HasHistory app c'
  apply_block-History b c c' g h =
      let a = apply_block-Applied b c c' h in
      subst (λ (l : List (ℕ × State)). History app c'.state l c'.revision) (sym a.kept)
        (drop_saved-History app (last_irreversible c'.state) c'.state
          ((suc c.revision, c.state) ∷ c.saved) c'.revision
          (subst (History app c'.state ((suc c.revision, c.state) ∷ c.saved)) (sym a.revised)
            (applied a.evaluated g)))

  -- One session undone, if there is one.
  pub undo-History : (c : Chain app) → HasHistory app c → HasHistory app (undo app c)
  unfolding undo
  undo-History c g = go c.fork_db c.state c.saved c.revision c.log g
    where
      go :
          (d : ForkDatabase) (s : State) (saved : List (ℕ × State)) (r : ℕ) (log : List Block)
          → History app s saved r
          → HasHistory app
              (undo app (record { fork_db = d; state = s; saved = saved; revision = r; log = log }))
      go d s [] r log h = h
      go d s (p ∷ older) r log (applied {r = q} e h) = subst (History app p.1 older) (omega arith) h

  pub pop_block-inv :
      (c c' : Chain app)
      → pop_block app c ≡ some c'
      → (f : ForkDatabase) × (ForkDatabase.pop_block c.fork_db ≡ some f)
        × (c' ≡ undo app (record c { fork_db = f }))
  unfolding pop_block
  pop_block-inv c c' h = elim (Option-cases (ForkDatabase.pop_block c.fork_db)) [
    | inl e ↦ absurd (ground arith)
    | inr (f, e) ↦ (f, e, ground arith)
  ]
