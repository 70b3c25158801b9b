-- ===== src/Chain/History.antt =====
-- Where the state of the chain comes from.
use xgt.Base.{ℕ, suc, ◌≡◌, some, List, [], ◌∷◌, leb, arith, inl, inr, Bool-cases}
use xgt.ForkDatabase.{Item}
use xgt.Chain.{
  Block, block_of, Application, Chain, keep_saved, drop_saved, migrate_irreversible_state,
}

module _ (app : Application) where
  open app use {State, evaluate, head_id, head_num, num_from_id, sets_id, sets_num}

  -- From the oldest session on, each saved state is the one that a block was evaluated on to give
  -- the next, and the revisions count the blocks.
  pub data History : State → List (ℕ × State) → ℕ → Type 0 where
    begun : {s : State} {r : ℕ} → History s [] r
    applied :
        {b : Block} {s s' : State} {older : List (ℕ × State)} {r : ℕ}
        → evaluate b s ≡ some s'
        → History s older r
        → History s' ((suc r, s) ∷ older) (suc r)

  abbrev pub HasHistory : Chain app → Type 0
  HasHistory c = History c.state c.saved c.revision

  -- Evaluations of blocks one after the other.
  pub data Replays : State → List Item → State → Type 0 where
    done : {s : State} → Replays s [] s
    next :
        {x : Item} {xs : List Item} {s t u : State}
        → evaluate (block_of x) s ≡ some t
        → Replays t xs u
        → Replays s (x ∷ xs) u

  -- A state that some sessions lead back to, and the sessions below them.
  pub data Undone (s : State) (saved : List (ℕ × State)) : State → List (ℕ × State) → Type 0 where
    stays : Undone s saved s saved
    back :
        {k : ℕ} {t u : State} {older : List (ℕ × State)}
        → Undone s saved u ((k, t) ∷ older)
        → Undone s saved t older

  pub drop_saved-History :
      (k : ℕ) (s : State) (saved : List (ℕ × State)) (r : ℕ)
      → History s saved r
      → History s (drop_saved app k saved) r
  unfolding drop_saved
  drop_saved-History k s [] r h = begun
  drop_saved-History k s (p ∷ older) r (applied {b = b} {s = t} {r = q} e h) =
      kept (drop_saved app k older) (drop_saved-History k t older q h)
    where
      kept :
          (rest : List (ℕ × State))
          → History t rest q
          → History s (keep_saved app k (suc q, t) rest) (suc q)
      kept [] g = elim (Bool-cases (leb (suc q) k)) [
        | inl y ↦ rw y begun
        | inr n ↦ rw n (applied e begun)
      ]
      kept (o ∷ rest) g = applied e g

  -- migrate_irreversible_state leaves the state and drops sessions at the old end.
  pub migrate-inv :
      (c c' : Chain app)
      → migrate_irreversible_state app c ≡ some c'
      → (c'.state ≡ c.state)
        × (c'.revision ≡ c.revision)
        × (c'.saved ≡ drop_saved app (app.last_irreversible c.state) c.saved)
  unfolding migrate_irreversible_state
  migrate-inv c c' h = ground arith
