-- ===== src/Chain/StaleHead.antt =====
-- The fork database's head after a block that could not be applied, and the next push.
use xgt.Base.{ℕ, ◌+◌, ◌%◌, ◌^◌, ◌≡◌, ◌≢◌, refl, ap, ◌∙◌, true, false, none, some, ◌==◌, ==_iff}
use xgt.ForkDatabase
use xgt.ForkDatabase.{Item, ForkDatabase, Outcome, pushed}
use xgt.Chain.{
  Block, Application, Chain, apply_block, Ending, returned, threw, extend, follow, push_block,
}
use xgt.Chain.Steps.{apply_block-Applied}

module _ (app : Application) where
  open app use {State, head_id, num_from_id, sets_id}

  abbrev block : ℕ → ℕ → Block
  block id previous = record {
    id = id;
    previous = previous;
    num = (num_from_id previous + 1) % 2 ^ 32;
  }

  abbrev with_forks : ForkDatabase → Chain app → Chain app
  with_forks d c = record c { fork_db = d }

  -- A push after which the fork database's head is on the head of the chain goes to the block that
  -- was pushed, whichever that is.
  push_block-extend :
      (id previous : ℕ) (c : Chain app) (f : ForkDatabase) (n : Item)
      → ForkDatabase.push_block num_from_id id previous c.fork_db ≡ (pushed, f)
      → f.head ≡ some n
      → n.previous ≡ head_id c.state
      → push_block app id previous c ≡ extend app (block id previous) (with_forks f c)
  unfolding push_block follow
  push_block-extend id previous c f n p h e =
      let on_head : (n.previous == head_id c.state) ≡ true =
        (==_iff n.previous (head_id c.state)).1 e in
      rw p (rw h (rw on_head refl))

  pub record Misapplied (id_n id previous : ℕ) (c c' : Chain app) : Type 0 where
    pub thrown : (push_block app id_n (head_id c.state) c).0 ≡ threw
    pub taken :
        push_block app id previous (push_block app id_n (head_id c.state) c).1
        ≡ (returned false, c')
    pub head : head_id c'.state ≡ id
    pub elsewhere : previous ≢ head_id c.state

-- A block that is on the head of the chain but cannot be applied is removed from the index and stays
-- the head of the fork database. If the next block is on another block, is no higher and can be
-- evaluated, then push_block applies it to the head all the same, and it becomes the new head.
pub push_block-Misapplied :
    (app : Application) (id_n id previous : ℕ) (c c' : Chain app) (f g : ForkDatabase) (n : Item)
    → ForkDatabase.push_block app.num_from_id id_n (app.head_id c.state) c.fork_db ≡ (pushed, f)
    → f.head ≡ some n
    → n.previous ≡ app.head_id c.state
    → apply_block app (block app id_n (app.head_id c.state)) (with_forks app f c) ≡ none
    → ForkDatabase.push_block app.num_from_id id previous (ForkDatabase.remove id_n f) ≡ (pushed, g)
    → g.head ≡ some n
    → previous ≢ app.head_id c.state
    → apply_block app (block app id previous) (with_forks app g c) ≡ some c'
    → Misapplied app id_n id previous c c'
unfolding extend
push_block-Misapplied app id_n id previous c c' f g n p h e fails q k other works =
    let first = push_block-extend app id_n (app.head_id c.state) c f n p h e in
    let removed : Chain app = with_forks app (ForkDatabase.remove id_n f) c in
    let failed : push_block app id_n (app.head_id c.state) c ≡ (threw, removed) =
      first ∙ (rw (extend, fails) refl) in
    let second = push_block-extend app id previous removed g n q k e in
    record {
      thrown = ap (λ (r : Ending × Chain app). r.0) failed;
      taken =
          ap (λ (r : Ending × Chain app). push_block app id previous r.1) failed
          ∙ second
          ∙ (rw (extend, works) refl);
      head =
          app.sets_id (block app id previous) c.state c'.state
            (apply_block-Applied app (block app id previous) (with_forks app g c) c'
              works).evaluated;
      elsewhere = other;
    }
