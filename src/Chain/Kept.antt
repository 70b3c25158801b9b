-- ===== src/Chain/Kept.antt =====
-- What evaluating a block and undoing one keep, a push keeps.
use xgt.Base.{
  ℕ, zero, suc, ◌≡◌, sym, Bool-cases, ◌+◌, ◌%◌, ◌^◌, subst, Bool, true, false, Option, none, some,
  List, [], ◌∷◌, ◌==◌, ltb, arith, inl, inr, Option-cases, if◌then◌else◌,
}
use xgt.ForkDatabase
use xgt.ForkDatabase.{set_head, Item, ForkDatabase, is_pushed}
use xgt.ForkDatabase.Branches.{Walk, arrived, lost, out_of_fuel, fetch_branch_from}
use xgt.Chain.{
  Block, block_of, Application, undo, pop_block, Chain, apply_block, Ending, returned, threw,
  out_of_steps, pop_to, apply_all, remove_all, ancestor, from_last, restore, recover, after_switch,
  apply_first, switch_along, switch_fork, extend, follow, push_block, fuel,
}
use xgt.Chain.Steps.{pop_block-inv}

module _ (app : Application) (K : Chain app → Type 0)
    (moved : (c : Chain app) (f : ForkDatabase) → K c → K (record c { fork_db = f }))
    (applied : (b : Block) (c c' : Chain app) → K c → apply_block app b c ≡ some c' → K c')
    (undone : (c : Chain app) → K c → K (undo app c)) where
  open app use {State, head_id, head_num, num_from_id}

  -- A round of the loop, after a pop that throws or not.
  pop_to-next :
      (P : Chain app → Type 0) (n target : ℕ) (c : Chain app)
      → P c
      → ((c' : Chain app) → pop_block app c ≡ some c' → P (pop_to app n target c').1)
      → P (pop_to app (suc n) target c).1
  unfolding pop_to
  pop_to-next P n target c here rest = elim (Bool-cases (head_id c.state == target)) [
    | inl e ↦
        subst (λ (r : Ending × Chain app). P r.1) {x = (returned true, c)}
          {y = pop_to app (suc n) target c} (ground arith) here
    | inr e ↦ elim (Option-cases (pop_block app c)) [
      | inl f ↦
          subst (λ (r : Ending × Chain app). P r.1) {x = (threw, c)}
            {y = pop_to app (suc n) target c} (ground arith) here
      | inr (c', f) ↦
          subst (λ (r : Ending × Chain app). P r.1) {x = pop_to app n target c'}
            {y = pop_to app (suc n) target c} (ground arith) (rest c' f)
    ]
  ]

  pop_to-Kept : (n target : ℕ) (c : Chain app) → K c → K (pop_to app n target c).1
  unfolding pop_to
  pop_to-Kept zero target c g = g
  pop_to-Kept (suc n) target c g = pop_to-next K n target c g λ c' e.
      let (f, k, same) = pop_block-inv app c c' e in
      pop_to-Kept n target c' (subst K (sym same) (undone (record c { fork_db = f }) (moved c f g)))

  apply_all-Kept : (xs : List Item) (c : Chain app) → K c → K (apply_all app xs c).1
  unfolding apply_all
  apply_all-Kept [] c g = g
  apply_all-Kept (x ∷ xs) c g =
      let c' : Chain app = record c { fork_db = set_head (some x) c.fork_db } in
      elim (Option-cases (apply_block app (block_of x) c')) [
        | inl e ↦
            subst (λ (r : List Item × Chain app). K r.1) {x = (x ∷ xs, c')}
              {y = apply_all app (x ∷ xs) c} (ground arith) (moved c _ g)
        | inr (c'', e) ↦
            subst (λ (r : List Item × Chain app). K r.1) {x = apply_all app xs c''}
              {y = apply_all app (x ∷ xs) c} (ground arith)
              (apply_all-Kept xs c'' (applied (block_of x) c' c'' (moved c _ g) e))
      ]

  restore-Kept : (second : List Item) (r : Ending × Chain app) → K r.1 → K (restore app second r).1
  unfolding restore
  restore-Kept second (returned b, c) g = apply_all-Kept (from_last second) c g
  restore-Kept second (threw, c) g = g
  restore-Kept second (out_of_steps, c) g = g

  after_switch-Kept :
      (second : List Item) (r : List Item × Chain app) → K r.1 → K (after_switch app second r).1
  unfolding after_switch recover
  after_switch-Kept second ([], c) g = g
  after_switch-Kept second (x ∷ xs, c) g =
      let c' : Chain app = record c { fork_db = remove_all (x ∷ xs) c.fork_db } in
      restore-Kept second (pop_to app (fuel app c') (ancestor second) c')
        (pop_to-Kept (fuel app c') (ancestor second) c' (moved c _ g))

  apply_first-Kept :
      (first second : List Item) (r : Ending × Chain app)
      → K r.1
      → K (apply_first app first second r).1
  unfolding apply_first
  apply_first-Kept first second (returned b, c) g =
      after_switch-Kept second (apply_all app (from_last first) c)
        (apply_all-Kept (from_last first) c g)
  apply_first-Kept first second (threw, c) g = g
  apply_first-Kept first second (out_of_steps, c) g = g

  switch_along-Kept :
      (w : Walk (List Item × List Item)) (c : Chain app) → K c → K (switch_along app w c).1
  unfolding switch_along
  switch_along-Kept lost c g = g
  switch_along-Kept out_of_fuel c g = g
  switch_along-Kept (arrived r) c g =
      apply_first-Kept r.0 r.1 (pop_to app (fuel app c) (ancestor r.1) c)
        (pop_to-Kept (fuel app c) (ancestor r.1) c g)

  extend-Kept : (b : Block) (c : Chain app) → K c → K (extend app b c).1
  unfolding extend
  extend-Kept b c g = elim (Option-cases (apply_block app b c)) [
    | inl e ↦
        let kept : Chain app = record c { fork_db = ForkDatabase.remove b.id c.fork_db } in
        subst (λ (r : Ending × Chain app). K r.1) {x = (threw, kept)} {y = extend app b c}
          (ground arith) (moved c _ g)
    | inr (c', e) ↦
        subst (λ (r : Ending × Chain app). K r.1) {x = (returned false, c')} {y = extend app b c}
          (ground arith) (applied b c c' g e)
  ]

  pick : (b : Bool) (r s : Ending × Chain app) → K r.1 → K s.1 → K (if b then r else s).1
  pick true r s g h = g
  pick false r s g h = h

  follow-Kept : (b : Block) (o : Option Item) (c : Chain app) → K c → K (follow app b o c).1
  unfolding follow switch_fork
  follow-Kept b none c g = g
  follow-Kept b (some h) c g =
      let walk = fetch_branch_from h.id (head_id c.state) c.fork_db in
      let other : Ending × Chain app = (returned false, c) in
      pick (h.previous == head_id c.state) (extend app b c)
        (if ltb (head_num c.state) h.num then switch_along app walk c else other)
        (extend-Kept b c g)
        (pick (ltb (head_num c.state) h.num) (switch_along app walk c) other
          (switch_along-Kept walk c g) g)

  -- However push_block ends.
  pub push_block-Kept : (id previous : ℕ) (c : Chain app) → K c → K (push_block app id previous c).1
  unfolding push_block
  push_block-Kept id previous c g =
      let r = ForkDatabase.push_block num_from_id id previous c.fork_db in
      let c' : Chain app = record c { fork_db = r.1 } in
      let b : Block = record {
        id = id;
        previous = previous;
        num = (num_from_id previous + 1) % 2 ^ 32;
      } in
      pick (is_pushed r.0) (follow app b r.1.head c') (threw, c')
        (follow-Kept b r.1.head c' (moved c _ g)) (moved c _ g)
