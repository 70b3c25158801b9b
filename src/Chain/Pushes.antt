-- ===== src/Chain/Pushes.antt =====
-- How a push on a tree ends, and the fork database after it.
use xgt.Base.{
  ℕ, suc, ◌+◌, ◌%◌, ◌^◌, ◌≡◌, ◌⊎◌, refl, subst, sym, Bool, true, false, Option, none, some, List,
  [], ◌∷◌, ◌==◌, ltb, arith, inl, inr, Option-cases, if◌then◌else◌,
}
use xgt.Base.Tables.{find_by, All, All-remove_by, All-find_by}
use xgt.ForkDatabase
use xgt.ForkDatabase.{Item, ForkDatabase, set_head, is_pushed, by_id}
use xgt.ForkDatabase.Branches.{Walk, arrived, lost, out_of_fuel, fetch_branch_from}
use xgt.ForkDatabase.Links.{Fits, Tree}
use xgt.ForkDatabase.Trees.{IsTree, IsNumbered, push_block-IsTree, to_IsTree}
use xgt.ForkDatabase.Fetch.{Answers, fetch_branch_from-Answers}
use xgt.Chain.{
  Block, block_of, Application, Chain, apply_block, Ending, returned, threw, out_of_steps, pop_to,
  apply_all, remove_all, ancestor, from_last, restore, recover, after_switch, apply_first,
  switch_along, switch_fork, extend, follow, push_block, fuel,
}
use xgt.Chain.Ends.{
  Ended, Branch-Fits, from_last-All, IsTreeHere, migrate-Tree, IsDone, pop_to-IsDone,
}

module _ (app : Application) (names : ℕ → ℕ) (next : ℕ) where
  open app use {State, evaluate, head_id, head_num, num_from_id}

  abbrev Here : Chain app → Type 0
  Here c = IsTreeHere app names next c

  abbrev Done : Ending × Chain app → Type 0
  Done r = IsDone app names next r

  abbrev Fit : List Item → Type 0
  Fit xs = All (Fits num_from_id names next) xs

  apply_block-Tree :
      (b : Block) (c c' : Chain app) → Here c → apply_block app b c ≡ some c' → Here c'
  unfolding apply_block
  apply_block-Tree b c c' t h = elim (Option-cases (evaluate b c.state)) [
    | inl e ↦ absurd (ground arith)
    | inr (s, e) ↦
        migrate-Tree app names next
          (record c {
            state = s;
            saved = (suc c.revision, c.state) ∷ c.saved;
            revision = suc c.revision;
          })
          c' t (ground arith)
  ]

  set_head-Tree :
      (x : Item) (d : ForkDatabase)
      → Fits num_from_id names next x
      → Tree num_from_id names next d
      → Tree num_from_id names next (set_head (some x) d)
  unfolding set_head
  set_head-Tree x d f t = record {
    indexed = t.indexed;
    unlinked = t.unlinked;
    headed = λ h e. subst (Fits num_from_id names next) (ground arith) f;
    free = t.free;
  }

  apply_all-Tree : (xs : List Item) (c : Chain app) → Fit xs → Here c → Here (apply_all app xs c).1
  unfolding apply_all
  apply_all-Tree [] c f t = t
  apply_all-Tree (x ∷ xs) c f t =
      let c' : Chain app = record c { fork_db = set_head (some x) c.fork_db } in
      let t' = set_head-Tree x c.fork_db f.0 t in
      elim (Option-cases (apply_block app (block_of x) c')) [
        | inl e ↦
            subst (λ (r : List Item × Chain app). Here r.1) {x = (x ∷ xs, c')}
              {y = apply_all app (x ∷ xs) c} (ground arith) t'
        | inr (c'', e) ↦
            subst (λ (r : List Item × Chain app). Here r.1) {x = apply_all app xs c''}
              {y = apply_all app (x ∷ xs) c} (ground arith)
              (apply_all-Tree xs c'' f.1 (apply_block-Tree (block_of x) c' c'' t' e))
      ]

  remove-Tree :
      (i : ℕ) (d : ForkDatabase)
      → Tree num_from_id names next d
      → Tree num_from_id names next (ForkDatabase.remove i d)
  unfolding ForkDatabase.remove
  remove-Tree i d t = record {
    indexed = All-remove_by (Fits num_from_id names next) (by_id i) d.index t.indexed;
    unlinked = t.unlinked;
    headed = t.headed;
    free = t.free;
  }

  remove_all-Tree :
      (xs : List Item) (d : ForkDatabase)
      → Tree num_from_id names next d
      → Tree num_from_id names next (remove_all xs d)
  unfolding remove_all
  remove_all-Tree [] d t = t
  remove_all-Tree (x ∷ xs) d t =
      remove_all-Tree xs (ForkDatabase.remove x.id d) (remove-Tree x.id d t)

  restore-Done :
      (second : List Item) (r : Ending × Chain app)
      → Fit second
      → Done r
      → Done (restore app second r)
  unfolding restore
  restore-Done second (returned b, c) f (e, t) =
      (λ g. cc, apply_all-Tree (from_last second) c (from_last-All _ second f) t)
  restore-Done second (threw, c) f d = d
  restore-Done second (out_of_steps, c) f d = d

  after_switch-Done :
      (second : List Item) (r : List Item × Chain app)
      → Fit second
      → Here r.1
      → Done (after_switch app second r)
  unfolding after_switch recover
  after_switch-Done second ([], c) f t = (λ g. cc, t)
  after_switch-Done second (x ∷ xs, c) f t =
      let c' : Chain app = record c { fork_db = remove_all (x ∷ xs) c.fork_db } in
      restore-Done second (pop_to app (fuel app c') (ancestor second) c') f (
        pop_to-IsDone app names next (fuel app c') (ancestor second) c'
          (remove_all-Tree (x ∷ xs) c.fork_db t) (omega arith))

  apply_first-Done :
      (first second : List Item) (r : Ending × Chain app)
      → Fit first
      → Fit second
      → Done r
      → Done (apply_first app first second r)
  unfolding apply_first
  apply_first-Done first second (returned b, c) f g (e, t) =
      after_switch-Done second (apply_all app (from_last first) c) g
        (apply_all-Tree (from_last first) c (from_last-All _ first f) t)
  apply_first-Done first second (threw, c) f g d = d
  apply_first-Done first second (out_of_steps, c) f g d = d

  switch_along-Done :
      (x y : Item) (w : Walk (List Item × List Item)) (c : Chain app)
      → Fits num_from_id names next x
      → Fits num_from_id names next y
      → Answers c.fork_db x y w
      → Here c
      → Done (switch_along app w c)
  unfolding switch_along
  switch_along-Done x y (arrived r) c f g parts t =
      apply_first-Done r.0 r.1 (pop_to app (fuel app c) (ancestor r.1) c)
        (Branch-Fits num_from_id names next c.fork_db x parts.first_end r.0 t f parts.first)
        (Branch-Fits num_from_id names next c.fork_db y parts.second_end r.1 t g parts.second)
        (pop_to-IsDone app names next (fuel app c) (ancestor r.1) c t (omega arith))
  switch_along-Done x y lost c f g parts t = (λ e. cc, t)
  switch_along-Done x y out_of_fuel c f g parts t = absurd parts

-- A chain whose fork database is a tree, after a call that ends.
abbrev pub Ends : (app : Application) → Ending × Chain app → Type 0
Ends app r = Ended r.0 × IsTree app.num_from_id r.1.fork_db

no_branch :
    (i j : ℕ) (d : ForkDatabase)
    → (find_by (by_id i) d.index ≡ none) ⊎ (find_by (by_id j) d.index ≡ none)
    → fetch_branch_from i j d ≡ lost
unfolding fetch_branch_from
no_branch i j d (inl e) = rw e refl
no_branch i j d (inr e) = ground arith

module _ (app : Application) where
  open app use {State, head_id, head_num, num_from_id}

  switch_fork-Ends :
      (new : ℕ) (c : Chain app) → IsTree num_from_id c.fork_db → Ends app (switch_fork app new c)
  unfolding switch_fork switch_along
  switch_fork-Ends new c t = elim (Option-cases (find_by (by_id new) c.fork_db.index)) [
    | inl e ↦ without (inl e)
    | inr (x, e) ↦ elim (Option-cases (find_by (by_id (head_id c.state)) c.fork_db.index)) [
      | inl f ↦ without (inr f)
      | inr (y, f) ↦
          let fits = Fits num_from_id t.names c.fork_db.next_address in
          let answers =
            fetch_branch_from-Answers num_from_id new (head_id c.state) c.fork_db x y t e f in
          let (ended, tree) =
            switch_along-Done app t.names c.fork_db.next_address x y
              (fetch_branch_from new (head_id c.state) c.fork_db) c
              (All-find_by fits (by_id new) x c.fork_db.index t.tree.indexed e)
              (All-find_by fits (by_id (head_id c.state)) y c.fork_db.index t.tree.indexed f)
              answers t.tree in
          (ended, to_IsTree num_from_id t.names c.fork_db.next_address _ tree)
    ]
  ]
    where
      without :
          (find_by (by_id new) c.fork_db.index ≡ none)
            ⊎ (find_by (by_id (head_id c.state)) c.fork_db.index ≡ none)
          → Ends app (switch_fork app new c)
      without h =
          subst (λ (w : Walk (List Item × List Item)). Ends app (switch_along app w c))
            (sym (no_branch new (head_id c.state) c.fork_db h)) (λ e. cc, t)

  extend-Ends :
      (b : Block) (c : Chain app) → IsTree num_from_id c.fork_db → Ends app (extend app b c)
  unfolding extend
  extend-Ends b c t = elim (Option-cases (apply_block app b c)) [
    | inl e ↦
        let kept : Chain app = record c { fork_db = ForkDatabase.remove b.id c.fork_db } in
        subst (Ends app) {x = (threw, kept)} {y = extend app b c} (ground arith) (
          λ f. cc,
          to_IsTree num_from_id t.names c.fork_db.next_address kept.fork_db
              (remove-Tree app t.names c.fork_db.next_address b.id c.fork_db t.tree),
        )
    | inr (c', e) ↦
        subst (Ends app) {x = (returned false, c')} {y = extend app b c} (ground arith) (
          λ f. cc,
          to_IsTree num_from_id t.names c.fork_db.next_address c'.fork_db
              (apply_block-Tree app t.names c.fork_db.next_address b c c' t.tree e),
        )
  ]

  pick :
      (b : Bool) (r s : Ending × Chain app)
      → Ends app r
      → Ends app s
      → Ends app (if b then r else s)
  pick true r s p q = p
  pick false r s p q = q

  follow-Ends :
      (b : Block) (o : Option Item) (c : Chain app)
      → IsTree num_from_id c.fork_db
      → Ends app (follow app b o c)
  unfolding follow
  follow-Ends b none c t = (λ e. cc, t)
  follow-Ends b (some h) c t =
      let other : Ending × Chain app = (returned false, c) in
      pick (h.previous == head_id c.state) (extend app b c)
        (if ltb (head_num c.state) h.num then switch_fork app h.id c else other) (extend-Ends b c t)
        (pick (ltb (head_num c.state) h.num) (switch_fork app h.id c) other
          (switch_fork-Ends h.id c t) (λ e. cc, t))

-- On a fork database that is a tree, a push of a numbered block always ends, returning or throwing,
-- whatever the blocks do when they are evaluated, and leaves the fork database a tree.
pub push_block-Ends :
    (app : Application) (id previous : ℕ) (c : Chain app)
    → IsTree app.num_from_id c.fork_db
    → IsNumbered app.num_from_id id previous
    → Ends app (push_block app id previous c)
unfolding push_block
push_block-Ends app id previous c t n =
    let f = ForkDatabase.push_block app.num_from_id id previous c.fork_db in
    let m : Chain app = record c { fork_db = f.1 } in
    let b : Block = record {
      id = id;
      previous = previous;
      num = (app.num_from_id previous + 1) % 2 ^ 32;
    } in
    let t' = push_block-IsTree app.num_from_id id previous c.fork_db n t in
    pick app (is_pushed f.0) (follow app b f.1.head m) (threw, m) (follow-Ends app b f.1.head m t')
      (λ e. cc, t')
