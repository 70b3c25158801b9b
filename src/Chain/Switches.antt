-- ===== src/Chain/Switches.antt =====
-- What a push has done when it returns.
use xgt.Base.{ℕ, ◌≤◌, ◌<◌, ◌≡◌, Bool, true, false, Option, some, List}
use xgt.Base.Tables.{find_by}
use xgt.ForkDatabase
use xgt.ForkDatabase.{Item, ForkDatabase, by_id}
use xgt.ForkDatabase.Branches.{arrived, asserted, branches, fetch_branch_from}
use xgt.ForkDatabase.Forks.{asserted-arrived}
use xgt.Chain.{Block, Application, Chain}
use xgt.Chain.Switch.{Switched}

pub fetched :
    (i j : ℕ) (d : ForkDatabase) (r : List Item × List Item)
    → fetch_branch_from i j d ≡ arrived r
    → (x : Item) × (y : Item) × (find_by (by_id i) d.index ≡ some x)
      × (find_by (by_id j) d.index ≡ some y)
unfolding fetch_branch_from
fetched i j d r h =
    let (x, e, h') =
      asserted-arrived (find_by (by_id i) d.index)
        (λ x. asserted (find_by (by_id j) d.index) λ y. branches x y d) r h in
    let (y, f, h'') = asserted-arrived (find_by (by_id j) d.index) (λ y. branches x y d) r h' in
    (x, y, e, f)

module _ (app : Application) where
  open app use {State, evaluate, head_id, head_num, num_from_id}

  -- How a push that returns may end, by the head `o` that the fork database then has: with a switch
  -- to that head, which is higher than the state's; with the block on the state; or, where that head
  -- is not higher, with the state as it was.
  pub data Returns (b : Block) (o : Option Item) (c c' : Chain app) : Bool → Type 0 where
    switched :
        (h : Item)
        → o ≡ some h
        → head_num c.state < h.num
        → Switched app c h.id c'
        → Returns b o c c' true
    extended :
        (h : Item)
        → o ≡ some h
        → h.previous ≡ head_id c.state
        → evaluate b c.state ≡ some c'.state
        → Returns b o c c' false
    ignored :
        (h : Item)
        → o ≡ some h
        → h.num ≤ head_num c.state
        → c'.state ≡ c.state
        → Returns b o c c' false
