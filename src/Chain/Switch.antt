-- ===== src/Chain/Switch.antt =====
-- The parts of a switch: the pops back, and the branch that is applied.
use xgt.Base.{
  ℕ, zero, suc, ◌≡◌, refl, subst, sym, Bool, true, some, List, [], ◌∷◌, ◌++◌, ◌==◌, ==_iff, arith,
  inl, inr, Bool-cases, Option-cases,
}
use xgt.ForkDatabase.{Item, ForkDatabase, set_head}
use xgt.ForkDatabase.Forks.{Branch, last, longer}
use xgt.Chain.{
  Block, block_of, Application, Chain, apply_block, undo, pop_block, Ending, returned, threw,
  pop_to, apply_all, ancestor, from_last,
}
use xgt.Chain.History.{Replays, done, next, Undone, back}
use xgt.Chain.Steps.{apply_block-Applied, pop_block-inv}

pub Branch-ancestor :
    (d : ForkDatabase) (x u : Item) (xs : List Item) → Branch d x xs u → ancestor xs ≡ u.previous
unfolding ancestor
Branch-ancestor d x u xs last = refl
Branch-ancestor d x u xs (longer e last) = refl
Branch-ancestor d x u xs (longer e (longer {x = p} {xs = rest} f b)) =
    Branch-ancestor d p u (p ∷ rest) (longer f b)

pub from_last-head :
    (d : ForkDatabase) (x u : Item) (xs : List Item)
    → Branch d x xs u
    → (ys : List Item) × (from_last xs ≡ ys ++ x ∷ [])
unfolding from_last
from_last-head d x u xs last = ([], refl)
from_last-head d x u xs (longer {xs = rest} e b) = (from_last rest, refl)

module _ (app : Application) where
  open app use {State, evaluate, head_id, head_num, num_from_id, sets_id}

  Undone-undo :
      (s : State) (saved : List (ℕ × State)) (c : Chain app)
      → Undone app s saved c.state c.saved
      → Undone app s saved (undo app c).state (undo app c).saved
  unfolding undo
  Undone-undo s saved c u = go c.fork_db c.state c.saved c.revision c.log u
    where
      go :
          (d : ForkDatabase) (t : State) (older : List (ℕ × State)) (r : ℕ) (log : List Block)
          → Undone app s saved t older
          → (let c' =
                undo app
                  (record { fork_db = d; state = t; saved = older; revision = r; log = log }) in
              Undone app s saved c'.state c'.saved)
      go d t [] r log u = u
      go d t (p ∷ older) r log u = back u

  -- Where the loop of pops ends well, it is at the block that it looks for.
  pub record Popped (s : State) (saved : List (ℕ × State)) (target : ℕ) (r : Ending × Chain app)
      : Type 0 where
    pub undone : Undone app s saved r.1.state r.1.saved
    pub found : (b : Bool) → r.0 ≡ returned b → head_id r.1.state ≡ target

  pub pop_to-Popped :
      (n target : ℕ) (s : State) (saved : List (ℕ × State)) (c : Chain app)
      → Undone app s saved c.state c.saved
      → Popped s saved target (pop_to app n target c)
  unfolding pop_to
  pop_to-Popped zero target s saved c u = elim (Bool-cases (head_id c.state == target)) [
    | inl e ↦ rw e (record { undone = u; found = λ b h. (==_iff (head_id c.state) target).0 e })
    | inr e ↦ rw e (record { undone = u; found = λ b h. cc })
  ]
  pop_to-Popped (suc n) target s saved c u = elim (Bool-cases (head_id c.state == target)) [
    | inl e ↦
        subst (Popped s saved target) {x = (returned true, c)} (ground arith)
          (record { undone = u; found = λ b h. (==_iff (head_id c.state) target).0 e })
    | inr e ↦ elim (Option-cases (pop_block app c)) [
      | inl f ↦
          subst (Popped s saved target) {x = (threw, c)} (ground arith)
            (record { undone = u; found = λ b h. cc })
      | inr (c', f) ↦
          let (d, k, same) = pop_block-inv app c c' f in
          subst (Popped s saved target) {x = pop_to app n target c'} (ground arith) (
            pop_to-Popped n target s saved c' (
              subst (λ (x : Chain app). Undone app s saved x.state x.saved) (sym same)
                (Undone-undo s saved (record c { fork_db = d }) u)))
    ]
  ]

  pub apply_all-Replays :
      (xs : List Item) (c : Chain app)
      → (apply_all app xs c).0 ≡ []
      → Replays app c.state xs (apply_all app xs c).1.state
  unfolding apply_all
  apply_all-Replays [] c h = done
  apply_all-Replays (x ∷ xs) c h =
      let c' : Chain app = record c { fork_db = set_head (some x) c.fork_db } in
      elim (Option-cases (apply_block app (block_of x) c')) [
        | inl e ↦ absurd (ground arith)
        | inr (c'', e) ↦
            subst (λ (r : List Item × Chain app). Replays app c.state (x ∷ xs) r.1.state)
              {x = apply_all app xs c''} {y = apply_all app (x ∷ xs) c} (ground arith)
              (next (apply_block-Applied app (block_of x) c' c'' e).evaluated
                (apply_all-Replays xs c'' (ground arith)))
      ]

  -- The branch of items ends in the block `new`, and was evaluated on a state of the chain where
  -- the head is the block before the branch.
  pub record Switched (c : Chain app) (new : ℕ) (c' : Chain app) : Type 0 where
    pub branch : List Item
    pub base : State
    pub older : List (ℕ × State)
    pub undone : Undone app c.state c.saved base older
    pub joined : head_id base ≡ ancestor branch
    pub replayed : Replays app base (from_last branch) c'.state
    pub head : head_id c'.state ≡ new

  pub Replays-last :
      (s t : State) (xs : List Item) (x : Item) → Replays app s (xs ++ x ∷ []) t → head_id t ≡ x.id
  Replays-last s t [] x (next e done) = sets_id (block_of x) s t e
  Replays-last s t (y ∷ xs) x (next {t = u} e r) = Replays-last u t xs x r
