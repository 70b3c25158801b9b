-- ===== src/Chain/Ends.antt =====
-- How the pops end, and the fork database after each step.
use xgt.Base.{
  ℕ, zero, suc, ◌+◌, ◌-◌, ◌≤◌, ◌%◌, ◌^◌, ◌≡◌, ◌≢◌, subst, sym, ap, ◌∙◌, true, Option, none, some,
  List, [], ◌∷◌, ◌++◌, ◌==◌, arith, inl, inr, Bool-cases, Option-cases,
}
use xgt.Base.Tables.{All}
use xgt.ForkDatabase
use xgt.ForkDatabase.{Item, ForkDatabase, set_head, set_max_size, is_pushed, by_id, lock}
use xgt.ForkDatabase.Links.{Fits, Tree, set_max_size-Tree, pop_block-Tree, parent-Fits}
use xgt.ForkDatabase.Forks.{Branch, last, longer}
use xgt.Chain.{
  Application, Chain, migrate_irreversible_state, undo, pop_block, Ending, returned, threw,
  out_of_steps, pop_to, from_last, fuel, fuel_of,
}
use xgt.Chain.Steps.{pop_block-inv}

abbrev pub Ended : Ending → Type 0
Ended e = e ≢ out_of_steps

-- The items of a branch, all as they should be.
pub Branch-Fits :
    (num_from_id names : ℕ → ℕ) (next : ℕ) (d : ForkDatabase) (x u : Item) (xs : List Item)
    → Tree num_from_id names next d
    → Fits num_from_id names next x
    → Branch d x xs u
    → All (Fits num_from_id names next) xs
Branch-Fits n names next d x u xs t f last = (f, tt)
Branch-Fits n names next d x u xs t f (longer {p = p} {xs = rest} e b) =
    (f, Branch-Fits n names next d p u rest t (parent-Fits n names next x p d t f e).0 b)

All-append : (P : Item → Type 0) (xs ys : List Item) → All P xs → All P ys → All P (xs ++ ys)
All-append P [] ys a b = b
All-append P (x ∷ xs) ys a b = (a.0, All-append P xs ys a.1 b)

pub from_last-All : (P : Item → Type 0) (xs : List Item) → All P xs → All P (from_last xs)
unfolding from_last
from_last-All P [] a = tt
from_last-All P (x ∷ xs) a = All-append P (from_last xs) (x ∷ []) (from_last-All P xs a.1) (a.0, tt)

pub pop_block-num :
    (num_from_id names : ℕ → ℕ) (next : ℕ) (d f : ForkDatabase)
    → Tree num_from_id names next d
    → ForkDatabase.pop_block d ≡ some f
    → suc (fuel_of f.head) ≤ fuel_of d.head
unfolding ForkDatabase.pop_block
pop_block-num n names next d f t h = elim (Option-cases d.head) [
  | inl e ↦ absurd (ground arith)
  | inr (k, e) ↦ elim (Option-cases (lock k.prev d)) [
    | inl g ↦ absurd (ground arith)
    | inr (p, g) ↦
        let (fp, same, one) = parent-Fits n names next k p d t (t.headed k e) g in
        let headed : f.head ≡ some p = ground arith in rw (headed, e) (omega (arith, one))
  ]
]

module _ (app : Application) (names : ℕ → ℕ) (next : ℕ) where
  open app use {State, evaluate, head_id, head_num, num_from_id}

  abbrev pub IsTreeHere : Chain app → Type 0
  IsTreeHere c = Tree num_from_id names next c.fork_db

  undo-fork_db : (c : Chain app) → (undo app c).fork_db ≡ c.fork_db
  unfolding undo
  undo-fork_db c = ground arith

  pub migrate-Tree :
      (c c' : Chain app) → IsTreeHere c → migrate_irreversible_state app c ≡ some c' → IsTreeHere c'
  unfolding migrate_irreversible_state
  migrate-Tree c c' t h =
      let n = (head_num c.state + 2 ^ 32 - app.last_irreversible c.state + 1) % 2 ^ 32 in
      subst (Tree num_from_id names next) {x = set_max_size 1024 (set_max_size n c.fork_db)}
        (ground arith)
        (set_max_size-Tree num_from_id names next 1024 (set_max_size n c.fork_db)
          (set_max_size-Tree num_from_id names next n c.fork_db t))

  pop_block-Tree' :
      (c c' : Chain app)
      → IsTreeHere c
      → pop_block app c ≡ some c'
      → IsTreeHere c' × (suc (fuel app c') ≤ fuel app c)
  pop_block-Tree' c c' t h =
      let (f, e, same) = pop_block-inv app c c' h in
      let forks : c'.fork_db ≡ f =
        ap (λ (x : Chain app). x.fork_db) same ∙ undo-fork_db (record c { fork_db = f }) in
      (
        subst (Tree num_from_id names next) (sym forks)
            (pop_block-Tree num_from_id names next c.fork_db f t e),
        subst (λ (d : ForkDatabase). suc (fuel_of d.head) ≤ fuel app c) (sym forks)
            (pop_block-num num_from_id names next c.fork_db f t e),
      )

  abbrev pub IsDone : Ending × Chain app → Type 0
  IsDone r = Ended r.0 × IsTreeHere r.1

  pub pop_to-IsDone :
      (n target : ℕ) (c : Chain app)
      → IsTreeHere c
      → fuel app c ≤ n
      → IsDone (pop_to app n target c)
  unfolding pop_to
  pop_to-IsDone zero target c t le = absurd (no_fuel c.fork_db.head le)
    where
      no_fuel : (o : Option Item) → fuel_of o ≤ 0 → ⊥
      no_fuel none h = omega arith
      no_fuel (some k) h = omega arith
  pop_to-IsDone (suc n) target c t le = elim (Bool-cases (head_id c.state == target)) [
    | inl e ↦
        subst IsDone {x = (returned true, c)} {y = pop_to app (suc n) target c} (ground arith)
          (λ f. cc, t)
    | inr e ↦ elim (Option-cases (pop_block app c)) [
      | inl f ↦
          subst IsDone {x = (threw, c)} {y = pop_to app (suc n) target c} (ground arith)
            (λ g. cc, t)
      | inr (c', f) ↦
          let (t', lt) = pop_block-Tree' c c' t f in
          subst IsDone {x = pop_to app n target c'} {y = pop_to app (suc n) target c} (ground arith)
            (pop_to-IsDone n target c' t' (omega (arith, lt, le)))
    ]
  ]
