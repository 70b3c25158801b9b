-- ===== src/ForkDatabase/Ancestors.antt =====
-- The items that a walk over the links of a fork database passes.
use xgt.Base.{
  ℕ, zero, suc, ◌+◌, ◌≤◌, ◌≡◌, ◌≢◌, ◌↔◌, refl, subst, ap, Bool, Option, some, List, [], ◌∷◌, ltb,
  arith, inl, inr, Bool-cases, Option-cases,
}
use xgt.Base.Tables.{find_by}
use xgt.ForkDatabase.{Item, ForkDatabase, by_address, lock, fetch_block_by_number}
use xgt.ForkDatabase.Branches.{
  walk_back, walk_main_branch_to_num, only_or, fetch_block_on_main_branch_by_number,
}
use xgt.ForkDatabase.Links.{Fits, Tree, parent-Fits}
use xgt.ForkDatabase.Trees.{IsTree}

-- The links lead from one item to another, in any number of steps.
pub data Leads (d : ForkDatabase) : Item → Item → Type 0 where
  here : {x : Item} → Leads d x x
  back : {x p y : Item} → lock x.prev d ≡ some p → Leads d p y → Leads d x y

module _ (num_from_id : ℕ → ℕ) (names : ℕ → ℕ) (next : ℕ) (d : ForkDatabase)
    (t : Tree num_from_id names next d) where
  pub Leads-le : (x y : Item) → Fits num_from_id names next x → Leads d x y → y.num ≤ x.num
  Leads-le x y f here = omega arith
  Leads-le x y f (back {p = p} e l) =
      let (fp, same, one) = parent-Fits num_from_id names next x p d t f e in
      let le = Leads-le p y fp l in omega (arith, one, le)

  pub Leads-Fits :
      (x y : Item) → Fits num_from_id names next x → Leads d x y → Fits num_from_id names next y
  Leads-Fits x y f here = f
  Leads-Fits x y f (back {p = p} e l) =
      Leads-Fits p y (parent-Fits num_from_id names next x p d t f e).0 l

  walk_back-Leads :
      (fuel n : ℕ) (x p : Item)
      → Fits num_from_id names next x
      → n ≤ x.num
      → walk_back fuel n x d ≡ some p
      → Leads d x p × (p.num ≡ n)
  unfolding walk_back
  walk_back-Leads zero n x p f le h = elim (Bool-cases (ltb n x.num)) [
    | inl e ↦ absurd (ground arith)
    | inr e ↦ subst (λ y. Leads d x y × (y.num ≡ n)) {x = x} (ground arith) (here, ground arith)
  ]
  walk_back-Leads (suc fuel) n x p f le h = elim (Bool-cases (ltb n x.num)) [
    | inr e ↦ subst (λ y. Leads d x y × (y.num ≡ n)) {x = x} (ground arith) (here, ground arith)
    | inl e ↦ elim (Option-cases (lock x.prev d)) [
      | inl g ↦ absurd (ground arith)
      | inr (q, g) ↦
          let (fq, same, one) = parent-Fits num_from_id names next x q d t f g in
          let (l, num) = walk_back-Leads fuel n q p fq (ground arith) (ground arith) in
          (back g l, num)
    ]
  ]

  Leads-walk_back :
      (fuel : ℕ) (x p : Item)
      → Fits num_from_id names next x
      → x.num ≤ fuel + p.num
      → Leads d x p
      → walk_back fuel p.num x d ≡ some p
  unfolding walk_back
  Leads-walk_back zero x p f le here = ground arith
  Leads-walk_back (suc fuel) x p f le here = ground arith
  Leads-walk_back zero x p f le (back {p = q} e l) =
      let (fq, same, one) = parent-Fits num_from_id names next x q d t f e in
      let low = Leads-le q p fq l in absurd (omega (arith, one, low, le))
  Leads-walk_back (suc fuel) x p f le (back {p = q} e l) =
      let (fq, same, one) = parent-Fits num_from_id names next x q d t f e in
      let low = Leads-le q p fq l in
      let rest = Leads-walk_back fuel q p fq (omega (arith, one, le)) l in ground arith

-- From the head of a tree, walk_main_branch_to_num finds exactly the item with the number that the
-- links lead to, whenever there is one.
pub walk_main_branch_to_num_iff :
    (num_from_id : ℕ → ℕ) (d : ForkDatabase) (h p : Item) (n : ℕ)
    → IsTree num_from_id d
    → d.head ≡ some h
    → (walk_main_branch_to_num n d ≡ some p) ↔ (Leads d h p × (p.num ≡ n))
unfolding walk_main_branch_to_num
walk_main_branch_to_num_iff num_from_id d h p n t e =
    let f = t.tree.headed h e in
    (
      λ w. elim (Bool-cases (ltb h.num n)) [
        | inl high ↦ absurd (ground arith)
        | inr low ↦
            walk_back-Leads num_from_id t.names d.next_address d t.tree h.num n h p f (ground arith)
              (ground arith)
      ],
      λ (l, num).
          let le = Leads-le num_from_id t.names d.next_address d t.tree h p f l in
          let w =
            Leads-walk_back num_from_id t.names d.next_address d t.tree h.num h p f (omega arith)
              l in
          subst (λ k. walk_main_branch_to_num k d ≡ some p) num (ground arith),
    )

found_number :
    (n : ℕ) (p : Item) (q : Item → Bool) (xs : List Item)
    → find_by q xs ≡ some p
    → p.num ≡ n
    → fetch_block_by_number n xs ≢ []
unfolding find_by fetch_block_by_number
found_number n p q [] h e = absurd (ground arith)
found_number n p q (x ∷ xs) h e = ground (arith, found_number n p q xs)

only_number :
    (n : ℕ) (p z : Item) (q : Item → Bool) (xs : List Item)
    → find_by q xs ≡ some p
    → p.num ≡ n
    → fetch_block_by_number n xs ≡ z ∷ []
    → z ≡ p
unfolding find_by fetch_block_by_number
only_number n p z q [] h e f = absurd (ground arith)
only_number n p z q (x ∷ xs) h e f = ground (arith, only_number n p z q xs, found_number n p q xs)

by_size :
    (p : Item) (walk : Option Item) (xs : List Item)
    → xs ≢ []
    → ((z : Item) → xs ≡ z ∷ [] → z ≡ p)
    → walk ≡ some p
    → only_or walk xs ≡ some p
unfolding only_or
by_size p walk [] there only w = absurd (there refl)
by_size p walk (x ∷ []) there only w = ap some (only x refl)
by_size p walk (x ∷ y ∷ xs) there only w = w

-- An item of the index that the links lead to from the head of a tree is the block of its number
-- on the main branch.
pub fetch_block_on_main_branch_by_number_lem :
    (num_from_id : ℕ → ℕ) (d : ForkDatabase) (h p : Item)
    → IsTree num_from_id d
    → d.head ≡ some h
    → find_by (by_address p.address) d.index ≡ some p
    → Leads d h p
    → fetch_block_on_main_branch_by_number p.num d ≡ some p
unfolding fetch_block_on_main_branch_by_number
fetch_block_on_main_branch_by_number_lem num_from_id d h p t e found l =
    let f = t.tree.headed h e in
    let le = Leads-le num_from_id t.names d.next_address d t.tree h p f l in
    let walk = (walk_main_branch_to_num_iff num_from_id d h p p.num t e).1 (l, refl) in
    let sized =
      by_size p (walk_main_branch_to_num p.num d) (fetch_block_by_number p.num d.index)
        (found_number p.num p (by_address p.address) d.index found refl)
        (λ z. only_number p.num p z (by_address p.address) d.index found refl) walk in
    ground arith
