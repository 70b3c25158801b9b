-- ===== src/ForkDatabase/Totality.antt =====
-- The loops of fetch_branch_from, and the two assertions in them.
use xgt.Base.{
  ℕ, zero, suc, ◌+◌, ◌≤◌, ◌≡◌, ◌≢◌, refl, subst, some, List, [], ◌∷◌, ◌==◌, ltb, arith, inl, inr,
  Bool-cases, Option-cases,
}
use xgt.ForkDatabase.{Item, ForkDatabase, lock}
use xgt.ForkDatabase.Branches.{Walk, arrived, lost, out_of_fuel, and_then, climb, meet}
use xgt.ForkDatabase.Links.{Fits, Tree, parent-Fits}
use xgt.ForkDatabase.Ancestors.{Leads, here, back}
use xgt.ForkDatabase.Forks.{below}

-- An item before `x` and one before `y` that come from one block.
pub record Common (d : ForkDatabase) (x y : Item) : Type 0 where
  pub one : Item
  pub other : Item
  pub to_one : Leads d x one
  pub to_other : Leads d y other
  pub joined : one.previous ≡ other.previous

fueled :
    {A B : Type 0} (w : Walk A) (f : A → B)
    → w ≢ out_of_fuel
    → and_then w (λ a. arrived (f a)) ≢ out_of_fuel
fueled (arrived a) f h = λ e. cc
fueled lost f h = λ e. cc
fueled out_of_fuel f h = absurd (h refl)

parent :
    {d : ForkDatabase} (x z : Item)
    → suc z.num ≤ x.num
    → Leads d x z
    → (p : Item) × (lock x.prev d ≡ some p) × Leads d p z
parent x z lt here = absurd (omega arith)
parent x z lt (back {p = p} k l) = (p, k, l)

module _ (num_from_id : ℕ → ℕ) (names : ℕ → ℕ) (next : ℕ) (d : ForkDatabase)
    (t : Tree num_from_id names next d) where
  pub climb-total :
      (fuel n : ℕ) (x z : Item)
      → Fits num_from_id names next x
      → x.num ≤ fuel + n
      → Leads d x z
      → z.num ≤ n
      → (r : List Item × Item) × (climb fuel n x d ≡ arrived r)
  unfolding climb
  climb-total zero n x z f le l low = (([], x), ground arith)
  climb-total (suc fuel) n x z f le here low = (([], x), ground arith)
  climb-total (suc fuel) n x z f le (back {p = p} k l) low = elim (Bool-cases (ltb n x.num)) [
    | inr e ↦ (([], x), ground arith)
    | inl e ↦
        let (fp, same, one) = parent-Fits num_from_id names next x p d t f k in
        let (r, h) = climb-total fuel n p z fp (omega (arith, one, le)) l low in
        ((x ∷ r.0, r.1), ground arith)
  ]

  pub climb-fueled :
      (fuel n : ℕ) (x : Item)
      → Fits num_from_id names next x
      → x.num ≤ fuel + n
      → climb fuel n x d ≢ out_of_fuel
  unfolding climb
  climb-fueled zero n x f le = ground arith
  climb-fueled (suc fuel) n x f le = elim (Option-cases (lock x.prev d)) [
    | inl k ↦ ground arith
    | inr (p, k) ↦ elim (Bool-cases (ltb n x.num)) [
      | inr e ↦ ground arith
      | inl e ↦
          let (fp, same, one) = parent-Fits num_from_id names next x p d t f k in
          subst (λ (w : Walk (List Item × Item)). w ≢ out_of_fuel)
            {x = and_then (climb fuel n p d) (λ r. arrived (x ∷ r.0, r.1))}
            {y = climb (suc fuel) n x d} (ground arith)
            (fueled {B = List Item × Item} (climb fuel n p d) (λ r. (x ∷ r.0, r.1))
              (climb-fueled fuel n p fp (omega (arith, one, le))))
    ]
  ]

  pub meet-total :
      (fuel : ℕ) (x y z w : Item)
      → Fits num_from_id names next x
      → Fits num_from_id names next y
      → x.num ≡ y.num
      → x.num ≤ fuel
      → Leads d x z
      → Leads d y w
      → z.previous ≡ w.previous
      → (r : List Item × List Item) × (meet fuel x y d ≡ arrived r)
  unfolding meet
  meet-total zero x y z w f g same le l m e = let h = f.follows in absurd (omega (arith, h, le))
  meet-total (suc fuel) x y z w f g same le l m e = elim (Bool-cases (x.previous == y.previous)) [
    | inl eq ↦ ((x ∷ [], y ∷ []), ground arith)
    | inr ne ↦
        let (lt, lt') = below num_from_id names next d t x y z w f g same ne l m e in
        let (p, k, l') = parent x z lt l in
        let (q, k', m') = parent y w lt' m in
        let (fp, i, one) = parent-Fits num_from_id names next x p d t f k in
        let (fq, i', one') = parent-Fits num_from_id names next y q d t g k' in
        let (r, h) =
          meet-total fuel p q z w fp fq (omega (arith, same, one, one')) (omega (arith, one, le)) l'
            m' e in
        ((x ∷ r.0, y ∷ r.1), ground arith)
  ]

  pub meet-fueled :
      (fuel : ℕ) (x y : Item)
      → Fits num_from_id names next x
      → Fits num_from_id names next y
      → x.num ≤ fuel
      → meet fuel x y d ≢ out_of_fuel
  unfolding meet
  meet-fueled zero x y f g le = let h = f.follows in absurd (omega (arith, h, le))
  meet-fueled (suc fuel) x y f g le = elim (Option-cases (lock x.prev d)) [
    | inl k ↦ ground arith
    | inr (p, k) ↦ elim (Option-cases (lock y.prev d)) [
      | inl k' ↦ ground arith
      | inr (q, k') ↦ elim (Bool-cases (x.previous == y.previous)) [
        | inl e ↦ ground arith
        | inr e ↦
            let (fp, i, one) = parent-Fits num_from_id names next x p d t f k in
            let (fq, i', one') = parent-Fits num_from_id names next y q d t g k' in
            subst (λ (w : Walk (List Item × List Item)). w ≢ out_of_fuel)
              {x = and_then (meet fuel p q d) (λ r. arrived (x ∷ r.0, y ∷ r.1))}
              {y = meet (suc fuel) x y d} (ground arith)
              (fueled {B = List Item × List Item} (meet fuel p q d) (λ r. (x ∷ r.0, y ∷ r.1))
                (meet-fueled fuel p q fp fq (omega (arith, one, le))))
      ]
    ]
  ]
