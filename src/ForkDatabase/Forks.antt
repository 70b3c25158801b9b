-- ===== src/ForkDatabase/Forks.antt =====
-- Where two branches part, for fetch_branch_from.
use xgt.Base.{
  ℕ, zero, suc, ◌+◌, ◌≤◌, ◌≡◌, refl, subst, sym, ap, ◌∙◌, min, true, false, Option, none, some,
  List, [], ◌∷◌, ◌++◌, ◌==◌, ==_iff, ltb, arith, inl, inr, Bool-cases,
}
use xgt.ForkDatabase.{Item, ForkDatabase, lock}
use xgt.ForkDatabase.Branches.{Walk, arrived, lost, out_of_fuel, and_then, asserted, climb, meet}
use xgt.ForkDatabase.Links.{Fits, Tree, parent-Fits}
use xgt.ForkDatabase.Ancestors.{Leads, here, back, Leads-le, Leads-Fits}

-- The items from one to another along the links, without the last, and with it.
pub data Before (d : ForkDatabase) : Item → List Item → Item → Type 0 where
  stop : {x : Item} → Before d x [] x
  step :
      {x p y : Item} {xs : List Item}
      → lock x.prev d ≡ some p
      → Before d p xs y
      → Before d x (x ∷ xs) y

pub data Branch (d : ForkDatabase) : Item → List Item → Item → Type 0 where
  last : {x : Item} → Branch d x (x ∷ []) x
  longer :
      {x p y : Item} {xs : List Item}
      → lock x.prev d ≡ some p
      → Branch d p xs y
      → Branch d x (x ∷ xs) y

pub Before-Branch :
    (d : ForkDatabase) (x y z : Item) (xs ys : List Item)
    → Before d x xs y
    → Branch d y ys z
    → Branch d x (xs ++ ys) z
Before-Branch d x y z xs ys stop b = b
Before-Branch d x y z xs ys (step {p = p} {xs = rest} e w) b =
    longer e (Before-Branch d p y z rest ys w b)

-- The branches `r` of `x` and `y` end where their items come from one block, and at no later pair
-- of items that do.
pub record Parts (d : ForkDatabase) (x y : Item) (r : List Item × List Item) : Type 0 where
  pub first_end : Item
  pub second_end : Item
  pub first : Branch d x r.0 first_end
  pub second : Branch d y r.1 second_end
  pub joined : first_end.previous ≡ second_end.previous
  pub latest :
      (z w : Item) → Leads d x z → Leads d y w → z.previous ≡ w.previous → z.num ≤ first_end.num

and_then-arrived :
    {A B : Type 0} (w : Walk A) (f : A → Walk B) (b : B)
    → and_then w f ≡ arrived b
    → (a : A) × (w ≡ arrived a) × (f a ≡ arrived b)
and_then-arrived (arrived a) f b h = (a, refl, h)
and_then-arrived lost f b h = cc
and_then-arrived out_of_fuel f b h = cc

pub asserted-arrived :
    {A B : Type 0} (o : Option A) (f : A → Walk B) (b : B)
    → asserted o f ≡ arrived b
    → (a : A) × (o ≡ some a) × (f a ≡ arrived b)
asserted-arrived none f b h = cc
asserted-arrived (some a) f b h = (a, refl, h)

module _ (num_from_id : ℕ → ℕ) (names : ℕ → ℕ) (next : ℕ) (d : ForkDatabase)
    (t : Tree num_from_id names next d) where
  -- Where a climb from `x` down to the number `n` arrives.
  pub record Climbed (n : ℕ) (x : Item) (r : List Item × Item) : Type 0 where
    pub way : Before d x r.0 r.1
    pub fits : Fits num_from_id names next r.1
    pub reached : r.1.num ≡ min x.num n
    pub keeps : (z : Item) → Leads d x z → z.num ≤ n → Leads d r.1 z

  climb-stop :
      (n : ℕ) (x : Item) → Fits num_from_id names next x → ltb n x.num ≡ false → Climbed n x ([], x)
  climb-stop n x f e = record { way = stop; fits = f; reached = ground arith; keeps = λ z l le. l }

  -- An item that is not the first is one that the link leads to.
  Leads-back :
      (x p z : Item) → lock x.prev d ≡ some p → suc z.num ≤ x.num → Leads d x z → Leads d p z
  Leads-back x p z e le here = absurd (omega arith)
  Leads-back x p z e le (back {p = q} g l) =
      let same : q ≡ p = ground arith in subst (λ r. Leads d r z) same l

  pub climb-Climbed :
      (fuel n : ℕ) (x : Item) (r : List Item × Item)
      → Fits num_from_id names next x
      → climb fuel n x d ≡ arrived r
      → Climbed n x r
  unfolding climb
  climb-Climbed zero n x r f h = elim (Bool-cases (ltb n x.num)) [
    | inl e ↦ absurd (ground arith)
    | inr e ↦ subst (Climbed n x) {x = ([], x)} (ground arith) (climb-stop n x f e)
  ]
  climb-Climbed (suc fuel) n x r f h = elim (Bool-cases (ltb n x.num)) [
    | inr e ↦ subst (Climbed n x) {x = ([], x)} (ground arith) (climb-stop n x f e)
    | inl e ↦
        let (p, g, h') =
          asserted-arrived (lock x.prev d)
            (λ p. and_then (climb fuel n p d) (λ r. arrived (x ∷ r.0, r.1))) r (ground arith) in
        let (s, k, h'') = and_then-arrived (climb fuel n p d) (λ r. arrived (x ∷ r.0, r.1)) r h' in
        let (fp, same, one) = parent-Fits num_from_id names next x p d t f g in
        let c = climb-Climbed fuel n p s fp k in
        let low = c.reached in
        subst (Climbed n x) {x = (x ∷ s.0, s.1)} (ground arith) (record {
          way = step g c.way;
          fits = c.fits;
          reached = ground arith;
          keeps = λ z l le. c.keeps z (Leads-back x p z g (ground arith) l) le;
        })
  ]

  -- Items that come from one block have one number.
  pub level :
      (x y : Item)
      → Fits num_from_id names next x
      → Fits num_from_id names next y
      → x.previous ≡ y.previous
      → x.num ≡ y.num
  level x y f g e = f.follows ∙ ap (λ i. num_from_id i + 1) e ∙ sym g.follows

  meet-stop :
      (x y : Item)
      → Fits num_from_id names next x
      → x.previous == y.previous ≡ true
      → Parts d x y (x ∷ [], y ∷ [])
  meet-stop x y f e = record {
    first_end = x;
    second_end = y;
    first = last;
    second = last;
    joined = (==_iff x.previous y.previous).0 e;
    latest = λ z w l m same. Leads-le num_from_id names next d t x z f l;
  }

  -- Where `x` and `y` are level and come from two blocks, a pair that comes from one is further
  -- back.
  pub below :
      (x y z w : Item)
      → Fits num_from_id names next x
      → Fits num_from_id names next y
      → x.num ≡ y.num
      → x.previous == y.previous ≡ false
      → Leads d x z
      → Leads d y w
      → z.previous ≡ w.previous
      → (suc z.num ≤ x.num) × (suc w.num ≤ y.num)
  below x y z w f g same differ here here e = absurd (ground arith)
  below x y z w f g same differ here (back {p = q} k m) e =
      let (fq, i, one) = parent-Fits num_from_id names next y q d t g k in
      let le = Leads-le num_from_id names next d t q w fq m in
      let high = level x w f (Leads-Fits num_from_id names next d t q w fq m) e in
      absurd (omega (arith, same, one, le, high))
  below x y z w f g same differ (back {p = p} k l) here e =
      let (fp, i, one) = parent-Fits num_from_id names next x p d t f k in
      let le = Leads-le num_from_id names next d t p z fp l in
      let high = level z y (Leads-Fits num_from_id names next d t p z fp l) g e in
      absurd (omega (arith, same, one, le, high))
  below x y z w f g same differ (back {p = p} k l) (back {p = q} k' m) e =
      let (fp, i, one) = parent-Fits num_from_id names next x p d t f k in
      let (fq, i', one') = parent-Fits num_from_id names next y q d t g k' in
      let le = Leads-le num_from_id names next d t p z fp l in
      let le' = Leads-le num_from_id names next d t q w fq m in
      (omega (arith, one, le), omega (arith, one', le'))

  meet-step :
      (x y p q : Item) (s : List Item × List Item)
      → Fits num_from_id names next x
      → Fits num_from_id names next y
      → x.num ≡ y.num
      → x.previous == y.previous ≡ false
      → lock x.prev d ≡ some p
      → lock y.prev d ≡ some q
      → Parts d p q s
      → Parts d x y (x ∷ s.0, y ∷ s.1)
  meet-step x y p q s f g same differ k k' parts = record {
    first_end = parts.first_end;
    second_end = parts.second_end;
    first = longer k parts.first;
    second = longer k' parts.second;
    joined = parts.joined;
    latest = λ z w l m e.
        let (lt, lt') = below x y z w f g same differ l m e in
        parts.latest z w (Leads-back x p z k lt l) (Leads-back y q w k' lt' m) e;
  }

  pub meet-Parts :
      (fuel : ℕ) (x y : Item) (r : List Item × List Item)
      → Fits num_from_id names next x
      → Fits num_from_id names next y
      → x.num ≡ y.num
      → meet fuel x y d ≡ arrived r
      → Parts d x y r
  unfolding meet
  meet-Parts zero x y r f g same h = elim (Bool-cases (x.previous == y.previous)) [
    | inl e ↦ subst (Parts d x y) {x = (x ∷ [], y ∷ [])} (ground arith) (meet-stop x y f e)
    | inr e ↦ absurd (ground arith)
  ]
  meet-Parts (suc fuel) x y r f g same h = elim (Bool-cases (x.previous == y.previous)) [
    | inl e ↦ subst (Parts d x y) {x = (x ∷ [], y ∷ [])} (ground arith) (meet-stop x y f e)
    | inr e ↦
        let (p, k, h') =
          asserted-arrived (lock x.prev d)
            (λ p.
              asserted (lock y.prev d)
                (λ q. and_then (meet fuel p q d) (λ r. arrived (x ∷ r.0, y ∷ r.1))))
            r (ground arith) in
        let (q, k', h'') =
          asserted-arrived (lock y.prev d)
            (λ q. and_then (meet fuel p q d) (λ r. arrived (x ∷ r.0, y ∷ r.1))) r h' in
        let (s, m, end) =
          and_then-arrived (meet fuel p q d) (λ r. arrived (x ∷ r.0, y ∷ r.1)) r h'' in
        let (fp, i, one) = parent-Fits num_from_id names next x p d t f k in
        let (fq, i', one') = parent-Fits num_from_id names next y q d t g k' in
        subst (Parts d x y) {x = (x ∷ s.0, y ∷ s.1)} (ground arith) (
          meet-step x y p q s f g same e k k'
            (meet-Parts fuel p q s fp fq (omega (arith, same, one, one')) m))
  ]
