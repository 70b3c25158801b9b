-- ===== src/ForkDatabase/Fetch.antt =====
-- What fetch_branch_from answers on a tree, in every case.
use xgt.Base.{ℕ, ◌≡◌, refl, subst, some, List, ◌++◌, arith}
use xgt.Base.Tables.{find_by, All-find_by}
use xgt.ForkDatabase.{Item, ForkDatabase, by_id}
use xgt.ForkDatabase.Branches.{
  Walk, arrived, lost, out_of_fuel, and_then, climb, meet, branches, fetch_branch_from,
}
use xgt.ForkDatabase.Links.{Fits, Tree}
use xgt.ForkDatabase.Trees.{IsTree}
use xgt.ForkDatabase.Ancestors.{Leads-le, Leads-Fits}
use xgt.ForkDatabase.Forks.{Before-Branch, Climbed, climb-Climbed, Parts, level, meet-Parts}
use xgt.ForkDatabase.Totality.{Common, climb-total, climb-fueled, meet-total, meet-fueled}

-- Branches are right, an assertion fails only where the items have nothing in common, and the fuel
-- is enough.
abbrev pub Answers : ForkDatabase → Item → Item → Walk (List Item × List Item) → Type 0
Answers d x y (arrived r) = Parts d x y r
Answers d x y lost = ¬ Common d x y
Answers d x y out_of_fuel = ⊥

module _ (num_from_id : ℕ → ℕ) (names : ℕ → ℕ) (next : ℕ) (d : ForkDatabase)
    (t : Tree num_from_id names next d) where
  -- The ends of the two climbs are level, and what `x` and `y` have in common, they have.
  Common-Climbed :
      (x y : Item) (r s : List Item × Item)
      → Fits num_from_id names next x
      → Fits num_from_id names next y
      → Climbed num_from_id names next d t y.num x r
      → Climbed num_from_id names next d t r.1.num y s
      → Common d x y
      → Common d r.1 s.1
  Common-Climbed x y r s f g cr cs c =
      let le = Leads-le num_from_id names next d t x c.one f c.to_one in
      let le' = Leads-le num_from_id names next d t y c.other g c.to_other in
      let same =
        level num_from_id names next d t c.one c.other
          (Leads-Fits num_from_id names next d t x c.one f c.to_one)
          (Leads-Fits num_from_id names next d t y c.other g c.to_other) c.joined in
      let low = cr.reached in
      record {
        one = c.one;
        other = c.other;
        to_one = cr.keeps c.one c.to_one (omega (arith, same, le'));
        to_other = cs.keeps c.other c.to_other (omega (arith, same, le, le', low));
        joined = c.joined;
      }

  Parts-Climbed :
      (x y : Item) (r s : List Item × Item) (m : List Item × List Item)
      → Fits num_from_id names next x
      → Fits num_from_id names next y
      → Climbed num_from_id names next d t y.num x r
      → Climbed num_from_id names next d t r.1.num y s
      → Parts d r.1 s.1 m
      → Parts d x y (r.0 ++ m.0, s.0 ++ m.1)
  unfolding Common-Climbed
  Parts-Climbed x y r s m f g cr cs parts = record {
    first_end = parts.first_end;
    second_end = parts.second_end;
    first = Before-Branch d x r.1 parts.first_end r.0 m.0 cr.way parts.first;
    second = Before-Branch d y s.1 parts.second_end s.0 m.1 cs.way parts.second;
    joined = parts.joined;
    latest = λ z w l k e.
        let c =
          Common-Climbed x y r s f g cr cs
            (record { one = z; other = w; to_one = l; to_other = k; joined = e }) in
        parts.latest z w c.to_one c.to_other e;
  }

  met-Answers :
      (x y : Item) (r s : List Item × Item)
      → Fits num_from_id names next x
      → Fits num_from_id names next y
      → Climbed num_from_id names next d t y.num x r
      → Climbed num_from_id names next d t r.1.num y s
      → (w : Walk (List Item × List Item)) → meet r.1.num r.1 s.1 d ≡ w
      → Answers d x y (and_then w (λ m. arrived (r.0 ++ m.0, s.0 ++ m.1)))
  met-Answers x y r s f g cr cs (arrived m) e = Parts-Climbed x y r s m f g cr cs (
      meet-Parts num_from_id names next d t r.1.num r.1 s.1 m cr.fits cs.fits
        (let h = cr.reached in let k = cs.reached in omega (arith, h, k)) e)
  met-Answers x y r s f g cr cs lost e = λ c.
      let c' = Common-Climbed x y r s f g cr cs c in
      let (m, h) =
        meet-total num_from_id names next d t r.1.num r.1 s.1 c'.one c'.other cr.fits cs.fits
          (let h = cr.reached in let k = cs.reached in omega (arith, h, k)) (omega arith) c'.to_one
          c'.to_other c'.joined in
      cc
  met-Answers x y r s f g cr cs out_of_fuel e =
      meet-fueled num_from_id names next d t r.1.num r.1 s.1 cr.fits cs.fits (omega arith) e

  second-Answers :
      (x y : Item) (r : List Item × Item)
      → Fits num_from_id names next x
      → Fits num_from_id names next y
      → Climbed num_from_id names next d t y.num x r
      → (w : Walk (List Item × Item)) → climb y.num r.1.num y d ≡ w
      → Answers d x y
          (and_then w λ s. and_then (meet r.1.num r.1 s.1 d) λ m. arrived (r.0 ++ m.0, s.0 ++ m.1))
  second-Answers x y r f g cr (arrived s) e =
      met-Answers x y r s f g cr (climb-Climbed num_from_id names next d t y.num r.1.num y s g e) _
        refl
  second-Answers x y r f g cr lost e = λ c.
      let le = Leads-le num_from_id names next d t x c.one f c.to_one in
      let le' = Leads-le num_from_id names next d t y c.other g c.to_other in
      let same =
        level num_from_id names next d t c.one c.other
          (Leads-Fits num_from_id names next d t x c.one f c.to_one)
          (Leads-Fits num_from_id names next d t y c.other g c.to_other) c.joined in
      let (m, h) =
        climb-total num_from_id names next d t y.num r.1.num y c.other g (omega arith) c.to_other
          (let low = cr.reached in omega (arith, same, le, le', low)) in
      cc
  second-Answers x y r f g cr out_of_fuel e =
      climb-fueled num_from_id names next d t y.num r.1.num y g (omega arith) e

  first-Answers :
      (x y : Item)
      → Fits num_from_id names next x
      → Fits num_from_id names next y
      → (w : Walk (List Item × Item)) → climb x.num y.num x d ≡ w
      → Answers d x y (
          and_then w λ r.
            and_then
              (climb y.num r.1.num y d)
              λ s. and_then (meet r.1.num r.1 s.1 d) λ m. arrived (r.0 ++ m.0, s.0 ++ m.1))
  first-Answers x y f g (arrived r) e =
      second-Answers x y r f g (climb-Climbed num_from_id names next d t x.num y.num x r f e) _ refl
  first-Answers x y f g lost e = λ c.
      let le = Leads-le num_from_id names next d t y c.other g c.to_other in
      let same =
        level num_from_id names next d t c.one c.other
          (Leads-Fits num_from_id names next d t x c.one f c.to_one)
          (Leads-Fits num_from_id names next d t y c.other g c.to_other) c.joined in
      let (m, h) =
        climb-total num_from_id names next d t x.num y.num x c.one f (omega arith) c.to_one
          (omega (arith, same, le)) in
      cc
  first-Answers x y f g out_of_fuel e =
      climb-fueled num_from_id names next d t x.num y.num x f (omega arith) e

  pub branches-Answers :
      (x y : Item)
      → Fits num_from_id names next x
      → Fits num_from_id names next y
      → Answers d x y (branches x y d)
  unfolding branches
  branches-Answers x y f g = first-Answers x y f g (climb x.num y.num x d) refl

-- On two items of the index of a tree, fetch_branch_from always ends. Its branches run along the
-- links from the two items to the latest pair that comes from one block, and an assertion fails
-- only if there is no such pair.
pub fetch_branch_from-Answers :
    (num_from_id : ℕ → ℕ) (first second : ℕ) (d : ForkDatabase) (x y : Item)
    → IsTree num_from_id d
    → find_by (by_id first) d.index ≡ some x
    → find_by (by_id second) d.index ≡ some y
    → Answers d x y (fetch_branch_from first second d)
unfolding fetch_branch_from
fetch_branch_from-Answers num_from_id first second d x y t e e' =
    let fits = Fits num_from_id t.names d.next_address in
    let f = All-find_by fits (by_id first) x d.index t.tree.indexed e in
    let g = All-find_by fits (by_id second) y d.index t.tree.indexed e' in
    subst (Answers d x y) {x = branches x y d} (ground arith)
      (branches-Answers num_from_id t.names d.next_address d t.tree x y f g)
