-- ===== src/Base/Tables.antt =====
-- Tables of objects: lists in which one object is found by a test.
use xgt.Base.{
  suc, length, ◌≡◌, refl, Bool, true, false, Option, none, some, List, [], ◌∷◌, arith, Bool-cases,
  inl, inr, subst, if◌then◌else◌,
}
use xgt.Base.Int.{ℤ, pos, ◌+ℤ◌, int_laws}

module _ {ℓ} {A : Type ℓ} where
  unfoldable pub find_by : (A → Bool) → List A → Option A
  find_by p [] = none
  find_by p (a ∷ xs) = if p a then some a else find_by p xs

  -- The first object that passes the test becomes `v`.
  unfoldable pub replace_by : (A → Bool) → A → List A → List A
  replace_by p v [] = []
  replace_by p v (a ∷ xs) = if p a then v ∷ xs else a ∷ replace_by p v xs

  unfoldable pub remove_by : (A → Bool) → List A → List A
  remove_by p [] = []
  remove_by p (a ∷ xs) = if p a then xs else a ∷ remove_by p xs

  unfoldable pub sum_of : (A → ℤ) → List A → ℤ
  sum_of f [] = pos 0
  sum_of f (a ∷ xs) = f a +ℤ sum_of f xs

  abbrev pub All {κ} : (A → Type κ) → List A → Type κ
  All P [] = Unit
  All P (a ∷ xs) = P a × All P xs

  pub sum_of-replace_by :
      (f : A → ℤ) (p : A → Bool) (v a : A) (xs : List A)
      → find_by p xs ≡ some a
      → sum_of f (replace_by p v xs) +ℤ f a ≡ sum_of f xs +ℤ f v
  unfolding find_by replace_by sum_of
  sum_of-replace_by f p v a [] h = absurd (ground arith)
  sum_of-replace_by f p v a (b ∷ xs) h = grind (int_laws, sum_of-replace_by f p v a xs)

  pub sum_of-remove_by :
      (f : A → ℤ) (p : A → Bool) (a : A) (xs : List A)
      → find_by p xs ≡ some a
      → sum_of f (remove_by p xs) +ℤ f a ≡ sum_of f xs
  unfolding find_by remove_by sum_of
  sum_of-remove_by f p a [] h = absurd (ground arith)
  sum_of-remove_by f p a (b ∷ xs) h = grind (int_laws, sum_of-remove_by f p a xs)

  pub find_by-replace_by_self :
      (p : A → Bool) (v a : A) (xs : List A)
      → find_by p xs ≡ some a
      → p v ≡ true
      → find_by p (replace_by p v xs) ≡ some v
  unfolding find_by replace_by
  find_by-replace_by_self p v a [] h k = absurd (ground arith)
  find_by-replace_by_self p v a (b ∷ xs) h k = ground (arith, find_by-replace_by_self p v a xs)

  pub find_by-replace_by_other :
      (p q : A → Bool) (v : A) (xs : List A)
      → ((a : A) → q a ≡ true → p a ≡ false)
      → q v ≡ true
      → find_by p (replace_by q v xs) ≡ find_by p xs
  unfolding find_by replace_by
  find_by-replace_by_other p q v [] other h = refl
  find_by-replace_by_other p q v (b ∷ xs) other h =
      ground (arith, find_by-replace_by_other p q v xs other h, other v, other b)

  pub replace_by_twice :
      (p : A → Bool) (v w : A) (xs : List A)
      → p w ≡ true
      → replace_by p v (replace_by p w xs) ≡ replace_by p v xs
  unfolding replace_by
  replace_by_twice p v w [] h = refl
  replace_by_twice p v w (b ∷ xs) h = ground (arith, replace_by_twice p v w xs)

  pub length-remove_by :
      (p : A → Bool) (a : A) (xs : List A)
      → find_by p xs ≡ some a
      → suc (length (remove_by p xs)) ≡ length xs
  unfolding find_by remove_by
  length-remove_by p a [] h = absurd (ground arith)
  length-remove_by p a (b ∷ xs) h = ground (arith, length-remove_by p a xs)

  pub find_by-passes : (p : A → Bool) (a : A) (xs : List A) → find_by p xs ≡ some a → p a ≡ true
  unfolding find_by
  find_by-passes p a [] h = absurd (ground arith)
  find_by-passes p a (b ∷ xs) h = ground (arith, find_by-passes p a xs)

  module _ {κ} (P : A → Type κ) where
    pub All-find_by : (p : A → Bool) (a : A) (xs : List A) → All P xs → find_by p xs ≡ some a → P a
    unfolding find_by
    All-find_by p a [] all h = absurd (ground arith)
    All-find_by p a (b ∷ xs) all h = elim (Bool-cases (p b)) [
      | inl e ↦ subst P (ground arith) all.0
      | inr e ↦ All-find_by p a xs all.1 (ground arith)
    ]

    pub All-replace_by :
        (p : A → Bool) (v : A) (xs : List A) → P v → All P xs → All P (replace_by p v xs)
    unfolding replace_by
    All-replace_by p v [] h all = tt
    All-replace_by p v (b ∷ xs) h all = elim (Bool-cases (p b)) [
      | inl e ↦ rw e (h, all.1)
      | inr e ↦ rw e (all.0, All-replace_by p v xs h all.1)
    ]

    pub All-remove_by : (p : A → Bool) (xs : List A) → All P xs → All P (remove_by p xs)
    unfolding remove_by
    All-remove_by p [] all = tt
    All-remove_by p (b ∷ xs) all = elim (Bool-cases (p b)) [
      | inl e ↦ rw e all.1
      | inr e ↦ rw e (all.0, All-remove_by p xs all.1)
    ]
