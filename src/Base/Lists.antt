-- ===== src/Base/Lists.antt =====
-- Lists measured by native numbers, and lists of ids used as sets.
use Prim.Native.Nat.{ℕ, zero, suc, ◌+◌}
use mathlib.Core.Path.{◌≡◌, refl}
use mathlib.Core.Bool.{Bool, false, ◌||◌}
use mathlib.Core.List.{List, [], ◌∷◌, ◌++◌}
use native.Mathlib.Omega.{arith}
use xgt.Base.Tests.{◌==◌, if◌then◌else◌}

module _ {ℓ} {A : Type ℓ} where
  abbrev pub length : List A → ℕ
  length [] = 0
  length (x ∷ xs) = suc (length xs)

  pub length-append : (xs ys : List A) → length (xs ++ ys) ≡ length xs + length ys
  length-append [] ys = omega arith
  length-append (x ∷ xs) ys = omega (arith, length-append xs ys)

  abbrev pub take : ℕ → List A → List A
  take zero xs = []
  take (suc n) [] = []
  take (suc n) (x ∷ xs) = x ∷ take n xs

  pub take-nil : (n : ℕ) → take n [] ≡ []
  take-nil zero = refl
  take-nil (suc n) = refl

-- `set.find( i ) != set.end()`
abbrev pub has_id : ℕ → List ℕ → Bool
has_id i [] = false
has_id i (j ∷ js) = i == j || has_id i js

-- `set.insert( i )`
abbrev pub insert_id : ℕ → List ℕ → List ℕ
insert_id i js = if has_id i js then js else i ∷ js

-- `set.erase( i )`
abbrev pub erase_id : ℕ → List ℕ → List ℕ
erase_id i [] = []
erase_id i (j ∷ js) = if i == j then erase_id i js else j ∷ erase_id i js

pub has_id-insert_id : (i k : ℕ) (js : List ℕ) → has_id i (insert_id k js) ≡ (i == k || has_id i js)
has_id-insert_id i k js = ground arith

pub has_id-erase_id :
    (i k : ℕ) (js : List ℕ) → has_id i (erase_id k js) ≡ (if i == k then false else has_id i js)
has_id-erase_id i k [] = ground arith
has_id-erase_id i k (j ∷ js) = ground (arith, has_id-erase_id i k js)
