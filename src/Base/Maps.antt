-- ===== src/Base/Maps.antt =====
-- Ordered maps from ids, as lists of entries in the order of the ids.
use Prim.Native.Nat.{ℕ}
use mathlib.Core.Path.{◌≡◌, refl}
use mathlib.Core.Option.{Option, none, some}
use mathlib.Core.List.{List, [], ◌∷◌}
use native.Mathlib.Omega.{arith}
use xgt.Base.Tests.{◌==◌, ltb, if◌then◌else◌, or_else, is_some}

abbrev pub Map {ℓ} : Type ℓ → Type ℓ
Map V = List (ℕ × V)

module _ {ℓ} {V : Type ℓ} where
  unfoldable pub find : ℕ → Map V → Option V
  find i [] = none
  find i ((j, v) ∷ m) = if i == j then some v else find i m

  -- Puts a new entry in its place.
  unfoldable pub insert : ℕ → V → Map V → Map V
  insert k v [] = (k, v) ∷ []
  insert k v ((j, w) ∷ m) = if ltb k j then (k, v) ∷ (j, w) ∷ m else (j, w) ∷ insert k v m

  -- `map.emplace( k, v )`, which leaves an entry that is there alone.
  unfoldable pub emplace : ℕ → V → Map V → Map V
  emplace k v m = if is_some (find k m) then m else insert k v m

  -- A new value for an entry that is there.
  unfoldable pub assign : ℕ → V → Map V → Map V
  assign k v [] = []
  assign k v ((j, w) ∷ m) = if k == j then (j, v) ∷ assign k v m else (j, w) ∷ assign k v m

  -- `map.erase( k )`
  unfoldable pub erase : ℕ → Map V → Map V
  erase k [] = []
  erase k ((j, w) ∷ m) = if k == j then erase k m else (j, w) ∷ erase k m

  -- `map[k] = v`
  unfoldable pub put : ℕ → V → Map V → Map V
  unfolding emplace assign
  put k v m = if is_some (find k m) then assign k v m else insert k v m

  pub find-insert :
      (i k : ℕ) (v : V) (m : Map V)
      → find k m ≡ none
      → find i (insert k v m) ≡ (if i == k then some v else find i m)
  unfolding find insert
  find-insert i k v [] h = ground arith
  find-insert i k v ((j, w) ∷ m) h = ground (arith, find-insert i k v m)

  pub find-emplace :
      (i k : ℕ) (v : V) (m : Map V)
      → find i (emplace k v m) ≡ or_else (find i m) (if i == k then some v else none)
  unfolding emplace
  find-emplace i k v m = ground (arith, find-insert i k v m)

  pub find-assign :
      (i k : ℕ) (v : V) (m : Map V)
      → find i (assign k v m)
        ≡ (if i == k then (if is_some (find i m) then some v else none) else find i m)
  unfolding find assign
  find-assign i k v [] = ground arith
  find-assign i k v ((j, w) ∷ m) = ground (arith, find-assign i k v m)

  pub find-erase : (i k : ℕ) (m : Map V) → find i (erase k m) ≡ (if i == k then none else find i m)
  unfolding find erase
  find-erase i k [] = ground arith
  find-erase i k ((j, w) ∷ m) = ground (arith, find-erase i k m)

  pub find-put :
      (i k : ℕ) (v : V) (m : Map V) → find i (put k v m) ≡ (if i == k then some v else find i m)
  unfolding put
  find-put i k v m = ground (arith, find-assign i k v m, find-insert i k v m)

  -- No id stands twice.
  abbrev pub Distinct : Map V → Type ℓ
  Distinct [] = Unit
  Distinct ((j, w) ∷ m) = (find j m ≡ none) × Distinct m

  pub insert-Distinct :
      (k : ℕ) (v : V) (m : Map V) → find k m ≡ none → Distinct m → Distinct (insert k v m)
  unfolding find insert
  insert-Distinct k v [] h d = (refl, tt)
  insert-Distinct k v ((j, w) ∷ m) h d = ground (arith, insert-Distinct k v m, find-insert j k v m)

  pub emplace-Distinct : (k : ℕ) (v : V) (m : Map V) → Distinct m → Distinct (emplace k v m)
  unfolding emplace
  emplace-Distinct k v m d = ground (arith, insert-Distinct k v m)

  pub erase-Distinct : (k : ℕ) (m : Map V) → Distinct m → Distinct (erase k m)
  unfolding find erase
  erase-Distinct k [] d = tt
  erase-Distinct k ((j, w) ∷ m) d = ground (arith, erase-Distinct k m, find-erase j k m)
