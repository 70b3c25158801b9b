-- ===== src/Sync/Served.antt =====
-- The ids that get_block_ids serves.
use xgt.Base.{ℕ, suc, ◌+◌, ◌-◌, ◌≡◌, ◌⊎◌, some, List, [], ◌∷◌, length, min}
use xgt.Sync.Joins.{Joins}
use xgt.Sync.{View}

module _ (v : View) where
  open v use {head_block_num, num_from_id, get_block_id_for_num}

  -- The ids of consecutive numbers from `n` on.
  abbrev pub IsRun : ℕ → List ℕ → Type 0
  IsRun n [] = Unit
  IsRun n (i ∷ is) = (get_block_id_for_num n ≡ some i) × IsRun (suc n) is

  module _ (names : (n i : ℕ) → get_block_id_for_num n ≡ some i → num_from_id i ≡ n) where
    -- As many ids from `n` on as there are up to the head, or as the limit lets through, and the
    -- number of those that come after them, where there are any.
    abbrev pub Answers : ℕ → ℕ → ℕ → List ℕ → Type 0
    Answers n limit left ids =
        IsRun n ids
        × (length ids ≡ min limit (head_block_num + 1 - n))
        × ((ids ≡ []) ⊎ (n + length ids + left ≡ head_block_num + 1))
