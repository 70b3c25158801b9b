-- ===== src/Sync.antt =====
-- What a peer is told of the chain: libraries/plugins/p2p/p2p_plugin.cpp, is_included_block,
-- get_block_ids and get_blockchain_synopsis. Ids are numbers, and 0 is the id that has all bytes 0.
pub mod Joins
pub mod Served
pub mod Synopsis
mod Tests
use xgt.Base.{
  ℕ, zero, suc, ◌+◌, ◌-◌, ◌/◌, ◌%◌, ◌^◌, Bool, true, false, not, ◌&&◌, ◌||◌, Option, none, some,
  List, [], ◌∷◌, ◌++◌, ◌==◌, ltb, leb, length, require, if◌then◌else◌, ◌>>=◌, ◌>>◌,
}

-- What the plugin asks of the chain database; `none` is an exception.
pub record View : Type 0 where
  pub head_block_num : ℕ
  pub last_non_undoable_block_num : ℕ
  pub num_from_id : ℕ → ℕ
  pub is_known_block : ℕ → Bool
  pub get_block_id_for_num : ℕ → Option ℕ
  pub get_block_ids_on_fork : ℕ → Option (List ℕ)

abbrev pub backwards : List ℕ → List ℕ
backwards [] = []
backwards (i ∷ is) = backwards is ++ i ∷ []

-- `back()`, of a list that is not empty.
abbrev pub back : ℕ → List ℕ → ℕ
back i [] = i
back i (j ∷ js) = back j js

abbrev pub pop_back : List ℕ → List ℕ
pop_back [] = []
pop_back (i ∷ []) = []
pop_back (i ∷ j ∷ js) = i ∷ pop_back (j ∷ js)

abbrev pub elem_at : ℕ → List ℕ → Option ℕ
elem_at n [] = none
elem_at zero (i ∷ is) = some i
elem_at (suc n) (i ∷ is) = elem_at n is

-- The numbers low, high and the last one before the fork, and the blocks of the fork.
pub record Range : Type 0 where
  pub low_block_num : ℕ
  pub high_block_num : ℕ
  pub non_fork_high_block_num : ℕ
  pub fork_history : List ℕ

abbrev pub next_low : ℕ → ℕ → ℕ
next_low true_high low = (low + (true_high + 2 ^ 32 - low + 2) % 2 ^ 32 / 2) % 2 ^ 32

module _ (v : View) where
  open v use {
    head_block_num, last_non_undoable_block_num, num_from_id, is_known_block, get_block_id_for_num,
    get_block_ids_on_fork,
  }

  unfoldable pub is_included_block : ℕ → Bool
  is_included_block i = elim (get_block_id_for_num (num_from_id i)) [
    | none ↦ false
    | some j ↦ i == j
  ]

  -- The newest block of a synopsis that is on the chain.
  unfoldable pub newest_included : List ℕ → Option ℕ
  unfolding is_included_block
  newest_included [] = none
  newest_included (i ∷ is) =
      if i == 0 || (is_known_block i && is_included_block i) then some i else newest_included is

  -- An empty synopsis stands for a peer that has no blocks.
  unfoldable pub last_known_block_id : List ℕ → Option ℕ
  unfolding newest_included
  last_known_block_id [] = some 0
  last_known_block_id (i ∷ []) = if i == 0 then some 0 else newest_included (i ∷ [])
  last_known_block_id (i ∷ j ∷ is) = newest_included (backwards (i ∷ j ∷ is))

  -- The loop from `num` on, with `n` numbers left up to the head.
  unfoldable pub collect : ℕ → ℕ → ℕ → Option (List ℕ)
  collect zero num limit = some []
  collect (suc n) num zero = some []
  collect (suc n) num (suc limit) = do
    let later = collect n (suc num) (suc limit)
    let rest = collect n (suc num) limit
    if num == 0 then later else (do i ← get_block_id_for_num num; ids ← rest; some (i ∷ ids))

  -- `remaining_item_count`
  unfoldable pub remaining : List ℕ → ℕ
  remaining [] = 0
  remaining (i ∷ is) =
      if ltb (num_from_id (back i is)) head_block_num
      then head_block_num - num_from_id (back i is)
      else 0

  unfoldable pub get_block_ids : List ℕ → ℕ → Option (List ℕ × ℕ)
  unfolding last_known_block_id collect remaining
  get_block_ids synopsis limit = if head_block_num == 0 then some ([], 0) else (do
    last ← last_known_block_id synopsis
    ids ← collect (head_block_num + 1 - num_from_id last) (num_from_id last) limit
    some (ids, remaining ids))

  -- For a reference point on a fork. The history ends with the common ancestor.
  unfoldable pub fork_range : ℕ → List ℕ → Option Range
  fork_range reference [] = none
  fork_range reference (i ∷ is) = do
    let last = back i is
    let non_fork_high = if last == 0 then 0 else num_from_id last
    let history = backwards (pop_back (i ∷ is))
    require (leb last_non_undoable_block_num non_fork_high)
    some (record {
      low_block_num = last_non_undoable_block_num;
      high_block_num = (non_fork_high + length history) % 2 ^ 32;
      non_fork_high_block_num = non_fork_high;
      fork_history = history;
    })

  unfoldable pub range_of : ℕ → Option Range
  unfolding is_included_block fork_range
  range_of reference =
      if reference == 0
      then some (record {
        low_block_num = last_non_undoable_block_num;
        high_block_num = head_block_num;
        non_fork_high_block_num = head_block_num;
        fork_history = [];
      })
      else if is_included_block reference
      then some (record {
        low_block_num =
            if ltb (num_from_id reference) last_non_undoable_block_num
            then num_from_id reference
            else last_non_undoable_block_num;
        high_block_num = num_from_id reference;
        non_fork_high_block_num = num_from_id reference;
        fork_history = [];
      })
      else (get_block_ids_on_fork reference >>= fork_range reference)

  unfoldable pub id_in : Range → ℕ → Option ℕ
  id_in r num =
      if leb num r.non_fork_high_block_num
      then get_block_id_for_num num
      else elem_at (num - r.non_fork_high_block_num - 1) r.fork_history

  -- The loop, on fuel, without which it gives nothing.
  unfoldable pub synopsis_from : ℕ → Range → ℕ → ℕ → Option (List ℕ)
  unfolding id_in
  synopsis_from zero r true_high low = none
  synopsis_from (suc n) r true_high low = do
    let low' = next_low true_high low
    let rest = synopsis_from n r true_high low'
    i ← id_in r low
    ids ← if leb low' r.high_block_num then rest else some []
    some (i ∷ ids)

  unfoldable pub get_blockchain_synopsis : ℕ → ℕ → Option (List ℕ)
  unfolding range_of synopsis_from
  get_blockchain_synopsis reference after =
      if reference == 0 && head_block_num == 0 then some [] else (do
        r ← range_of reference
        let low = if r.low_block_num == 0 then 1 else r.low_block_num
        synopsis_from (suc r.high_block_num) r ((r.high_block_num + after) % 2 ^ 32) low)
