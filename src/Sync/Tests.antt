-- ===== src/Sync/Tests.antt =====
-- A chain of ten blocks, of which the block `n` has the id `100 * n`; the last that cannot be undone is 4.
use xgt.Base.{
  ℕ, suc, ◌*◌, ◌/◌, ◌≤◌, ◌<◌, ◌≡◌, refl, ◌⊎◌, ◌&&◌, none, some, List, [], ◌∷◌, arith, leb, length,
  if◌then◌else◌,
}
use xgt.Sync.{View, get_blockchain_synopsis, back}
use xgt.Sync.Joins.{Joins}
use xgt.Sync.Synopsis.{first_num, get_blockchain_synopsis-summarizes}

abbrev ten : View
ten = record {
  head_block_num = 10;
  last_non_undoable_block_num = 4;
  num_from_id = λ i. i / 100;
  is_known_block = λ i. leb i 1000;
  get_block_id_for_num = λ n. if leb 1 n && leb n 10 then some (100 * n) else none;
  get_block_ids_on_fork = λ i. none;
}

abbrev answer : List ℕ
answer = 400 ∷ 500 ∷ 600 ∷ []

summary : get_blockchain_synopsis ten 0 0 ≡ some (400 ∷ 800 ∷ 1000 ∷ [])
unfolding get_blockchain_synopsis
summary = refl

ids : (m : ℕ) → 1 ≤ m → m ≤ 10 → (i : ℕ) × (ten.get_block_id_for_num m ≡ some i)
ids m a b = (100 * m, ground (arith, a, b))

get_blockchain_synopsis-summarizes_example :
    (first : ℕ) × (rest : List ℕ) × (get_blockchain_synopsis ten 0 0 ≡ some (first ∷ rest))
    × (ten.get_block_id_for_num (first_num ten) ≡ some first)
    × (suc (length rest) ≤ 32)
    × ((ten.get_block_id_for_num 10 ≡ some (back first rest)) ⊎ (0 < 0))
get_blockchain_synopsis-summarizes_example =
    get_blockchain_synopsis-summarizes ten 0 (omega arith) (omega arith) (omega arith) ids
