-- ===== src/Mining.antt =====
-- Proof of work in libraries/chain/xgt_evaluator.cpp, pow_evaluator, and in libraries/chain/database.cpp.
-- XGT_MINING_REWARD_HALVING_INTERVAL is 201000 * 150. A reward is a small whole number times a power
-- of two, which a double holds exactly, so that floor is a division.
pub mod Emission
use xgt.Base.{
  ℕ, ◌+◌, ◌*◌, ◌/◌, ◌%◌, ◌^◌, Bool, true, false, not, Option, none, some, ◌∷◌, ◌==◌, ltb, leb,
  is_some, require, if◌then◌else◌, ◌>>=◌, ◌>>◌,
}
use xgt.Base.Int.{pos, negsuc}
use xgt.Ledger.{Asset, Ledger, xgt_asset_num, get_account, adjust_balance}
use xgt.Ledger.Transfer.{create_wallet}
use xgt.Database.{Properties, Witness, Database, find_witness, set_witness}

abbrev pub halving_interval : ℕ
halving_interval = 30150000

-- `XGT_MINING_REWARD`
abbrev pub mining_reward : ℕ
mining_reward = 4166166

-- The block from which _apply_block pays the first miner, in place of the evaluator.
abbrev pub first_miner_block : ℕ
first_miner_block = 2116800

-- `floor( value )`: the divisor is 1L << halvings. At 63 that is the least long, and the value is
-- negative and above -1. `none` is a shift by 64 or more, which is undefined.
unfoldable pub reward_at : ℕ → Option Asset
reward_at head = do
  let halvings = head / halving_interval
  require (ltb halvings 64)
  let price = if halvings == 63 then negsuc 0 else pos (mining_reward / 2 ^ halvings)
  some (record { amount = price; symbol = xgt_asset_num })

-- `get_pow_target`; sixteen to the power of the zeros after the digits.
unfoldable pub get_pow_target : Properties → ℕ
get_pow_target p =
    if ltb p.head_block_number 400000
    then 65535 * 16 ^ 55
    else if ltb p.head_block_number 907200
    then 262140 * 16 ^ 53
    else p.mining_target

-- `pow_operation` with its `sha2_pow`.
pub record PowOperation : Type 0 where
  pub worker_account : ℕ
  pub input_prev_block : ℕ
  pub prev_block : ℕ
  pub pow_summary : ℕ
  pub new_recovery_key : Option ℕ
  pub props_maximum_block_size : ℕ

-- What the evaluator asks of hashes and of the chain: fc's `approx_log_32`, the number in an id, and
-- `previous_block_id` for a head.
pub record Hashes : Type 0 where
  pub approx_log_32 : ℕ → ℕ
  pub num_from_id : ℕ → ℕ
  pub previous_block_id : ℕ → Option ℕ

-- `XGT_MIN_BLOCK_SIZE_LIMIT * 2`
abbrev pub min_voted_block_size : ℕ
min_voted_block_size = 65536 * 2

abbrev pub matches : Option ℕ → ℕ → Bool
matches none i = true
matches (some j) i = i == j

-- The assertions.
unfoldable pub check_work : Hashes → PowOperation → Properties → Option (Unit {0})
unfolding get_pow_target
check_work hs o p = do
  require (matches (hs.previous_block_id p.head_block_id) o.prev_block)
  require (ltb p.last_irreversible_block_num (hs.num_from_id o.input_prev_block))
  require (ltb o.pow_summary (hs.approx_log_32 (get_pow_target p)))
  require (leb min_voted_block_size o.props_maximum_block_size)

abbrev pub count_work : Properties → Properties
count_work p = record p {
  total_pow = (p.total_pow + 1) % 2 ^ 64;
  num_pow_witnesses = (p.num_pow_witnesses + 1) % 2 ^ 32;
}

-- A wallet, its authorities and a witness for a worker that the chain does not know.
unfoldable pub create_worker : PowOperation → ℕ → Database → Option Database
unfolding create_wallet find_witness
create_worker o key d = do
  ledger ←
      create_wallet (record { recovery = key; money = key; social = key; memo = key })
        o.worker_account d.ledger
  require (not (is_some (find_witness o.worker_account d)))
  some (record d {
    ledger = ledger;
    witnesses =
        record {
          owner = o.worker_account;
          signing_key = key;
          pow_worker = d.properties.total_pow;
          props_maximum_block_size = o.props_maximum_block_size;
          running_version = 0;
          hardfork_version_vote = 0;
          hardfork_time_vote = 0;
        }
        ∷ d.witnesses;
  })

-- The rest, from `find_witness` on.
unfoldable pub reward_worker : PowOperation → Asset → Database → Option Database
unfolding find_witness set_witness
reward_worker o reward d = elim (find_witness o.worker_account d) [
  | none ↦ some d
  | some w ↦ (do
    ledger ← adjust_balance o.worker_account reward d.ledger
    some
        (record (set_witness
          (record w {
            pow_worker = d.properties.total_pow;
            props_maximum_block_size = o.props_maximum_block_size;
          })
          d) { ledger = ledger }))
]

-- A worker with no wallet needs a key for one.
unfoldable pub ensure_worker : PowOperation → Asset → Database → Option Database
unfolding get_account create_worker reward_worker
ensure_worker o reward d =
    if is_some (get_account o.worker_account d.ledger)
    then reward_worker o reward d
    else elim o.new_recovery_key [
      | none ↦ some d
      | some key ↦ (create_worker o key d >>= reward_worker o reward)
    ]

-- `pow_evaluator::do_apply`
unfoldable pub evaluate_pow : Hashes → PowOperation → Database → Option Database
unfolding check_work reward_at ensure_worker
evaluate_pow hs o d = if leb first_miner_block d.properties.head_block_number then some d else (do
  check_work hs o d.properties
  reward ← reward_at d.properties.head_block_number
  ensure_worker o reward (record d { properties = count_work d.properties }))
