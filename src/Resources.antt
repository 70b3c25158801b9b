-- ===== src/Resources.antt =====
-- Resource dynamics: libraries/chain/util/rd.cpp, with rd_dynamics.hpp and rd_setup.hpp, over the
-- fc::uint128_t of fc, whose operators wrap round at 128 bits.
pub mod Equilibrium
pub mod Approach
mod Tests
use xgt.Base.{
  ℕ, ◌+◌, ◌-◌, ◌*◌, ◌/◌, ◌%◌, ◌^◌, not, Option, none, some, ◌==◌, ltb, leb, require, Bool,
  if◌then◌else◌, ◌>>=◌, ◌>>◌,
}
use xgt.Base.Int.{ℤ, pos, negsuc, pos_part, neg_part, neg, leb_ℤ, ltb_ℤ, safe_add, safe_sub}

pub record DecayParams : Type 0 where
  pub decay_per_time_unit : ℕ
  pub decay_per_time_unit_denom_shift : ℕ

pub record DynamicsParams : Type 0 where
  pub resource_unit : ℕ
  pub budget_per_time_unit : ℤ
  pub pool_eq : ℕ
  pub max_pool_size : ℕ
  pub decay_params : DecayParams
  pub min_decay : ℤ

pub record UserParams : Type 0 where
  pub budget_per_time_unit : ℤ
  pub decay_per_time_unit : ℕ

pub record SystemParams : Type 0 where
  pub resource_unit : ℕ
  pub decay_per_time_unit_denom_shift : ℕ

-- `XGT_RD_MAX_BUDGET` is the second of its three bounds.
unfoldable pub rd_validate_user_params : UserParams → Option (Unit {0})
rd_validate_user_params u = do
  require (leb_ℤ (pos 1) u.budget_per_time_unit)
  require (leb_ℤ u.budget_per_time_unit (pos 268435455))
  require (leb 64 u.decay_per_time_unit)
  require (leb u.decay_per_time_unit 4294967295)

-- Of a fc::uint128_t; `none` is a failed assertion.
abbrev pub to_uint64 : ℕ → Option ℕ
to_uint64 n = if ltb n (2 ^ 64) then some n else none

-- A pool that is not negative.
unfoldable pub decay_of : DecayParams → ℕ → ℕ → Option ℕ
decay_of d pool dt = do
  let amount = d.decay_per_time_unit * dt % 2 ^ 64 * pool % 2 ^ 128
  result ← to_uint64 (amount / 2 ^ d.decay_per_time_unit_denom_shift)
  some (if ltb pool result then pool else result)

unfoldable pub rd_compute_pool_decay : DecayParams → ℤ → ℕ → Option ℤ
unfolding decay_of
rd_compute_pool_decay d (pos pool) dt = decay_of d pool dt >>= λ x. some (pos x)
rd_compute_pool_decay d (negsuc n) dt = decay_of d (n + 1) dt >>= λ x. some (neg (pos x))

abbrev pub to_int64 : ℕ → ℤ
to_int64 n = if ltb n (2 ^ 63) then pos n else negsuc (2 ^ 64 - n - 1)

abbrev pub max_ℤ : ℤ → ℤ → ℤ
max_ℤ a b = if ltb_ℤ a b then b else a

abbrev pub min_ℤ : ℤ → ℤ → ℤ
min_ℤ a b = if ltb_ℤ b a then b else a

-- `none` is also a sum that an int64_t does not hold.
unfoldable pub rd_apply : DynamicsParams → ℤ → Option ℤ
unfolding rd_compute_pool_decay
rd_apply rd pool = do
  decay ← rd_compute_pool_decay rd.decay_params pool 1
  raised ← safe_add pool rd.budget_per_time_unit
  new_pool ← safe_sub raised (max_ℤ decay rd.min_decay)
  some (max_ℤ (min_ℤ new_pool (to_int64 rd.max_pool_size)) (pos 0))

unfoldable pub check_pool_eq : DynamicsParams → ℕ → Option Bool
unfolding rd_compute_pool_decay
check_pool_eq p pool = do
  decay ← rd_compute_pool_decay p.decay_params (to_int64 pool) 1
  some (leb_ℤ p.budget_per_time_unit decay)

-- The division, by numbers of 128 bits; `none` is also a division by zero.
unfoldable pub pool_eq_of : UserParams → ℕ → Option ℕ
pool_eq_of u shift = do
  let budget =
      (pos_part u.budget_per_time_unit + 2 ^ 128 - neg_part u.budget_per_time_unit) % 2 ^ 128
  let temp = budget * 2 ^ shift % 2 ^ 128
  let raised = (temp + (u.decay_per_time_unit + 2 ^ 32 - 1) % 2 ^ 32) % 2 ^ 128
  require (not (u.decay_per_time_unit == 0))
  to_uint64 (raised / u.decay_per_time_unit)

-- What is filled before the assertions on the balance; `out` is what the caller passes.
abbrev pub filled : UserParams → SystemParams → DynamicsParams → ℕ → DynamicsParams
filled u s out eq = record out {
  resource_unit = s.resource_unit;
  budget_per_time_unit = u.budget_per_time_unit;
  pool_eq = eq;
  max_pool_size = eq;
  decay_params = record {
    decay_per_time_unit = u.decay_per_time_unit;
    decay_per_time_unit_denom_shift = s.decay_per_time_unit_denom_shift;
  };
}

unfoldable pub rd_setup_dynamics_params :
    UserParams → SystemParams → DynamicsParams → Option DynamicsParams
unfolding check_pool_eq pool_eq_of
rd_setup_dynamics_params u s out = do
  require (s.decay_per_time_unit_denom_shift == 36)
  eq ← pool_eq_of u s.decay_per_time_unit_denom_shift
  at_eq ← check_pool_eq (filled u s out eq) eq
  require at_eq
  below ← check_pool_eq (filled u s out eq) ((eq + 2 ^ 64 - 1) % 2 ^ 64)
  require (not below)
  some (filled u s out eq)
