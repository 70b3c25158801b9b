-- ===== src/Resources/Tests.antt =====
-- Runs of the resource dynamics.
use xgt.Base.{arith, some, ◌≡◌, refl}
use xgt.Base.Int.{pos, neg, negsuc, safe_add, safe_sub, ◌+ℤ◌, ◌-ℤ◌}
use xgt.Resources.{
  UserParams, SystemParams, DynamicsParams, rd_validate_user_params, rd_setup_dynamics_params,
  rd_compute_pool_decay, rd_apply,
}
use xgt.Resources.Approach.{Approaches, rd_apply-Approaches}
use xgt.Resources.Equilibrium.{IsBalanced, rd_setup_dynamics_params-IsBalanced}

abbrev user : UserParams
user = record { budget_per_time_unit = pos 1000; decay_per_time_unit = 65536 }

abbrev system : SystemParams
system = record { resource_unit = 1; decay_per_time_unit_denom_shift = 36 }

abbrev blank : DynamicsParams
blank = record {
  resource_unit = 0;
  budget_per_time_unit = pos 0;
  pool_eq = 0;
  max_pool_size = 0;
  decay_params = record { decay_per_time_unit = 0; decay_per_time_unit_denom_shift = 0 };
  min_decay = pos 0;
}

abbrev dynamics : DynamicsParams
dynamics = record {
  resource_unit = 1;
  budget_per_time_unit = pos 1000;
  pool_eq = 1048576000;
  max_pool_size = 1048576000;
  decay_params = record { decay_per_time_unit = 65536; decay_per_time_unit_denom_shift = 36 };
  min_decay = pos 0;
}

accepted : rd_validate_user_params user ≡ some tt
unfolding rd_validate_user_params
accepted = refl

set_up : rd_setup_dynamics_params user system blank ≡ some dynamics
unfolding rd_setup_dynamics_params rd_compute_pool_decay
set_up = refl

steady : rd_apply dynamics (pos 1048576000) ≡ some (pos 1048576000)
unfolding rd_apply rd_compute_pool_decay safe_add safe_sub ◌+ℤ◌ ◌-ℤ◌
steady = refl

-- A pool in debt decays towards zero.
in_debt : rd_compute_pool_decay dynamics.decay_params (negsuc 1048575999) 1 ≡ some (negsuc 999)
unfolding rd_compute_pool_decay neg
in_debt = refl

rd_setup_dynamics_params-IsBalanced_example :
    (p : DynamicsParams) × (rd_setup_dynamics_params user system blank ≡ some p) × IsBalanced p
rd_setup_dynamics_params-IsBalanced_example =
    rd_setup_dynamics_params-IsBalanced user system blank accepted refl

rising : rd_apply dynamics (pos 524288000) ≡ some (pos 524288500)
unfolding rd_apply rd_compute_pool_decay safe_add safe_sub ◌+ℤ◌ ◌-ℤ◌
rising = refl

rd_apply-Approaches_example : Approaches dynamics 524288000
rd_apply-Approaches_example =
    rd_apply-Approaches user system blank dynamics 0 524288000 accepted refl refl refl set_up
      (omega arith)
