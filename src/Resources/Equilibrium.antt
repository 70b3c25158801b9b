-- ===== src/Resources/Equilibrium.antt =====
-- The pool at which decay and budget are in balance, in libraries/chain/util/rd.cpp.
use native.Mathlib.Nat.{mul-le-mul, le-div_iff_mul-le, div-lt_iff_lt-mul, mul_comm, suc-mul}
use xgt.Base.{
  ℕ, suc, ◌+◌, ◌-◌, ◌*◌, ◌/◌, ◌%◌, ◌^◌, ◌≤◌, ◌<◌, ◌≡◌, ◌↔◌, refl, arith, some, ap, ◌∙◌, leb, true,
  false, ◌==◌,
}
use xgt.Base.Int.{ℤ, pos, negsuc, leb_ℤ, ◌≤ℤ◌}
use xgt.Resources.{
  DecayParams, UserParams, SystemParams, DynamicsParams, decay_of, to_int64, filled,
  rd_compute_pool_decay, rd_validate_user_params, pool_eq_of, check_pool_eq,
  rd_setup_dynamics_params,
}

pub next_product : (d x : ℕ) → (x + 1) * d ≡ d * x + d
next_product d x = let e : x + 1 ≡ suc x = omega arith in rw (e, mul_comm d x) (suc-mul x d)

pub balance : (b d x : ℕ) → 0 < d → (b ≤ d * x / 2 ^ 36) ↔ ((b * 2 ^ 36 + (d - 1)) / d ≤ x)
balance b d x h =
    let f = le-div_iff_mul-le {k = 2 ^ 36} {x = b} {y = d * x} (omega arith) in
    let g = div-lt_iff_lt-mul {k = d} {x = b * 2 ^ 36 + (d - 1)} {y = x + 1} h in
    let e = next_product d x in ground arith

abbrev pub shifted : ℕ → DecayParams
shifted d = record { decay_per_time_unit = d; decay_per_time_unit_denom_shift = 36 }

decay_of-value :
    (d x : ℕ) → d < 2 ^ 32 → x < 2 ^ 63 → decay_of (shifted d) x 1 ≡ some (d * x / 2 ^ 36)
unfolding decay_of
decay_of-value d x hd hx =
    let bound : d * x ≤ 2 ^ 32 * 2 ^ 63 =
      mul-le-mul {n₁ = d} {m₁ = x} {n₂ = 2 ^ 32} {m₂ = 2 ^ 63} (omega arith) (omega arith) in
    let small : d * x ≤ 2 ^ 32 * x =
      mul-le-mul {n₁ = d} {m₁ = x} {n₂ = 2 ^ 32} {m₂ = x} (omega arith) (omega arith) in
    let one : d * 1 % 2 ^ 64 ≡ d = omega arith in rw one (ground arith)

-- The decay at a pool that is a whole number.
pub rd_compute_pool_decay-value :
    (d x : ℕ)
    → d < 2 ^ 32
    → x < 2 ^ 63
    → rd_compute_pool_decay (shifted d) (pos x) 1 ≡ some (pos (d * x / 2 ^ 36))
unfolding rd_compute_pool_decay
rd_compute_pool_decay-value d x hd hx = rw (decay_of-value d x hd hx) refl

-- The pool of equilibrium, for a budget and a decay.
abbrev pub equilibrium : ℕ → ℕ → ℕ
equilibrium b d = (b * 2 ^ 36 + (d - 1)) / d

pub equilibrium-bounds :
    (b d : ℕ)
    → 1 ≤ b
    → b ≤ 268435455
    → 64 ≤ d
    → d < 2 ^ 32
    → (1 ≤ equilibrium b d) × (equilibrium b d < 2 ^ 60)
equilibrium-bounds b d hb hb' hd hd' =
    let least = le-div_iff_mul-le {k = d} {x = 1} {y = b * 2 ^ 36 + (d - 1)} (omega arith) in
    let most = div-lt_iff_lt-mul {k = d} {x = b * 2 ^ 36 + (d - 1)} {y = 2 ^ 60} (omega arith) in
    ground arith

pool_eq_of-value :
    (b d : ℕ)
    → 1 ≤ b
    → b ≤ 268435455
    → 64 ≤ d
    → d < 2 ^ 32
    → pool_eq_of (record { budget_per_time_unit = pos b; decay_per_time_unit = d }) 36
      ≡ some (equilibrium b d)
unfolding pool_eq_of
pool_eq_of-value b d hb hb' hd hd' =
    let bounds = equilibrium-bounds b d hb hb' hd hd' in
    let budget : (b + 2 ^ 128 - 0) % 2 ^ 128 ≡ b = omega arith in
    let shifted_up : b * 2 ^ 36 % 2 ^ 128 ≡ b * 2 ^ 36 = omega arith in
    let less : (d + 2 ^ 32 - 1) % 2 ^ 32 ≡ d - 1 = omega arith in
    let total : (b * 2 ^ 36 + (d - 1)) % 2 ^ 128 ≡ b * 2 ^ 36 + (d - 1) = omega arith in
    rw (budget, shifted_up, less, total) (ground arith)

check_pool_eq-value :
    (b d x : ℕ) (p : DynamicsParams)
    → p.budget_per_time_unit ≡ pos b
    → p.decay_params ≡ shifted d
    → d < 2 ^ 32
    → x < 2 ^ 63
    → check_pool_eq p x ≡ some (leb b (d * x / 2 ^ 36))
unfolding check_pool_eq
check_pool_eq-value b d x p hb hp hd hx =
    let signed : to_int64 x ≡ pos x = ground arith in
    rw (signed, hp, rd_compute_pool_decay-value d x hd hx, hb) (ground arith)

-- Each pool that an int64_t holds decays, and by no less than the budget just from `pool_eq` on.
unfoldable pub IsBalanced : DynamicsParams → Type 0
IsBalanced p =
    (x : ℕ)
    → x < 2 ^ 63
    → (decay : ℤ) × (rd_compute_pool_decay p.decay_params (pos x) 1 ≡ some decay)
      × ((p.budget_per_time_unit ≤ℤ decay) ↔ (p.pool_eq ≤ x))

filled-IsBalanced :
    (b d : ℕ) (p : DynamicsParams)
    → p.budget_per_time_unit ≡ pos b
    → p.decay_params ≡ shifted d
    → p.pool_eq ≡ equilibrium b d
    → 1 ≤ d
    → d < 2 ^ 32
    → IsBalanced p
unfolding IsBalanced
filled-IsBalanced b d p hb hp he hd hd' x hx =
    let q = balance b d x hd in
    (
      pos (d * x / 2 ^ 36),
      rw hp (rd_compute_pool_decay-value d x hd' hx),
      rw (hb, he) (ground arith),
    )

-- With the balance at the computed pool and not below it, the last two assertions hold.
pub setup-value :
    (b d : ℕ) (s : SystemParams) (out : DynamicsParams)
    → 1 ≤ b
    → b ≤ 268435455
    → 64 ≤ d
    → d < 2 ^ 32
    → s.decay_per_time_unit_denom_shift ≡ 36
    → rd_setup_dynamics_params
        (record { budget_per_time_unit = pos b; decay_per_time_unit = d })
        s
        out
      ≡ some (
          filled
            (record { budget_per_time_unit = pos b; decay_per_time_unit = d })
            s
            out
            (equilibrium b d))
unfolding rd_setup_dynamics_params
setup-value b d s out hb hb' hd hd' hs =
    let (least, most) = equilibrium-bounds b d hb hb' hd hd' in
    let e = equilibrium b d in
    let u : UserParams = record { budget_per_time_unit = pos b; decay_per_time_unit = d } in
    let p = filled u s out e in
    let decay : p.decay_params ≡ shifted d =
      ap (λ k. record { decay_per_time_unit = d; decay_per_time_unit_denom_shift = k }) hs in
    let back : (e + 2 ^ 64 - 1) % 2 ^ 64 ≡ e - 1 = omega arith in
    let here = balance b d e (omega arith) in
    let below = balance b d (e - 1) (omega arith) in
    let at_eq : check_pool_eq p e ≡ some true =
      check_pool_eq-value b d e p refl decay hd' (omega arith) ∙ ground arith in
    let under : check_pool_eq p ((e + 2 ^ 64 - 1) % 2 ^ 64) ≡ some false =
      rw back (check_pool_eq-value b d (e - 1) p refl decay hd' (omega arith) ∙ ground arith) in
    let found : pool_eq_of u s.decay_per_time_unit_denom_shift ≡ some e =
      rw hs (pool_eq_of-value b d hb hb' hd hd') in
    let shift : (s.decay_per_time_unit_denom_shift == 36) ≡ true = ground arith in
    rw (shift, found, at_eq, under) refl

natural : (z : ℤ) → leb_ℤ (pos 1) z ≡ true → (b : ℕ) × (z ≡ pos b)
natural (pos b) h = (b, refl)
natural (negsuc n) h = absurd (ground arith)

pub valid-inv :
    (u : UserParams)
    → rd_validate_user_params u ≡ some tt
    → (b : ℕ) × (u.budget_per_time_unit ≡ pos b)
      × (1 ≤ b)
      × (b ≤ 268435455)
      × (64 ≤ u.decay_per_time_unit)
      × (u.decay_per_time_unit < 2 ^ 32)
unfolding rd_validate_user_params
valid-inv u h =
    let (b, e) = natural u.budget_per_time_unit (ground arith) in
    (b, e, ground arith, ground arith, ground arith, ground arith)

-- If rd_validate_user_params accepts the parameters of a user, and the shift is the one of the
-- system, then rd_setup_dynamics_params fails no assertion; and in the dynamics that it fills, each
-- pool that an int64_t holds has a decay, which is not below the budget just where the pool is not
-- below pool_eq.
pub rd_setup_dynamics_params-IsBalanced :
    (u : UserParams) (s : SystemParams) (out : DynamicsParams)
    → rd_validate_user_params u ≡ some tt
    → s.decay_per_time_unit_denom_shift ≡ 36
    → (p : DynamicsParams) × (rd_setup_dynamics_params u s out ≡ some p) × IsBalanced p
rd_setup_dynamics_params-IsBalanced u s out valid hs =
    let (b, hu, hb, hb', hd, hd') = valid-inv u valid in
    let d = u.decay_per_time_unit in
    let v : UserParams = record { budget_per_time_unit = pos b; decay_per_time_unit = d } in
    let same : u ≡ v = ap (λ k. record { budget_per_time_unit = k; decay_per_time_unit = d }) hu in
    (
      filled v s out (equilibrium b d),
      rw same (setup-value b d s out hb hb' hd hd' hs),
      filled-IsBalanced b d (filled v s out (equilibrium b d)) refl
          (ap (λ k. record { decay_per_time_unit = d; decay_per_time_unit_denom_shift = k }) hs)
          refl (omega arith) hd',
    )
