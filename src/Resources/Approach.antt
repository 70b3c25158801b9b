-- ===== src/Resources/Approach.antt =====
-- How rd_apply of libraries/chain/util/rd.cpp moves a pool that is not above its equilibrium.
use native.Mathlib.Nat.{mul_comm}
use mathlib.Core.Option.{some-injective}
use xgt.Base.{
  ℕ, ◌+◌, ◌-◌, ◌*◌, ◌/◌, ◌^◌, ◌≤◌, ◌<◌, ◌≡◌, ◌↔◌, refl, arith, Bool-cases, inl, inr, some, ap, ◌∙◌,
  sym, ltb, true, if◌then◌else◌,
}
use xgt.Base.Int.{pos, ltb_ℤ, ◌+ℤ◌, ◌-ℤ◌, safe_add, safe_sub}
use xgt.Resources.{
  UserParams, SystemParams, DynamicsParams, to_int64, max_ℤ, min_ℤ, rd_compute_pool_decay, rd_apply,
  rd_validate_user_params, rd_setup_dynamics_params, filled,
}
use xgt.Resources.Equilibrium.{
  shifted, equilibrium, equilibrium-bounds, balance, next_product, rd_compute_pool_decay-value,
  setup-value, valid-inv,
}

safe_add-pos : (a b : ℕ) → a + b < 2 ^ 63 → safe_add (pos a) (pos b) ≡ some (pos (a + b))
unfolding safe_add ◌+ℤ◌ ◌-ℤ◌
safe_add-pos a b h = ground arith

safe_sub-pos : (a n : ℕ) → n ≤ a → a < 2 ^ 63 → safe_sub (pos a) (pos n) ≡ some (pos (a - n))
unfolding safe_sub ◌+ℤ◌ ◌-ℤ◌
safe_sub-pos a n h k = ground arith

greater : ℕ → ℕ → ℕ
greater a b = if ltb a b then b else a

lesser : ℕ → ℕ → ℕ
lesser a b = if ltb b a then b else a

max-pos : (a b : ℕ) → max_ℤ (pos a) (pos b) ≡ pos (greater a b)
unfolding greater
max-pos a b = ground arith

kept_in_pool :
    (z e : ℕ) → e < 2 ^ 63 → max_ℤ (min_ℤ (pos z) (to_int64 e)) (pos 0) ≡ pos (lesser z e)
unfolding lesser
kept_in_pool z e h = ground arith

step_back : (d e : ℕ) → 1 ≤ e → d * e ≡ d * (e - 1) + d
step_back d e h =
    let back : e - 1 + 1 ≡ e = omega arith in
    mul_comm d e ∙ ap (λ k. k * d) (sym back) ∙ next_product d (e - 1)

-- Decay and budget are equal at the equilibrium.
decay_at_equilibrium :
    (b d : ℕ) → 1 ≤ b → b ≤ 268435455 → 64 ≤ d → d < 2 ^ 32 → d * equilibrium b d / 2 ^ 36 ≡ b
decay_at_equilibrium b d hb hb' hd hd' =
    let (least, most) = equilibrium-bounds b d hb hb' hd hd' in
    let e = equilibrium b d in
    let here = balance b d e (omega arith) in
    let below = balance b d (e - 1) (omega arith) in
    let product = step_back d e least in ground arith

-- The steps of rd_apply, on a pool `x` whose decay is `c`.
apply_steps :
    (b m e x c : ℕ) (p : DynamicsParams)
    → p.budget_per_time_unit ≡ pos b
    → p.min_decay ≡ pos m
    → p.max_pool_size ≡ e
    → rd_compute_pool_decay p.decay_params (pos x) 1 ≡ some (pos c)
    → b ≤ 268435455
    → e < 2 ^ 60
    → x ≤ e
    → c ≤ b
    → m ≤ b
    → rd_apply p (pos x) ≡ some (pos (lesser (x + b - greater c m) e))
unfolding rd_apply greater
apply_steps b m e x c p hb hm he hc hb' he' hx hcb hmb =
    rw
      (
        hc,
        hb,
        hm,
        he,
        safe_add-pos x b (omega arith),
        max-pos c m,
        safe_sub-pos (x + b) (greater c m) (ground arith) (omega arith),
        kept_in_pool (x + b - greater c m) e (omega arith),
      )
      refl

-- Up to the equilibrium the decay is at most the budget, and it is the budget only there.
decay_up_to_equilibrium :
    (b d x : ℕ)
    → 1 ≤ b
    → b ≤ 268435455
    → 64 ≤ d
    → d < 2 ^ 32
    → x ≤ equilibrium b d
    → (d * x / 2 ^ 36 ≤ b) × ((b ≤ d * x / 2 ^ 36) ↔ (x ≡ equilibrium b d))
decay_up_to_equilibrium b d x hb hb' hd hd' hx =
    let q = balance b d x (omega arith) in
    let top = decay_at_equilibrium b d hb hb' hd hd' in
    elim (Bool-cases (ltb x (equilibrium b d))) [
      | inl l ↦ (ground arith, ground arith)
      | inr l ↦
          let e : x ≡ equilibrium b d = ground arith in
          rw e (let k = top in (ground arith, ground arith))
    ]

unfoldable pub Approaches : DynamicsParams → ℕ → Type 0
Approaches p x =
    (y : ℕ) × (rd_apply p (pos x) ≡ some (pos y))
    × (x ≤ y)
    × (y ≤ p.pool_eq)
    × ((x ≡ y) ↔ (x ≡ p.pool_eq))

filled-Approaches :
    (b d m x : ℕ) (p : DynamicsParams)
    → 1 ≤ b
    → b ≤ 268435455
    → 64 ≤ d
    → d < 2 ^ 32
    → m < b
    → p.budget_per_time_unit ≡ pos b
    → p.min_decay ≡ pos m
    → p.decay_params ≡ shifted d
    → p.max_pool_size ≡ equilibrium b d
    → p.pool_eq ≡ equilibrium b d
    → x ≤ p.pool_eq
    → Approaches p x
unfolding Approaches greater lesser
filled-Approaches b d m x p hb hb' hd hd' hmb hbud hmin hdec hmax heq hx =
    let (least, most) = equilibrium-bounds b d hb hb' hd hd' in
    let up : x ≤ equilibrium b d = ground arith in
    let (le, iff) = decay_up_to_equilibrium b d x hb hb' hd hd' up in
    let y = lesser (x + b - greater (d * x / 2 ^ 36) m) (equilibrium b d) in
    (
      y,
      apply_steps b m (equilibrium b d) x (d * x / 2 ^ 36) p hbud hmin hmax
          (rw hdec (rd_compute_pool_decay-value d x hd' (omega arith))) hb' most up le
          (omega arith),
      ground arith,
      rw heq (ground arith),
      rw heq (ground arith),
    )

-- If the parameters that rd_setup_dynamics_params is given are valid, and the least decay is a whole
-- number below the budget, then rd_apply gives, for a pool that is not above pool_eq, a pool that is
-- neither below that pool nor above pool_eq; and the pool stays as it is just at pool_eq.
pub rd_apply-Approaches :
    (u : UserParams) (s : SystemParams) (out p : DynamicsParams) (m x : ℕ)
    → rd_validate_user_params u ≡ some tt
    → s.decay_per_time_unit_denom_shift ≡ 36
    → out.min_decay ≡ pos m
    → ltb_ℤ (pos m) u.budget_per_time_unit ≡ true
    → rd_setup_dynamics_params u s out ≡ some p
    → x ≤ p.pool_eq
    → Approaches p x
rd_apply-Approaches u s out p m x valid hs hm hlt hset hx =
    let (b, hu, hb, hb', hd, hd') = valid-inv u valid in
    let d = u.decay_per_time_unit in
    let v : UserParams = record { budget_per_time_unit = pos b; decay_per_time_unit = d } in
    let same : u ≡ v = ap (λ k. record { budget_per_time_unit = k; decay_per_time_unit = d }) hu in
    let q = filled v s out (equilibrium b d) in
    let made : p ≡ q = some-injective p q (
      sym hset
      ∙ ap (λ k. rd_setup_dynamics_params k s out) same
      ∙ setup-value b d s out hb hb' hd hd' hs) in
    filled-Approaches b d m x p hb hb' hd hd' (ground arith) (ap (λ k. k.budget_per_time_unit) made)
      (ap (λ k. k.min_decay) made ∙ hm)
      (ap (λ k. k.decay_params) made
        ∙ ap (λ k. record { decay_per_time_unit = d; decay_per_time_unit_denom_shift = k }) hs)
      (ap (λ k. k.max_pool_size) made) (ap (λ k. k.pool_eq) made) hx
