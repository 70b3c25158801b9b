-- ===== src/Mining/Emission.antt =====
-- The sum of the mining rewards, one in each block.
use native.Mathlib.Nat.{div-div-eq-div-mul, pow-suc, suc-mul, mul-le-mul, div-le_self}
use xgt.Base.{
  ℕ, zero, suc, ◌+◌, ◌-◌, ◌*◌, ◌/◌, ◌%◌, ◌^◌, ◌≤◌, ◌<◌, ◌≡◌, sym, ap, ◌∙◌, Option, none, some,
  arith, Bool-cases, inl, inr, ltb, ◌==◌, true, refl, if◌then◌else◌, ◌>>=◌,
}
use xgt.Base.Int.{ℤ, pos, negsuc, pos_part, ◌+ℤ◌, ◌≤ℤ◌, int_laws}
use xgt.Ledger.{Asset, xgt_asset_num}
use xgt.Mining.{halving_interval, mining_reward, reward_at}

-- What a block can pay its miner, and 0 if the reward cannot be computed.
abbrev pub amount_of_reward : Option Asset → ℕ
amount_of_reward none = 0
amount_of_reward (some a) = pos_part a.amount

unfoldable pub reward_of : ℕ → ℕ
unfolding reward_at
reward_of head = amount_of_reward (reward_at head)

pub reward_at-amount :
    (head : ℕ) (a : Asset) → reward_at head ≡ some a → a.amount ≤ℤ pos (reward_of head)
unfolding reward_at reward_of
reward_at-amount head a h = ground arith

-- It can be computed.
reward_at-some : (head : ℕ) → head < 64 * halving_interval → (a : Asset) × (reward_at head ≡ some a)
unfolding reward_at
reward_at-some head h =
    let few : ltb (head / halving_interval) 64 ≡ true = ground arith in
    let price =
      if head / halving_interval == 63
      then negsuc 0
      else pos (mining_reward / 2 ^ (head / halving_interval)) in
    (record { amount = price; symbol = xgt_asset_num }, rw few refl)

pub reward_at-symbol : (head : ℕ) (a : Asset) → reward_at head ≡ some a → a.symbol ≡ xgt_asset_num
unfolding reward_at
reward_at-symbol head a h = ground arith

-- Of `n` blocks from one on.
unfoldable pub rewards : ℕ → ℕ → ℕ
unfolding reward_of
rewards zero head = 0
rewards (suc n) head = reward_of head + rewards n (suc head)

era : ℕ → ℕ
era h = mining_reward / 2 ^ h

era-halves : (h : ℕ) → 2 * era (suc h) ≤ era h
unfolding era
era-halves h =
    let halved : 4166166 / 2 ^ suc h ≡ 4166166 / 2 ^ h / 2 =
      ap (◌/◌ 4166166) (pow-suc 2 h) ∙ sym (div-div-eq-div-mul 4166166 (2 ^ h) 2) in
    omega (arith, halved)

reward_of-le-era : (head : ℕ) → reward_of head ≤ era (head / halving_interval)
unfolding reward_of era
reward_of-le-era head = ground arith

-- What can still be paid from a block on.
room : ℕ → ℕ
room head = (2 * halving_interval - head % halving_interval) * era (head / halving_interval)

product_step : (m r : ℕ) → 0 < m → m * r ≡ (m - 1) * r + r
product_step zero r h = absurd (omega arith)
product_step (suc m) r h = let e : suc m - 1 ≡ m = omega arith in rw e (suc-mul m r)

-- Within an era, and from its last block to the next era.
room_within :
    (j r : ℕ)
    → j < halving_interval
    → r + (2 * halving_interval - suc j) * r ≡ (2 * halving_interval - j) * r
room_within j r h =
    let e : 2 * halving_interval - suc j ≡ 2 * halving_interval - j - 1 = omega (arith, h) in
    rw e (omega (arith, product_step (2 * halving_interval - j) r (omega (arith, h))))

room_between : (r r' : ℕ) → 2 * r' ≤ r → r + 2 * halving_interval * r' ≤ (halving_interval + 1) * r
room_between r r' h = omega (arith, h)

era-room : (head : ℕ) → era (head / halving_interval) + room (suc head) ≤ room head
unfolding room
era-room head = elim (Bool-cases (ltb (suc (head % halving_interval)) halving_interval)) [
  | inl inside ↦
      let same : suc head / halving_interval ≡ head / halving_interval = ground arith in
      let next : suc head % halving_interval ≡ suc (head % halving_interval) = ground arith in
      rw (same, next)
        (omega (
          arith,
          room_within (head % halving_interval) (era (head / halving_interval)) (omega arith),
        ))
  | inr last ↦
      let more : suc head / halving_interval ≡ suc (head / halving_interval) = ground arith in
      let none_left : suc head % halving_interval ≡ 0 = ground arith in
      let end : head % halving_interval ≡ halving_interval - 1 = ground arith in
      rw (more, none_left, end)
        (room_between (era (head / halving_interval)) (era (suc (head / halving_interval)))
          (era-halves (head / halving_interval)))
]

rewards-le-room : (n head : ℕ) → rewards n head ≤ room head
unfolding rewards
rewards-le-room zero head = omega arith
rewards-le-room (suc n) head =
    omega (arith, reward_of-le-era head, era-room head, rewards-le-room n (suc head))

room-le : (head : ℕ) → room head ≤ 2 * halving_interval * mining_reward
unfolding room era
room-le head =
    mul-le-mul {n₂ = 2 * halving_interval} {m₂ = mining_reward} (omega arith)
      (div-le_self mining_reward (2 ^ (head / halving_interval)))

-- The amounts that the code pays in `n` blocks from one on.
unfoldable pub sum_of_rewards : ℕ → ℕ → Option ℤ
sum_of_rewards zero head = some (pos 0)
sum_of_rewards (suc n) head = do
  reward ← reward_at head
  later ← sum_of_rewards n (suc head)
  some (reward.amount +ℤ later)

plus_le : (a b : ℤ) (m n : ℕ) → a ≤ℤ pos m → b ≤ℤ pos n → a +ℤ b ≤ℤ pos (m + n)
plus_le a b m n h k = omega (int_laws, h, k)

sum_of_rewards-le :
    (n head : ℕ)
    → head + n ≤ 64 * halving_interval
    → (t : ℤ) × (sum_of_rewards n head ≡ some t) × (t ≤ℤ pos (rewards n head))
unfolding sum_of_rewards rewards
sum_of_rewards-le zero head h = (pos 0, refl, omega arith)
sum_of_rewards-le (suc n) head h =
    let (a, e) = reward_at-some head (omega (arith, h)) in
    let (t, f, le) = sum_of_rewards-le n (suc head) (omega (arith, h)) in
    (
      a.amount +ℤ t,
      rw (e, f) refl,
      plus_le a.amount t (reward_of head) (rewards n (suc head)) (reward_at-amount head a e) le,
    )

-- The mining rewards of any number of blocks on one another, one for each, all below 64 times the
-- halving interval, can be computed, and sum to no more than 251219809800000, whatever the first.
pub rewards-bound :
    (n head : ℕ)
    → head + n ≤ 64 * halving_interval
    → (t : ℤ) × (sum_of_rewards n head ≡ some t) × (t ≤ℤ pos 251219809800000)
rewards-bound n head h =
    let (t, e, le) = sum_of_rewards-le n head h in
    (t, e, omega (arith, le, rewards-le-room n head, room-le head))
