-- ===== src/Base/Int.antt =====
-- Signed integers over the native numbers, and the checked 64-bit arithmetic of fc::safe.
use xgt.Base.{
  ℕ, suc, ◌+◌, ◌-◌, ◌≤◌, ◌^◌, ◌≡◌, Bool, true, false, ◌&&◌, Option, none, some, arith, ltb, leb,
  ◌==◌, if◌then◌else◌,
}

-- `negsuc n` is -(n + 1).
pub data ℤ : Type 0 where
  pos : ℕ → ℤ
  negsuc : ℕ → ℤ

abbrev pub pos_part : ℤ → ℕ
pos_part (pos n) = n
pos_part (negsuc n) = 0

abbrev pub neg_part : ℤ → ℕ
neg_part (pos n) = 0
neg_part (negsuc n) = suc n

-- a - b, as an integer.
abbrev pub sub_ℕ : ℕ → ℕ → ℤ
sub_ℕ a b = if leb b a then pos (a - b) else negsuc (b - a - 1)

infixl 65 ◌+ℤ◌ ◌-ℤ◌
infix 50 ◌≤ℤ◌
unfoldable pub ◌+ℤ◌ : ℤ → ℤ → ℤ
a +ℤ b = sub_ℕ (pos_part a + pos_part b) (neg_part a + neg_part b)

unfoldable pub ◌-ℤ◌ : ℤ → ℤ → ℤ
a -ℤ b = sub_ℕ (pos_part a + neg_part b) (neg_part a + pos_part b)

unfoldable pub neg : ℤ → ℤ
neg a = sub_ℕ (neg_part a) (pos_part a)

abbrev pub ◌≤ℤ◌ : ℤ → ℤ → Type 0
a ≤ℤ b = pos_part a + neg_part b ≤ pos_part b + neg_part a

abbrev pub ltb_ℤ : ℤ → ℤ → Bool
ltb_ℤ a b = ltb (pos_part a + neg_part b) (pos_part b + neg_part a)

abbrev pub leb_ℤ : ℤ → ℤ → Bool
leb_ℤ a b = leb (pos_part a + neg_part b) (pos_part b + neg_part a)

abbrev pub eqb_ℤ : ℤ → ℤ → Bool
eqb_ℤ a b = (pos_part a + neg_part b) == (pos_part b + neg_part a)

-- With these the operations can stay shut.
pub +ℤ_parts :
    (a b : ℤ)
    → pos_part (a +ℤ b) + neg_part a + neg_part b ≡ neg_part (a +ℤ b) + pos_part a + pos_part b
unfolding ◌+ℤ◌
+ℤ_parts a b = ground arith

pub -ℤ_parts :
    (a b : ℤ)
    → pos_part (a -ℤ b) + neg_part a + pos_part b ≡ neg_part (a -ℤ b) + pos_part a + neg_part b
unfolding ◌-ℤ◌
-ℤ_parts a b = ground arith

pub neg_parts : (a : ℤ) → pos_part (neg a) + pos_part a ≡ neg_part (neg a) + neg_part a
unfolding neg
neg_parts a = ground arith

pub eq_of_parts : (a b : ℤ) → pos_part a + neg_part b ≡ pos_part b + neg_part a → a ≡ b
eq_of_parts a b h = ground arith

pub ruleset int_laws = (arith, +ℤ_parts, -ℤ_parts, neg_parts, eq_of_parts)

-- std::numeric_limits< int64_t >
abbrev pub max_int64 : ℤ
max_int64 = pos 9223372036854775807

abbrev pub min_int64 : ℤ
min_int64 = negsuc 9223372036854775807

-- `safe< int64_t >`: `none` is an overflow or underflow exception.
unfoldable pub safe_add : ℤ → ℤ → Option ℤ
safe_add a b =
    if ltb_ℤ (pos 0) b && ltb_ℤ (max_int64 -ℤ b) a
    then none
    else if ltb_ℤ b (pos 0) && ltb_ℤ a (min_int64 -ℤ b)
    then none
    else some (a +ℤ b)

unfoldable pub safe_sub : ℤ → ℤ → Option ℤ
safe_sub a b =
    if ltb_ℤ (pos 0) b && ltb_ℤ a (min_int64 +ℤ b)
    then none
    else if ltb_ℤ b (pos 0) && ltb_ℤ (max_int64 +ℤ b) a
    then none
    else some (a -ℤ b)

unfoldable pub safe_neg : ℤ → Option ℤ
safe_neg a = if eqb_ℤ a min_int64 then none else some (neg a)

pub safe_add-value : (a b c : ℤ) → safe_add a b ≡ some c → c ≡ a +ℤ b
unfolding safe_add
safe_add-value a b c h = ground arith

pub safe_sub-value : (a b c : ℤ) → safe_sub a b ≡ some c → c ≡ a -ℤ b
unfolding safe_sub
safe_sub-value a b c h = ground arith

pub safe_neg-value : (a c : ℤ) → safe_neg a ≡ some c → c ≡ neg a
unfolding safe_neg
safe_neg-value a c h = ground arith

-- A sum in which one term `x` becomes `x + y`.
pub sum_step : (old new x x' y : ℤ) → new +ℤ x ≡ old +ℤ x' → x' ≡ x +ℤ y → new ≡ old +ℤ y
sum_step old new x x' y h k = grind int_laws

pub +ℤ_assoc : (a b c : ℤ) → a +ℤ b +ℤ c ≡ a +ℤ (b +ℤ c)
+ℤ_assoc a b c = omega int_laws

-- Two changes of `supply - liquid` by opposite amounts.
pub opposite_steps :
    (s0 l0 s1 l1 s2 l2 d d' : ℤ)
    → s1 +ℤ l0 +ℤ d' ≡ s0 +ℤ l1
    → s2 +ℤ l1 +ℤ d ≡ s1 +ℤ l2
    → d' ≡ neg d
    → s2 +ℤ l0 ≡ s0 +ℤ l2
opposite_steps s0 l0 s1 l1 s2 l2 d d' h k e = grind int_laws

pub opposite_sums : (a b c r d d' : ℤ) → b ≡ a +ℤ d' → c ≡ b +ℤ d → d' ≡ neg d → c +ℤ r ≡ a +ℤ r
opposite_sums a b c r d d' h k e = grind int_laws
