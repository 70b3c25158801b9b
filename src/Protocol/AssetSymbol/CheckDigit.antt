-- ===== src/Protocol/AssetSymbol/CheckDigit.antt =====
-- The Damm check digit of asset.cpp and digits that are misread.
use xgt.Base.{
  ℕ, zero, suc, ◌*◌, ◌/◌, ◌%◌, ◌<◌, ◌≡◌, ◌≢◌, refl, subst, sym, ◌∙◌, Bool, true, not, ◌&&◌, some,
  none, List, [], ◌∷◌, ◌==◌, arith, Bool-cases, Option-cases, inl, inr, ltb,
}
use xgt.Protocol.AssetSymbol.{damm_step, damm_checksum_8digit, asset_num_from_nai}

-- A test of all numbers below a bound.
abbrev all_below : ℕ → (ℕ → Bool) → Bool
all_below zero test = true
all_below (suc n) test = test n && all_below n test

all_below-at : (n : ℕ) (test : ℕ → Bool) (i : ℕ) → all_below n test ≡ true → i < n → test i ≡ true
all_below-at zero test i h lt = absurd (ground arith)
all_below-at (suc n) test i h lt = elim (Bool-cases (i == n)) [
  | inl same ↦ subst (λ j. test j ≡ true) {x = n} (ground arith) (ground arith)
  | inr other ↦ all_below-at n test i (ground arith) (ground arith)
]

-- The row and the column of the table at `10 * i` have no entry twice, and all are 10 times a digit.
abbrev row_distinct : ℕ → Bool
row_distinct i =
    all_below 10 (λ d. all_below d (λ e. not (damm_step (10 * i) d == damm_step (10 * i) e)))

abbrev column_distinct : ℕ → Bool
column_distinct d =
    all_below 10 (λ i. all_below i (λ j. not (damm_step (10 * i) d == damm_step (10 * j) d)))

abbrev row_tens : ℕ → Bool
row_tens i = all_below 10 (λ d. (damm_step (10 * i) d % 10 == 0) && ltb (damm_step (10 * i) d) 100)

abbrev swap_distinct : ℕ → Bool
swap_distinct i = all_below 10 (λ d.
    all_below d
      (λ e. not (damm_step (damm_step (10 * i) d) e == damm_step (damm_step (10 * i) e) d)))

rows-row_distinct : all_below 10 row_distinct ≡ true
unfolding damm_step
rows-row_distinct = refl

rows-column_distinct : all_below 10 column_distinct ≡ true
unfolding damm_step
rows-column_distinct = refl

rows-row_tens : all_below 10 row_tens ≡ true
unfolding damm_step
rows-row_tens = refl

rows-swap_distinct : all_below 10 swap_distinct ≡ true
unfolding damm_step
rows-swap_distinct = refl

-- A test on all pairs is one on any two different numbers.
pairs_at :
    (test : ℕ → ℕ → Bool) (d e : ℕ)
    → all_below 10 (λ m. all_below m (test m)) ≡ true
    → d < 10
    → e < d
    → test d e ≡ true
pairs_at test d e h lt less =
    all_below-at d (test d) e (all_below-at 10 (λ m. all_below m (test m)) d h lt) less

distinct_at :
    (f : ℕ → ℕ) (d e : ℕ)
    → all_below 10 (λ m. all_below m (λ n. not (f m == f n))) ≡ true
    → d < 10
    → e < 10
    → f d ≡ f e
    → d ≡ e
distinct_at f d e h lt lt' same = elim (Bool-cases (ltb e d)) [
  | inl less ↦
      let apart = pairs_at (λ m n. not (f m == f n)) d e h lt (ground arith) in
      absurd (ground arith)
  | inr more ↦ elim (Bool-cases (ltb d e)) [
    | inl less ↦
        let apart = pairs_at (λ m n. not (f m == f n)) e d h lt' (ground arith) in
        absurd (ground arith)
    | inr equal ↦ ground arith
  ]
]

-- What the checksum keeps between two steps: ten times a digit.
abbrev IsState : ℕ → Type 0
IsState x = (x / 10 < 10) × (10 * (x / 10) ≡ x)

step-IsState : (x d : ℕ) → IsState x → d < 10 → IsState (damm_step x d)
step-IsState x d (low, whole) lt =
    let row = all_below-at 10 row_tens (x / 10) rows-row_tens low in
    let entry =
      all_below-at 10
        (λ e. (damm_step (10 * (x / 10)) e % 10 == 0) && ltb (damm_step (10 * (x / 10)) e) 100) d
        row lt in
    let entry' =
      subst (λ y. ((damm_step y d % 10 == 0) && ltb (damm_step y d) 100) ≡ true) whole entry in
    (ground arith, ground arith)

step-digit : (x d e : ℕ) → IsState x → d < 10 → e < 10 → damm_step x d ≡ damm_step x e → d ≡ e
step-digit x d e (low, whole) lt lt' same =
    distinct_at (damm_step (10 * (x / 10))) d e
      (all_below-at 10 row_distinct (x / 10) rows-row_distinct low) lt lt'
      (subst (λ y. damm_step y d ≡ damm_step y e) (sym whole) same)

step-state : (x y d : ℕ) → IsState x → IsState y → d < 10 → damm_step x d ≡ damm_step y d → x ≡ y
step-state x y d (low, whole) (low', whole') lt same =
    let tens =
      distinct_at (λ i. damm_step (10 * i) d) (x / 10) (y / 10)
        (all_below-at 10 column_distinct d rows-column_distinct lt) low low'
        (subst (λ z. damm_step z d ≡ damm_step (10 * (y / 10)) d) (sym whole)
          (subst (λ z. damm_step x d ≡ damm_step z d) (sym whole') same)) in
    ground arith

-- The checksum of a list of digits, from a state.
unfoldable damm_all : ℕ → List ℕ → ℕ
damm_all x [] = x
damm_all x (d ∷ ds) = damm_all (damm_step x d) ds

abbrev AreDigits : List ℕ → Type 0
AreDigits [] = Unit
AreDigits (d ∷ ds) = (d < 10) × AreDigits ds

damm_all-state :
    (x y : ℕ) (ds : List ℕ)
    → IsState x
    → IsState y
    → AreDigits ds
    → damm_all x ds ≡ damm_all y ds
    → x ≡ y
unfolding damm_all
damm_all-state x y [] a b digits same = same
damm_all-state x y (d ∷ ds) a b (lt, digits) same = step-state x y d a b lt (
    damm_all-state (damm_step x d) (damm_step y d) ds (step-IsState x d a lt)
      (step-IsState y d b lt) digits same)

-- One digit is another, or two neighbours are in the wrong order.
pub data Misread : List ℕ → List ℕ → Type 0 where
  wrong : {d e : ℕ} {ds : List ℕ} → d ≢ e → Misread (d ∷ ds) (e ∷ ds)
  swapped : {d e : ℕ} {ds : List ℕ} → d ≢ e → Misread (d ∷ e ∷ ds) (e ∷ d ∷ ds)
  later : {d : ℕ} {ds es : List ℕ} → Misread ds es → Misread (d ∷ ds) (d ∷ es)

-- Two digits in either order.
step-swapped :
    (x d e : ℕ)
    → IsState x
    → d < 10
    → e < 10
    → damm_step (damm_step x d) e ≡ damm_step (damm_step x e) d
    → d ≡ e
step-swapped x d e (low, whole) lt lt' same =
    let row = all_below-at 10 swap_distinct (x / 10) rows-swap_distinct low in
    let test : ℕ → ℕ → Bool = λ m n.
      not
        (damm_step (damm_step (10 * (x / 10)) m) n == damm_step (damm_step (10 * (x / 10)) n) m) in
    let same' =
      subst (λ y. damm_step (damm_step y d) e ≡ damm_step (damm_step y e) d) (sym whole) same in
    elim (Bool-cases (ltb e d)) [
      | inl less ↦ let apart = pairs_at test d e row lt (ground arith) in absurd (ground arith)
      | inr more ↦ elim (Bool-cases (ltb d e)) [
        | inl less ↦ let apart = pairs_at test e d row lt' (ground arith) in absurd (ground arith)
        | inr equal ↦ ground arith
      ]
    ]

Misread-damm_all :
    (x : ℕ) {ds es : List ℕ}
    → Misread ds es
    → IsState x
    → AreDigits ds
    → AreDigits es
    → damm_all x ds ≢ damm_all x es
unfolding damm_all
Misread-damm_all x (wrong {d} {e} {ds} other) a (lt, digits) (lt', digits') same = other (
    step-digit x d e a lt lt' (
      damm_all-state (damm_step x d) (damm_step x e) ds (step-IsState x d a lt)
        (step-IsState x e a lt') digits same))
Misread-damm_all x (swapped {d} {e} {ds} other) a (lt, (lt', digits)) more same = other (
    step-swapped x d e a lt lt' (
      damm_all-state (damm_step (damm_step x d) e) (damm_step (damm_step x e) d) ds
        (step-IsState (damm_step x d) e (step-IsState x d a lt) lt')
        (step-IsState (damm_step x e) d (step-IsState x e a lt') lt) digits same))
Misread-damm_all x (later {d} {ds} {es} m) a (lt, digits) (lt', digits') same =
    Misread-damm_all (damm_step x d) m (step-IsState x d a lt) digits digits' same

-- The data digits of a NAI.
abbrev pub digits_of : ℕ → List ℕ
digits_of v =
    v / 10000000
    ∷ (v / 1000000) % 10
    ∷ (v / 100000) % 10
    ∷ (v / 10000) % 10
    ∷ (v / 1000) % 10
    ∷ (v / 100) % 10
    ∷ (v / 10) % 10
    ∷ v % 10
    ∷ []

digits_of-AreDigits : (v : ℕ) → v < 100000000 → AreDigits (digits_of v)
digits_of-AreDigits v h =
    let top : v / 10000000 < 10 = omega (arith, h) in
    let low : (n : ℕ) → n % 10 < 10 = λ n. omega arith in
    (top, (low _, (low _, (low _, (low _, (low _, (low _, (low _, tt))))))))

-- The digits as the code takes them off, by divisions by ten.
unfoldable nested_digits : ℕ → List ℕ
nested_digits v =
    v / 10 / 10 / 10 / 10 / 10 / 10 / 10
    ∷ (v / 10 / 10 / 10 / 10 / 10 / 10) % 10
    ∷ (v / 10 / 10 / 10 / 10 / 10) % 10
    ∷ (v / 10 / 10 / 10 / 10) % 10
    ∷ (v / 10 / 10 / 10) % 10
    ∷ (v / 10 / 10) % 10
    ∷ (v / 10) % 10
    ∷ v % 10
    ∷ []

nested_digits-digits_of : (v : ℕ) → nested_digits v ≡ digits_of v
unfolding nested_digits
nested_digits-digits_of v =
    let two : v / 10 / 10 ≡ v / 100 = omega arith in
    let three : v / 100 / 10 ≡ v / 1000 = omega arith in
    let four : v / 1000 / 10 ≡ v / 10000 = omega arith in
    let five : v / 10000 / 10 ≡ v / 100000 = omega arith in
    let six : v / 100000 / 10 ≡ v / 1000000 = omega arith in
    let seven : v / 1000000 / 10 ≡ v / 10000000 = omega arith in
    rw (two, three, four, five, six, seven) refl

damm_checksum_8digit-damm_all :
    (v c : ℕ)
    → damm_checksum_8digit v ≡ some c
    → (v < 100000000) × (damm_all 0 (digits_of v) / 10 ≡ c)
unfolding damm_checksum_8digit damm_all nested_digits
damm_checksum_8digit-damm_all v c h =
    (ground arith, subst (λ ds. damm_all 0 ds / 10 ≡ c) (nested_digits-digits_of v) (ground arith))

accepted-damm :
    (nai places a : ℕ)
    → asset_num_from_nai nai places ≡ some a
    → damm_checksum_8digit (nai / 10) ≡ some (nai % 10)
unfolding asset_num_from_nai
accepted-damm nai places a h = elim (Option-cases (damm_checksum_8digit (nai / 10))) [
  | inl e ↦ absurd (ground arith)
  | inr (c, e) ↦ ground arith
]

same_tens : (x y : ℕ) → IsState x → IsState y → x / 10 ≡ y / 10 → x ≡ y
same_tens x y (low, whole) (low', whole') same = ground arith

damm_all-IsState : (x : ℕ) (ds : List ℕ) → IsState x → AreDigits ds → IsState (damm_all x ds)
unfolding damm_all
damm_all-IsState x [] a digits = a
damm_all-IsState x (d ∷ ds) a (lt, digits) =
    damm_all-IsState (damm_step x d) ds (step-IsState x d a lt) digits

-- The check digit of a NAI stands for its data digits alone: with one of them wrong, or two
-- neighbours in the wrong order, and the check digit kept, it names no asset with any decimals.
pub asset_num_from_nai-Misread :
    (nai wrong_nai places wrong_places a : ℕ)
    → asset_num_from_nai nai places ≡ some a
    → wrong_nai % 10 ≡ nai % 10
    → Misread (digits_of (nai / 10)) (digits_of (wrong_nai / 10))
    → asset_num_from_nai wrong_nai wrong_places ≡ none
asset_num_from_nai-Misread nai wrong_nai places wrong_places a h same_check misread =
    elim (Option-cases (asset_num_from_nai wrong_nai wrong_places)) [
      | inl refused ↦ refused
      | inr (b, accepted) ↦
          let zero_state : IsState 0 = (omega arith, refl) in
          let (low, sum) = damm_checksum_8digit-damm_all _ _ (accepted-damm nai places a h) in
          let (low', sum') =
            damm_checksum_8digit-damm_all _ _ (accepted-damm wrong_nai wrong_places b accepted) in
          let digits = digits_of-AreDigits (nai / 10) low in
          let digits' = digits_of-AreDigits (wrong_nai / 10) low' in
          absurd (
            Misread-damm_all 0 misread zero_state digits digits' (
              same_tens _ _ (damm_all-IsState 0 _ zero_state digits)
                (damm_all-IsState 0 _ zero_state digits') (sum ∙ (sym same_check ∙ sym sum'))))
    ]
