-- ===== src/Protocol/AssetSymbol/RoundTrip.antt =====
-- From asset numbers of asset.cpp to NAIs and back.
use xgt.Base.{
  ℕ, zero, suc, List, [], ◌∷◌, leb, ◌&&◌, Bool, ◌+◌, ◌*◌, ◌/◌, ◌%◌, ◌^◌, ◌≡◌, ◌≤◌, ◌<◌, refl, sym,
  subst, ltb, require, ◌>>◌, true, false, some, arith, Option-cases, Bool-cases, inl, inr, ◌==◌,
  if◌then◌else◌,
}
use xgt.Protocol.AssetSymbol.{
  precision_xgt, max_decimals, asset_num_xgt, nai_xgt, damm_step, damm_table, element,
  damm_checksum_8digit, asset_num_from_nai, to_nai, decimals, is_valid, data_digits_of,
}

abbrev are_tens : List ℕ → Bool
are_tens [] = true
are_tens (x ∷ xs) = leb x 90 && are_tens xs

element-le : (i : ℕ) (xs : List ℕ) → are_tens xs ≡ true → element i xs ≤ 90
element-le i [] h = omega arith
element-le zero (x ∷ xs) h = ground arith
element-le (suc i) (x ∷ xs) h = element-le i xs (ground arith)

damm_step-le : (x d : ℕ) → damm_step x d ≤ 90
unfolding damm_step
damm_step-le x d = element-le (x + d) damm_table refl

last_step-lt : (b : Bool) (x d c : ℕ) → (do require b; some (damm_step x d / 10)) ≡ some c → c < 10
last_step-lt b x d c h = let le = damm_step-le x d in ground arith

damm_checksum_8digit-lt : (v c : ℕ) → damm_checksum_8digit v ≡ some c → c < 10
unfolding damm_checksum_8digit
damm_checksum_8digit-lt v c h = last_step-lt (ltb v 100000000) _ (v % 10) c h

damm_checksum_8digit-total :
    (v : ℕ) → v < 100000000 → (c : ℕ) × (damm_checksum_8digit v ≡ some c) × (c < 10)
unfolding damm_checksum_8digit
damm_checksum_8digit-total v h = elim (Option-cases (damm_checksum_8digit v)) [
  | inl e ↦ absurd (ground arith)
  | inr (c, e) ↦ (c, e, damm_checksum_8digit-lt v c e)
]

-- An asset number that is made from a NAI gives that NAI and the decimal places back, and is valid.
pub to_nai-asset_num_from_nai :
    (nai places a : ℕ)
    → asset_num_from_nai nai places ≡ some a
    → (to_nai a ≡ some nai) × (decimals a ≡ places) × (is_valid a ≡ true)
unfolding asset_num_from_nai to_nai decimals is_valid data_digits_of
to_nai-asset_num_from_nai nai places a h = elim (Option-cases (damm_checksum_8digit (nai / 10))) [
  | inl e ↦ absurd (ground arith)
  | inr (c, e) ↦ elim (Bool-cases (nai / 10 == nai_xgt)) [
    | inl xgt ↦ ground arith
    | inr xtt ↦ ground arith
  ]
]

-- The NAI of the data digits `d`, with its check digit, and what reading it gives.
read_back :
    (d places a : ℕ)
    → 1 ≤ d
    → d < 100000000
    → (if d == nai_xgt
        then (places == precision_xgt) && (a == asset_num_xgt)
        else (leb places max_decimals && (a == d * 32 + 16 + places)))
      ≡ true
    → (nai : ℕ) × ((c : ℕ) × (damm_checksum_8digit d ≡ some c) × ((d * 10 + c) % 2 ^ 32 ≡ nai))
      × (asset_num_from_nai nai places ≡ some a)
unfolding asset_num_from_nai
read_back d places a low high fits =
    let (c, e, lt) = damm_checksum_8digit-total d high in
    let whole : (d * 10 + c) % 2 ^ 32 ≡ d * 10 + c = omega (arith, high, lt) in
    let front : (d * 10 + c) / 10 ≡ d = omega (arith, lt) in
    let back : (d * 10 + c) % 10 ≡ c = omega (arith, lt) in
    let e' : damm_checksum_8digit ((d * 10 + c) / 10) ≡ some c = rw front e in
    (d * 10 + c, (c, e, whole), ground arith)

-- A valid asset number, unless it is of a token with the data digits of XGT, has a NAI, from which
-- with its decimals the same number is made.
pub asset_num_from_nai-to_nai :
    (a : ℕ)
    → is_valid a ≡ true
    → (a / 32 == nai_xgt) ≡ false
    → (nai : ℕ) × (to_nai a ≡ some nai) × (asset_num_from_nai nai (decimals a) ≡ some a)
unfolding to_nai decimals is_valid data_digits_of
asset_num_from_nai-to_nai a v other = elim (Bool-cases (a == asset_num_xgt)) [
  | inl xgt ↦
      let (nai, (c, e, n), r) = read_back 2 8 a (omega arith) (omega arith) (ground arith) in
      let places : a % 16 ≡ 8 = ground arith in
      (nai, ground arith, subst (λ p. asset_num_from_nai nai p ≡ some a) (sym places) r)
  | inr xtt ↦
      let (nai, (c, e, n), r) =
        read_back (a / 32) (a % 16) a (ground arith) (ground arith) (ground arith) in
      (nai, ground arith, r)
]
