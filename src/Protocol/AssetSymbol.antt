-- ===== src/Protocol/AssetSymbol.antt =====
-- libraries/protocol/asset.cpp and include/xgt/protocol/asset_symbol.hpp: asset numbers and the NAIs
-- that name them, eight digits with a check digit. A shift to the left by 5 is a product with 32, and
-- `|` of numbers without a common bit is a sum; results are cut to uint32_t.
pub mod RoundTrip
pub mod CheckDigit
mod Tests
use xgt.Base.{
  ℕ, zero, suc, ◌+◌, ◌*◌, ◌/◌, ◌%◌, ◌^◌, Bool, true, false, ◌&&◌, Option, none, some, List, [], ◌∷◌,
  ◌>>=◌, ◌>>◌, require, leb, ltb, ◌==◌, if◌then◌else◌,
}

-- `XTT_MIN_NAI`, `XTT_MAX_NAI`, `XGT_NAI_XGT`, `XGT_PRECISION_XGT`, `XGT_ASSET_MAX_DECIMALS`
abbrev pub min_nai : ℕ
min_nai = 1

abbrev pub max_nai : ℕ
max_nai = 99999999

abbrev pub nai_xgt : ℕ
nai_xgt = 2

abbrev pub precision_xgt : ℕ
precision_xgt = 8

abbrev pub max_decimals : ℕ
max_decimals = 12

-- `XGT_ASSET_NUM_XGT`
abbrev pub asset_num_xgt : ℕ
asset_num_xgt = (max_nai + nai_xgt) * 32 + precision_xgt

-- `t[i]`
abbrev pub element : ℕ → List ℕ → ℕ
element i [] = 0
element zero (x ∷ xs) = x
element (suc i) (x ∷ xs) = element i xs

abbrev pub damm_table : List ℕ
damm_table =
    0 ∷ 30 ∷ 10 ∷ 70 ∷ 50 ∷ 90 ∷ 80 ∷ 60 ∷ 40 ∷ 20 ∷ 70 ∷ 0 ∷ 90 ∷ 20 ∷ 10 ∷ 50 ∷ 40 ∷ 80 ∷ 60 ∷ 30
    ∷ 40 ∷ 20 ∷ 0 ∷ 60 ∷ 80 ∷ 70 ∷ 10 ∷ 30 ∷ 50 ∷ 90 ∷ 10 ∷ 70 ∷ 50 ∷ 0 ∷ 90 ∷ 80 ∷ 30 ∷ 40 ∷ 20
    ∷ 60 ∷ 60 ∷ 10 ∷ 20 ∷ 30 ∷ 0 ∷ 40 ∷ 50 ∷ 90 ∷ 70 ∷ 80 ∷ 30 ∷ 60 ∷ 70 ∷ 40 ∷ 20 ∷ 0 ∷ 90 ∷ 50
    ∷ 80 ∷ 10 ∷ 50 ∷ 80 ∷ 60 ∷ 90 ∷ 70 ∷ 20 ∷ 0 ∷ 10 ∷ 30 ∷ 40 ∷ 80 ∷ 90 ∷ 40 ∷ 50 ∷ 30 ∷ 60 ∷ 20
    ∷ 0 ∷ 10 ∷ 70 ∷ 90 ∷ 40 ∷ 30 ∷ 80 ∷ 60 ∷ 10 ∷ 70 ∷ 20 ∷ 0 ∷ 50 ∷ 20 ∷ 50 ∷ 80 ∷ 10 ∷ 40 ∷ 30
    ∷ 60 ∷ 70 ∷ 90 ∷ 0 ∷ []

-- `x = t[x+d]`
unfoldable pub damm_step : ℕ → ℕ → ℕ
damm_step x d = element (x + d) damm_table

unfoldable pub damm_checksum_8digit : ℕ → Option ℕ
damm_checksum_8digit value = do
  require (ltb value 100000000)
  let q0 = value / 10
  let q1 = q0 / 10
  let q2 = q1 / 10
  let q3 = q2 / 10
  let q4 = q3 / 10
  let q5 = q4 / 10
  let x0 = damm_step 0 (q5 / 10)
  let x1 = damm_step x0 (q5 % 10)
  let x2 = damm_step x1 (q4 % 10)
  let x3 = damm_step x2 (q3 % 10)
  let x4 = damm_step x3 (q2 % 10)
  let x5 = damm_step x4 (q1 % 10)
  let x6 = damm_step x5 (q0 % 10)
  let x7 = damm_step x6 (value % 10)
  some (x7 / 10)

unfoldable pub asset_num_from_nai : ℕ → ℕ → Option ℕ
asset_num_from_nai nai decimal_places = do
  let check_digit = nai % 10
  let data_digits = nai / 10
  require (leb min_nai data_digits && leb data_digits max_nai)
  check ← damm_checksum_8digit data_digits
  require (check_digit == check)
  if data_digits == nai_xgt
      then (do require (decimal_places == precision_xgt); some asset_num_xgt)
      else (do
        require (leb decimal_places max_decimals)
        some (data_digits * 32 % 2 ^ 32 + 16 + decimal_places))

unfoldable pub data_digits_of : ℕ → ℕ
data_digits_of asset_num = if asset_num == asset_num_xgt then nai_xgt else asset_num / 32

unfoldable pub to_nai : ℕ → Option ℕ
unfolding data_digits_of
to_nai asset_num = do
  let data_digits = data_digits_of asset_num
  check ← damm_checksum_8digit data_digits
  some ((data_digits * 10 + check) % 2 ^ 32)

unfoldable pub decimals : ℕ → ℕ
decimals asset_num = asset_num % 16

-- `validate` throws where this is false.
unfoldable pub is_valid : ℕ → Bool
is_valid asset_num =
    if asset_num == asset_num_xgt
    then true
    else leb min_nai (asset_num / 32)
      && leb (asset_num / 32) max_nai
      && ((asset_num / 16) % 2 == 1)
      && leb (asset_num % 16) max_decimals
