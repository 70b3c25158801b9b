-- ===== src/Protocol/AssetSymbol/Tests.antt =====
-- The NAIs of XGT and of a token.
use xgt.Base.{arith, ℕ, ◌≡◌, refl, true, none, some}
use xgt.Protocol.AssetSymbol.{
  asset_num_xgt, damm_checksum_8digit, damm_step, asset_num_from_nai, to_nai, decimals, is_valid,
}
use xgt.Protocol.AssetSymbol.RoundTrip.{to_nai-asset_num_from_nai, asset_num_from_nai-to_nai}
use xgt.Protocol.AssetSymbol.CheckDigit.{swapped, asset_num_from_nai-Misread}

xgt_nai : to_nai asset_num_xgt ≡ some 21
unfolding to_nai damm_checksum_8digit damm_step
xgt_nai = refl

wrong_digit : asset_num_from_nai 22 8 ≡ none
unfolding asset_num_from_nai damm_checksum_8digit damm_step
wrong_digit = refl

-- A token number that validate lets through has the NAI of XGT.
shared_nai : to_nai 88 ≡ to_nai asset_num_xgt
unfolding to_nai damm_checksum_8digit damm_step
shared_nai = refl

shared_valid : is_valid 88 ≡ true
unfolding is_valid
shared_valid = refl

run-read : asset_num_from_nai 100000006 3 ≡ some 320000019
unfolding asset_num_from_nai damm_checksum_8digit damm_step
run-read = refl

run-valid : is_valid 320000019 ≡ true
unfolding is_valid
run-valid = refl

to_nai-asset_num_from_nai_example :
    (to_nai 320000019 ≡ some 100000006) × (decimals 320000019 ≡ 3) × (is_valid 320000019 ≡ true)
to_nai-asset_num_from_nai_example = to_nai-asset_num_from_nai 100000006 3 320000019 run-read

asset_num_from_nai-to_nai_example :
    (nai : ℕ) × (to_nai 320000019 ≡ some nai)
    × (asset_num_from_nai nai (decimals 320000019) ≡ some 320000019)
asset_num_from_nai-to_nai_example = asset_num_from_nai-to_nai 320000019 run-valid refl

-- The first two digits in the wrong order.
asset_num_from_nai-Misread_example : asset_num_from_nai 10000006 3 ≡ none
asset_num_from_nai-Misread_example =
    asset_num_from_nai-Misread 100000006 10000006 3 3 320000019 run-read refl
      (swapped (λ e. absurd (ground arith)))
