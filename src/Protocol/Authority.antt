-- ===== src/Protocol/Authority.antt =====
-- libraries/protocol/include/xgt/protocol/authority.hpp and authority.cpp. Keys and wallet names are
-- numbers, which are compared only; a flat_map is a map in the order of its keys.
use xgt.Base.{ℕ, [], Map, put}

-- `authority`
pub record Authority : Type 0 where
  pub weight_threshold : ℕ
  pub wallet_auths : Map ℕ
  pub key_auths : Map ℕ

abbrev pub no_auths : ℕ → Authority
no_auths threshold = record { weight_threshold = threshold; wallet_auths = []; key_auths = [] }

unfoldable pub add_key_authority : ℕ → ℕ → Authority → Authority
add_key_authority k w a = record a { key_auths = put k w a.key_auths }

unfoldable pub add_wallet_authority : ℕ → ℕ → Authority → Authority
add_wallet_authority k w a = record a { wallet_auths = put k w a.wallet_auths }
