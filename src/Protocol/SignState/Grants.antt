-- ===== src/Protocol/SignState/Grants.antt =====
-- What it means, without order, counters and limits, that a wallet approves.
use xgt.Base.{ℕ, ◌+◌, ◌≤◌, ◌≡◌, true, ◌||◌, [], ◌∷◌, Map, has_id, find, is_some}
use xgt.Protocol.Authority.{Authority}
use xgt.Protocol.SignState.{SignContext, SignState}

-- There is a signature of the key, or one can be made.
abbrev pub IsSigned : SignContext → SignState → ℕ → Type 0
IsSigned c s k = (is_some (find k s.provided_signatures) || has_id k c.available_keys) ≡ true

-- A choice of the signed keys of a list weighs so much.
pub data KeyWeight (c : SignContext) (s : SignState) : Map ℕ → ℕ → Type 0 where
  none_left : KeyWeight c s [] 0
  leave : {k w t : ℕ} {ks : Map ℕ} → KeyWeight c s ks t → KeyWeight c s ((k, w) ∷ ks) t
  take :
      {k w t : ℕ} {ks : Map ℕ}
      → IsSigned c s k
      → KeyWeight c s ks t
      → KeyWeight c s ((k, w) ∷ ks) (w + t)

-- A wallet approves from the start, or by the keys and wallets of its money authority, as far down
-- as it takes.
mutual
  pub data Approves (c : SignContext) (s : SignState) : ℕ → Type 0 where
    at_start : {n : ℕ} → has_id n s.approved_by ≡ true → Approves c s n
    by_members : {n : ℕ} → Satisfies c s (c.get_money n) → Approves c s n

  pub data Satisfies (c : SignContext) (s : SignState) : Authority → Type 0 where
    reaches :
        {a : Authority} {t u : ℕ}
        → KeyWeight c s a.key_auths t
        → WalletWeight c s a.wallet_auths u
        → a.weight_threshold ≤ t + u
        → Satisfies c s a

  pub data WalletWeight (c : SignContext) (s : SignState) : Map ℕ → ℕ → Type 0 where
    no_wallets : WalletWeight c s [] 0
    leave_wallet :
        {n w t : ℕ} {ns : Map ℕ} → WalletWeight c s ns t → WalletWeight c s ((n, w) ∷ ns) t
    take_wallet :
        {n w t : ℕ} {ns : Map ℕ}
        → Approves c s n
        → WalletWeight c s ns t
        → WalletWeight c s ((n, w) ∷ ns) (w + t)

module _ (c : SignContext) (s : SignState) where
  pub no_keys-KeyWeight : (ks : Map ℕ) → KeyWeight c s ks 0
  no_keys-KeyWeight [] = none_left
  no_keys-KeyWeight (k ∷ ks) = leave (no_keys-KeyWeight ks)

  pub no_wallets-WalletWeight : (ns : Map ℕ) → WalletWeight c s ns 0
  no_wallets-WalletWeight [] = no_wallets
  no_wallets-WalletWeight (n ∷ ns) = leave_wallet (no_wallets-WalletWeight ns)
