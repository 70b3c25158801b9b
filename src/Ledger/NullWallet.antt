-- ===== src/Ledger/NullWallet.antt =====
-- What clear_null_wallet_balance takes out of the ledger.
use xgt.Base.{◌≡◌, refl, subst, true, some, arith, Option-cases, Bool-cases, inl, inr}
use xgt.Base.Int.{pos, ◌+ℤ◌, int_laws, ltb_ℤ}
use xgt.Base.Tables.{
  find_by, replace_by, find_by-replace_by_self, find_by-passes, sum_of-replace_by, All-find_by,
  All-replace_by,
}
use xgt.Ledger.{
  Asset, Ledger, Wallet, by_name, get_account, neg_asset, adjust_supply, xgt_asset_num,
}
use xgt.Ledger.Balances.{IsFunded, wallet_balance, neg_asset-inv}
use xgt.Ledger.Conservation.{IsSound, total}
use xgt.Ledger.Transfer.{clear_null_wallet_balance}

emptied : Wallet → Ledger → Ledger
emptied w l = record l {
  wallets = replace_by (by_name l.null_wallet) (record w { balance = pos 0 }) l.wallets;
}

adjust_supply_xgt : (a : Asset) (l : Ledger) → a.symbol ≡ xgt_asset_num → adjust_supply a l ≡ some l
unfolding adjust_supply
adjust_supply_xgt a l h = rw h refl

clear_null_wallet_balance-inv :
    (l l' : Ledger) (w : Wallet)
    → find_by (by_name l.null_wallet) l.wallets ≡ some w
    → ltb_ℤ (pos 0) w.balance ≡ true
    → clear_null_wallet_balance l ≡ some l'
    → emptied w l ≡ l'
unfolding clear_null_wallet_balance get_account emptied
clear_null_wallet_balance-inv l l' w f more h =
    elim (Option-cases (neg_asset (record { amount = w.balance; symbol = xgt_asset_num }))) [
      | inl e ↦ absurd (ground arith)
      | inr (m, e) ↦ ground (arith, adjust_supply_xgt m (emptied w l) (neg_asset-inv _ m e).1)
    ]

-- The null wallet `w` is there, its balance is gone, no other money is, and the ledger stays sound.
pub record Clears (w : Wallet) (l l' : Ledger) : Type 0 where
  pub empty : (v : Wallet) × (get_account l.null_wallet l' ≡ some v) × (v.balance ≡ pos 0)
  pub burnt : total l' +ℤ w.balance ≡ total l
  pub sound : IsSound l'

-- clear_null_wallet_balance takes the whole balance of the null wallet out of the sum of XGT.
pub clear_null_wallet_balance-Clears :
    (l l' : Ledger)
    → IsSound l
    → clear_null_wallet_balance l ≡ some l'
    → (w : Wallet) × (get_account l.null_wallet l ≡ some w) × Clears w l l'
unfolding clear_null_wallet_balance get_account emptied
clear_null_wallet_balance-Clears l l' s h =
    elim (Option-cases (find_by (by_name l.null_wallet) l.wallets)) [
      | inl f ↦ absurd (ground arith)
      | inr (w, f) ↦ (
        w,
        f,
        elim (Bool-cases (ltb_ℤ (pos 0) w.balance)) [
          | inl more ↦
              subst (Clears w l) {x = emptied w l} (clear_null_wallet_balance-inv l l' w f more h)
                (record {
                  empty = (
                    record w { balance = pos 0 },
                    find_by-replace_by_self (by_name l.null_wallet) (record w { balance = pos 0 }) w
                        l.wallets f (find_by-passes (by_name l.null_wallet) w l.wallets f),
                    refl,
                  );
                  burnt = grind (
                    int_laws,
                    sum_of-replace_by wallet_balance (by_name l.null_wallet)
                        (record w { balance = pos 0 }) w l.wallets f,
                  );
                  sound = record {
                    funded =
                        All-replace_by IsFunded _ (record w { balance = pos 0 }) l.wallets
                          (omega arith) s.funded;
                    escrows_sound = s.escrows_sound;
                  };
                })
          | inr none_left ↦
              let funded = All-find_by IsFunded _ w l.wallets s.funded f in
              let zero : w.balance ≡ pos 0 = grind int_laws in
              subst (Clears w l) {x = l} (ground arith)
                (record { empty = (w, f, zero); burnt = grind (int_laws, zero); sound = s })
        ],
      )
    ]
