-- ===== src/Blocks/Gains.antt =====
-- Sums of XGT that rise by no more than a reward.
use xgt.Base.{ℕ, ◌+◌, ◌≡◌, subst, some, arith}
use xgt.Base.Int.{ℤ, pos, ◌+ℤ◌, ◌≤ℤ◌, int_laws}
use xgt.Base.Tables.{All-find_by}
use xgt.Ledger.{Ledger, Wallet, get_account}
use xgt.Ledger.Balances.{IsFunded, held}
use xgt.Ledger.Conservation.{IsSound, Pays, total, in_escrow}
use xgt.Ledger.Transfer.{clear_null_wallet_balance}
use xgt.Ledger.NullWallet.{clear_null_wallet_balance-Clears}

-- A ledger stays sound, and gains no more XGT than `n`.
pub record Gains (n : ℕ) (l l' : Ledger) : Type 0 where
  pub sound : IsSound l'
  pub at_most : total l' ≤ℤ total l +ℤ pos n

-- The time is not part of it.
pub timed_IsSound : (t : ℕ) (l : Ledger) → IsSound l → IsSound (record l { head_block_time = t })
timed_IsSound t l s = record { funded = s.funded; escrows_sound = s.escrows_sound }

less_burnt : (t t' w : ℤ) → t' +ℤ w ≡ t → pos 0 ≤ℤ w → t' ≤ℤ t +ℤ pos 0
less_burnt t t' w h k = grind (int_laws, h, k)

more_paid : (h h' r z : ℤ) (n : ℕ) → h' ≡ h +ℤ z → z ≤ℤ pos n → h' +ℤ r ≤ℤ h +ℤ r +ℤ pos n
more_paid h h' r z n e le = grind (int_laws, e, le)

null_wallet-IsFunded :
    (n : ℕ) (w : Wallet) (l : Ledger) → IsSound l → get_account n l ≡ some w → IsFunded w
unfolding get_account
null_wallet-IsFunded n w l s f = All-find_by IsFunded _ w l.wallets s.funded f

pub clear_null_wallet_balance-Gains :
    (l l' : Ledger) → IsSound l → clear_null_wallet_balance l ≡ some l' → Gains 0 l l'
clear_null_wallet_balance-Gains l l' s h =
    let (w, f, c) = clear_null_wallet_balance-Clears l l' s h in
    let nonneg : pos 0 ≤ℤ w.balance = null_wallet-IsFunded l.null_wallet w l s f in
    record { sound = c.sound; at_most = less_burnt (total l) (total l') w.balance c.burnt nonneg }

pub Pays-Gains :
    (n : ℕ) (z : ℤ) (l l' : Ledger) → z ≤ℤ pos n → Pays z l l' → IsSound l → Gains n l l'
Pays-Gains n z l l' le p s = record {
  sound = record { funded = p.funded s.funded; escrows_sound = rw p.escrows_same s.escrows_sound };
  at_most = rw p.escrows_same (more_paid (held l) (held l') (in_escrow l) z n p.paid le);
}

pub Gains-trans :
    (m n : ℕ) (l l' l'' : Ledger) → Gains m l l' → Gains n l' l'' → Gains (m + n) l l''
Gains-trans m n l l' l'' f g = record {
  sound = g.sound;
  at_most = omega (int_laws, f.at_most, g.at_most);
}

timed_Gains :
    (n t : ℕ) (l l' : Ledger) → Gains n (record l { head_block_time = t }) l' → Gains n l l'
timed_Gains n t l l' g = record { sound = g.sound; at_most = g.at_most }

pub burnt_and_paid :
    (n t : ℕ) (l l1 l2 l3 : Ledger)
    → l1 ≡ record l { head_block_time = t }
    → Gains 0 l1 l2
    → Gains n l2 l3
    → Gains n l l3
burnt_and_paid n t l l1 l2 l3 e f g =
    let more : Gains n l1 l3 =
      subst (λ k. Gains k l1 l3) (omega arith) (Gains-trans 0 n l1 l2 l3 f g) in
    timed_Gains n t l l3 (subst (λ x. Gains n x l3) e more)

pub same-Gains : (n : ℕ) (l l' : Ledger) → l' ≡ l → IsSound l → Gains n l l'
same-Gains n l l' e s = record { sound = rw e s; at_most = rw e (omega int_laws) }

pub Gains-from : (n : ℕ) (l m l' : Ledger) → total m ≡ total l → Gains n m l' → Gains n l l'
Gains-from n l m l' e g = record {
  sound = g.sound;
  at_most = subst (λ t. total l' ≤ℤ t +ℤ pos n) e g.at_most;
}
