-- ===== src/Ledger/Spending.antt =====
-- Whose balances an operation can lower.
use xgt.Base.{
  ℕ, ◌≡◌, refl, subst, sym, ap, ◌∙◌, Bool, true, false, ◌&&◌, Option, none, some, ◌∷◌, ◌==◌, ==_iff,
  if◌then◌else◌, arith, Option-cases, Bool-cases, inl, inr,
}
use xgt.Base.Int.{ℤ, pos, ◌+ℤ◌, ◌≤ℤ◌, int_laws, safe_add-value, eqb_ℤ}
use xgt.Base.Tables.{
  find_by, replace_by, find_by-replace_by_self, find_by-replace_by_other, find_by-passes,
}
use xgt.Ledger.{
  Asset, Wallet, XttBalance, Ledger, by_name, by_name_symbol, is_xtt, get_account, get_balance,
  neg_asset, add_asset, adjust_supply, adjust_xtt_balance, modify_balance, adjust_balance,
}
use xgt.Ledger.Balances.{modify_balance-inv, adjust_supply-inv, neg_asset-inv, add_asset-inv}

-- The amount that `get_balance` finds, and 0 where there is no wallet.
abbrev pub amount_of : Option Asset → ℤ
amount_of none = pos 0
amount_of (some a) = a.amount

unfoldable pub balance_at : ℕ → ℕ → Ledger → ℤ
unfolding get_balance
balance_at n s l = amount_of (get_balance n s l)

abbrev xgt_in : Option Wallet → ℤ
xgt_in none = pos 0
xgt_in (some w) = w.balance

abbrev xtt_in : Option XttBalance → ℤ
xtt_in none = pos 0
xtt_in (some b) = b.liquid.amount

-- No balance of the wallet is lower than it was.
pub record Keeps (n : ℕ) (l l' : Ledger) : Type 0 where
  pub xgt : xgt_in (find_by (by_name n) l.wallets) ≤ℤ xgt_in (find_by (by_name n) l'.wallets)
  pub xtt :
      (s : ℕ)
      → xtt_in (find_by (by_name_symbol n s) l.xtt_balances)
        ≤ℤ xtt_in (find_by (by_name_symbol n s) l'.xtt_balances)

balance_at-xgt :
    (n s : ℕ) (l : Ledger)
    → is_xtt s ≡ false
    → balance_at n s l ≡ xgt_in (find_by (by_name n) l.wallets)
unfolding balance_at get_balance get_account
balance_at-xgt n s l h = elim (Option-cases (find_by (by_name n) l.wallets)) [
  | inl e ↦ rw (h, e) refl
  | inr (w, e) ↦ rw (h, e) refl
]

balance_at-xtt :
    (n s : ℕ) (l : Ledger)
    → is_xtt s ≡ true
    → balance_at n s l ≡ xtt_in (find_by (by_name_symbol n s) l.xtt_balances)
unfolding balance_at get_balance
balance_at-xtt n s l h = elim (Option-cases (find_by (by_name_symbol n s) l.xtt_balances)) [
  | inl e ↦ rw (h, e) refl
  | inr (b, e) ↦ rw (h, e) refl
]

pub Keeps-balance_at :
    (n s : ℕ) (l l' : Ledger) → Keeps n l l' → balance_at n s l ≤ℤ balance_at n s l'
Keeps-balance_at n s l l' k = elim (Bool-cases (is_xtt s)) [
  | inl xtt ↦ rw (balance_at-xtt n s l xtt, balance_at-xtt n s l' xtt) (k.xtt s)
  | inr xgt ↦ rw (balance_at-xgt n s l xgt, balance_at-xgt n s l' xgt) k.xgt
]

-- Where wallets and balances stay.
pub same_balances-Keeps :
    (n : ℕ) (l l' : Ledger)
    → l'.wallets ≡ l.wallets
    → l'.xtt_balances ≡ l.xtt_balances
    → Keeps n l l'
same_balances-Keeps n l l' w b = record { xgt = rw w (omega arith); xtt = λ s. rw b (omega arith) }

pub Keeps-trans : (n : ℕ) (l m l' : Ledger) → Keeps n l m → Keeps n m l' → Keeps n l l'
Keeps-trans n l m l' a b = record {
  xgt = let x = a.xgt in let y = b.xgt in omega (arith, x, y);
  xtt = λ s. let x = a.xtt s in let y = b.xtt s in omega (arith, x, y);
}

add_nonneg : (a b c : ℤ) → c ≡ a +ℤ b → pos 0 ≤ℤ b → a ≤ℤ c
add_nonneg a b c h k = grind int_laws

modify_balance-Keeps :
    (n k : ℕ) (d : ℤ) (l l' : Ledger)
    → modify_balance k d l ≡ some l'
    → ((n == k) ≡ true → pos 0 ≤ℤ d)
    → Keeps n l l'
modify_balance-Keeps n k d l l' h nonneg =
    let (w, b, found, sum, positive, same) = modify_balance-inv k d l l' h in
    let w' : Wallet = record w { balance = b } in
    let passes = find_by-passes (by_name k) w l.wallets found in
    subst (Keeps n l) {x = record l { wallets = replace_by (by_name k) w' l.wallets }} same
      (record {
        xgt = elim (Bool-cases (n == k)) [
          | inl own ↦
              let self = find_by-replace_by_self (by_name k) w' w l.wallets found passes in
              subst
                (λ i.
                  xgt_in (find_by (by_name i) l.wallets)
                  ≤ℤ xgt_in (find_by (by_name i) (replace_by (by_name k) w' l.wallets)))
                (sym ((==_iff n k).0 own))
                (rw (found, self) (add_nonneg _ _ _ (safe_add-value _ _ b sum) (nonneg own)))
          | inr other ↦
              let apart =
                find_by-replace_by_other (by_name n) (by_name k) w' l.wallets (λ a q. ground arith)
                  passes in
              rw apart (omega arith)
        ];
        xtt = λ s. omega arith;
      })

opened_balance :
    (s m : ℕ) (d : ℤ) (own : Bool) (old : Option XttBalance)
    → pos 0 ≤ℤ d
    → (own ≡ true → old ≡ none)
    → xtt_in old
      ≤ℤ xtt_in (
          if own
          then some (record { name = m; liquid = record { amount = d; symbol = s } })
          else old)
opened_balance s m d true old nonneg absent = rw (absent refl) (omega (arith, nonneg))
opened_balance s m d false old nonneg absent = omega arith

same_key :
    (n s k t : ℕ) → (n == k) ≡ true → (s == t) ≡ true → by_name_symbol n s ≡ by_name_symbol k t
same_key n s k t h g =
    ap (λ (i : ℕ). by_name_symbol i s) ((==_iff n k).0 h)
    ∙ ap (λ (i : ℕ). by_name_symbol k i) ((==_iff s t).0 g)

adjust_xtt_balance-Keeps :
    (n k : ℕ) (delta : Asset) (l l' : Ledger)
    → adjust_xtt_balance k delta l ≡ some l'
    → ((n == k) ≡ true → pos 0 ≤ℤ delta.amount)
    → Keeps n l l'
unfolding adjust_xtt_balance find_by
adjust_xtt_balance-Keeps n k delta l l' h nonneg =
    let test = by_name_symbol k delta.symbol in
    elim (Option-cases (find_by test l.xtt_balances)) [
      | inl absent ↦ elim (Bool-cases (eqb_ℤ delta.amount (pos 0))) [
        | inl zero ↦ same_balances-Keeps n l l' (ground arith) (ground arith)
        | inr more ↦
            let b : XttBalance = record { name = k; liquid = delta } in
            subst (Keeps n l) {x = record l { xtt_balances = b ∷ l.xtt_balances }} (ground arith)
              (record {
                xgt = omega arith;
                xtt = λ s.
                    opened_balance delta.symbol k delta.amount (by_name_symbol n s b)
                      (find_by (by_name_symbol n s) l.xtt_balances) (ground arith)
                      (λ own.
                        ap (λ (p : XttBalance → Bool). find_by p l.xtt_balances)
                          (same_key n s k delta.symbol (ground arith) (ground arith))
                        ∙ absent);
              })
      ]
      | inr (b, found) ↦ elim (Option-cases (add_asset b.liquid delta)) [
        | inl f ↦ absurd (ground arith)
        | inr (sum, f) ↦
            let b' : XttBalance = record b { liquid = sum } in
            let facts = add_asset-inv b.liquid delta sum f in
            let passes = find_by-passes test b l.xtt_balances found in
            let passes' : test b' ≡ true = let e = facts.1 in ground arith in
            subst (Keeps n l) {x = record l { xtt_balances = replace_by test b' l.xtt_balances }}
              (ground arith)
              (record {
                xgt = omega arith;
                xtt = λ s. elim (Bool-cases (n == k && s == delta.symbol)) [
                  | inl own ↦
                      let self = find_by-replace_by_self test b' b l.xtt_balances found passes' in
                      rw (same_key n s k delta.symbol (ground arith) (ground arith), found, self)
                        (add_nonneg _ _ _ facts.0 (nonneg (ground arith)))
                  | inr other ↦
                      let apart =
                        find_by-replace_by_other (by_name_symbol n s) test b' l.xtt_balances
                          (λ a q. ground arith) passes' in
                      rw apart (omega arith)
                ];
              })
      ]
    ]

adjust_supply-Keeps :
    (n : ℕ) (delta : Asset) (l l' : Ledger)
    → is_xtt delta.symbol ≡ true
    → adjust_supply delta l ≡ some l'
    → Keeps n l l'
adjust_supply-Keeps n delta l l' x h =
    let (t, c, found, sum, same) = adjust_supply-inv delta l l' x h in
    same_balances-Keeps n l l' (ap (λ (m : Ledger). m.wallets) (sym same))
      (ap (λ (m : Ledger). m.xtt_balances) (sym same))

-- On every branch: only the balances of the wallet that is named can fall, and only by a negative
-- delta.
pub adjust_balance-Keeps :
    (n k : ℕ) (delta : Asset) (l l' : Ledger)
    → adjust_balance k delta l ≡ some l'
    → ((n == k) ≡ true → pos 0 ≤ℤ delta.amount)
    → Keeps n l l'
unfolding adjust_balance
adjust_balance-Keeps n k delta l l' h nonneg = elim (Bool-cases (is_xtt delta.symbol)) [
  | inr xgt ↦ modify_balance-Keeps n k delta.amount l l' (ground arith) nonneg
  | inl xtt ↦ elim (Bool-cases (k == l.null_wallet)) [
    | inr other ↦ adjust_xtt_balance-Keeps n k delta l l' (ground arith) nonneg
    | inl null ↦ elim (Option-cases (neg_asset delta)) [
      | inl e ↦ absurd (ground arith)
      | inr (minus, e) ↦
          adjust_supply-Keeps n minus l l' (rw (neg_asset-inv delta minus e).1 xtt) (ground arith)
    ]
  ]
]
