-- ===== src/Ledger/Balances.antt =====
-- What adjust_balance does to the sum of all XGT in wallets, and what it leaves alone.
use xgt.Base.{
  ℕ, ◌≡◌, refl, subst, sym, ap, ◌∙◌, true, false, some, ◌∷◌, ◌==◌, if◌then◌else◌, arith,
  Option-cases, Bool-cases, inl, inr,
}
use xgt.Base.Int.{
  ℤ, pos, ◌+ℤ◌, safe_add, safe_add-value, safe_neg, safe_neg-value, int_laws, ◌≤ℤ◌, neg, eqb_ℤ,
  sum_step, +ℤ_assoc,
}
use xgt.Base.Tables.{
  find_by, replace_by, sum_of, sum_of-replace_by, All, All-replace_by, find_by-passes,
}
use xgt.Ledger.{
  Asset, Wallet, XttBalance, XttToken, Ledger, by_name, by_symbol, by_name_symbol, add_asset,
  is_xtt, get_account, neg_asset, adjust_supply, adjust_xtt_balance, modify_balance, adjust_balance,
}

abbrev pub wallet_balance : Wallet → ℤ
wallet_balance w = w.balance

-- All XGT that wallets hold.
abbrev pub held : Ledger → ℤ
held l = sum_of wallet_balance l.wallets

-- The XGT in a delta.
abbrev pub xgt_of : Asset → ℤ
xgt_of a = if is_xtt a.symbol then pos 0 else a.amount

-- The XTT `s` that `delta` is of.
abbrev pub xtt_of : ℕ → Asset → ℤ
xtt_of s a = if is_xtt a.symbol then (if a.symbol == s then a.amount else pos 0) else pos 0

abbrev liquid_in : ℕ → XttBalance → ℤ
liquid_in s b = if b.liquid.symbol == s then b.liquid.amount else pos 0

abbrev supply_in : ℕ → XttToken → ℤ
supply_in s t = if t.symbol == s then t.current_supply else pos 0

-- All of the token `s` that wallets hold, and the supply that is on record.
abbrev pub liquid : ℕ → Ledger → ℤ
liquid s l = sum_of (liquid_in s) l.xtt_balances

abbrev pub supply : ℕ → Ledger → ℤ
supply s l = sum_of (supply_in s) l.tokens

abbrev pub IsFunded : Wallet → Type 0
IsFunded w = pos 0 ≤ℤ w.balance

-- The effect of `adjust_balance` on the sums.
pub record Adjusts (delta : Asset) (l l' : Ledger) : Type 0 where
  pub xgt_held : held l' ≡ held l +ℤ xgt_of delta
  pub xtt_held : (s : ℕ) → supply s l' +ℤ liquid s l +ℤ xtt_of s delta ≡ supply s l +ℤ liquid s l'
  pub escrows_same : l'.escrows ≡ l.escrows
  pub time_same : l'.head_block_time ≡ l.head_block_time
  pub funded : All IsFunded l.wallets → All IsFunded l'.wallets

pub modify_balance-inv :
    (n : ℕ) (d : ℤ) (l l' : Ledger)
    → modify_balance n d l ≡ some l'
    → (w : Wallet) × (b : ℤ) × (find_by (by_name n) l.wallets ≡ some w)
      × (safe_add w.balance d ≡ some b)
      × (pos 0 ≤ℤ b)
      × (record l { wallets = replace_by (by_name n) (record w { balance = b }) l.wallets } ≡ l')
unfolding modify_balance get_account
modify_balance-inv n d l l' h = elim (Option-cases (find_by (by_name n) l.wallets)) [
  | inl e ↦ absurd (ground arith)
  | inr (w, e) ↦ elim (Option-cases (safe_add w.balance d)) [
    | inl f ↦ absurd (ground arith)
    | inr (b, f) ↦ (w, b, e, f, ground arith, ground arith)
  ]
]

modify_balance-Adjusts :
    (n : ℕ) (delta : Asset) (l l' : Ledger)
    → is_xtt delta.symbol ≡ false
    → modify_balance n delta.amount l ≡ some l'
    → Adjusts delta l l'
modify_balance-Adjusts n delta l l' x h =
    let (w, b, e, f, nonneg, same) = modify_balance-inv n delta.amount l l' h in
    subst (Adjusts delta l) same (record {
      xgt_held = grind (
        int_laws,
        sum_of-replace_by wallet_balance (by_name n) (record w { balance = b }) w l.wallets e,
        safe_add-value w.balance delta.amount b f,
      );
      xtt_held = λ s. grind int_laws;
      escrows_same = refl;
      time_same = refl;
      funded = All-replace_by IsFunded (by_name n) (record w { balance = b }) l.wallets nonneg;
    })

pub adjust_supply-inv :
    (delta : Asset) (l l' : Ledger)
    → is_xtt delta.symbol ≡ true
    → adjust_supply delta l ≡ some l'
    → (t : XttToken) × (c : ℤ) × (find_by (by_symbol delta.symbol) l.tokens ≡ some t)
      × (safe_add t.current_supply delta.amount ≡ some c)
      × (record l {
        tokens = replace_by (by_symbol delta.symbol) (record t { current_supply = c }) l.tokens;
      }
          ≡ l')
unfolding adjust_supply
adjust_supply-inv delta l l' x h = elim (Option-cases (find_by (by_symbol delta.symbol) l.tokens)) [
  | inl e ↦ absurd (ground arith)
  | inr (t, e) ↦ elim (Option-cases (safe_add t.current_supply delta.amount)) [
    | inl f ↦ absurd (ground arith)
    | inr (c, f) ↦ (t, c, e, f, ground arith)
  ]
]

pub neg_asset-inv :
    (a b : Asset) → neg_asset a ≡ some b → (b.amount ≡ neg a.amount) × (b.symbol ≡ a.symbol)
unfolding neg_asset
neg_asset-inv a b h = elim (Option-cases (safe_neg a.amount)) [
  | inl e ↦ absurd (ground arith)
  | inr (n, e) ↦ ground (arith, safe_neg-value a.amount n e)
]

-- Tokens that go to the null wallet leave the supply.
adjust_supply-Adjusts :
    (delta minus : Asset) (l l' : Ledger)
    → is_xtt delta.symbol ≡ true
    → neg_asset delta ≡ some minus
    → adjust_supply minus l ≡ some l'
    → Adjusts delta l l'
adjust_supply-Adjusts delta minus l l' x m h =
    let (amount, symbol) = neg_asset-inv delta minus m in
    let (t, c, e, f, same) = adjust_supply-inv minus l l' (rw symbol x) h in
    subst (Adjusts delta l) same (record {
      xgt_held = grind int_laws;
      xtt_held = λ s. grind (
        int_laws,
        sum_of-replace_by (supply_in s) (by_symbol minus.symbol) (record t { current_supply = c }) t
            l.tokens e,
        safe_add-value t.current_supply minus.amount c f,
        find_by-passes (by_symbol minus.symbol) t l.tokens e,
      );
      escrows_same = refl;
      time_same = refl;
      funded = λ h. h;
    })

pub add_asset-inv :
    (a b c : Asset)
    → add_asset a b ≡ some c
    → (c.amount ≡ a.amount +ℤ b.amount) × (c.symbol ≡ a.symbol) × (a.symbol ≡ b.symbol)
unfolding add_asset
add_asset-inv a b c h = elim (Option-cases (safe_add a.amount b.amount)) [
  | inl e ↦ absurd (ground arith)
  | inr (n, e) ↦ ground (arith, safe_add-value a.amount b.amount n e)
]

-- A first balance in a token, unless it is zero.
abbrev opened : ℕ → Asset → Ledger → Ledger
opened n delta l =
    if eqb_ℤ delta.amount (pos 0)
    then l
    else record l { xtt_balances = record { name = n; liquid = delta } ∷ l.xtt_balances }

opened-Adjusts :
    (n : ℕ) (delta : Asset) (l : Ledger)
    → is_xtt delta.symbol ≡ true
    → Adjusts delta l (opened n delta l)
unfolding sum_of
opened-Adjusts n delta l x = elim (Bool-cases (eqb_ℤ delta.amount (pos 0))) [
  | inl zero ↦ rw zero (record {
    xgt_held = grind int_laws;
    xtt_held = λ s. grind int_laws;
    escrows_same = refl;
    time_same = refl;
    funded = λ h. h;
  })
  | inr more ↦ rw more (record {
    xgt_held = grind int_laws;
    xtt_held = λ s. grind int_laws;
    escrows_same = refl;
    time_same = refl;
    funded = λ h. h;
  })
]

liquid_in-add :
    (s : ℕ) (b : XttBalance) (delta sum : Asset)
    → is_xtt delta.symbol ≡ true
    → add_asset b.liquid delta ≡ some sum
    → liquid_in s (record b { liquid = sum }) ≡ liquid_in s b +ℤ xtt_of s delta
liquid_in-add s b delta sum x f =
    let facts = add_asset-inv b.liquid delta sum f in
    elim (Bool-cases (delta.symbol == s)) [
      | inl same ↦ rw (facts.1, facts.2, x, same) facts.0
      | inr other ↦ rw (facts.1, facts.2, x, other) (omega int_laws)
    ]

adjust_xtt_balance-Adjusts :
    (n : ℕ) (delta : Asset) (l l' : Ledger)
    → is_xtt delta.symbol ≡ true
    → adjust_xtt_balance n delta l ≡ some l'
    → Adjusts delta l l'
unfolding adjust_xtt_balance
adjust_xtt_balance-Adjusts n delta l l' x h =
    elim (Option-cases (find_by (by_name_symbol n delta.symbol) l.xtt_balances)) [
      | inl e ↦
          subst (Adjusts delta l) {x = opened n delta l} (ground arith) (opened-Adjusts n delta l x)
      | inr (b, e) ↦ elim (Option-cases (add_asset b.liquid delta)) [
        | inl f ↦ absurd (ground arith)
        | inr (sum, f) ↦
            let b' : XttBalance = record b { liquid = sum } in
            let test = by_name_symbol n delta.symbol in
            subst (Adjusts delta l)
              {x = record l { xtt_balances = replace_by test b' l.xtt_balances }} (ground arith)
              (record {
                xgt_held = grind int_laws;
                xtt_held = λ s.
                    +ℤ_assoc (supply s l) (liquid s l) (xtt_of s delta)
                    ∙ ap (◌+ℤ◌ (supply s l)) (
                        sym (
                          sum_step _ _ (liquid_in s b) (liquid_in s b') _
                            (sum_of-replace_by (liquid_in s) test b' b l.xtt_balances e)
                            (liquid_in-add s b delta sum x f)));
                escrows_same = refl;
                time_same = refl;
                funded = λ h. h;
              })
      ]
    ]

-- On every branch of `adjust_balance`, to every name, the null wallet included.
pub adjust_balance-Adjusts :
    (n : ℕ) (delta : Asset) (l l' : Ledger)
    → adjust_balance n delta l ≡ some l'
    → Adjusts delta l l'
unfolding adjust_balance
adjust_balance-Adjusts n delta l l' h = elim (Bool-cases (is_xtt delta.symbol)) [
  | inr xgt ↦ modify_balance-Adjusts n delta l l' xgt (ground arith)
  | inl xtt ↦ elim (Bool-cases (n == l.null_wallet)) [
    | inr other ↦ adjust_xtt_balance-Adjusts n delta l l' xtt (ground arith)
    | inl null ↦ elim (Option-cases (neg_asset delta)) [
      | inl e ↦ absurd (ground arith)
      | inr (minus, e) ↦ adjust_supply-Adjusts delta minus l l' xtt e (ground arith)
    ]
  ]
]
