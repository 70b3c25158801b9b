-- ===== src/ForkDatabase/Push.antt =====
-- What the steps of push_block do to the head and to the two indices.
use xgt.Base.{
  ℕ, zero, suc, ◌≤◌, ◌≡◌, refl, subst, sym, ◌⊎◌, Bool, true, false, Option, none, some, List, [],
  ◌∷◌, ◌==◌, ltb, length, arith, inl, inr, Bool-cases, Option-cases, is_some, if◌then◌else◌,
}
use xgt.Base.Tables.{find_by, remove_by, All, length-remove_by}
use xgt.ForkDatabase.{
  Item, ForkDatabase, Outcome, pushed, too_old, unlinkable, assert_failed, out_of_fuel, by_id,
  by_previous, insert_item, in_range, link, higher, take_in, admit, is_pushed, is_caught,
  push_round, push_next,
}

abbrev pub is_fueled : Outcome → Bool
is_fueled out_of_fuel = false
is_fueled other = true

-- The number of the head.
abbrev pub top : Option Item → ℕ
top none = 0
top (some h) = h.num

abbrev pub IsHighest : ForkDatabase → Type 0
IsHighest d = All (λ x. x.num ≤ top d.head) d.index

abbrev pub Has : ℕ → List Item → Type 0
Has i xs = is_some (find_by (by_id i) xs) ≡ true

-- The head goes up or stays, and is still as high as every item; the index loses no id, and no item
-- comes to the unlinked.
pub record Rises (d d' : ForkDatabase) : Type 0 where
  pub head_rises : top d.head ≤ top d'.head
  pub highest : IsHighest d → IsHighest d'
  pub grows : (i : ℕ) → Has i d.index → Has i d'.index
  pub unlinked_falls : length d'.unlinked_index ≤ length d.unlinked_index

pub Rises-trans : (a b c : ForkDatabase) → Rises a b → Rises b c → Rises a c
Rises-trans a b c r s = record {
  head_rises = let x = r.head_rises in let y = s.head_rises in omega (arith, x, y);
  highest = λ h. s.highest (r.highest h);
  grows = λ i h. s.grows i (r.grows i h);
  unlinked_falls = let x = r.unlinked_falls in let y = s.unlinked_falls in omega (arith, x, y);
}

Rises-refl : (d : ForkDatabase) → Rises d d
Rises-refl d = record {
  head_rises = omega arith;
  highest = λ h. h;
  grows = λ i h. h;
  unlinked_falls = omega arith;
}

weaken : (m n : ℕ) (xs : List Item) → m ≤ n → All (λ x. x.num ≤ m) xs → All (λ x. x.num ≤ n) xs
weaken m n [] le all = tt
weaken m n (x ∷ xs) le all = (let h = all.0 in omega (arith, le, h), weaken m n xs le all.1)

pub higher-top :
    (x : Item) (h : Option Item) → (top h ≤ top (higher x h)) × (x.num ≤ top (higher x h))
unfolding higher
higher-top x none = (omega arith, omega arith)
higher-top x (some h) = elim (Bool-cases (ltb h.num x.num)) [
  | inl e ↦ rw e (ground arith, omega arith)
  | inr e ↦ rw e (omega arith, ground arith)
]

insert_item-grows : (i : ℕ) (x : Item) (xs : List Item) → Has i xs → Has i (insert_item x xs)
unfolding insert_item find_by
insert_item-grows i x xs h = ground arith

pub insert_item-Has : (x : Item) (xs : List Item) → Has x.id (insert_item x xs)
unfolding insert_item find_by
insert_item-Has x xs = ground arith

pub take_in-Rises : (x : Item) (d : ForkDatabase) → Rises d (take_in x d)
unfolding take_in insert_item
take_in-Rises x d =
    let (up, above) = higher-top x d.head in
    record {
      head_rises = up;
      highest = λ h.
          let all = weaken (top d.head) (top (higher x d.head)) d.index up h in
          elim (Bool-cases (is_some (find_by (by_id x.id) d.index))) [
            | inl e ↦ rw e all
            | inr e ↦ rw e (above, all)
          ];
      grows = λ i h. insert_item-grows i x d.index h;
      unlinked_falls = omega arith;
    }

pub link-same :
    (x : Item) (d : ForkDatabase)
    → ((link x d).1.id ≡ x.id)
      × (is_fueled (link x d).0 ≡ true)
      × ((link x d).1.previous ≡ x.previous)
unfolding link
link-same x d = elim (Option-cases d.head) [
  | inl e ↦ rw e (refl, refl, refl)
  | inr (h, e) ↦ elim (Bool-cases (x.previous == 0)) [
    | inl z ↦ rw (e, z) (refl, refl, refl)
    | inr z ↦ elim (Option-cases (find_by (by_id x.previous) d.index)) [
      | inl f ↦ rw (e, z, f) (refl, refl, refl)
      | inr (p, f) ↦ elim (Bool-cases p.invalid) [
        | inl v ↦ rw (e, z, f, v) (refl, refl, refl)
        | inr v ↦ rw (e, z, f, v) (refl, refl, refl)
      ]
    ]
  ]
]

-- The item is taken in, or an exception leaves everything as it is.
abbrev pub IsAdmitted : ForkDatabase → ForkDatabase → Outcome × ForkDatabase → Type 0
IsAdmitted d t r =
    (r.0 ≡ pushed) × (r.1 ≡ t) ⊎ (r.1 ≡ d) × (is_pushed r.0 ≡ false) × (is_fueled r.0 ≡ true)

admitted :
    (b : Bool) (o : Outcome) (d t : ForkDatabase)
    → is_fueled o ≡ true
    → IsAdmitted d t
        (if b then elim o [ pushed ↦ (pushed, t) | other ↦ (other, d) ] else (too_old, d))
admitted false o d t h = inr (refl, refl, refl)
admitted true pushed d t h = inl (refl, refl)
admitted true too_old d t h = inr (refl, refl, h)
admitted true unlinkable d t h = inr (refl, refl, h)
admitted true assert_failed d t h = inr (refl, refl, h)
admitted true out_of_fuel d t h = inr (refl, refl, h)

pub admit-cases : (x : Item) (d : ForkDatabase) → IsAdmitted d (take_in (link x d).1 d) (admit x d)
unfolding admit
admit-cases x d = admitted (in_range x d) (link x d).0 d (take_in (link x d).1 d) (link-same x d).1

pub admit-Rises : (x : Item) (d : ForkDatabase) → Rises d (admit x d).1
admit-Rises x d = elim (admit-cases x d) [
  | inl (o, e) ↦ subst (Rises d) (sym e) (take_in-Rises (link x d).1 d)
  | inr (e, o, f) ↦ subst (Rises d) (sym e) (Rises-refl d)
]

admit-is_fueled : (x : Item) (d : ForkDatabase) → is_fueled (admit x d).0 ≡ true
admit-is_fueled x d = elim (admit-cases x d) [ inl (o, e) ↦ rw o refl | inr (e, o, f) ↦ f ]

-- One item fewer is unlinked.
abbrev without : ℕ → ForkDatabase → ForkDatabase
without i d = record d { unlinked_index = remove_by (by_previous i) d.unlinked_index }

abbrev pub IsPushed : ForkDatabase → Outcome × ForkDatabase → Type 0
IsPushed d r = Rises d r.1 × (is_fueled r.0 ≡ true)

pick :
    (b : Bool) (d : ForkDatabase) (r s : Outcome × ForkDatabase)
    → (b ≡ true → IsPushed d r)
    → (b ≡ false → IsPushed d s)
    → IsPushed d (if b then r else s)
pick true d r s p q = p refl
pick false d r s p q = q refl

-- One round of the loop, given what the two calls that it makes do.
round-IsPushed :
    (n i : ℕ) (d : ForkDatabase) (x : Item)
    → ((j : ℕ) (c : ForkDatabase) → length c.unlinked_index ≤ n → IsPushed c (push_next n j c))
    → find_by (by_previous i) d.unlinked_index ≡ some x
    → length d.unlinked_index ≤ suc n
    → IsPushed d (push_round (push_next n) i x d)
unfolding push_round
round-IsPushed n i d x below e le =
    let l = length-remove_by (by_previous i) x d.unlinked_index e in
    let d' = without i d in
    let first : Rises d d' = record {
      head_rises = omega arith;
      highest = λ h. h;
      grows = λ i h. h;
      unlinked_falls = omega (arith, l);
    } in
    let taken = admit x d' in
    let up = admit-Rises x d' in
    let nested = if is_pushed taken.0 then push_next n x.id taken.1 else taken in
    let inner : IsPushed d' nested =
      pick (is_pushed taken.0) d' (push_next n x.id taken.1) taken
        (λ h.
          let r = below x.id taken.1 (let f = up.unlinked_falls in omega (arith, f, l, le)) in
          (Rises-trans d' taken.1 _ up r.0, r.1))
        (λ h. (up, admit-is_fueled x d')) in
    let both = Rises-trans d d' nested.1 first inner.0 in
    let rest = below i nested.1 (let f = inner.0.unlinked_falls in omega (arith, f, l, le)) in
    pick (is_caught nested.0) d (push_next n i nested.1) nested
      (λ h. (Rises-trans d nested.1 _ both rest.0, rest.1)) (λ h. (both, inner.1))

pub push_next-IsPushed :
    (n i : ℕ) (d : ForkDatabase) → length d.unlinked_index ≤ n → IsPushed d (push_next n i d)
unfolding push_next
push_next-IsPushed zero i d le = elim (Option-cases (find_by (by_previous i) d.unlinked_index)) [
  | inl e ↦ rw e (Rises-refl d, refl)
  | inr (x, e) ↦
      let l = length-remove_by (by_previous i) x d.unlinked_index e in absurd (omega (arith, le, l))
]
push_next-IsPushed (suc n) i d le = elim (Option-cases (find_by (by_previous i) d.unlinked_index)) [
  | inl e ↦ subst (IsPushed d) {x = (pushed, d)} (ground arith) (Rises-refl d, refl)
  | inr (x, e) ↦
      subst (IsPushed d) {x = push_round (push_next n) i x d} (ground arith)
        (round-IsPushed n i d x (push_next-IsPushed n) e le)
]
