-- ===== src/ForkDatabase/Links.antt =====
-- What makes the items of a fork database a tree: the links against the previous ids.
use xgt.Base.{
  ℕ, zero, suc, ◌+◌, ◌-◌, ◌<◌, ◌≡◌, refl, subst, sym, ap, ◌∙◌, Bool, true, false, Option, none,
  some, List, [], ◌∷◌, ◌==◌, ==_iff, ltb, length, arith, inl, inr, Bool-cases, Option-cases,
  is_some, if◌then◌else◌,
}
use xgt.Base.Tables.{find_by, remove_by, All, All-remove_by, All-find_by, find_by-passes}
use xgt.ForkDatabase.{
  Item, ForkDatabase, Outcome, pushed, by_id, by_previous, by_address, insert_item, link, higher,
  take_in, admit, is_pushed, is_caught, push_round, push_next, push_item, drop_below, set_max_size,
  pop_block, lock,
}
use xgt.ForkDatabase.Push.{admit-cases}

nothing :
    (d : ForkDatabase) (o : Option ℕ) (p : Item) → lock o d ≡ lock none d → lock o d ≡ some p → ⊥
unfolding lock
nothing d o p e f = ground arith

-- `names` says which block each address holds, `next` is the first free address.
module _ (num_from_id : ℕ → ℕ) (names : ℕ → ℕ) (next : ℕ) where
  -- An item holds the block of its address, its number is in its id and one above the number in
  -- the id of the block before it, and its link goes to an address of that block.
  pub record Fits (x : Item) : Type 0 where
    pub allocated : x.address < next
    pub named : names x.address ≡ x.id
    pub numbered : num_from_id x.id ≡ x.num
    pub follows : x.num ≡ num_from_id x.previous + 1
    pub linked : (a : ℕ) → x.prev ≡ some a → (a < next) × (names a ≡ x.previous)

  pub record Tree (d : ForkDatabase) : Type 0 where
    pub indexed : All Fits d.index
    pub unlinked : All Fits d.unlinked_index
    pub headed : (h : Item) → d.head ≡ some h → Fits h
    pub free : d.next_address ≡ next

  pub link-Fits : (x : Item) (d : ForkDatabase) → Tree d → Fits x → Fits (link x d).1
  unfolding link
  link-Fits x d t f = elim (Option-cases d.head) [
    | inl e ↦ rw e f
    | inr (h, e) ↦ elim (Bool-cases (x.previous == 0)) [
      | inl z ↦ rw (e, z) f
      | inr z ↦ elim (Option-cases (find_by (by_id x.previous) d.index)) [
        | inl g ↦ rw (e, z, g) f
        | inr (p, g) ↦ elim (Bool-cases p.invalid) [
          | inl v ↦ rw (e, z, g, v) f
          | inr v ↦
              let fp = All-find_by Fits (by_id x.previous) p d.index t.indexed g in
              let same : p.id ≡ x.previous =
                (==_iff p.id x.previous).0 (find_by-passes (by_id x.previous) p d.index g) in
              rw (e, z, g, v)
                (record {
                  allocated = f.allocated;
                  named = f.named;
                  numbered = f.numbered;
                  follows = f.follows;
                  linked = λ a h.
                      let at : p.address ≡ a = ground arith in
                      subst (λ b. (b < next) × (names b ≡ x.previous)) at
                        (fp.allocated, fp.named ∙ same);
                })
        ]
      ]
    ]
  ]

  pub insert_item-Fits :
      (x : Item) (xs : List Item) → Fits x → All Fits xs → All Fits (insert_item x xs)
  unfolding insert_item
  insert_item-Fits x xs f all = elim (Bool-cases (is_some (find_by (by_id x.id) xs))) [
    | inl e ↦ rw e all
    | inr e ↦ rw e (f, all)
  ]

  higher-Fits :
      (x : Item) (o : Option Item)
      → Fits x
      → ((h : Item) → o ≡ some h → Fits h)
      → (h : Item) → higher x o ≡ some h
      → Fits h
  unfolding higher
  higher-Fits x none f fo h e = subst Fits (ground arith) f
  higher-Fits x (some g) f fo h e = elim (Bool-cases (ltb g.num x.num)) [
    | inl b ↦ subst Fits (ground arith) f
    | inr b ↦ subst Fits {x = g} (ground arith) (fo g refl)
  ]

  take_in-Tree : (x : Item) (d : ForkDatabase) → Fits x → Tree d → Tree (take_in x d)
  unfolding take_in
  take_in-Tree x d f t = record {
    indexed = insert_item-Fits x d.index f t.indexed;
    unlinked = t.unlinked;
    headed = higher-Fits x d.head f t.headed;
    free = t.free;
  }

  admit-Tree : (x : Item) (d : ForkDatabase) → Fits x → Tree d → Tree (admit x d).1
  admit-Tree x d f t = elim (admit-cases x d) [
    | inl (o, e) ↦ subst Tree (sym e) (take_in-Tree (link x d).1 d (link-Fits x d t f) t)
    | inr (e, o, g) ↦ subst Tree (sym e) t
  ]

  pick-Tree :
      (b : Bool) (r s : Outcome × ForkDatabase) → Tree r.1 → Tree s.1 → Tree (if b then r else s).1
  pick-Tree true r s p q = p
  pick-Tree false r s p q = q

  push_round-Tree :
      (loop : ℕ → ForkDatabase → Outcome × ForkDatabase) (i : ℕ) (x : Item) (d : ForkDatabase)
      → ((j : ℕ) (c : ForkDatabase) → Tree c → Tree (loop j c).1)
      → find_by (by_previous i) d.unlinked_index ≡ some x
      → Tree d
      → Tree (push_round loop i x d).1
  unfolding push_round
  push_round-Tree loop i x d below e t =
      let d' = record d { unlinked_index = remove_by (by_previous i) d.unlinked_index } in
      let t' : Tree d' = record {
        indexed = t.indexed;
        unlinked = All-remove_by Fits (by_previous i) d.unlinked_index t.unlinked;
        headed = t.headed;
        free = t.free;
      } in
      let f = All-find_by Fits (by_previous i) x d.unlinked_index t.unlinked e in
      let taken = admit x d' in
      let u = admit-Tree x d' f t' in
      let nested = if is_pushed taken.0 then loop x.id taken.1 else taken in
      let v : Tree nested.1 =
        pick-Tree (is_pushed taken.0) (loop x.id taken.1) taken (below x.id taken.1 u) u in
      pick-Tree (is_caught nested.0) (loop i nested.1) nested (below i nested.1 v) v

  push_next-Tree : (n i : ℕ) (d : ForkDatabase) → Tree d → Tree (push_next n i d).1
  unfolding push_next
  push_next-Tree zero i d t =
      elim (Bool-cases (is_some (find_by (by_previous i) d.unlinked_index))) [
        | inl e ↦ rw e t
        | inr e ↦ rw e t
      ]
  push_next-Tree (suc n) i d t = elim (Option-cases (find_by (by_previous i) d.unlinked_index)) [
    | inl e ↦
        subst (λ (r : Outcome × ForkDatabase). Tree r.1) {x = (pushed, d)}
          {y = push_next (suc n) i d} (ground arith) t
    | inr (x, e) ↦
        subst (λ (r : Outcome × ForkDatabase). Tree r.1) {x = push_round (push_next n) i x d}
          {y = push_next (suc n) i d} (ground arith)
          (push_round-Tree (push_next n) i x d (push_next-Tree n) e t)
  ]

  pub push_item-Tree : (x : Item) (d : ForkDatabase) → Fits x → Tree d → Tree (push_item x d).1
  unfolding push_item
  push_item-Tree x d f t =
      let taken = admit x d in
      let u = admit-Tree x d f t in
      pick-Tree (is_pushed taken.0) (push_next (length taken.1.unlinked_index) x.id taken.1) taken
        (push_next-Tree (length taken.1.unlinked_index) x.id taken.1 u) u

  -- The weaker states that the other operations leave.
  drop_below-Fits : (n : ℕ) (xs : List Item) → All Fits xs → All Fits (drop_below n xs)
  unfolding drop_below
  drop_below-Fits n [] all = tt
  drop_below-Fits n (x ∷ xs) all = elim (Bool-cases (ltb x.num n)) [
    | inl e ↦ rw e (drop_below-Fits n xs all.1)
    | inr e ↦ rw e (all.0, drop_below-Fits n xs all.1)
  ]

  pub set_max_size-Tree : (n : ℕ) (d : ForkDatabase) → Tree d → Tree (set_max_size n d)
  unfolding set_max_size
  set_max_size-Tree n d t = elim (Option-cases d.head) [
    | inl e ↦
        subst Tree {x = record d { max_size = n }} (ground arith)
          (record { indexed = t.indexed; unlinked = t.unlinked; headed = t.headed; free = t.free })
    | inr (h, e) ↦
        subst Tree
          {x = record d {
            max_size = n;
            index = drop_below (h.num - n) d.index;
            unlinked_index = drop_below (h.num - n) d.unlinked_index;
          }}
          (ground arith)
          (record {
            indexed = drop_below-Fits (h.num - n) d.index t.indexed;
            unlinked = drop_below-Fits (h.num - n) d.unlinked_index t.unlinked;
            headed = t.headed;
            free = t.free;
          })
  ]

  pub lock-Fits :
      (a : ℕ) (d : ForkDatabase) (p : Item)
      → Tree d
      → lock (some a) d ≡ some p
      → Fits p × (p.address ≡ a)
  unfolding lock
  lock-Fits a d p t e = elim (Option-cases (find_by (by_address a) d.index)) [
    | inr (q, f) ↦
        let same : q ≡ p = ground arith in
        subst (λ r. Fits r × (r.address ≡ a)) same
          (
            All-find_by Fits (by_address a) q d.index t.indexed f,
            (==_iff q.address a).0 (find_by-passes (by_address a) q d.index f),
          )
    | inl f ↦ elim (Option-cases d.head) [
      | inl g ↦ absurd (ground arith)
      | inr (h, g) ↦ elim (Bool-cases (h.address == a)) [
        | inl z ↦
            subst (λ r. Fits r × (r.address ≡ a)) {x = h} (ground arith)
              (t.headed h g, (==_iff h.address a).0 z)
        | inr z ↦ absurd (ground arith)
      ]
    ]
  ]

  -- What a link leads to is the block before, one number lower.
  pub parent-Fits :
      (x p : Item) (d : ForkDatabase)
      → Tree d
      → Fits x
      → lock x.prev d ≡ some p
      → Fits p × (p.id ≡ x.previous) × (p.num + 1 ≡ x.num)
  parent-Fits x p d t f e = elim (Option-cases x.prev) [
    | inl z ↦ absurd (nothing d x.prev p (ap (λ o. lock o d) z) e)
    | inr (a, z) ↦
        let (fp, at) = lock-Fits a d p t (sym (ap (λ o. lock o d) z) ∙ e) in
        let same : p.id ≡ x.previous = sym fp.named ∙ ap names at ∙ (f.linked a z).1 in
        (
          fp,
          same,
          let u = fp.numbered in
              let v = f.follows in let w = ap num_from_id same in omega (arith, u, v, w),
        )
  ]

  pub pop_block-Tree : (d d' : ForkDatabase) → Tree d → pop_block d ≡ some d' → Tree d'
  unfolding pop_block
  pop_block-Tree d d' t e = elim (Option-cases d.head) [
    | inl g ↦ absurd (ground arith)
    | inr (h, g) ↦ elim (Option-cases (lock h.prev d)) [
      | inl z ↦ absurd (ground arith)
      | inr (p, z) ↦ subst Tree {x = record d { head = some p }} (ground arith) (record {
        indexed = t.indexed;
        unlinked = t.unlinked;
        headed = λ k f. subst Fits (ground arith) (parent-Fits h p d t (t.headed h g) z).0;
        free = t.free;
      })
    ]
  ]
