-- ===== src/ForkDatabase/Pushes.antt =====
-- What push_block does to the head and to the two indices.
use xgt.Base.{
  ℕ, suc, ◌+◌, ◌%◌, ◌^◌, ◌≤◌, ◌≡◌, ◌≢◌, refl, subst, true, false, ◌==◌, length, arith, inl, inr,
  Bool-cases, Option-cases,
}
use xgt.Base.Tables.{find_by}
use xgt.ForkDatabase.{
  Item, ForkDatabase, Outcome, pushed, unlinkable, out_of_fuel, by_id, insert_item, link, take_in,
  admit, is_pushed, push_next, push_item, push_block, new_item, is_unlinkable,
}
use xgt.ForkDatabase.Push.{
  is_fueled, top, IsHighest, Has, Rises, Rises-trans, higher-top, take_in-Rises, insert_item-Has,
  link-same, admit-cases, admit-Rises, IsPushed, push_next-IsPushed,
}

-- What a push ends in, with its outcome: if the block is in, the index holds its id and the head is
-- at least as high.
pub record Pushes (x : Item) (d : ForkDatabase) (r : Outcome × ForkDatabase) : Type 0 where
  pub rises : Rises d r.1
  pub fueled : is_fueled r.0 ≡ true
  pub held : r.0 ≡ pushed → Has x.id r.1.index
  pub high : r.0 ≡ pushed → x.num ≤ top r.1.head

link-num : (x : Item) (d : ForkDatabase) → (link x d).1.num ≡ x.num
unfolding link
link-num x d = elim (Option-cases d.head) [
  | inl e ↦ rw e refl
  | inr (h, e) ↦ elim (Bool-cases (x.previous == 0)) [
    | inl z ↦ rw (e, z) refl
    | inr z ↦ elim (Option-cases (find_by (by_id x.previous) d.index)) [
      | inl f ↦ rw (e, z, f) refl
      | inr (p, f) ↦ elim (Bool-cases p.invalid) [
        | inl v ↦ rw (e, z, f, v) refl
        | inr v ↦ rw (e, z, f, v) refl
      ]
    ]
  ]
]

take_in-Pushes :
    (x y : Item) (d : ForkDatabase)
    → y.id ≡ x.id
    → y.num ≡ x.num
    → (r : Outcome × ForkDatabase) → IsPushed (take_in y d) r
    → Pushes x d r
unfolding take_in
take_in-Pushes x y d same level r (up, fueled) = record {
  rises = Rises-trans d (take_in y d) r.1 (take_in-Rises y d) up;
  fueled = fueled;
  held =
      λ o. up.grows x.id (subst (λ i. Has i (take_in y d).index) same (insert_item-Has y d.index));
  high =
      λ o. let h = (higher-top y d.head).1 in let u = up.head_rises in omega (arith, h, u, level);
}

not_pushed : (o : Outcome) → is_pushed o ≡ false → o ≢ pushed
not_pushed pushed h = λ e. cc
not_pushed _ h = λ e. cc

is_fueled-ne : (o : Outcome) → is_fueled o ≡ true → o ≢ out_of_fuel
is_fueled-ne out_of_fuel h = λ e. cc
is_fueled-ne _ h = λ e. cc

is_unlinkable-ne : (o : Outcome) → is_unlinkable o ≡ false → o ≢ unlinkable
is_unlinkable-ne unlinkable h = λ e. cc
is_unlinkable-ne _ h = λ e. cc

push_item-Pushes : (x : Item) (d : ForkDatabase) → Pushes x d (push_item x d)
unfolding push_item
push_item-Pushes x d = elim (admit-cases x d) [
  | inl (o, e) ↦
      let y = (link x d).1 in
      let c = take_in y d in
      subst (Pushes x d) {x = push_next (length c.unlinked_index) x.id c} (ground arith) (
        take_in-Pushes x y d (link-same x d).0 (link-num x d) _
          (push_next-IsPushed (length c.unlinked_index) x.id c (omega arith)))
  | inr (e, o, f) ↦ subst (Pushes x d) {x = admit x d} (ground arith) (record {
    rises = admit-Rises x d;
    fueled = f;
    held = λ p. absurd (not_pushed (admit x d).0 o p);
    high = λ p. absurd (not_pushed (admit x d).0 o p);
  })
]

-- What push_block does to the head and the index.
pub record IsRaised (id num : ℕ) (d : ForkDatabase) (r : Outcome × ForkDatabase) : Type 0 where
  pub fueled : r.0 ≢ out_of_fuel
  pub head_rises : top d.head ≤ top r.1.head
  pub highest : IsHighest d → IsHighest r.1
  pub grows : (i : ℕ) → Has i d.index → Has i r.1.index
  pub held : r.0 ≡ pushed → Has id r.1.index
  pub high : r.0 ≡ pushed → num ≤ top r.1.head
  pub remembered : r.0 ≡ unlinkable → Has id r.1.unlinked_index

-- push_block always ends. The head's number never falls, and stays the highest in the index if it
-- was; the index loses no id. A block that goes in is in the index and not above the head, and one
-- that does not link is kept among the unlinked.
pub push_block-IsRaised :
    (num_from_id : ℕ → ℕ) (id previous : ℕ) (d : ForkDatabase)
    → IsRaised id ((num_from_id previous + 1) % 2 ^ 32) d (push_block num_from_id id previous d)
unfolding push_block new_item
push_block-IsRaised num_from_id id previous d =
    let x = new_item num_from_id id previous d in
    let d' = record d { next_address = suc d.next_address } in
    let r = push_item x d' in
    let p = push_item-Pushes x d' in
    let kept = record r.1 { unlinked_index = insert_item (link x d).1 r.1.unlinked_index } in
    elim (Bool-cases (is_unlinkable r.0)) [
      | inl e ↦ rw e (record {
        fueled = λ o. cc;
        head_rises = p.rises.head_rises;
        highest = p.rises.highest;
        grows = p.rises.grows;
        held = λ o. cc;
        high = λ o. cc;
        remembered = λ o.
            subst (λ i. Has i kept.unlinked_index) (link-same x d).0
              (insert_item-Has (link x d).1 r.1.unlinked_index);
      })
      | inr e ↦ rw e (record {
        fueled = λ o. is_fueled-ne r.0 p.fueled o;
        head_rises = p.rises.head_rises;
        highest = p.rises.highest;
        grows = p.rises.grows;
        held = p.held;
        high = p.high;
        remembered = λ o. absurd (is_unlinkable-ne r.0 e o);
      })
    ]
