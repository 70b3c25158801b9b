-- ===== src/ForkDatabase/Trees.antt =====
-- The operations of the fork database on trees.
use xgt.Base.{
  ℕ, suc, ◌+◌, ◌^◌, ◌<◌, ◌≡◌, refl, subst, sym, Bool, true, false, none, some, List, [], ◌∷◌, ◌==◌,
  arith, inl, inr, Option-cases, if◌then◌else◌,
}
use xgt.Base.Tables.{All, All-remove_by}
use xgt.ForkDatabase.{
  Item, ForkDatabase, Outcome, unlinkable, by_id, insert_item, link, push_item, push_block,
  new_item, is_unlinkable, start_block, set_max_size, pop_block, remove, reset,
}
use xgt.ForkDatabase.Links.{
  Fits, Tree, link-Fits, insert_item-Fits, push_item-Tree, set_max_size-Tree, pop_block-Tree,
}

same_link :
    (x : Item) (d : ForkDatabase)
    → (link x (record d { next_address = suc d.next_address })).1 ≡ (link x d).1
unfolding link
same_link x d = refl

module _ (num_from_id : ℕ → ℕ) where
  -- There is a block for each address, so that the items are linked by it.
  pub record IsTree (d : ForkDatabase) : Type 0 where
    pub names : ℕ → ℕ
    pub tree : Tree num_from_id names d.next_address d

  -- The number in the id of a block is one above that in the id of the block before it, in 32 bits.
  pub record IsNumbered (id previous : ℕ) : Type 0 where
    pub follows : num_from_id id ≡ num_from_id previous + 1
    pub in_32_bits : num_from_id id < 2 ^ 32

  abbrev with_name : ℕ → ℕ → (ℕ → ℕ) → ℕ → ℕ
  with_name n id names a = if a == n then id else names a

  -- A new address changes nothing for the items that are there.
  Fits-new :
      (names : ℕ → ℕ) (n id : ℕ) (x : Item)
      → Fits num_from_id names n x
      → Fits num_from_id (with_name n id names) (suc n) x
  Fits-new names n id x f = record {
    allocated = let h = f.allocated in omega (arith, h);
    named = let h = f.allocated in let k = f.named in ground arith;
    numbered = f.numbered;
    follows = f.follows;
    linked = λ a h. let (below, same) = f.linked a h in (omega (arith, below), ground arith);
  }

  All-Fits-new :
      (names : ℕ → ℕ) (n id : ℕ) (xs : List Item)
      → All (Fits num_from_id names n) xs
      → All (Fits num_from_id (with_name n id names) (suc n)) xs
  All-Fits-new names n id [] all = tt
  All-Fits-new names n id (x ∷ xs) all =
      (Fits-new names n id x all.0, All-Fits-new names n id xs all.1)

  abbrev allocated : ForkDatabase → ForkDatabase
  allocated d = record d { next_address = suc d.next_address }

  Tree-new :
      (names : ℕ → ℕ) (id : ℕ) (d : ForkDatabase)
      → Tree num_from_id names d.next_address d
      → Tree num_from_id (with_name d.next_address id names) (suc d.next_address) (allocated d)
  Tree-new names id d t = record {
    indexed = All-Fits-new names d.next_address id d.index t.indexed;
    unlinked = All-Fits-new names d.next_address id d.unlinked_index t.unlinked;
    headed = λ h e. Fits-new names d.next_address id h (t.headed h e);
    free = refl;
  }

  new_item-Fits :
      (names : ℕ → ℕ) (id previous : ℕ) (d : ForkDatabase)
      → IsNumbered id previous
      → Fits num_from_id
          (with_name d.next_address id names)
          (suc d.next_address)
          (new_item num_from_id id previous d)
  unfolding new_item
  new_item-Fits names id previous d n = record {
    allocated = omega arith;
    named = ground arith;
    numbered = let h = n.follows in let k = n.in_32_bits in omega (arith, h, k);
    follows = let h = n.follows in let k = n.in_32_bits in omega (arith, h, k);
    linked = λ a h. absurd (ground arith);
  }

  -- A tree with its own free address.
  pub to_IsTree : (names : ℕ → ℕ) (n : ℕ) (d : ForkDatabase) → Tree num_from_id names n d → IsTree d
  to_IsTree names n d t = record {
    names = names;
    tree = subst (λ k. Tree num_from_id names k d) (sym t.free) t;
  }

  pick-IsTree :
      (b : Bool) (r s : Outcome × ForkDatabase)
      → IsTree r.1
      → IsTree s.1
      → IsTree (if b then r else s).1
  pick-IsTree true r s p q = p
  pick-IsTree false r s p q = q

  pub push_block-IsTree :
      (id previous : ℕ) (d : ForkDatabase)
      → IsNumbered id previous
      → IsTree d
      → IsTree (push_block num_from_id id previous d).1
  unfolding push_block
  push_block-IsTree id previous d n t =
      let names = with_name d.next_address id t.names in
      let next = suc d.next_address in
      let x = new_item num_from_id id previous d in
      let f = new_item-Fits t.names id previous d n in
      let start = Tree-new t.names id d t.tree in
      let r = push_item x (allocated d) in
      let u = push_item-Tree num_from_id names next x (allocated d) f start in
      let kept = record r.1 { unlinked_index = insert_item (link x d).1 r.1.unlinked_index } in
      let v : Tree num_from_id names next kept = record {
        indexed = u.indexed;
        unlinked =
            insert_item-Fits num_from_id names next (link x d).1 r.1.unlinked_index
              (subst (λ (y : Item). Fits num_from_id names next y) (same_link x d)
                (link-Fits num_from_id names next x (allocated d) start f))
              u.unlinked;
        headed = u.headed;
        free = u.free;
      } in
      pick-IsTree (is_unlinkable r.0) (unlinkable, kept) r (to_IsTree names next kept v)
        (to_IsTree names next r.1 u)

  pub start_block-IsTree :
      (id previous : ℕ) (d : ForkDatabase)
      → IsNumbered id previous
      → IsTree d
      → IsTree (start_block num_from_id id previous d)
  unfolding start_block
  start_block-IsTree id previous d n t =
      let names = with_name d.next_address id t.names in
      let next = suc d.next_address in
      let start = Tree-new t.names id d t.tree in
      let f = new_item-Fits t.names id previous d n in
      record {
        names = names;
        tree = record {
          indexed =
              insert_item-Fits num_from_id names next (new_item num_from_id id previous d) d.index f
                start.indexed;
          unlinked = start.unlinked;
          headed = λ h e. subst (Fits num_from_id names next) (ground arith) f;
          free = refl;
        };
      }

  -- A call of the node on the fork database; what it pushes or starts with is a numbered block.
  pub data Call : Type 0 where
    push : (id previous : ℕ) → IsNumbered id previous → Call
    start : (id previous : ℕ) → IsNumbered id previous → Call
    pop : Call
    drop : ℕ → Call
    resize : ℕ → Call
    clear : Call

  -- An exception of push_block is caught by the caller, who keeps the database as it is then;
  -- pop_block changes nothing when it throws.
  unfoldable pub call : Call → ForkDatabase → ForkDatabase
  unfolding push_block start_block pop_block remove set_max_size reset
  call (push id previous n) d = (push_block num_from_id id previous d).1
  call (start id previous n) d = start_block num_from_id id previous d
  call pop d = elim (pop_block d) [ none ↦ d | some d' ↦ d' ]
  call (drop id) d = remove id d
  call (resize s) d = set_max_size s d
  call clear d = reset d

  unfoldable pub call_all : List Call → ForkDatabase → ForkDatabase
  unfolding call
  call_all [] d = d
  call_all (c ∷ cs) d = call_all cs (call c d)

  pop-IsTree : (d : ForkDatabase) → IsTree d → IsTree (call pop d)
  unfolding call
  pop-IsTree d t = elim (Option-cases (pop_block d)) [
    | inl e ↦ subst IsTree {x = d} (ground arith) t
    | inr (d', e) ↦ subst IsTree {x = d'} (ground arith) (
        to_IsTree t.names d.next_address d'
          (pop_block-Tree num_from_id t.names d.next_address d d' t.tree e))
  ]

  call-IsTree : (c : Call) (d : ForkDatabase) → IsTree d → IsTree (call c d)
  unfolding call remove reset
  call-IsTree (push id previous n) d t = push_block-IsTree id previous d n t
  call-IsTree (start id previous n) d t = start_block-IsTree id previous d n t
  call-IsTree pop d t = pop-IsTree d t
  call-IsTree (drop id) d t = record {
    names = t.names;
    tree = record {
      indexed =
          All-remove_by (Fits num_from_id t.names d.next_address) (by_id id) d.index t.tree.indexed;
      unlinked = t.tree.unlinked;
      headed = t.tree.headed;
      free = refl;
    };
  }
  call-IsTree (resize s) d t =
      to_IsTree t.names d.next_address (set_max_size s d)
        (set_max_size-Tree num_from_id t.names d.next_address s d t.tree)
  call-IsTree clear d t = record {
    names = t.names;
    tree = record {
      indexed = tt;
      unlinked = t.tree.unlinked;
      headed = λ h e. absurd (ground arith);
      free = refl;
    };
  }

-- An empty fork database.
abbrev pub empty : ForkDatabase
empty = record { max_size = 1024; unlinked_index = []; index = []; head = none; next_address = 0 }

-- After any calls on numbered blocks the items of the fork database form a tree: each one's link
-- leads to the block that it names as the one before it.
pub call_all-IsTree :
    (num_from_id : ℕ → ℕ) (cs : List (Call num_from_id)) (d : ForkDatabase)
    → IsTree num_from_id d
    → IsTree num_from_id (call_all num_from_id cs d)
unfolding call_all
call_all-IsTree num_from_id [] d t = t
call_all-IsTree num_from_id (c ∷ cs) d t =
    call_all-IsTree num_from_id cs (call num_from_id c d) (call-IsTree num_from_id c d t)

pub empty-IsTree : (num_from_id : ℕ → ℕ) → IsTree num_from_id empty
empty-IsTree num_from_id = record {
  names = λ a. a;
  tree = record { indexed = tt; unlinked = tt; headed = λ h e. absurd (ground arith); free = refl };
}
