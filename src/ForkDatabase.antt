-- ===== src/ForkDatabase.antt =====
-- libraries/chain/fork_database.cpp: the tree of recent blocks. Ids are numbers, 0 is the empty id.
-- An item of the program is a shared object; here each has an address, `prev` is the address that
-- its weak pointer holds, and `lock` finds the item while the index or the head keeps it alive.
-- What the program holds besides, as the branches during a switch of forks, is not counted.
-- What the program holds besides, as the branches during a switch of forks, is not counted.
pub mod Push
pub mod Pushes
pub mod Branches
pub mod Links
pub mod Trees
pub mod Ancestors
pub mod Forks
pub mod Totality
pub mod Fetch
mod Tests
use xgt.Base.{
  ℕ, zero, suc, ◌+◌, ◌-◌, ◌%◌, ◌^◌, Bool, true, false, not, ◌||◌, Option, none, some, List, [], ◌∷◌,
  ◌==◌, ltb, leb, length, ◌>>=◌, require, if◌then◌else◌, is_some, or_else,
}
use xgt.Base.Tables.{find_by, remove_by}

-- `fork_item`
pub record Item : Type 0 where
  pub address : ℕ
  pub prev : Option ℕ
  pub num : ℕ
  pub invalid : Bool
  pub id : ℕ
  pub previous : ℕ

pub record ForkDatabase : Type 0 where
  pub max_size : ℕ
  pub unlinked_index : List Item
  pub index : List Item
  pub head : Option Item
  pub next_address : ℕ

-- How a push ends: well, or with one of the exceptions.
pub data Outcome : Type 0 where
  pushed : Outcome
  too_old : Outcome
  unlinkable : Outcome
  assert_failed : Outcome
  out_of_fuel : Outcome

abbrev pub by_id : ℕ → Item → Bool
by_id i x = x.id == i

abbrev pub by_previous : ℕ → Item → Bool
by_previous i x = x.previous == i

abbrev pub by_address : ℕ → Item → Bool
by_address a x = x.address == a

-- `weak_ptr::lock`
unfoldable pub lock : Option ℕ → ForkDatabase → Option Item
lock none d = none
lock (some a) d =
    or_else (find_by (by_address a) d.index)
      (d.head >>= λ h. if h.address == a then some h else none)

unfoldable pub reset : ForkDatabase → ForkDatabase
reset d = record d { head = none; index = [] }

unfoldable pub pop_block : ForkDatabase → Option ForkDatabase
unfolding lock
pop_block d = do h ← d.head; p ← lock h.prev d; some (record d { head = some p })

-- The index holds each id once: an item whose id it has is not taken.
unfoldable pub insert_item : Item → List Item → List Item
insert_item x xs = if is_some (find_by (by_id x.id) xs) then xs else x ∷ xs

-- `item->num > std::max( 0, _head->num - _max_size )`: subtraction stops at 0.
unfoldable pub in_range : Item → ForkDatabase → Bool
in_range x d = elim d.head [ none ↦ true | some h ↦ ltb (h.num - d.max_size) x.num ]

-- The item with its link to the block before it, or the exception.
unfoldable pub link : Item → ForkDatabase → Outcome × Item
link x d = elim d.head [
  | none ↦ (pushed, x)
  | some h ↦ if x.previous == 0 then (pushed, x) else elim (find_by (by_id x.previous) d.index) [
    | none ↦ (unlinkable, x)
    | some p ↦
        if p.invalid then (assert_failed, x) else (pushed, record x { prev = some p.address })
  ]
]

-- `if( !_head || item->num > _head->num ) _head = item`
unfoldable pub higher : Item → Option Item → Option Item
higher x none = some x
higher x (some h) = if ltb h.num x.num then some x else some h

unfoldable pub take_in : Item → ForkDatabase → ForkDatabase
unfolding insert_item higher
take_in x d = record d { index = insert_item x d.index; head = higher x d.head }

abbrev pub is_pushed : Outcome → Bool
is_pushed pushed = true
is_pushed other = false

abbrev pub is_unlinkable : Outcome → Bool
is_unlinkable unlinkable = true
is_unlinkable other = false

-- `catch( const fc::assert_exception& )` in the loop of _push_next.
abbrev pub is_caught : Outcome → Bool
is_caught pushed = true
is_caught assert_failed = true
is_caught other = false

-- _push_block up to its call of _push_next.
unfoldable pub admit : Item → ForkDatabase → Outcome × ForkDatabase
unfolding in_range link take_in
admit x d =
    if in_range x d
    then elim (link x d).0 [ pushed ↦ (pushed, take_in (link x d).1 d) | other ↦ (other, d) ]
    else (too_old, d)

-- The loop on the unlinked items after the block `i`, of which it takes the latest first. Each round
-- takes one item out of the unlinked index, so their number is enough fuel. `push_round` is a round
-- that has found `x`; `next` is the loop with the fuel that is left.
unfoldable pub push_round :
    (ℕ → ForkDatabase → Outcome × ForkDatabase) → ℕ → Item → ForkDatabase → Outcome × ForkDatabase
unfolding admit
push_round next i x d =
    let taken =
      admit x (record d { unlinked_index = remove_by (by_previous i) d.unlinked_index }) in
    let nested = if is_pushed taken.0 then next x.id taken.1 else taken in
    if is_caught nested.0 then next i nested.1 else nested

unfoldable pub push_next : ℕ → ℕ → ForkDatabase → Outcome × ForkDatabase
unfolding push_round
push_next zero i d =
    if is_some (find_by (by_previous i) d.unlinked_index) then (out_of_fuel, d) else (pushed, d)
push_next (suc n) i d = elim (find_by (by_previous i) d.unlinked_index) [
  | none ↦ (pushed, d)
  | some x ↦ push_round (push_next n) i x d
]

-- `_push_block`
unfoldable pub push_item : Item → ForkDatabase → Outcome × ForkDatabase
unfolding push_next
push_item x d =
    let taken = admit x d in
    if is_pushed taken.0 then push_next (length taken.1.unlinked_index) x.id taken.1 else taken

-- A new item for a block with these ids; its number is in the id of the block before it.
unfoldable pub new_item : (ℕ → ℕ) → ℕ → ℕ → ForkDatabase → Item
new_item num_from_id id previous d = record {
  address = d.next_address;
  prev = none;
  num = (num_from_id previous + 1) % 2 ^ 32;
  invalid = false;
  id = id;
  previous = previous;
}

unfoldable pub start_block : (ℕ → ℕ) → ℕ → ℕ → ForkDatabase → ForkDatabase
unfolding insert_item new_item
start_block num_from_id id previous d =
    let x = new_item num_from_id id previous d in
    record d { index = insert_item x d.index; head = some x; next_address = suc d.next_address }

-- `push_block`: a block that does not link is kept among the unlinked ones, with the link that it
-- has by then, and the exception goes on.
unfoldable pub push_block : (ℕ → ℕ) → ℕ → ℕ → ForkDatabase → Outcome × ForkDatabase
unfolding push_item new_item insert_item link
push_block num_from_id id previous d =
    let x = new_item num_from_id id previous d in
    let r = push_item x (record d { next_address = suc d.next_address }) in
    if is_unlinkable r.0
    then (unlinkable, record r.1 { unlinked_index = insert_item (link x d).1 r.1.unlinked_index })
    else r

-- The lowest numbers go, up to the first that is in range.
unfoldable pub drop_below : ℕ → List Item → List Item
drop_below bound [] = []
drop_below bound (x ∷ xs) = if ltb x.num bound then drop_below bound xs else x ∷ drop_below bound xs

unfoldable pub set_max_size : ℕ → ForkDatabase → ForkDatabase
unfolding drop_below
set_max_size s d = elim d.head [
  | none ↦ record d { max_size = s }
  | some h ↦ record d {
    max_size = s;
    index = drop_below (h.num - s) d.index;
    unlinked_index = drop_below (h.num - s) d.unlinked_index;
  }
]

unfoldable pub fetch_block : ℕ → ForkDatabase → Option Item
fetch_block i d = or_else (find_by (by_id i) d.index) (find_by (by_id i) d.unlinked_index)

unfoldable pub is_known_block : ℕ → ForkDatabase → Bool
is_known_block i d =
    is_some (find_by (by_id i) d.index) || is_some (find_by (by_id i) d.unlinked_index)

unfoldable pub fetch_block_by_number : ℕ → List Item → List Item
fetch_block_by_number n [] = []
fetch_block_by_number n (x ∷ xs) =
    if x.num == n then x ∷ fetch_block_by_number n xs else fetch_block_by_number n xs

unfoldable pub set_head : Option Item → ForkDatabase → ForkDatabase
set_head h d = record d { head = h }

unfoldable pub remove : ℕ → ForkDatabase → ForkDatabase
remove i d = record d { index = remove_by (by_id i) d.index }
