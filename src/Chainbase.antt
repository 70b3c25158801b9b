-- ===== src/Chainbase.antt =====
-- libraries/chainbase/include/chainbase/chainbase.hpp: class generic_index and its undo stack.
-- An object is its id with the remaining fields, a value of `V`; a modifier never assigns the id.
-- `clash v w` says that two objects may not stand in one container, because they share a key of
-- one of its secondary unique indices. The front of `stack` is the back of the source's deque.
-- `none` is a thrown exception. Revisions are natural numbers (block numbers in the program).
pub mod Spec
pub mod Entries
pub mod Merge
pub mod Restore
pub mod Covers
pub mod Refinement
pub mod Sessions
pub mod Undo
pub mod Calls
pub mod Clash
mod Tests
use mathlib.Core.Option
use xgt.Base.{
  ℕ, suc, ◌+◌, ◌-◌, Bool, true, false, not, ◌&&◌, ◌||◌, ◌==◌, leb, Option, none, some, List, [],
  ◌∷◌, if◌then◌else◌, ◌>>=◌, ◌>>◌, require, is_some, has_id, insert_id, erase_id, Map, find, insert,
  emplace, assign, erase,
}

-- `undo_state`
pub record UndoState (V : Type 0) : Type 0 where
  pub old_values : Map V
  pub removed_values : Map V
  pub new_ids : List ℕ
  pub old_next_id : ℕ
  pub revision : ℕ

-- `generic_index`
pub record Index (V : Type 0) : Type 0 where
  pub indices : Map V
  pub stack : List (UndoState V)
  pub revision : ℕ
  pub next_id : ℕ

module _ {V : Type 0} where
  -- On the undo state of the newest session only: `if( !enabled() ) return;`.
  pub on_head : (UndoState V → UndoState V) → List (UndoState V) → List (UndoState V)
  on_head f [] = []
  on_head f (head ∷ older) = f head ∷ older

  pub on_modify : ℕ → V → UndoState V → UndoState V
  on_modify i v head =
      if has_id i head.new_ids
      then head
      else if is_some (find i head.old_values)
      then head
      else record head { old_values = emplace i v head.old_values }

  pub on_remove : ℕ → V → UndoState V → UndoState V
  on_remove i v head =
      if has_id i head.new_ids
      then record head { new_ids = erase_id i head.new_ids }
      else elim (find i head.old_values) [
        | some was ↦ record head {
          removed_values = emplace i was head.removed_values;
          old_values = erase i head.old_values;
        }
        | none ↦
            if is_some (find i head.removed_values)
            then head
            else record head { removed_values = emplace i v head.removed_values }
      ]

  pub on_create : ℕ → UndoState V → UndoState V
  on_create i head = record head { new_ids = insert_id i head.new_ids }

  -- The loops of `squash` over the three containers of the newer state; the second argument is
  -- `prev_state`.
  pub merge_old : Map V → UndoState V → UndoState V
  merge_old [] prev = prev
  merge_old ((i, was) ∷ m) prev = merge_old m (
      if has_id i prev.new_ids
      then prev
      else if is_some (find i prev.old_values)
      then prev
      else record prev { old_values = emplace i was prev.old_values })

  pub merge_new : List ℕ → UndoState V → UndoState V
  merge_new [] prev = prev
  merge_new (i ∷ is) prev = merge_new is (record prev { new_ids = insert_id i prev.new_ids })

  pub merge_one_removed : ℕ → V → UndoState V → UndoState V
  merge_one_removed i was prev =
      if has_id i prev.new_ids
      then record prev { new_ids = erase_id i prev.new_ids }
      else elim (find i prev.old_values) [
        | some older ↦ record prev {
          removed_values = emplace i older prev.removed_values;
          old_values = erase i prev.old_values;
        }
        | none ↦ record prev { removed_values = emplace i was prev.removed_values }
      ]

  pub merge_removed : Map V → UndoState V → UndoState V
  unfolding merge_one_removed
  merge_removed [] prev = prev
  merge_removed ((i, was) ∷ m) prev = merge_removed m (merge_one_removed i was prev)

  pub merge : UndoState V → UndoState V → UndoState V
  unfolding merge_old merge_new merge_removed
  merge state prev =
      merge_removed state.removed_values (merge_new state.new_ids (merge_old state.old_values prev))

  pub squash_stack : List (UndoState V) → List (UndoState V)
  unfolding merge
  squash_stack [] = []
  squash_stack (state ∷ []) = []
  squash_stack (state ∷ prev ∷ older) = merge state prev ∷ older

  pub squash_revision : List (UndoState V) → ℕ → ℕ
  squash_revision [] r = r
  squash_revision (state ∷ []) r = r
  squash_revision (state ∷ prev ∷ older) r = r - 1

  pub squash : Index V → Index V
  unfolding squash_stack squash_revision
  squash x = record x {
    stack = squash_stack x.stack;
    revision = squash_revision x.stack x.revision;
  }

  -- `while( _stack.size() && _stack[0].revision <= revision ) _stack.pop_front();`: a state goes
  -- only after all that are older.
  pub keep_above : ℕ → UndoState V → List (UndoState V) → List (UndoState V)
  keep_above r state [] = if leb state.revision r then [] else state ∷ []
  keep_above r state (next ∷ older) = state ∷ next ∷ older

  pub drop_committed : ℕ → List (UndoState V) → List (UndoState V)
  unfolding keep_above
  drop_committed r [] = []
  drop_committed r (state ∷ older) = keep_above r state (drop_committed r older)

  pub commit : ℕ → Index V → Index V
  unfolding drop_committed
  commit r x = record x { stack = drop_committed r x.stack }

  pub set_revision : ℕ → Index V → Option (Index V)
  set_revision r x = elim x.stack [ [] ↦ some (record x { revision = r }) | state ∷ older ↦ none ]

  pub start_undo_session : Index V → Index V
  start_undo_session x = record x {
    revision = suc x.revision;
    stack =
        record {
          old_values = [];
          removed_values = [];
          new_ids = [];
          old_next_id = x.next_id;
          revision = suc x.revision;
        }
        ∷ x.stack;
  }

  pub erase_ids : List ℕ → Map V → Map V
  erase_ids [] t = t
  erase_ids (i ∷ is) t = erase_ids is (erase i t)

module _ {V : Type 0} (clash : V → V → Bool) where
  -- Does `v` under the id `i` share a unique key with another object of the container?
  pub unique : ℕ → V → Map V → Bool
  unique i v [] = true
  unique i v ((j, w) ∷ t) = (i == j || not (clash v w)) && unique i v t

  -- `_indices.emplace( v ).second`, and the container after it.
  pub put_new : ℕ → V → Map V → Option (Map V)
  unfolding unique
  put_new i v t =
      if is_some (find i t) then none else if unique i v t then some (insert i v t) else none

  -- `_indices.modify( itr, m )`
  pub put_old : ℕ → V → Map V → Option (Map V)
  unfolding unique
  put_old i v t = if unique i v t then some (assign i v t) else none

  -- `emplace`: the new index, with the id of the new object.
  pub create : V → Index V → Option (Index V × ℕ)
  unfolding put_new on_head on_create
  create v x = do
    t ← put_new x.next_id v x.indices
    some (
      record x {
        indices = t;
        next_id = x.next_id + 1;
        stack = on_head (on_create x.next_id) x.stack;
      },
      x.next_id,
    )

  -- The caller holds a reference to the object, so it is there.
  pub modify : ℕ → (V → V) → Index V → Option (Index V)
  unfolding put_old on_head on_modify
  modify i m x = do
    v ← find i x.indices
    t ← put_old i (m v) x.indices
    some (record x { indices = t; stack = on_head (on_modify i v) x.stack })

  pub remove : ℕ → Index V → Option (Index V)
  unfolding on_head on_remove
  remove i x = do
    v ← find i x.indices
    some (record x { indices = erase i x.indices; stack = on_head (on_remove i v) x.stack })

  -- The loops of `undo`.
  pub put_back : ℕ → V → Map V → Option (Map V)
  unfolding put_old put_new
  put_back i was t = if is_some (find i t) then put_old i was t else put_new i was t

  pub restore_old : Map V → Map V → Option (Map V)
  unfolding put_back
  restore_old [] t = some t
  restore_old ((i, was) ∷ m) t = put_back i was t >>= restore_old m

  pub restore_removed : Map V → Map V → Option (Map V)
  unfolding put_new
  restore_removed [] t = some t
  restore_removed ((i, was) ∷ m) t = put_new i was t >>= restore_removed m

  pub restore : UndoState V → Map V → Option (Map V)
  unfolding restore_old erase_ids restore_removed
  restore head t = do
    t' ← restore_old head.old_values t
    restore_removed head.removed_values (erase_ids head.new_ids t')

  pub undo_to : Index V → List (UndoState V) → Option (Index V)
  unfolding restore
  undo_to x [] = some x
  undo_to x (head ∷ older) =
      Option.map
        (λ t. record x {
          indices = t;
          next_id = head.old_next_id;
          stack = older;
          revision = x.revision - 1;
        })
        (restore head x.indices)

  pub undo : Index V → Option (Index V)
  unfolding undo_to
  undo x = undo_to x x.stack
