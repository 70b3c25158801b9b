-- ===== src/Chainbase/Clash.antt =====
-- `undo` puts old values back before it erases the new objects, one by one.
use xgt.Base.{
  ℕ, suc, ◌≡◌, ◌≢◌, refl, Bool, true, false, none, some, [], ◌∷◌, arith, is_some, Option-cases, inl,
  inr, find, insert, Map, emplace,
}
use xgt.Chainbase.{
  UndoState, Index, create, modify, start_undo_session, undo, unique, put_new, put_old, put_back,
  restore, restore_old, undo_to, on_modify, on_create, on_head,
}
use xgt.Chainbase.Restore.{find-put_new, find-put_old}

module _ {V : Type 0} (clash : V → V → Bool) where
  unique-false :
      (i j : ℕ) (v w : V) (t : Map V)
      → i ≢ j
      → find j t ≡ some w
      → clash v w ≡ true
      → unique clash i v t ≡ false
  unfolding unique find
  unique-false i j v w [] h e c = absurd (ground arith)
  unique-false i j v w ((k, u) ∷ t) h e c = ground (arith, unique-false i j v w t)

  restore_clash :
      (k : ℕ) (v : V) (h : UndoState V) (t : Map V)
      → h.old_values ≡ (k, v) ∷ []
      → is_some (find k t) ≡ true
      → unique clash k v t ≡ false
      → restore clash h t ≡ none
  unfolding restore restore_old put_back put_old
  restore_clash k v h t e f g = rw e (ground arith)

  -- An object gives up a unique key in a session, and an object that is created later in the
  -- session takes it: then `undo` throws, whatever else the index holds.
  pub undo_throws :
      (m : V → V) (k : ℕ) (v u : V) (x y : Index V) (z : Index V × ℕ)
      → find k x.indices ≡ some v
      → clash v u ≡ true
      → modify clash k m (start_undo_session x) ≡ some y
      → create clash u y ≡ some z
      → undo clash z.0 ≡ none
  unfolding undo create modify start_undo_session on_modify on_create on_head undo_to find emplace
      insert
  undo_throws m k v u x y z e c f g = elim (Option-cases (put_old clash k (m v) x.indices)) [
    | inl p ↦ absurd (ground arith)
    | inr (t, p) ↦ elim (Option-cases (put_new clash x.next_id u t)) [
      | inl q ↦ absurd (ground arith)
      | inr (t', q) ↦
          let apart : k ≢ x.next_id = λ same. ground (
            arith,
            find-put_old clash k k (m v) x.indices t p,
            find-put_new clash k x.next_id u t t' q,
          ) in
          let there : is_some (find k t') ≡ true = ground (
            arith,
            find-put_old clash k k (m v) x.indices t p,
            find-put_new clash k x.next_id u t t' q,
          ) in
          let taken : find x.next_id t' ≡ some u =
            ground (arith, find-put_new clash x.next_id x.next_id u t t' q) in
          ground (
            arith,
            restore_clash k v
                (record {
                  old_values = (k, v) ∷ [];
                  removed_values = [];
                  new_ids = x.next_id ∷ [];
                  old_next_id = x.next_id;
                  revision = suc x.revision;
                })
                t' refl there (unique-false k x.next_id v u t' apart taken c),
          )
    ]
  ]
