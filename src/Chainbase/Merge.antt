-- ===== src/Chainbase/Merge.antt =====
-- The loops of `squash`, seen at one id: the matrix in the source's comment.
use xgt.Base.{
  emplace, is_some, ◌⊎◌, ℕ, ◌≡◌, refl, ap, ◌∙◌, Bool, true, ◌||◌, ◌==◌, Option, none, some, List,
  [], ◌∷◌, arith, if◌then◌else◌, or_else, Option-cases, inl, inr, has_id, has_id-insert_id,
  has_id-erase_id, Map, find, find-emplace, find-erase, Distinct, emplace-Distinct, erase-Distinct,
}
use xgt.Chainbase.{
  UndoState, on_modify, on_remove, on_create, merge_old, merge_new, merge_one_removed,
  merge_removed, merge,
}
use xgt.Chainbase.Entries.{Entry, entry, Tracks, dropped, Keeps}

module _ {V : Type 0} where
  abbrev with_old : Option V → Entry V → Entry V
  with_old o e = if e.fresh then e else record e { old = or_else e.old o }

  abbrev with_fresh : Bool → Entry V → Entry V
  with_fresh b e = record e { fresh = b || e.fresh }

  abbrev with_removed : Option V → Entry V → Entry V
  with_removed none e = e
  with_removed (some v) e = dropped v e

  -- The entry of the merged state, from those of the newer and the older one.
  abbrev pub merged : Entry V → Entry V → Entry V
  merged new prev = with_removed new.removed (with_fresh new.fresh (with_old new.old prev))

  merge_old-entry :
      (i : ℕ) (m : Map V) (s : UndoState V)
      → entry i (merge_old m s) ≡ with_old (find i m) (entry i s)
  unfolding merge_old find
  merge_old-entry i [] s = ground arith
  merge_old-entry i ((k, v) ∷ m) s =
      merge_old-entry i m _ ∙ ground (arith, find-emplace i k v s.old_values)

  merge_new-entry :
      (i : ℕ) (is : List ℕ) (s : UndoState V)
      → entry i (merge_new is s) ≡ with_fresh (has_id i is) (entry i s)
  unfolding merge_new
  merge_new-entry i [] s = refl
  merge_new-entry i (k ∷ is) s =
      merge_new-entry i is _ ∙ ground (arith, has_id-insert_id i k s.new_ids)

  merge_one_removed-entry :
      (i k : ℕ) (v : V) (s : UndoState V)
      → entry i (merge_one_removed k v s) ≡ (if i == k then dropped v (entry i s) else entry i s)
  unfolding merge_one_removed
  merge_one_removed-entry i k v s = elim (Option-cases (find k s.old_values)) [
    | inl e ↦ ground (arith, has_id-erase_id i k s.new_ids, find-emplace i k v s.removed_values)
    | inr (was, e) ↦ ground (
      arith,
      has_id-erase_id i k s.new_ids,
      find-erase i k s.old_values,
      find-emplace i k was s.removed_values,
    )
  ]

  merge_removed-entry :
      (i : ℕ) (m : Map V) (s : UndoState V)
      → Distinct m
      → entry i (merge_removed m s) ≡ with_removed (find i m) (entry i s)
  unfolding merge_removed find
  merge_removed-entry i [] s d = refl
  merge_removed-entry i ((k, v) ∷ m) s d =
      merge_removed-entry i m _ d.1 ∙ ground (arith, merge_one_removed-entry i k v s)

  pub merge-entry :
      (i : ℕ) (s prev : UndoState V)
      → Distinct s.removed_values
      → entry i (merge s prev) ≡ merged (entry i s) (entry i prev)
  unfolding merge
  merge-entry i s prev d =
      merge_removed-entry i s.removed_values _ d
      ∙ ap (with_removed (find i s.removed_values)) (
          merge_new-entry i s.new_ids _
          ∙ ap (with_fresh (has_id i s.new_ids)) (merge_old-entry i s.old_values prev))

  -- Two sessions in a row make one, as the matrix says; an id is never given out again.
  pub merged-Tracks :
      (b m t : Option V) (new prev : Entry V)
      → Tracks b m prev
      → Tracks m t new
      → (new.fresh ≡ true → b ≡ none)
      → Tracks b t (merged new prev)
  merged-Tracks b m t new prev h k f = ground arith

  pub merge-fresh :
      (i : ℕ) (s prev : UndoState V)
      → Distinct s.removed_values
      → has_id i (merge s prev).new_ids ≡ true
      → (has_id i s.new_ids ≡ true) ⊎ (has_id i prev.new_ids ≡ true)
  merge-fresh i s prev d h = ground (arith, ap (λ (e : Entry V). e.fresh) (merge-entry i s prev d))

  -- No id stands twice in a container of an undo state.
  pub record IsProper (s : UndoState V) : Type 0 where
    pub old_once : Distinct s.old_values
    pub removed_once : Distinct s.removed_values

  pub on_modify-IsProper :
      (k : ℕ) (v : V) (s : UndoState V) → IsProper s → IsProper (on_modify k v s)
  unfolding on_modify
  on_modify-IsProper k v s p = ground (arith, emplace-Distinct k v s.old_values)

  pub on_remove-IsProper :
      (k : ℕ) (v : V) (s : UndoState V) → IsProper s → IsProper (on_remove k v s)
  unfolding on_remove
  on_remove-IsProper k v s p = elim (Option-cases (find k s.old_values)) [
    | inl e ↦ ground (arith, emplace-Distinct k v s.removed_values)
    | inr (was, e) ↦
        ground (arith, emplace-Distinct k was s.removed_values, erase-Distinct k s.old_values)
  ]

  pub on_create-IsProper : (k : ℕ) (s : UndoState V) → IsProper s → IsProper (on_create k s)
  unfolding on_create
  on_create-IsProper k s p = record { old_once = p.old_once; removed_once = p.removed_once }

  merge_old-IsProper : (m : Map V) (s : UndoState V) → IsProper s → IsProper (merge_old m s)
  unfolding merge_old
  merge_old-IsProper [] s p = p
  merge_old-IsProper ((k, v) ∷ m) s p =
      merge_old-IsProper m _ (ground (arith, emplace-Distinct k v s.old_values))

  merge_new-IsProper : (is : List ℕ) (s : UndoState V) → IsProper s → IsProper (merge_new is s)
  unfolding merge_new
  merge_new-IsProper [] s p = p
  merge_new-IsProper (k ∷ is) s p =
      merge_new-IsProper is _ (record { old_once = p.old_once; removed_once = p.removed_once })

  merge_one_removed-IsProper :
      (k : ℕ) (v : V) (s : UndoState V) → IsProper s → IsProper (merge_one_removed k v s)
  unfolding merge_one_removed
  merge_one_removed-IsProper k v s p = elim (Option-cases (find k s.old_values)) [
    | inl e ↦ ground (arith, emplace-Distinct k v s.removed_values)
    | inr (was, e) ↦
        ground (arith, emplace-Distinct k was s.removed_values, erase-Distinct k s.old_values)
  ]

  merge_removed-IsProper : (m : Map V) (s : UndoState V) → IsProper s → IsProper (merge_removed m s)
  unfolding merge_removed
  merge_removed-IsProper [] s p = p
  merge_removed-IsProper ((k, v) ∷ m) s p =
      merge_removed-IsProper m _ (merge_one_removed-IsProper k v s p)

  pub merge-IsProper : (s prev : UndoState V) → IsProper prev → IsProper (merge s prev)
  unfolding merge
  merge-IsProper s prev p =
      merge_removed-IsProper s.removed_values _
        (merge_new-IsProper s.new_ids _ (merge_old-IsProper s.old_values prev p))

  merge_old-Keeps : (m : Map V) (s : UndoState V) → Keeps s (merge_old m s)
  unfolding merge_old
  merge_old-Keeps [] s = (refl, refl)
  merge_old-Keeps ((k, v) ∷ m) s = ground (
    arith,
    merge_old-Keeps m (
        if has_id k s.new_ids
        then s
        else if is_some (find k s.old_values)
        then s
        else record s { old_values = emplace k v s.old_values }),
  )

  merge_new-Keeps : (is : List ℕ) (s : UndoState V) → Keeps s (merge_new is s)
  unfolding merge_new
  merge_new-Keeps [] s = (refl, refl)
  merge_new-Keeps (k ∷ is) s = merge_new-Keeps is _

  merge_one_removed-Keeps : (k : ℕ) (v : V) (s : UndoState V) → Keeps s (merge_one_removed k v s)
  unfolding merge_one_removed
  merge_one_removed-Keeps k v s = ground arith

  merge_removed-Keeps : (m : Map V) (s : UndoState V) → Keeps s (merge_removed m s)
  unfolding merge_removed
  merge_removed-Keeps [] s = (refl, refl)
  merge_removed-Keeps ((k, v) ∷ m) s =
      ground (arith, merge_removed-Keeps m (merge_one_removed k v s), merge_one_removed-Keeps k v s)

  pub merge-Keeps : (s prev : UndoState V) → Keeps prev (merge s prev)
  unfolding merge
  merge-Keeps s prev =
      let older = merge_old s.old_values prev in
      ground (
        arith,
        merge_old-Keeps s.old_values prev,
        merge_new-Keeps s.new_ids older,
        merge_removed-Keeps s.removed_values (merge_new s.new_ids older),
      )
