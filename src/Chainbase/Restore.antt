-- ===== src/Chainbase/Restore.antt =====
-- The loops of `undo`: what the container holds after them, and that they do not fail where no
-- unique key but the id can clash.
use xgt.Base.{
  ℕ, ◌≡◌, refl, ◌∙◌, Bool, true, false, ◌==◌, Option, none, some, List, [], ◌∷◌, arith,
  if◌then◌else◌, is_some, or_else, Option-cases, inl, inr, has_id, Map, find, insert, find-insert,
  find-assign, find-erase, Distinct,
}
use xgt.Chainbase.{
  UndoState, erase_ids, unique, put_new, put_back, put_old, restore_old, restore_removed, restore,
}
use xgt.Chainbase.Entries.{Entry, entry, Tracks}

module _ {V : Type 0} where
  -- What stands at an id after `undo`, by its entry and by what stands there before.
  abbrev restored : Entry V → Option V → Option V
  restored e t = or_else (if e.fresh then none else or_else e.old t) e.removed

  pub restored-Tracks : (b t : Option V) (e : Entry V) → Tracks b t e → restored e t ≡ b
  restored-Tracks b t e h = ground arith

  find-erase_ids :
      (i : ℕ) (is : List ℕ) (t : Map V)
      → find i (erase_ids is t) ≡ (if has_id i is then none else find i t)
  unfolding erase_ids
  find-erase_ids i [] t = refl
  find-erase_ids i (k ∷ is) t = find-erase_ids i is _ ∙ ground (arith, find-erase i k t)

module _ {V : Type 0} (clash : V → V → Bool) where
  pub find-put_new :
      (i k : ℕ) (v : V) (t u : Map V)
      → put_new clash k v t ≡ some u
      → (find k t ≡ none) × (find i u ≡ (if i == k then some v else find i t))
  unfolding put_new
  find-put_new i k v t u h = ground (arith, find-insert i k v t)

  pub find-put_old :
      (i k : ℕ) (v : V) (t u : Map V)
      → put_old clash k v t ≡ some u
      → find i u ≡ (if i == k then (if is_some (find i t) then some v else none) else find i t)
  unfolding put_old
  find-put_old i k v t u h = ground (arith, find-assign i k v t)

  find-put_back :
      (i k : ℕ) (v : V) (t u : Map V)
      → put_back clash k v t ≡ some u
      → find i u ≡ (if i == k then some v else find i t)
  unfolding put_back
  find-put_back i k v t u h = ground (arith, find-put_old i k v t u, find-put_new i k v t u)

  restore_old-find :
      (i : ℕ) (m t u : Map V)
      → Distinct m
      → restore_old clash m t ≡ some u
      → find i u ≡ or_else (find i m) (find i t)
  unfolding restore_old find
  restore_old-find i [] t u d h = ground arith
  restore_old-find i ((k, v) ∷ m) t u d h = elim (Option-cases (put_back clash k v t)) [
    | inl e ↦ cc (rw (e, restore_old) at h)
    | inr (t', e) ↦ ground (arith, find-put_back i k v t t', restore_old-find i m t' u d.1)
  ]

  restore_removed-find :
      (i : ℕ) (m t u : Map V)
      → restore_removed clash m t ≡ some u
      → find i u ≡ or_else (find i t) (find i m)
  unfolding restore_removed find
  restore_removed-find i [] t u h = ground arith
  restore_removed-find i ((k, v) ∷ m) t u h = elim (Option-cases (put_new clash k v t)) [
    | inl e ↦ ground arith
    | inr (t', e) ↦ ground (arith, find-put_new i k v t t', restore_removed-find i m t' u)
  ]

  -- If the loops of `undo` come through, each id holds what its entry says.
  pub restore-find :
      (i : ℕ) (s : UndoState V) (t u : Map V)
      → Distinct s.old_values
      → restore clash s t ≡ some u
      → find i u ≡ restored (entry i s) (find i t)
  unfolding restore
  restore-find i s t u d h = elim (Option-cases (restore_old clash s.old_values t)) [
    | inl e ↦ ground arith
    | inr (t', e) ↦ ground (
      arith,
      restore_old-find i s.old_values t t' d,
      find-erase_ids i s.new_ids t',
      restore_removed-find i s.removed_values (erase_ids s.new_ids t') u,
    )
  ]

  module _ (free : (v w : V) → clash v w ≡ false) where
    pub unique_free : (i : ℕ) (v : V) (t : Map V) → unique clash i v t ≡ true
    unfolding unique
    unique_free i v [] = refl
    unique_free i v ((j, w) ∷ t) = ground (arith, free v w, unique_free i v t)

    put_back_total : (k : ℕ) (v : V) (t : Map V) → is_some (put_back clash k v t) ≡ true
    unfolding put_back
    put_back_total k v t = ground (arith, unique_free k v t)

    restore_old_total : (m t : Map V) → is_some (restore_old clash m t) ≡ true
    unfolding restore_old
    restore_old_total [] t = refl
    restore_old_total ((k, v) ∷ m) t = elim (Option-cases (put_back clash k v t)) [
      | inl e ↦ ground (arith, put_back_total k v t)
      | inr (t', e) ↦ ground (arith, restore_old_total m t')
    ]

    pub put_new_total :
        (k : ℕ) (v : V) (t : Map V) → find k t ≡ none → put_new clash k v t ≡ some (insert k v t)
    unfolding put_new
    put_new_total k v t h = ground (arith, unique_free k v t)

    restore_removed_total :
        (m t : Map V)
        → Distinct m
        → ((i : ℕ) → is_some (find i m) ≡ true → find i t ≡ none)
        → is_some (restore_removed clash m t) ≡ true
    unfolding restore_removed find
    restore_removed_total [] t d h = refl
    restore_removed_total ((k, v) ∷ m) t d h =
        let e : find k t ≡ none = h k (ground arith) in
        rw (put_new_total k v t e) (
          restore_removed_total m (insert k v t) d.1
            (λ i g. ground (arith, h i, find-insert i k v t e)))

    -- Where only ids are unique, `undo` does not throw.
    pub restore_total :
        (s : UndoState V) (t : Map V) (base : ℕ → Option V)
        → Distinct s.old_values
        → Distinct s.removed_values
        → ((i : ℕ) → Tracks (base i) (find i t) (entry i s))
        → is_some (restore clash s t) ≡ true
    unfolding restore
    restore_total s t base d d' h = elim (Option-cases (restore_old clash s.old_values t)) [
      | inl e ↦ ground (arith, restore_old_total s.old_values t)
      | inr (t', e) ↦
          rw (e, restore)
            (restore_removed_total s.removed_values (erase_ids s.new_ids t') d' (λ i g. ground (
              arith,
              h i,
              restore_old-find i s.old_values t t' d e,
              find-erase_ids i s.new_ids t',
            )))
    ]
