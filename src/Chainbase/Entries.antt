-- ===== src/Chainbase/Entries.antt =====
-- What an undo state says of one id, and how on_modify, on_remove and on_create change it.
use xgt.Base.{
  ◌⊎◌, refl, subst, sym, ==_iff, ℕ, ◌≡◌, Bool, true, false, ◌==◌, Option, none, some, arith,
  if◌then◌else◌, is_some, or_else, Option-cases, inl, inr, has_id, has_id-insert_id,
  has_id-erase_id, find, find-emplace, find-erase,
}
use xgt.Chainbase.{UndoState, on_modify, on_remove, on_create}

-- Whether the object is new, its old value, and its removed value.
pub record Entry (V : Type 0) : Type 0 where
  pub fresh : Bool
  pub old : Option V
  pub removed : Option V

module _ {V : Type 0} where
  abbrev pub entry : ℕ → UndoState V → Entry V
  entry i s = record {
    fresh = has_id i s.new_ids;
    old = find i s.old_values;
    removed = find i s.removed_values;
  }

  -- `e` is what a session notes of an object that was `b` at its start and is `t` now.
  abbrev pub TracksOf : Option V → Option V → Bool → Option V → Option V → Type 0
  TracksOf b t true none none = (b ≡ none) × (is_some t ≡ true)
  TracksOf b t false (some x) none = (b ≡ some x) × (is_some t ≡ true)
  TracksOf b t false none (some x) = (b ≡ some x) × (t ≡ none)
  TracksOf b t false none none = b ≡ t
  TracksOf b t _ _ _ = ⊥

  abbrev pub Tracks : Option V → Option V → Entry V → Type 0
  Tracks b t e = TracksOf b t e.fresh e.old e.removed

  abbrev pub modified : V → Entry V → Entry V
  modified v e = if e.fresh then e else if is_some e.old then e else record e { old = some v }

  abbrev pub dropped : V → Entry V → Entry V
  dropped v e = if e.fresh then record e { fresh = false } else elim e.old [
    | some was ↦ record e { removed = or_else e.removed (some was); old = none }
    | none ↦ record e { removed = or_else e.removed (some v) }
  ]

  abbrev pub created : Entry V → Entry V
  created e = record e { fresh = true }

  pub entry-on_modify :
      (i k : ℕ) (v : V) (s : UndoState V)
      → entry i (on_modify k v s) ≡ (if i == k then modified v (entry i s) else entry i s)
  unfolding on_modify
  entry-on_modify i k v s = ground (arith, find-emplace i k v s.old_values)

  pub entry-on_remove :
      (i k : ℕ) (v : V) (s : UndoState V)
      → entry i (on_remove k v s) ≡ (if i == k then dropped v (entry i s) else entry i s)
  unfolding on_remove
  entry-on_remove i k v s = elim (Option-cases (find k s.old_values)) [
    | inl e ↦ ground (arith, has_id-erase_id i k s.new_ids, find-emplace i k v s.removed_values)
    | inr (was, e) ↦ ground (
      arith,
      has_id-erase_id i k s.new_ids,
      find-erase i k s.old_values,
      find-emplace i k was s.removed_values,
    )
  ]

  pub entry-on_create :
      (i k : ℕ) (s : UndoState V)
      → entry i (on_create k s) ≡ (if i == k then created (entry i s) else entry i s)
  unfolding on_create
  entry-on_create i k s = ground (arith, has_id-insert_id i k s.new_ids)

  -- The fields that no note touches.
  abbrev pub Keeps : UndoState V → UndoState V → Type 0
  Keeps s u = (u.old_next_id ≡ s.old_next_id) × (u.revision ≡ s.revision)

  pub on_modify-Keeps : (k : ℕ) (v : V) (s : UndoState V) → Keeps s (on_modify k v s)
  unfolding on_modify
  on_modify-Keeps k v s = ground arith

  pub on_remove-Keeps : (k : ℕ) (v : V) (s : UndoState V) → Keeps s (on_remove k v s)
  unfolding on_remove
  on_remove-Keeps k v s = ground arith

  pub on_create-Keeps : (k : ℕ) (s : UndoState V) → Keeps s (on_create k s)
  unfolding on_create
  on_create-Keeps k s = ground arith

  Tracks-if :
      (c : Bool) (b o o' : Option V) (e e' : Entry V)
      → (c ≡ true → Tracks b o e)
      → (c ≡ false → Tracks b o' e')
      → Tracks b (if c then o else o') (if c then e else e')
  Tracks-if true b o o' e e' h k = h refl
  Tracks-if false b o o' e e' h k = k refl

  pub on_modify-Tracks :
      (i k : ℕ) (v w : V) (b t : Option V) (s : UndoState V)
      → Tracks b t (entry i s)
      → (i ≡ k → t ≡ some v)
      → Tracks b (if i == k then some w else t) (entry i (on_modify k v s))
  on_modify-Tracks i k v w b t s h e =
      subst (Tracks b (if i == k then some w else t)) (sym (entry-on_modify i k v s)) (
        Tracks-if (i == k) b (some w) t (modified v (entry i s)) (entry i s)
          (λ c. ground (arith, e, ==_iff i k)) (λ c. h))

  pub on_remove-Tracks :
      (i k : ℕ) (v : V) (b t : Option V) (s : UndoState V)
      → Tracks b t (entry i s)
      → (i ≡ k → t ≡ some v)
      → Tracks b (if i == k then none else t) (entry i (on_remove k v s))
  on_remove-Tracks i k v b t s h e =
      subst (Tracks b (if i == k then none else t)) (sym (entry-on_remove i k v s)) (
        Tracks-if (i == k) b none t (dropped v (entry i s)) (entry i s)
          (λ c. ground (arith, e, ==_iff i k)) (λ c. h))

  pub on_create-Tracks :
      (i k : ℕ) (w : V) (b t : Option V) (s : UndoState V)
      → Tracks b t (entry i s)
      → (i ≡ k → (b ≡ none) × (t ≡ none))
      → Tracks b (if i == k then some w else t) (entry i (on_create k s))
  on_create-Tracks i k w b t s h e =
      subst (Tracks b (if i == k then some w else t)) (sym (entry-on_create i k s)) (
        Tracks-if (i == k) b (some w) t (created (entry i s)) (entry i s)
          (λ c. ground (arith, e, ==_iff i k)) (λ c. h))

  -- Only a creation adds to the new ids.
  pub on_modify-fresh :
      (i k : ℕ) (v : V) (s : UndoState V)
      → has_id i (on_modify k v s).new_ids ≡ true
      → has_id i s.new_ids ≡ true
  unfolding on_modify
  on_modify-fresh i k v s h = ground arith

  pub on_remove-fresh :
      (i k : ℕ) (v : V) (s : UndoState V)
      → has_id i (on_remove k v s).new_ids ≡ true
      → has_id i s.new_ids ≡ true
  unfolding on_remove
  on_remove-fresh i k v s h = ground (arith, has_id-erase_id i k s.new_ids)

  pub on_create-fresh :
      (i k : ℕ) (s : UndoState V)
      → has_id i (on_create k s).new_ids ≡ true
      → (i ≡ k) ⊎ (has_id i s.new_ids ≡ true)
  unfolding on_create
  on_create-fresh i k s h = ground (arith, has_id-insert_id i k s.new_ids, ==_iff i k)
