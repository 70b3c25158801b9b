-- ===== src/Chainbase/Covers.antt =====
-- What the undo state of one session knows, and that each operation keeps it right.
use xgt.Base.{
  ℕ, ◌+◌, ◌≤◌, ◌≡◌, refl, sym, ◌∙◌, subst, has_id, ◌⊎◌, inl, inr, true, none, some, [], arith, find,
}
use xgt.Chainbase.{UndoState, on_modify, on_remove, on_create, merge}
use xgt.Chainbase.Spec.{Saved, update, IsFresh}
use xgt.Chainbase.Entries.{
  entry, Tracks, on_modify-Tracks, on_remove-Tracks, on_create-Tracks, on_modify-Keeps,
  on_remove-Keeps, on_create-Keeps, on_modify-fresh, on_remove-fresh, on_create-fresh,
}
use xgt.Chainbase.Merge.{
  IsProper, on_modify-IsProper, on_remove-IsProper, on_create-IsProper, merge-IsProper, merge-entry,
  merged-Tracks, merge-Keeps, merge-fresh,
}

module _ {V : Type 0} where
  -- `s` notes all changes since `p`.
  pub record Covers (p t : Saved V) (s : UndoState V) : Type 0 where
    pub proper : IsProper s
    pub notes : (i : ℕ) → Tracks (p.table i) (t.table i) (entry i s)
    pub starts : s.old_next_id ≡ p.next
    pub grows : p.next ≤ t.next
    pub unused : IsFresh p
    pub late : (i : ℕ) → has_id i s.new_ids ≡ true → p.next ≤ i

  pub Covers-create :
      (v : V) (p t : Saved V) (s : UndoState V)
      → IsFresh t
      → Covers p t s
      → Covers p
          (record { table = update t.next (some v) t.table; next = t.next + 1 })
          (on_create t.next s)
  Covers-create v p t s f c = record {
    proper = on_create-IsProper t.next s c.proper;
    notes = λ i.
        on_create-Tracks i t.next v (p.table i) (t.table i) s (c.notes i)
          (λ e. (c.unused i (omega (arith, c.grows)), f i (omega arith)));
    starts = (on_create-Keeps t.next s).0 ∙ c.starts;
    grows = omega (arith, c.grows);
    unused = c.unused;
    late = λ i h. late i (on_create-fresh i t.next s h);
  }
    where
      late : (i : ℕ) → (i ≡ t.next) ⊎ (has_id i s.new_ids ≡ true) → p.next ≤ i
      late i (inl e) = omega (arith, c.grows)
      late i (inr h) = c.late i h

  pub Covers-modify :
      (k : ℕ) (v w : V) (p t : Saved V) (s : UndoState V)
      → t.table k ≡ some v
      → Covers p t s
      → Covers p (record { table = update k (some w) t.table; next = t.next }) (on_modify k v s)
  Covers-modify k v w p t s e c = record {
    proper = on_modify-IsProper k v s c.proper;
    notes = λ i. on_modify-Tracks i k v w (p.table i) (t.table i) s (c.notes i) (λ q. rw q e);
    starts = (on_modify-Keeps k v s).0 ∙ c.starts;
    grows = c.grows;
    unused = c.unused;
    late = λ i h. c.late i (on_modify-fresh i k v s h);
  }

  pub Covers-remove :
      (k : ℕ) (v : V) (p t : Saved V) (s : UndoState V)
      → t.table k ≡ some v
      → Covers p t s
      → Covers p (record { table = update k none t.table; next = t.next }) (on_remove k v s)
  Covers-remove k v p t s e c = record {
    proper = on_remove-IsProper k v s c.proper;
    notes = λ i. on_remove-Tracks i k v (p.table i) (t.table i) s (c.notes i) (λ q. rw q e);
    starts = (on_remove-Keeps k v s).0 ∙ c.starts;
    grows = c.grows;
    unused = c.unused;
    late = λ i h. c.late i (on_remove-fresh i k v s h);
  }

  pub Covers-start :
      (t : Saved V) (r : ℕ)
      → IsFresh t
      → Covers t t (record {
        old_values = [];
        removed_values = [];
        new_ids = [];
        old_next_id = t.next;
        revision = r;
      })
  unfolding find
  Covers-start t r f = record {
    proper = record { old_once = tt; removed_once = tt };
    notes = λ i. refl;
    starts = refl;
    grows = omega arith;
    unused = f;
    late = λ i h. absurd (ground arith);
  }

  -- Two sessions in a row, squashed.
  pub Covers-merge :
      (p q t : Saved V) (s prev : UndoState V)
      → Covers p q prev
      → Covers q t s
      → Covers p t (merge s prev)
  Covers-merge p q t s prev c d = record {
    proper = merge-IsProper s prev c.proper;
    notes = λ i.
        subst (Tracks (p.table i) (t.table i)) (sym (merge-entry i s prev d.proper.removed_once)) (
          merged-Tracks (p.table i) (q.table i) (t.table i) (entry i s) (entry i prev) (c.notes i)
            (d.notes i) (λ h. c.unused i (omega (arith, c.grows, d.late i h))));
    starts = (merge-Keeps s prev).0 ∙ c.starts;
    grows = omega (arith, c.grows, d.grows);
    unused = c.unused;
    late = λ i h. late i (merge-fresh i s prev d.proper.removed_once h);
  }
    where
      late : (i : ℕ) → (has_id i s.new_ids ≡ true) ⊎ (has_id i prev.new_ids ≡ true) → p.next ≤ i
      late i (inl h) = omega (arith, c.grows, d.late i h)
      late i (inr h) = c.late i h
