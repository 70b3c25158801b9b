-- ===== src/Chainbase/Refinement.antt =====
-- An index against a stack of snapshots: each session saves the whole table, `undo` puts the last
-- one back, `squash` forgets it, and `commit` forgets the oldest ones.
use xgt.Base.{
  ℕ, zero, suc, ◌+◌, ◌≡◌, sym, ap, ◌∙◌, Bool, none, some, List, [], ◌∷◌, arith, Option-cases, inl,
  inr, find, erase, Map, subst, ==_iff, find-erase,
}
use xgt.Chainbase.{
  UndoState, Index, on_head, on_modify, on_remove, on_create, create, modify, remove, put_new,
  put_old,
}
use xgt.Chainbase.Spec.{Saved, Spec, update, spec_create, with_table, IsFresh}
use xgt.Chainbase.Entries.{on_modify-Keeps, on_remove-Keeps, on_create-Keeps}
use xgt.Chainbase.Restore.{find-put_new, find-put_old}
use xgt.Chainbase.Covers.{Covers, Covers-create, Covers-modify, Covers-remove}

module _ {V : Type 0} where
  abbrev pub Chain : Saved V → List (Saved V) → List (UndoState V) → Type 0
  Chain t [] [] = Unit
  Chain t (p ∷ ps) (s ∷ ss) = Covers p t s × Chain p ps ss
  Chain t _ _ = ⊥

  abbrev pub Consecutive : ℕ → List (UndoState V) → Type 0
  Consecutive r [] = Unit
  Consecutive zero (s ∷ ss) = ⊥
  Consecutive (suc r) (s ∷ ss) = (s.revision ≡ suc r) × Consecutive r ss

  pub record Represents (x : Index V) (s : Spec V) : Type 0 where
    pub content : (i : ℕ) → find i x.indices ≡ s.current.table i
    pub next_same : x.next_id ≡ s.current.next
    pub revision_same : x.revision ≡ s.revision
    pub unused : IsFresh s.current
    pub consecutive : Consecutive x.revision x.stack
    pub chain : Chain s.current s.past x.stack

  Chain-on_head :
      (f : UndoState V → UndoState V) (t u : Saved V) (ps : List (Saved V))
      (ss : List (UndoState V))
      → ((p : Saved V) (s : UndoState V) → Covers p t s → Covers p u (f s))
      → Chain t ps ss
      → Chain u ps (on_head f ss)
  unfolding on_head
  Chain-on_head f t u [] [] h c = tt
  Chain-on_head f t u (p ∷ ps) (s ∷ ss) h c = (h p s c.0, c.1)
  Chain-on_head f t u [] (s ∷ ss) h c = c
  Chain-on_head f t u (p ∷ ps) [] h c = c

  Consecutive-on_head :
      (f : UndoState V → UndoState V) (r : ℕ) (ss : List (UndoState V))
      → ((s : UndoState V) → (f s).revision ≡ s.revision)
      → Consecutive r ss
      → Consecutive r (on_head f ss)
  unfolding on_head
  Consecutive-on_head f r [] h c = tt
  Consecutive-on_head f zero (s ∷ ss) h c = c
  Consecutive-on_head f (suc r) (s ∷ ss) h c = (h s ∙ c.0, c.1)

  -- A change of the table that the newest session notes by `f`.
  change-Represents :
      (f : UndoState V → UndoState V) (n : ℕ) (t : Map V) (u : Saved V) (x : Index V) (s : Spec V)
      → Represents x s
      → ((i : ℕ) → find i t ≡ u.table i)
      → n ≡ u.next
      → IsFresh u
      → ((h : UndoState V) → (f h).revision ≡ h.revision)
      → ((p : Saved V) (h : UndoState V) → Covers p s.current h → Covers p u (f h))
      → Represents
          (record x { indices = t; next_id = n; stack = on_head f x.stack })
          (record s { current = u })
  change-Represents f n t u x s r c e fresh keep cover = record {
    content = c;
    next_same = e;
    revision_same = r.revision_same;
    unused = fresh;
    consecutive = Consecutive-on_head f x.revision x.stack keep r.consecutive;
    chain = Chain-on_head f s.current u s.past x.stack cover r.chain;
  }

module _ {V : Type 0} (clash : V → V → Bool) where
  -- A new object gets the next id, in every representation.
  pub create-Represents :
      (v : V) (x : Index V) (s : Spec V) (y : Index V × ℕ)
      → Represents x s
      → create clash v x ≡ some y
      → Represents y.0 (spec_create v s) × (y.1 ≡ s.current.next)
  unfolding create
  create-Represents v x s y r h = elim (Option-cases (put_new clash x.next_id v x.indices)) [
    | inl e ↦ absurd (ground arith)
    | inr (t, e) ↦
        subst (λ (z : Index V × ℕ). Represents z.0 (spec_create v s) × (z.1 ≡ s.current.next))
          (ground arith)
          (
            change-Represents (on_create x.next_id) (x.next_id + 1) t (spec_create v s).current x s
                r (λ i. ground (arith, find-put_new clash i x.next_id v x.indices t e, r.content i))
                (ap (λ (n : ℕ). n + 1) r.next_same) (λ i g. ground (arith, r.unused i))
                (λ p. (on_create-Keeps x.next_id p).1)
                (λ p q c.
                  subst (λ (n : ℕ). Covers p (spec_create v s).current (on_create n q))
                    (sym r.next_same) (Covers-create v p s.current q r.unused c)),
            r.next_same,
          )
  ]

  pub modify-Represents :
      (k : ℕ) (m : V → V) (v : V) (x y : Index V) (s : Spec V)
      → Represents x s
      → s.current.table k ≡ some v
      → modify clash k m x ≡ some y
      → Represents y (with_table (update k (some (m v)) s.current.table) s)
  unfolding modify
  modify-Represents k m v x y s r e h = elim (Option-cases (put_old clash k (m v) x.indices)) [
    | inl q ↦ absurd (ground (arith, r.content k))
    | inr (t, q) ↦
        subst (λ z. Represents z (with_table (update k (some (m v)) s.current.table) s))
          (ground (arith, r.content k))
          (change-Represents (on_modify k v) x.next_id t _ x s r
            (λ i.
              ground (arith, find-put_old clash i k (m v) x.indices t q, r.content i, ==_iff i k))
            r.next_same (λ i g. ground (arith, r.unused i, ==_iff i k))
            (λ p. (on_modify-Keeps k v p).1) (λ p u c. Covers-modify k v (m v) p s.current u e c))
  ]

  pub remove-Represents :
      (k : ℕ) (v : V) (x y : Index V) (s : Spec V)
      → Represents x s
      → s.current.table k ≡ some v
      → remove clash k x ≡ some y
      → Represents y (with_table (update k none s.current.table) s)
  unfolding remove
  remove-Represents k v x y s r e h =
      subst (λ z. Represents z (with_table (update k none s.current.table) s))
        (ground (arith, r.content k))
        (change-Represents (on_remove k v) x.next_id (erase k x.indices) _ x s r
          (λ i. ground (arith, find-erase i k x.indices, r.content i)) r.next_same
          (λ i g. ground (arith, r.unused i)) (λ p. (on_remove-Keeps k v p).1)
          (λ p u c. Covers-remove k v p s.current u e c))
