-- ===== src/Chainbase/Undo.antt =====
-- `undo` of one session against the last snapshot.

use xgt.Base.{
  ℕ, zero, suc, ◌-◌, ◌≡◌, refl, sym, ap, ◌∙◌, Bool, true, false, Option, some, List, [], ◌∷◌, arith,
  is_some, Option-cases, inl, inr, find, subst,
}
use xgt.Chainbase.{UndoState, Index, undo_to, undo, restore}
use xgt.Chainbase.Entries.{Tracks, entry}
use xgt.Chainbase.Spec.{Saved, Spec, spec_undo_to, spec_undo}
use xgt.Chainbase.Restore.{restored-Tracks, restore-find, restore_total}
use xgt.Chainbase.Covers.{Covers}
use xgt.Chainbase.Refinement.{Represents, Chain, Consecutive}

module _ {V : Type 0} where
  Consecutive-tail :
      (r : ℕ) (h : UndoState V) (ss : List (UndoState V))
      → Consecutive r (h ∷ ss)
      → Consecutive (r - 1) ss
  Consecutive-tail zero h ss c = absurd c
  Consecutive-tail (suc r) h ss c = subst (λ (n : ℕ). Consecutive n ss) {x = r} (omega arith) c.1

  notes_now :
      (i : ℕ) (x : Index V) (s : Spec V) (p : Saved V) (h : UndoState V)
      → Represents x s
      → Covers p s.current h
      → Tracks (p.table i) (find i x.indices) (entry i h)
  notes_now i x s p h r c =
      subst (λ (t : Option V). Tracks (p.table i) t (entry i h)) (sym (r.content i)) (c.notes i)

module _ {V : Type 0} (clash : V → V → Bool) where
  undo_to-Represents :
      (x y : Index V) (s : Spec V) (ps : List (Saved V)) (ss : List (UndoState V))
      → Represents x s
      → Chain s.current ps ss
      → Consecutive x.revision ss
      → undo_to clash x ss ≡ some y
      → Represents y (spec_undo_to s ps)
  unfolding undo_to
  undo_to-Represents x y s [] [] r c q e = subst (λ (z : Index V). Represents z s) (ground arith) r
  undo_to-Represents x y s (p ∷ ps) (h ∷ ss) r c q e =
      elim (Option-cases (restore clash h x.indices)) [
        | inl f ↦ absurd (ground arith)
        | inr (t, f) ↦
            subst (λ (z : Index V). Represents z (spec_undo_to s (p ∷ ps))) (ground arith)
              (let z : Index V = record {
                indices = t;
                next_id = h.old_next_id;
                stack = ss;
                revision = x.revision - 1;
              } in
                let w : Represents z (spec_undo_to s (p ∷ ps)) = record {
                  content = λ i.
                      restore-find clash i h x.indices t c.0.proper.old_once f
                      ∙ restored-Tracks (p.table i) (find i x.indices) (entry i h)
                          (notes_now i x s p h r c.0);
                  next_same = c.0.starts;
                  revision_same = ap (λ (n : ℕ). n - 1) r.revision_same;
                  unused = c.0.unused;
                  consecutive = Consecutive-tail x.revision h ss q;
                  chain = c.1;
                } in
                w)
      ]
  undo_to-Represents x y s [] (h ∷ ss) r c q e = absurd c
  undo_to-Represents x y s (p ∷ ps) [] r c q e = absurd c

  pub undo-Represents :
      (x y : Index V) (s : Spec V)
      → Represents x s
      → undo clash x ≡ some y
      → Represents y (spec_undo s)
  unfolding undo
  undo-Represents x y s r e = undo_to-Represents x y s s.past x.stack r r.chain r.consecutive e

  undo_to_total :
      (x : Index V) (s : Spec V) (ps : List (Saved V)) (ss : List (UndoState V))
      → ((v w : V) → clash v w ≡ false)
      → Represents x s
      → Chain s.current ps ss
      → is_some (undo_to clash x ss) ≡ true
  unfolding undo_to
  undo_to_total x s [] [] free r c = refl
  undo_to_total x s (p ∷ ps) (h ∷ ss) free r c = ground (
    arith,
    restore_total clash free h x.indices p.table c.0.proper.old_once c.0.proper.removed_once
        (λ i. notes_now i x s p h r c.0),
  )
  undo_to_total x s [] (h ∷ ss) free r c = absurd c
  undo_to_total x s (p ∷ ps) [] free r c = absurd c

  pub undo_total :
      (x : Index V) (s : Spec V)
      → ((v w : V) → clash v w ≡ false)
      → Represents x s
      → is_some (undo clash x) ≡ true
  unfolding undo
  undo_total x s free r = undo_to_total x s s.past x.stack free r r.chain
