-- ===== src/Chainbase/Sessions.antt =====
-- start_undo_session, squash, undo and commit against the stack of snapshots.

use xgt.Base.{
  ℕ, zero, suc, ◌-◌, ◌≡◌, refl, sym, ap, ◌∙◌, List, [], ◌∷◌, arith, take, take-nil, dec_lt, ◌<◌,
  subst,
}
use xgt.Chainbase.{
  UndoState, Index, drop_committed, keep_above, merge, start_undo_session, squash, squash_stack,
  squash_revision, commit,
}
use xgt.Chainbase.Spec.{
  Saved, Spec, spec_start, squash_past, squash_past_revision, spec_squash, spec_commit,
}
use xgt.Chainbase.Merge.{merge-Keeps}
use xgt.Chainbase.Covers.{Covers, Covers-start, Covers-merge}
use xgt.Chainbase.Refinement.{Represents, Chain, Consecutive}

module _ {V : Type 0} where
  pub start-Represents :
      (x : Index V) (s : Spec V) → Represents x s → Represents (start_undo_session x) (spec_start s)
  unfolding start_undo_session
  start-Represents x s r = record {
    content = r.content;
    next_same = r.next_same;
    revision_same = ap suc r.revision_same;
    unused = r.unused;
    consecutive = (refl, r.consecutive);
    chain = (
      subst
          (λ (n : ℕ). Covers s.current s.current (record {
            old_values = [];
            removed_values = [];
            new_ids = [];
            old_next_id = n;
            revision = suc x.revision;
          }))
          (sym r.next_same) (Covers-start s.current (suc x.revision) r.unused),
      r.chain,
    );
  }

  squash-Chain :
      (t : Saved V) (ps : List (Saved V)) (ss : List (UndoState V))
      → Chain t ps ss
      → Chain t (squash_past ps) (squash_stack ss)
  unfolding squash_stack
  squash-Chain t [] [] c = c
  squash-Chain t (p ∷ []) (s ∷ []) c = c.1
  squash-Chain t (p ∷ q ∷ ps) (s ∷ prev ∷ ss) c = (Covers-merge q p t s prev c.1.0 c.0, c.1.1)
  squash-Chain t [] (s ∷ ss) c = absurd c
  squash-Chain t (p ∷ ps) [] c = absurd c
  squash-Chain t (p ∷ []) (s ∷ prev ∷ ss) c = absurd c.1
  squash-Chain t (p ∷ q ∷ ps) (s ∷ []) c = absurd c.1

  squash-revision_same :
      (t : Saved V) (ps : List (Saved V)) (ss : List (UndoState V)) (r : ℕ)
      → Chain t ps ss
      → squash_revision ss r ≡ squash_past_revision ps r
  unfolding squash_revision
  squash-revision_same t [] [] r c = refl
  squash-revision_same t (p ∷ []) (s ∷ []) r c = refl
  squash-revision_same t (p ∷ q ∷ ps) (s ∷ prev ∷ ss) r c = refl
  squash-revision_same t [] (s ∷ ss) r c = absurd c
  squash-revision_same t (p ∷ ps) [] r c = absurd c
  squash-revision_same t (p ∷ []) (s ∷ prev ∷ ss) r c = absurd c.1
  squash-revision_same t (p ∷ q ∷ ps) (s ∷ []) r c = absurd c.1

  squash-Consecutive :
      (r : ℕ) (ss : List (UndoState V))
      → Consecutive r ss
      → Consecutive (squash_revision ss r) (squash_stack ss)
  unfolding squash_revision squash_stack
  squash-Consecutive r [] c = tt
  squash-Consecutive r (s ∷ []) c = tt
  squash-Consecutive zero (s ∷ prev ∷ ss) c = absurd c
  squash-Consecutive (suc zero) (s ∷ prev ∷ ss) c = absurd c.1
  squash-Consecutive (suc (suc r)) (s ∷ prev ∷ ss) c =
      subst (λ (n : ℕ). Consecutive n (merge s prev ∷ ss)) {x = suc r} (omega arith)
        ((merge-Keeps s prev).1 ∙ c.1.0, c.1.1)

  pub squash-Represents :
      (x : Index V) (s : Spec V) → Represents x s → Represents (squash x) (spec_squash s)
  unfolding squash
  squash-Represents x s r = record {
    content = r.content;
    next_same = r.next_same;
    revision_same =
        squash-revision_same s.current s.past x.stack x.revision r.chain
        ∙ ap (squash_past_revision s.past) r.revision_same;
    unused = r.unused;
    consecutive = squash-Consecutive x.revision x.stack r.consecutive;
    chain = squash-Chain s.current s.past x.stack r.chain;
  }

  keep_above-cons :
      (c : ℕ) (s : UndoState V) (ss : List (UndoState V))
      → c < s.revision
      → keep_above c s ss ≡ s ∷ ss
  unfolding keep_above
  keep_above-cons c s [] h = ground arith
  keep_above-cons c s (next ∷ older) h = refl

  drop_committed-take :
      (c r : ℕ) (ss : List (UndoState V)) → Consecutive r ss → drop_committed c ss ≡ take (r - c) ss
  unfolding drop_committed
  drop_committed-take c r [] h = sym (take-nil (r - c))
  drop_committed-take c zero (s ∷ ss) h = absurd h
  drop_committed-take c (suc r) (s ∷ ss) h =
      rw (drop_committed-take c r ss h.1) (elim (dec_lt c (suc r)) [
        | yes above ↦
            let e : suc r - c ≡ suc (r - c) = omega arith in
            rw e (keep_above-cons c s (take (r - c) ss) (rw h.0 above))
        | no below ↦
            let e : suc r - c ≡ 0 = omega arith in
            let e' : r - c ≡ 0 = omega arith in rw (e, e') (ground (arith, h.0))
      ])

  take-Chain :
      (n : ℕ) (t : Saved V) (ps : List (Saved V)) (ss : List (UndoState V))
      → Chain t ps ss
      → Chain t (take n ps) (take n ss)
  take-Chain zero t ps ss c = tt
  take-Chain (suc n) t [] [] c = tt
  take-Chain (suc n) t (p ∷ ps) (s ∷ ss) c = (c.0, take-Chain n p ps ss c.1)
  take-Chain (suc n) t [] (s ∷ ss) c = absurd c
  take-Chain (suc n) t (p ∷ ps) [] c = absurd c

  take-Consecutive :
      (n r : ℕ) (ss : List (UndoState V)) → Consecutive r ss → Consecutive r (take n ss)
  take-Consecutive zero r ss c = tt
  take-Consecutive (suc n) r [] c = tt
  take-Consecutive (suc n) zero (s ∷ ss) c = c
  take-Consecutive (suc n) (suc r) (s ∷ ss) c = (c.0, take-Consecutive n r ss c.1)

  pub commit-Represents :
      (c : ℕ) (x : Index V) (s : Spec V)
      → Represents x s
      → Represents (commit c x) (spec_commit c s)
  unfolding commit
  commit-Represents c x s r = rw (drop_committed-take c x.revision x.stack r.consecutive) (record {
    content = r.content;
    next_same = r.next_same;
    revision_same = r.revision_same;
    unused = r.unused;
    consecutive = take-Consecutive (x.revision - c) x.revision x.stack r.consecutive;
    chain =
        subst (λ (n : ℕ). Chain s.current (take (n - c) s.past) (take (x.revision - c) x.stack))
          r.revision_same (take-Chain (x.revision - c) s.current s.past x.stack r.chain);
  })
