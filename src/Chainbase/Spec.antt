-- ===== src/Chainbase/Spec.antt =====
-- The abstract index: the table of the objects, and a saved copy of it for each open session.
use xgt.Base.{
  ℕ, suc, ◌+◌, ◌-◌, ◌≤◌, ◌≡◌, ◌==◌, Option, none, some, List, [], ◌∷◌, if◌then◌else◌, take,
}

-- A table as it stood, with the next id.
pub record Saved (V : Type 0) : Type 0 where
  pub table : ℕ → Option V
  pub next : ℕ

pub record Spec (V : Type 0) : Type 0 where
  pub current : Saved V
  pub past : List (Saved V)
  pub revision : ℕ

module _ {V : Type 0} where
  abbrev pub update : ℕ → Option V → (ℕ → Option V) → ℕ → Option V
  update k o t i = if i == k then o else t i

  abbrev pub spec_create : V → Spec V → Spec V
  spec_create v s = record s {
    current = record {
      table = update s.current.next (some v) s.current.table;
      next = s.current.next + 1;
    };
  }

  abbrev pub with_table : (ℕ → Option V) → Spec V → Spec V
  with_table t s = record s { current = record { table = t; next = s.current.next } }

  abbrev pub spec_start : Spec V → Spec V
  spec_start s = record s { past = s.current ∷ s.past; revision = suc s.revision }

  abbrev pub spec_undo_to : Spec V → List (Saved V) → Spec V
  spec_undo_to s [] = s
  spec_undo_to s (p ∷ ps) = record { current = p; past = ps; revision = s.revision - 1 }

  abbrev pub spec_undo : Spec V → Spec V
  spec_undo s = spec_undo_to s s.past

  -- The last session is forgotten; the revision falls if there is one below it.
  abbrev pub squash_past : List (Saved V) → List (Saved V)
  squash_past [] = []
  squash_past (p ∷ ps) = ps

  abbrev pub squash_past_revision : List (Saved V) → ℕ → ℕ
  squash_past_revision [] r = r
  squash_past_revision (p ∷ []) r = r
  squash_past_revision (p ∷ q ∷ ps) r = r - 1

  abbrev pub spec_squash : Spec V → Spec V
  spec_squash s = record s {
    past = squash_past s.past;
    revision = squash_past_revision s.past s.revision;
  }

  abbrev pub spec_commit : ℕ → Spec V → Spec V
  spec_commit r s = record s { past = take (s.revision - r) s.past }

  -- No object has an id that is still to be given out.
  abbrev pub IsFresh : Saved V → Type 0
  IsFresh s = (i : ℕ) → s.next ≤ i → s.table i ≡ none
