-- ===== src/Chainbase/Tests.antt =====
-- Runs of the undo stack, and the theorems at concrete inputs. An object is a number, which is also
-- its one unique key besides the id.
use xgt.Base.{
  ℕ, ◌+◌, ◌≡◌, refl, Bool, false, none, some, List, [], ◌∷◌, ◌==◌, find, insert, emplace, assign,
  erase,
}
use xgt.Chainbase.{Index, create, modify, remove, start_undo_session, undo, squash}
use xgt.Chainbase.Spec.{Spec}
use xgt.Chainbase.Refinement.{Represents}
use xgt.Chainbase.Calls.{
  Call, creates, modifies, removes, starts, undoes, squashes, run, spec_run, Agree, run-Represents,
  run-Agree,
}
use xgt.Chainbase.Clash.{undo_throws}

abbrev same_key : ℕ → ℕ → Bool
same_key a b = a == b

abbrev no_key : ℕ → ℕ → Bool
no_key a b = false

abbrev empty : Index ℕ
empty = record { indices = []; stack = []; revision = 0; next_id = 0 }

abbrev empty_spec : Spec ℕ
empty_spec = record { current = record { table = λ i. none; next = 0 }; past = []; revision = 0 }

empty-Represents : Represents empty empty_spec
unfolding find
empty-Represents = record {
  content = λ i. refl;
  next_same = refl;
  revision_same = refl;
  unused = λ i h. refl;
  consecutive = tt;
  chain = tt;
}

-- Two objects; in a session the first changes, the second goes, and a third comes.
abbrev changes : List (Call ℕ)
changes =
    creates 10
    ∷ creates 20
    ∷ starts
    ∷ modifies 0 (λ v. v + 5)
    ∷ removes 1
    ∷ creates 30
    ∷ starts
    ∷ removes 0
    ∷ squashes
    ∷ []

abbrev changed : Index ℕ
changed = record {
  indices = (2, 30) ∷ [];
  stack =
      record {
        old_values = [];
        removed_values = (0, 10) ∷ (1, 20) ∷ [];
        new_ids = 2 ∷ [];
        old_next_id = 2;
        revision = 1;
      }
      ∷ [];
  revision = 1;
  next_id = 3;
}

run-changes : run same_key empty changes ≡ some changed
unfolding run create modify remove start_undo_session squash find insert emplace assign erase
run-changes = refl

run-back :
    run same_key changed (undoes ∷ [])
    ≡ some (record { indices = (0, 10) ∷ (1, 20) ∷ []; stack = []; revision = 0; next_id = 2 })
unfolding run undo find insert emplace assign erase
run-back = refl

run-Represents_example :
    (t : Spec ℕ) × (spec_run empty_spec changes ≡ some t) × Represents changed t
run-Represents_example =
    run-Represents same_key empty changed empty_spec changes empty-Represents run-changes

run-Agree_example : Agree (run no_key empty changes) (spec_run empty_spec changes)
run-Agree_example = run-Agree no_key (λ v w. refl) empty empty_spec changes empty-Represents

abbrev keyed : Index ℕ
keyed = record { indices = (0, 10) ∷ []; stack = []; revision = 0; next_id = 1 }

abbrev handed_on : Index ℕ
handed_on = record {
  indices = (0, 11) ∷ [];
  stack =
      record {
        old_values = (0, 10) ∷ [];
        removed_values = [];
        new_ids = [];
        old_next_id = 1;
        revision = 1;
      }
      ∷ [];
  revision = 1;
  next_id = 1;
}

abbrev taken_over : Index ℕ × ℕ
taken_over = (
  record {
    indices = (0, 11) ∷ (1, 10) ∷ [];
    stack =
        record {
          old_values = (0, 10) ∷ [];
          removed_values = [];
          new_ids = 1 ∷ [];
          old_next_id = 1;
          revision = 1;
        }
        ∷ [];
    revision = 1;
    next_id = 2;
  },
  1,
)

undo_throws_example : undo same_key taken_over.0 ≡ none
unfolding create modify start_undo_session find insert emplace assign
undo_throws_example =
    undo_throws same_key (λ v. v + 1) 0 10 10 keyed handed_on taken_over refl refl refl refl
