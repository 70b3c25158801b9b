-- ===== src/Producer/Actions.antt =====
-- What the loops over actions keep true, and what _apply_block does with the actions of a block.
use xgt.Base.{
  ℕ, ◌+◌, ◌^◌, ◌≤◌, ◌<◌, ◌≡◌, refl, subst, ◌∙◌, Option, some, List, [], ◌∷◌, ◌++◌, ltb, arith, ◌⊎◌,
  inl, inr, Option-cases, Bool-cases,
}
use xgt.Database.{Database}
use xgt.Blocks.{process_header_extension, process_header_extensions}
use xgt.Producer.{Action, Taken, total_with, take_actions, with_actions}

abbrev pub sum_of_actions : (Action → ℕ) → List Action → ℕ
sum_of_actions size [] = 0
sum_of_actions size (a ∷ rest) = size a + sum_of_actions size rest

sum_of_actions-append :
    (size : Action → ℕ) (acts bs : List Action)
    → sum_of_actions size (acts ++ bs) ≡ sum_of_actions size acts + sum_of_actions size bs
sum_of_actions-append size [] bs = omega arith
sum_of_actions-append size (a ∷ acts) bs = omega (arith, sum_of_actions-append size acts bs)

module _ (size : Action → ℕ) (from maximum : ℕ) where
  -- The sizes of what was taken are counted, and fit if there is anything.
  pub record IsCounted (s : Taken) : Type 0 where
    pub total : s.total_block_size ≡ from + sum_of_actions size s.actions
    pub fits : (s.actions ≡ []) ⊎ (s.total_block_size ≤ maximum)

  module _ (small : from < 2 ^ 63) (wide : maximum < 2 ^ 32)
      (apply : Action → Database → Option Database) (caught : Taken → Option Taken)
      (skips : (s s' : Taken) → caught s ≡ some s' → s ≡ s') where
    no_wrap :
        (a : Action) (s : Taken)
        → IsCounted s
        → size a < 2 ^ 63
        → total_with size a s ≡ s.total_block_size + size a
    no_wrap a s i less_size = elim i.fits [
      | inl none_yet ↦
          let start : s.total_block_size ≡ from = i.total ∙ rw none_yet (omega arith) in
          omega (arith, start, less_size, small)
      | inr less ↦ omega (arith, less, less_size, wide)
    ]

    pub take_actions-IsCounted :
        (sizes : (a : Action) → size a < 2 ^ 63) (when : ℕ) (acts : List Action) (s s' : Taken)
        → IsCounted s
        → take_actions size apply caught maximum when acts s ≡ some s'
        → IsCounted s'
    unfolding take_actions
    take_actions-IsCounted sizes when [] s s' i h = subst IsCounted (ground arith) i
    take_actions-IsCounted sizes when (a ∷ acts) s s' i h =
        elim (Bool-cases (ltb when a.execution_time)) [
          | inl late ↦ subst IsCounted (ground arith) i
          | inr due ↦ elim (Bool-cases (ltb maximum (total_with size a s))) [
            | inl full ↦ subst IsCounted (ground arith) i
            | inr room ↦ elim (Option-cases (apply a s.db)) [
              | inl e ↦ elim (Option-cases (caught s)) [
                | inl f ↦ absurd (ground arith)
                | inr (k, f) ↦
                    take_actions-IsCounted sizes when acts k s' (subst IsCounted (skips s k f) i)
                      (ground arith)
              ]
              | inr (d, e) ↦
                  let next : Taken = record {
                    db = d;
                    total_block_size = total_with size a s;
                    actions = s.actions ++ a ∷ [];
                  } in
                  let sum = sum_of_actions-append size s.actions (a ∷ []) in
                  take_actions-IsCounted sizes when acts next s'
                    (record {
                      total = omega (arith, no_wrap a s i (sizes a), i.total, sum);
                      fits = inr (ground arith);
                    })
                    (ground arith)
            ]
          ]
        ]

-- Actions in the extensions change nothing.
-- A bound on the total, to start the next loop with.
pub IsCounted-small :
    (size : Action → ℕ) (from maximum : ℕ) (s : Taken)
    → from < 2 ^ 63
    → maximum < 2 ^ 32
    → IsCounted size from maximum s
    → s.total_block_size < 2 ^ 63
IsCounted-small size from maximum s small wide i = elim i.fits [
  | inl none_yet ↦
      let start : s.total_block_size ≡ from = i.total ∙ rw none_yet (omega arith) in
      omega (arith, start, small)
  | inr less ↦ omega (arith, less, wide)
]

pub start-IsCounted :
    (size : Action → ℕ) (from maximum : ℕ) (d : Database)
    → IsCounted size from maximum (record { db = d; total_block_size = from; actions = [] })
start-IsCounted size from maximum d = record { total = omega arith; fits = inl refl }

pub actions-processed :
    (n : ℕ) (acts bs : List Action) (d : Database)
    → process_header_extensions n (with_actions bs (with_actions acts [])) d ≡ some d
unfolding with_actions process_header_extensions process_header_extension
actions-processed n [] [] d = refl
actions-processed n [] (b ∷ bs) d = refl
actions-processed n (a ∷ acts) [] d = refl
actions-processed n (a ∷ acts) (b ∷ bs) d = refl
