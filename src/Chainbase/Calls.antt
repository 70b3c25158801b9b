-- ===== src/Chainbase/Calls.antt =====
-- The operations of generic_index as calls, on the index and on the stack of snapshots.
use mathlib.Core.Option
use xgt.Base.{
  ℕ, ◌≡◌, refl, Bool, true, false, Option, none, some, List, [], ◌∷◌, ◌>>=◌, arith, is_some,
  Option-cases, inl, inr, find, subst,
}
use xgt.Chainbase.{Index, create, modify, remove, start_undo_session, undo, squash, commit, put_old}
use xgt.Chainbase.Spec.{
  Spec, update, with_table, spec_create, spec_start, spec_undo, spec_squash, spec_commit,
}
use xgt.Chainbase.Restore.{put_new_total, unique_free}
use xgt.Chainbase.Refinement.{Represents, create-Represents, modify-Represents, remove-Represents}
use xgt.Chainbase.Sessions.{start-Represents, squash-Represents, commit-Represents}
use xgt.Chainbase.Undo.{undo-Represents, undo_total}

pub data Call (V : Type 0) : Type 0 where
  creates : V → Call V
  modifies : ℕ → (V → V) → Call V
  removes : ℕ → Call V
  starts undoes squashes : Call V
  commits : ℕ → Call V

module _ {V : Type 0} where
  unfoldable pub step : (V → V → Bool) → Index V → Call V → Option (Index V)
  step clash x (creates v) = Option.map (λ (y : Index V × ℕ). y.0) (create clash v x)
  step clash x (modifies k m) = modify clash k m x
  step clash x (removes k) = remove clash k x
  step clash x starts = some (start_undo_session x)
  step clash x undoes = undo clash x
  step clash x squashes = some (squash x)
  step clash x (commits r) = some (commit r x)

  -- `none` where the call is on an object that is not there.
  abbrev pub spec_step : Spec V → Call V → Option (Spec V)
  spec_step s (creates v) = some (spec_create v s)
  spec_step s (modifies k m) =
      Option.map (λ (v : V). with_table (update k (some (m v)) s.current.table) s)
        (s.current.table k)
  spec_step s (removes k) =
      Option.map (λ (v : V). with_table (update k none s.current.table) s) (s.current.table k)
  spec_step s starts = some (spec_start s)
  spec_step s undoes = some (spec_undo s)
  spec_step s squashes = some (spec_squash s)
  spec_step s (commits r) = some (spec_commit r s)

  -- Both throw, or both come to states that belong together.
  abbrev pub Agree : Option (Index V) → Option (Spec V) → Type 0
  Agree none none = Unit
  Agree (some x) (some s) = Represents x s
  Agree _ _ = ⊥

  unfoldable pub run : (V → V → Bool) → Index V → List (Call V) → Option (Index V)
  unfolding step
  run clash x [] = some x
  run clash x (c ∷ cs) = step clash x c >>= λ y. run clash y cs

  abbrev pub spec_run : Spec V → List (Call V) → Option (Spec V)
  spec_run s [] = some s
  spec_run s (c ∷ cs) = spec_step s c >>= λ t. spec_run t cs

module _ {V : Type 0} (clash : V → V → Bool) where
  modify-none :
      (k : ℕ) (m : V → V) (x : Index V) → find k x.indices ≡ none → modify clash k m x ≡ none
  unfolding modify
  modify-none k m x e = ground arith

  remove-none : (k : ℕ) (x : Index V) → find k x.indices ≡ none → remove clash k x ≡ none
  unfolding remove
  remove-none k x e = ground arith

  remove_total :
      (k : ℕ) (v : V) (x : Index V) → find k x.indices ≡ some v → is_some (remove clash k x) ≡ true
  unfolding remove
  remove_total k v x e = ground arith

  create_total :
      ((v w : V) → clash v w ≡ false)
      → (v : V) (x : Index V) → find x.next_id x.indices ≡ none
      → is_some (create clash v x) ≡ true
  unfolding create
  create_total free v x e = ground (arith, put_new_total clash free x.next_id v x.indices)

  modify_total :
      ((v w : V) → clash v w ≡ false)
      → (k : ℕ) (m : V → V) (v : V) (x : Index V) → find k x.indices ≡ some v
      → is_some (modify clash k m x) ≡ true
  unfolding modify put_old
  modify_total free k m v x e = ground (arith, unique_free clash free k (m v) x.indices)

  step-Represents :
      (x y : Index V) (s : Spec V) (c : Call V)
      → Represents x s
      → step clash x c ≡ some y
      → (t : Spec V) × (spec_step s c ≡ some t) × Represents y t
  unfolding step
  step-Represents x y s (creates v) r e = elim (Option-cases (create clash v x)) [
    | inl f ↦ absurd (ground arith)
    | inr (z, f) ↦ (
      spec_create v s,
      refl,
      subst (λ (w : Index V). Represents w (spec_create v s)) {x = z.0} (ground arith)
          (create-Represents clash v x s z r f).0,
    )
  ]
  step-Represents x y s (modifies k m) r e = elim (Option-cases (s.current.table k)) [
    | inl f ↦ absurd (ground (arith, modify-none k m x, r.content k))
    | inr (v, f) ↦ (
      with_table (update k (some (m v)) s.current.table) s,
      ground arith,
      modify-Represents clash k m v x y s r f e,
    )
  ]
  step-Represents x y s (removes k) r e = elim (Option-cases (s.current.table k)) [
    | inl f ↦ absurd (ground (arith, remove-none k x, r.content k))
    | inr (v, f) ↦ (
      with_table (update k none s.current.table) s,
      ground arith,
      remove-Represents clash k v x y s r f e,
    )
  ]
  step-Represents x y s starts r e = (
    spec_start s,
    refl,
    subst (λ (w : Index V). Represents w (spec_start s)) (ground arith) (start-Represents x s r),
  )
  step-Represents x y s undoes r e = (spec_undo s, refl, undo-Represents clash x y s r e)
  step-Represents x y s squashes r e = (
    spec_squash s,
    refl,
    subst (λ (w : Index V). Represents w (spec_squash s)) (ground arith) (squash-Represents x s r),
  )
  step-Represents x y s (commits n) r e = (
    spec_commit n s,
    refl,
    subst (λ (w : Index V). Represents w (spec_commit n s)) (ground arith)
        (commit-Represents n x s r),
  )

  -- Whatever unique keys the objects have: a history of calls that does not throw takes an index to
  -- the tables, snapshots, next id and revision that the same calls give on the stack of snapshots.
  pub run-Represents :
      (x y : Index V) (s : Spec V) (cs : List (Call V))
      → Represents x s
      → run clash x cs ≡ some y
      → (t : Spec V) × (spec_run s cs ≡ some t) × Represents y t
  unfolding run
  run-Represents x y s [] r e = (s, refl, subst (λ (w : Index V). Represents w s) (ground arith) r)
  run-Represents x y s (c ∷ cs) r e = elim (Option-cases (step clash x c)) [
    | inl f ↦ absurd (ground arith)
    | inr (z, f) ↦
        let first = step-Represents x z s c r f in
        let rest = run-Represents z y first.0 cs first.2 (ground arith) in
        (rest.0, rw first.1 rest.1, rest.2)
  ]

  module _ (free : (v w : V) → clash v w ≡ false) where
    step_total :
        (x : Index V) (s : Spec V) (c : Call V)
        → Represents x s
        → is_some (step clash x c) ≡ is_some (spec_step s c)
    unfolding step
    step_total x s (creates v) r =
        ground (arith, create_total free v x, r.content x.next_id, r.unused x.next_id, r.next_same)
    step_total x s (modifies k m) r = elim (Option-cases (s.current.table k)) [
      | inl f ↦ ground (arith, modify-none k m x, r.content k)
      | inr (v, f) ↦ ground (arith, modify_total free k m v x, r.content k)
    ]
    step_total x s (removes k) r = elim (Option-cases (s.current.table k)) [
      | inl f ↦ ground (arith, remove-none k x, r.content k)
      | inr (v, f) ↦ ground (arith, remove_total k v x, r.content k)
    ]
    step_total x s starts r = refl
    step_total x s undoes r = undo_total clash x s free r
    step_total x s squashes r = refl
    step_total x s (commits n) r = refl

    -- Where only ids are unique: every history of calls either throws in both, at a call on an
    -- object that is not there, or comes through in both and ends in states that belong together.
    pub run-Agree :
        (x : Index V) (s : Spec V) (cs : List (Call V))
        → Represents x s
        → Agree (run clash x cs) (spec_run s cs)
    unfolding run
    run-Agree x s [] r = r
    run-Agree x s (c ∷ cs) r = elim (Option-cases (step clash x c)) [
      | inl f ↦ let g : spec_step s c ≡ none = ground (arith, step_total x s c r) in rw (f, g) tt
      | inr (y, f) ↦
          let next = step-Represents x y s c r f in rw (f, next.1) (run-Agree y next.0 cs next.2)
    ]
