-- ===== src/Sync/Joins.antt =====
-- Where the synopsis of a peer joins the chain.
use mathlib.Core.List.{append_assoc}
use xgt.Base.{
  ℕ, ◌≡◌, refl, subst, ap, ◌∙◌, true, false, ◌||◌, ◌&&◌, some, List, [], ◌∷◌, ◌++◌, ◌==◌, ◌⊎◌, inl,
  inr, arith, Bool-cases, Option-cases,
}
use xgt.Sync.{View, is_included_block, newest_included, last_known_block_id, backwards}

backwards-append : (i : ℕ) (is : List ℕ) → backwards (is ++ i ∷ []) ≡ i ∷ backwards is
backwards-append i [] = refl
backwards-append i (j ∷ js) = ap (λ l. l ++ j ∷ []) (backwards-append i js)

backwards-backwards : (is : List ℕ) → backwards (backwards is) ≡ is
backwards-backwards [] = refl
backwards-backwards (i ∷ is) =
    backwards-append i (backwards is) ∙ ap (λ l. i ∷ l) (backwards-backwards is)

module _ (v : View) where
  open v use {num_from_id, is_known_block, get_block_id_for_num}

  -- The id is the zero one, or that of a block on the chain.
  pub data IsKnown (i : ℕ) : Type 0 where
    zero_id : i ≡ 0 → IsKnown i
    on_chain : is_known_block i ≡ true → get_block_id_for_num (num_from_id i) ≡ some i → IsKnown i

  abbrev pub NoneKnown : List ℕ → Type 0
  NoneKnown [] = Unit
  NoneKnown (i ∷ is) = (IsKnown i → ⊥) × NoneKnown is

  -- An id of the synopsis that is known, with none such after it, which are the newer ones.
  pub record JoinsAt (last : ℕ) (synopsis : List ℕ) : Type 0 where
    pub older : List ℕ
    pub newer : List ℕ
    pub split : synopsis ≡ older ++ last ∷ newer
    pub known : IsKnown last
    pub newest : NoneKnown newer

  -- An empty synopsis joins at the zero id.
  abbrev pub Joins : ℕ → List ℕ → Type 0
  Joins last synopsis = ((synopsis ≡ []) × (last ≡ 0)) ⊎ JoinsAt last synopsis

  NoneKnown-append :
      (is : List ℕ) (i : ℕ) → NoneKnown is → (IsKnown i → ⊥) → NoneKnown (is ++ i ∷ [])
  NoneKnown-append [] i a b = (b, tt)
  NoneKnown-append (j ∷ js) i a b = (a.0, NoneKnown-append js i a.1 b)

  tested-IsKnown :
      (i : ℕ) → (i == 0 || (is_known_block i && is_included_block v i)) ≡ true → IsKnown i
  unfolding is_included_block
  tested-IsKnown i h = elim (Bool-cases (i == 0)) [
    | inl e ↦ zero_id (ground arith)
    | inr e ↦ elim (Option-cases (get_block_id_for_num (num_from_id i))) [
      | inl f ↦ absurd (ground arith)
      | inr (j, f) ↦
          let same : j ≡ i = ground arith in on_chain (ground arith) (rw f (ap some same))
    ]
  ]

  untested :
      (i : ℕ) → (i == 0 || (is_known_block i && is_included_block v i)) ≡ false → IsKnown i → ⊥
  unfolding is_included_block
  untested i h (zero_id e) = absurd (ground arith)
  untested i h (on_chain k e) = absurd (ground arith)

  newest_included-JoinsAt :
      (is : List ℕ) (last : ℕ) → newest_included v is ≡ some last → JoinsAt last (backwards is)
  unfolding newest_included
  newest_included-JoinsAt [] last h = absurd (ground arith)
  newest_included-JoinsAt (i ∷ is) last h =
      elim (Bool-cases (i == 0 || (is_known_block i && is_included_block v i))) [
        | inl e ↦
            subst (λ k. JoinsAt k (backwards (i ∷ is))) {x = i} (ground arith)
              (record {
                older = backwards is;
                newer = [];
                split = refl;
                known = tested-IsKnown i e;
                newest = tt;
              })
        | inr e ↦
            let j = newest_included-JoinsAt is last (ground arith) in
            record {
              older = j.older;
              newer = j.newer ++ i ∷ [];
              split = rw j.split (append_assoc j.older (last ∷ j.newer) (i ∷ []));
              known = j.known;
              newest = NoneKnown-append j.newer i j.newest (untested i e);
            }
      ]

  pub last_known_block_id-Joins :
      (synopsis : List ℕ) (last : ℕ)
      → last_known_block_id v synopsis ≡ some last
      → Joins last synopsis
  unfolding last_known_block_id
  last_known_block_id-Joins [] last h = inl (refl, ground arith)
  last_known_block_id-Joins (i ∷ []) last h = elim (Bool-cases (i == 0)) [
    | inl e ↦
        let zero_last : last ≡ 0 = ground arith in
        let same : i ≡ last = ground arith in
        inr (record {
          older = [];
          newer = [];
          split = ap (λ k. k ∷ []) same;
          known = zero_id zero_last;
          newest = tt;
        })
    | inr e ↦ inr (newest_included-JoinsAt (i ∷ []) last (ground arith))
  ]
  last_known_block_id-Joins (i ∷ j ∷ is) last h = inr (
      subst (JoinsAt last) (backwards-backwards (i ∷ j ∷ is))
        (newest_included-JoinsAt (backwards (i ∷ j ∷ is)) last h))
