-- ===== src/Sync/Synopsis.antt =====
-- The loop of get_blockchain_synopsis.
use native.Mathlib.Nat.{pow-suc}
use xgt.Base.{
  ℕ, zero, suc, ◌+◌, ◌-◌, ◌/◌, ◌%◌, ◌^◌, ◌≤◌, ◌<◌, ◌≡◌, refl, subst, false, ◌⊎◌, inl, inr, Option,
  some, List, [], ◌∷◌, arith, ◌==◌, ltb, leb, length, if◌then◌else◌, Bool-cases,
}
use xgt.Sync.{View, Range, back, id_in, next_low, synopsis_from, range_of, get_blockchain_synopsis}

-- Half of the way, rounded up.
next_low-value :
    (th low : ℕ) → low ≤ th → th + 2 < 2 ^ 32 → next_low th low ≡ low + (th - low + 2) / 2
next_low-value th low h k = ground (arith, h, k)

halved :
    (th low k : ℕ)
    → low ≤ th
    → th + 1 - low < 2 ^ suc k
    → th + 1 - (low + (th - low + 2) / 2) < 2 ^ k
halved th low k h s = let p = pow-suc 2 k in omega (arith, h, s, p)

module _ (v : View) (r : Range) (th : ℕ) (small : th + 2 < 2 ^ 32)
    (below : r.high_block_num ≤ th) where
  open r use {high_block_num}

  -- The ids of a synopsis, from that of `low` on.
  pub record Summary (n low k : ℕ) : Type 0 where
    pub first : ℕ
    pub rest : List ℕ
    pub ends : synopsis_from v n r th low ≡ some (first ∷ rest)
    pub starts : id_in v r low ≡ some first
    pub few : suc (length rest) ≤ k
    pub reaches : (id_in v r high_block_num ≡ some (back first rest)) ⊎ (high_block_num < th)

  last_round :
      (n low k i : ℕ)
      → low ≤ high_block_num
      → id_in v r low ≡ some i
      → leb (next_low th low) high_block_num ≡ false
      → Summary (suc n) low (suc k)
  unfolding synopsis_from
  last_round n low k i h f e = record {
    first = i;
    rest = [];
    ends = rw (f, e) refl;
    starts = f;
    few = omega arith;
    reaches = elim (Bool-cases (ltb high_block_num th)) [
      | inl more ↦ inr (ground arith)
      | inr end ↦ inl (
          let same : low ≡ high_block_num =
            ground (arith, next_low-value th low (omega (arith, h, below)) small) in
          subst (λ m. id_in v r m ≡ some i) same f)
    ];
  }

  synopsis_from-Summary :
      (k n low : ℕ)
      → ((m : ℕ) → low ≤ m → m ≤ high_block_num → (i : ℕ) × (id_in v r m ≡ some i))
      → low ≤ high_block_num
      → high_block_num < low + n
      → th + 1 - low < 2 ^ k
      → Summary n low k
  unfolding synopsis_from
  synopsis_from-Summary zero n low ids h fuel s = absurd (omega (arith, h, below, s))
  synopsis_from-Summary (suc k) zero low ids h fuel s = absurd (omega (arith, h, fuel))
  synopsis_from-Summary (suc k) (suc n) low ids h fuel s =
      let (i, f) = ids low (omega arith) h in
      let next = next_low-value th low (omega (arith, h, below)) small in
      elim (Bool-cases (leb (next_low th low) high_block_num)) [
        | inr e ↦ last_round n low k i h f e
        | inl e ↦
            let up : low < next_low th low = omega (arith, next) in
            let on : next_low th low ≤ high_block_num = ground (arith, e) in
            let less : th + 1 - next_low th low < 2 ^ k =
              rw next (halved th low k (omega (arith, h, below)) s) in
            let more =
              synopsis_from-Summary k n (next_low th low) (λ m a b. ids m (omega (arith, up, a)) b)
                on (omega (arith, up, fuel)) less in
            record {
              first = i;
              rest = more.first ∷ more.rest;
              ends = rw (f, e, more.ends) refl;
              starts = f;
              few = omega (arith, more.few);
              reaches = more.reaches;
            }
      ]

module _ (v : View) where
  open v use {head_block_num, last_non_undoable_block_num, get_block_id_for_num}

  whole : Range
  whole = record {
    low_block_num = last_non_undoable_block_num;
    high_block_num = head_block_num;
    non_fork_high_block_num = head_block_num;
    fork_history = [];
  }

  main_chain :
      (m : ℕ) (i : Option ℕ) → m ≤ head_block_num → id_in v whole m ≡ i → get_block_id_for_num m ≡ i
  unfolding id_in whole
  main_chain m i h e = ground (arith, h, e)

  main_chain_ids :
      (m : ℕ) (i : Option ℕ) → m ≤ head_block_num → get_block_id_for_num m ≡ i → id_in v whole m ≡ i
  unfolding id_in whole
  main_chain_ids m i h e = ground (arith, h, e)

  abbrev pub first_num : ℕ
  first_num = if last_non_undoable_block_num == 0 then 1 else last_non_undoable_block_num

  -- A chain with blocks, whose last block that cannot be undone is not above its head, and that has an
  -- id for each number from 1 to its head, gives a synopsis of itself, given that the number of its
  -- head and the number of blocks announced after it sum to less than 2^32 - 2. The synopsis starts
  -- with that block, or with block 1, and has at most 32 ids; and unless blocks are announced after
  -- the head, it ends with the head.
  pub get_blockchain_synopsis-summarizes :
      (after : ℕ)
      → 1 ≤ head_block_num
      → last_non_undoable_block_num ≤ head_block_num
      → head_block_num + after + 2 < 2 ^ 32
      → ((m : ℕ) → 1 ≤ m → m ≤ head_block_num → (i : ℕ) × (get_block_id_for_num m ≡ some i))
      → (first : ℕ) × (rest : List ℕ) × (get_blockchain_synopsis v 0 after ≡ some (first ∷ rest))
        × (get_block_id_for_num first_num ≡ some first)
        × (suc (length rest) ≤ 32)
        × ((get_block_id_for_num head_block_num ≡ some (back first rest)) ⊎ (0 < after))
  unfolding get_blockchain_synopsis range_of whole
  get_blockchain_synopsis-summarizes after some_head low small ids =
      let th = head_block_num + after in
      let low_fits : first_num ≤ head_block_num = ground arith in
      let low_positive : 1 ≤ first_num = ground arith in
      let no_wrap : (head_block_num + after) % 2 ^ 32 ≡ th = ground (arith, small) in
      let found : (m : ℕ)
          → first_num ≤ m
          → m ≤ head_block_num
          → (i : ℕ) × (id_in v whole m ≡ some i) =
        λ m a b.
          let (i, e) = ids m (omega (arith, a, low_positive)) b in
          (i, main_chain_ids m (some i) b e) in
      let sum =
        synopsis_from-Summary v whole th small (omega arith) 32 (suc head_block_num) first_num found
          low_fits (omega arith) (omega (arith, small)) in
      (
        sum.first,
        sum.rest,
        rw no_wrap (ground (arith, sum.ends)),
        main_chain first_num (some sum.first) low_fits sum.starts,
        sum.few,
        elim sum.reaches [
          | inl e ↦ inl (main_chain head_block_num (some (back sum.first sum.rest)) (omega arith) e)
          | inr more ↦ inr (omega (arith, more))
        ],
      )
