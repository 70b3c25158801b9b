-- ===== src/Producer/Accepted.antt =====
-- A block of the producer, evaluated by _apply_block.
use xgt.Base.{
  ℕ, ◌+◌, ◌^◌, ◌%◌, ◌≤◌, ◌<◌, ◌≡◌, refl, ◌∙◌, Option, none, some, List, [], arith, is_some,
  Option-cases, inl, inr, ==_iff,
}
use xgt.Database.{Witness, Database, find_witness}
use xgt.Blocks.{
  Transaction, SignedBlock, Setting, Skip, update_global_dynamic_data, check_merkle, check_header,
  apply_transactions, finish_block, apply_block,
}
use xgt.Producer.{
  Action, Taken, take_actions, with_actions, add_actions, Packing, Draft, partition_size,
  take_reward, take_pending, apply_pending_transactions,
}
use xgt.Producer.Actions.{
  sum_of_actions, IsCounted, take_actions-IsCounted, IsCounted-small, start-IsCounted,
  actions-processed,
}
use xgt.Producer.Drafts.{
  partition_size-le, sum_of_sizes, IsDraft, take_reward-IsDraft, take_pending-IsDraft,
}

module _ (st : Setting) (skip : Skip) where
  check_merkle-accepts :
      (b : SignedBlock)
      → b.transaction_merkle_root ≡ st.merkle_root b.transactions
      → check_merkle st skip b ≡ some tt
  unfolding check_merkle
  check_merkle-accepts b h =
      let same = (==_iff b.transaction_merkle_root (st.merkle_root b.transactions)).1 h in
      ground (arith, same)

  check_header-accepts :
      (b : SignedBlock) (acts bcts : List Action) (w : Witness) (d : Database)
      → b.transaction_merkle_root ≡ st.merkle_root b.transactions
      → b.pack_size ≤ d.properties.maximum_block_size
      → b.extensions ≡ with_actions bcts (with_actions acts [])
      → find_witness b.witness d ≡ some w
      → d.current_hardfork_version ≤ w.running_version
      → check_header st skip b d ≡ some d
  unfolding check_header
  check_header-accepts b acts bcts w d root size taken found current =
      rw (check_merkle-accepts b root, taken, actions-processed b.witness acts bcts d, found)
        (ground arith)

  draft_small :
      {pk : Packing} {d : Database} (base limit : ℕ) (dr : Draft)
      → IsDraft st skip pk d base limit dr
      → base < 2 ^ 34
      → limit < 2 ^ 32
      → dr.total_block_size < 2 ^ 63
  draft_small base limit dr i small bounded = elim i.fits [
    | inl none_yet ↦
        let start : dr.total_block_size ≡ base = i.total ∙ rw none_yet (omega arith) in
        omega (arith, start, small)
    | inr less ↦ omega (arith, less, bounded)
  ]

  module _ (pk : Packing) (required optional : List Action) (b b' : SignedBlock)
      (action_sizes : (a : Action) → pk.action_size a < 2 ^ 63) where
    -- What add_actions made of a draft and the actions that it took.
    record IsMade (maximum : ℕ) (dr : Draft) (r o : Taken) : Type 0 where
      transactions : b'.transactions ≡ dr.transactions
      pack_size : b'.pack_size ≡ pk.block_size dr.transactions r.actions o.actions
      root : b'.transaction_merkle_root ≡ st.merkle_root dr.transactions
      extensions : b'.extensions ≡ with_actions o.actions (with_actions r.actions b.extensions)
      witness : b'.witness ≡ b.witness
      required_counted : IsCounted pk.action_size dr.total_block_size maximum r
      optional_counted : IsCounted pk.action_size r.total_block_size maximum o

    add_actions-inv :
        (maximum : ℕ) (dr : Draft)
        → dr.total_block_size < 2 ^ 63
        → maximum < 2 ^ 32
        → add_actions st skip pk maximum required optional b dr ≡ some b'
        → (r : Taken) × (o : Taken) × IsMade maximum dr r o
    unfolding add_actions
    add_actions-inv maximum dr low wide made =
        let size = pk.action_size in
        let from = dr.total_block_size in
        let refused : Taken → Option Taken = λ s. none in
        let skipped : Taken → Option Taken = λ s. some s in
        let ts = dr.transactions in
        let b1 : SignedBlock = record b {
          transactions = ts;
          pack_size = pk.block_size ts [] [];
          id = pk.block_id ts [] [];
        } in
        elim (Option-cases (update_global_dynamic_data st skip b1 dr.db)) [
          | inl g ↦ absurd (ground arith)
          | inr (m, g) ↦
              let s1 : Taken = record { db = m; total_block_size = from; actions = [] } in
              elim (Option-cases (
                take_actions size pk.apply_required_action refused maximum b.timestamp required
                  s1)) [
                    | inl k ↦ absurd (ground arith)
                    | inr (r, k) ↦
                        let rc =
                          take_actions-IsCounted size from maximum low wide pk.apply_required_action
                            refused (λ s s' q. absurd (ground arith)) action_sizes b.timestamp
                            required s1 r (start-IsCounted size from maximum m) k in
                        let low' = IsCounted-small size from maximum r low wide rc in
                        let s2 : Taken = record {
                          db = r.db;
                          total_block_size = r.total_block_size;
                          actions = [];
                        } in
                        elim (Option-cases (
                          take_actions size pk.apply_optional_action skipped maximum b.timestamp
                            optional s2)) [
                              | inl q ↦ absurd (ground arith)
                              | inr (o, q) ↦ (
                                r,
                                o,
                                record {
                                  transactions = ground arith;
                                  pack_size = ground arith;
                                  root = ground arith;
                                  extensions = ground arith;
                                  witness = ground arith;
                                  required_counted = rc;
                                  optional_counted =
                                      take_actions-IsCounted size r.total_block_size maximum low'
                                        wide pk.apply_optional_action skipped
                                        (λ s s' q. ground arith) action_sizes b.timestamp optional
                                        s2 o (start-IsCounted size r.total_block_size maximum r.db)
                                        q;
                                },
                              )
                            ]
                  ]
        ]

    apply_pending_transactions-inv :
        (percent base : ℕ) (reward : Option Transaction) (pending : List Transaction) (d : Database)
        → ((t : Transaction) → pk.transaction_size t < 2 ^ 63)
        → apply_pending_transactions st skip pk percent reward pending required optional b d
          ≡ some b'
        → base ≡ pk.block_size [] [] [] + 12
        → base < 2 ^ 34
        → partition_size percent d.properties < 2 ^ 32
        → d.properties.maximum_block_size < 2 ^ 32
        → (dr : Draft) × (r : Taken) × (o : Taken) × IsDraft st skip pk d base
            (partition_size percent d.properties)
            dr
          × IsMade d.properties.maximum_block_size dr r o
    unfolding apply_pending_transactions apply_transactions
    apply_pending_transactions-inv percent base reward pending d sizes made e small bounded wide =
        let limit = partition_size percent d.properties in
        let first : Draft = record {
          db = d;
          total_block_size = (pk.block_size [] [] [] + 12) % 2 ^ 64;
          transactions = [];
          postponed_tx_count = 0;
        } in
        let start : IsDraft st skip pk d base limit first = record {
          applied = refl;
          total = ground arith;
          fits = inl refl;
        } in
        elim (Option-cases (take_reward st skip pk limit reward first)) [
          | inl f ↦ absurd (ground arith)
          | inr (dr, f) ↦
              let mid =
                take_reward-IsDraft st skip pk d base limit sizes (omega (arith, small))
                  (omega (arith, bounded)) reward first dr start f in
              let end = take_pending st skip pk limit b.timestamp (is_some reward) pending dr in
              let draft =
                take_pending-IsDraft st skip pk d base limit sizes (omega (arith, small))
                  (omega (arith, bounded)) b.timestamp (is_some reward) pending dr mid in
              let (r, o, is_made) =
                add_actions-inv d.properties.maximum_block_size end
                  (draft_small base limit end draft small bounded) wide (ground arith) in
              (end, r, o, draft, is_made)
        ]

  module _ (pk : Packing) (sizes : (t : Transaction) → pk.transaction_size t < 2 ^ 63)
      (action_sizes : (a : Action) → pk.action_size a < 2 ^ 63)
      (counted : (ts : List Transaction) (required optional : List Action)
        → pk.block_size ts required optional
          ≤ pk.block_size [] [] []
            + 12
            + sum_of_sizes pk.transaction_size ts
            + sum_of_actions pk.action_size required
            + sum_of_actions pk.action_size optional)
      (percent : ℕ) (part : percent ≤ 10000) where
    block_fits :
        (d : Database) (dr : Draft) (r o : Taken)
        → d.properties.maximum_block_size < 2 ^ 32
        → pk.block_size [] [] [] ≤ d.properties.maximum_block_size
        → IsDraft st skip pk d
            (pk.block_size [] [] [] + 12)
            (partition_size percent d.properties)
            dr
        → IsCounted pk.action_size dr.total_block_size d.properties.maximum_block_size r
        → IsCounted pk.action_size r.total_block_size d.properties.maximum_block_size o
        → pk.block_size dr.transactions r.actions o.actions ≤ d.properties.maximum_block_size
    block_fits d dr r o wide empty i ri oi =
        let size = counted dr.transactions r.actions o.actions in
        let limit = partition_size-le percent d.properties part wide in
        elim oi.fits [
          | inr less ↦ omega (arith, less, size, i.total, ri.total, oi.total)
          | inl no_optional ↦
              let same : o.total_block_size ≡ r.total_block_size =
                oi.total ∙ rw no_optional (omega arith) in
              elim ri.fits [
                | inr less ↦ omega (arith, less, size, same, i.total, ri.total, oi.total)
                | inl no_required ↦
                    let same' : r.total_block_size ≡ dr.total_block_size =
                      ri.total ∙ rw no_required (omega arith) in
                    elim i.fits [
                      | inr less ↦
                          omega (arith, less, limit, size, same, same', i.total, ri.total, oi.total)
                      | inl none_yet ↦ rw (none_yet, no_required, no_optional) empty
                    ]
              ]
        ]

    -- The transactions that apply_pending_transactions puts in a block go through on the head state, one
    -- on another, and the block passes every check of _apply_block up to them, its size with that of
    -- its required and optional actions included, so that _apply_block comes to what follows the
    -- transactions. This is given that the block reports no version, its witness is known and runs the
    -- current one, the empty block is not too big, the maximum is below 2^32 and sizes of transactions
    -- and actions below 2^63, the percentage for required actions is at most 10000, and serialisation
    -- adds at most 12 bytes to the empty block besides transactions and actions.
    pub apply_pending_transactions-accepted :
        (reward : Option Transaction) (pending : List Transaction) (required optional : List Action)
        (b b' : SignedBlock) (w : Witness) (d : Database)
        → d.properties.maximum_block_size < 2 ^ 32
        → pk.block_size [] [] [] ≤ d.properties.maximum_block_size
        → b.extensions ≡ []
        → find_witness b.witness d ≡ some w
        → d.current_hardfork_version ≤ w.running_version
        → apply_pending_transactions st skip pk percent reward pending required optional b d
          ≡ some b'
        → (m : Database) × (apply_transactions st skip b'.transactions d ≡ some m)
          × (apply_block st skip b' d ≡ finish_block st skip b' m)
    unfolding apply_block
    apply_pending_transactions-accepted reward pending required optional b b' w d wide empty plain
          found current made =
        let limit = partition_size-le percent d.properties part wide in
        let (dr, r, o, i, is_made) =
          apply_pending_transactions-inv pk required optional b b' action_sizes percent
            (pk.block_size [] [] [] + 12) reward pending d sizes made refl
            (omega (arith, empty, wide)) (omega (arith, limit, wide)) wide in
        let ran : apply_transactions st skip b'.transactions d ≡ some dr.db =
          rw is_made.transactions i.applied in
        let header =
          check_header-accepts b' r.actions o.actions w d
            (is_made.root ∙ rw is_made.transactions refl)
            (rw is_made.pack_size
              (block_fits d dr r o wide empty i is_made.required_counted is_made.optional_counted))
            (is_made.extensions ∙ rw plain refl) (rw is_made.witness found) current in
        (dr.db, ran, rw (header, ran) refl)
