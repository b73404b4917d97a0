-- ===== src/Indexer/Polls.antt =====
-- Any number of polls of a node, whose chain may change between them.
use pearl_infra.Prelude.{
  ℕ, zero, suc, ◌+◌, ◌-◌, ◌≡◌, refl, inl, inr, String, Option, none, some, List, [], ◌∷◌, ltb,
  ◌===◌, string_eq, arith, eq_iff, Bool-cases, ===_sound, sym, ap, ◌∙◌,
}
use mathlib.Core.Path.{subst}
use pearl_infra.Prelude.Lists.{All}
use pearl_infra.Indexer.Blocks.{
  result_cases, PearlBlockSummary, SaveBlockResult, saved, duplicate, reorg, poll_heights,
  poll_once,
}
use pearl_infra.Indexer.Sink.{
  BlockRow, BlockStore, find_block, canonical_block, detach_height, insert_block,
  advance_next_height, set_next_height, is_indexed, store_block, detach_parent, check_parent,
  save_new_block, save_block,
}
use pearl_infra.Indexer.Linked.{IsLinked, SameHeight, next_from, indexed-between, save-IsLinked}

module _ (heights : String → ℕ) where
  -- A hash names one block, so one height: `heights`.
  abbrev pub SameHeights : List BlockRow → Type 0
  SameHeights rows = All (λ row. row.height ≡ heights row.hash) rows

  -- A node: the block that it returns for a height has that height.
  pub record Serves (block_at : ℕ → PearlBlockSummary) : Type 0 where
    pub at_height : (h : ℕ) → (block_at h).height ≡ h
    pub named : (h : ℕ) → heights (block_at h).hash ≡ h

  find-SameHeights :
      (block : PearlBlockSummary) (rows : List BlockRow)
      → heights block.hash ≡ block.height
      → SameHeights rows
      → SameHeight block rows
  unfolding find_block
  find-SameHeights block [] e s row f = ground arith
  find-SameHeights block (r ∷ rows) e s row f =
      ground (arith, eq_iff r.hash block.hash, find-SameHeights block rows e s.1 row)

  insert-SameHeights :
      (now : ℕ) (block : PearlBlockSummary) (rows : List BlockRow)
      → heights block.hash ≡ block.height
      → SameHeights rows
      → SameHeights (insert_block now block rows)
  unfolding insert_block
  insert-SameHeights now block [] e s = (sym e, tt)
  insert-SameHeights now block (r ∷ rows) e s = elim (Bool-cases (r.hash === block.hash)) [
    | inl same ↦ rw same (s.0 ∙ ap heights (===_sound r.hash block.hash same), s.1)
    | inr other ↦ rw other (s.0, insert-SameHeights now block rows e s.1)
  ]

  detach-SameHeights :
      (h : ℕ) (rows : List BlockRow) → SameHeights rows → SameHeights (detach_height h rows)
  unfolding detach_height
  detach-SameHeights h [] s = tt
  detach-SameHeights h (r ∷ rows) s = ground (arith, detach-SameHeights h rows s.1)

  -- What holds of the sink and the poller between two blocks, where indexing starts at `from`: the
  -- canonical blocks are one chain, and the poller's next height is the sink's.
  pub record IsSynced (from next : ℕ) (store : BlockStore) : Type 0 where
    pub chain : IsLinked from store
    pub heights_agree : SameHeights store.rows
    pub reached : next_from from store ≡ next

  -- The next height that the poller takes after a block.
  abbrev after_save : ℕ → SaveBlockResult → ℕ
  after_save height saved = height + 1
  after_save height duplicate = height + 1
  after_save height (reorg detached_from hash previous) = detached_from

  check-IsSynced :
      (from now h : ℕ) (found : Option BlockRow) (block : PearlBlockSummary) (store : BlockStore)
      → heights block.hash ≡ block.height
      → block.height ≡ suc h
      → IsSynced from block.height store
      → SameHeights (check_parent now h found block store).0.rows
        × (next_from from (check_parent now h found block store).0
            ≡ after_save block.height (check_parent now h found block store).1)
  unfolding check_parent store_block detach_parent advance_next_height set_next_height
  check-IsSynced from now h none block store e f s =
      (insert-SameHeights now block store.rows e s.heights_agree, ground (arith, s.reached))
  check-IsSynced from now h (some parent) block store e f s = ground (
    arith,
    s.reached,
    insert-SameHeights now block store.rows e s.heights_agree,
    detach-SameHeights h store.rows s.heights_agree,
  )

  save_new-IsSynced :
      (from now h : ℕ) (block : PearlBlockSummary) (store : BlockStore)
      → heights block.hash ≡ block.height
      → block.height ≡ h
      → IsSynced from block.height store
      → SameHeights (save_new_block now h block store).0.rows
        × (next_from from (save_new_block now h block store).0
            ≡ after_save block.height (save_new_block now h block store).1)
  unfolding save_new_block store_block advance_next_height
  save_new-IsSynced from now zero block store e f s =
      (insert-SameHeights now block store.rows e s.heights_agree, ground (arith, s.reached))
  save_new-IsSynced from now (suc h) block store e f s =
      check-IsSynced from now h (canonical_block h store.rows) block store e f s

  save-IsSynced :
      (from now : ℕ) (block : PearlBlockSummary) (store : BlockStore)
      → heights block.hash ≡ block.height
      → IsSynced from block.height store
      → IsSynced from
          (after_save block.height (save_block now block store).1)
          (save_block now block store).0
  save-IsSynced from now block store e s = record {
    chain =
        save-IsLinked from now block store (find-SameHeights block store.rows e s.heights_agree)
          s.chain (inl (sym s.reached));
    heights_agree = parts.0;
    reached = parts.1;
  }
    where
      parts :
          SameHeights (save_block now block store).0.rows
          × (next_from from (save_block now block store).0
              ≡ after_save block.height (save_block now block store).1)
      parts =
          unfold save_block advance_next_height in
          elim (Bool-cases (is_indexed block (find_block block.hash store.rows))) [
            | inl old ↦
                let between =
                  indexed-between from now block store
                    (find-SameHeights block store.rows e s.heights_agree) s.chain old in
                absurd (ground (arith, between, s.reached))
            | inr new ↦ rw new (save_new-IsSynced from now block.height block store e refl s)
          ]

  module _ (block_at : ℕ → PearlBlockSummary) (serves : Serves block_at)
      (now : PearlBlockSummary → ℕ) where
    abbrev save : PearlBlockSummary → BlockStore → BlockStore × SaveBlockResult
    save block store = save_block (now block) block store

    step-IsSynced :
        (from h : ℕ) (store : BlockStore)
        → IsSynced from h store
        → IsSynced from (after_save h (save (block_at h) store).1) (save (block_at h) store).0
    step-IsSynced from h store s =
        subst
          (λ k.
            IsSynced from (after_save k (save (block_at h) store).1) (save (block_at h) store).0)
          (serves.at_height h)
          (save-IsSynced from (now (block_at h)) (block_at h) store
            (serves.named h ∙ sym (serves.at_height h))
            (subst (λ k. IsSynced from k store) (sym (serves.at_height h)) s))

    loop-IsSynced :
        (first left from height indexed : ℕ) (store : BlockStore)
        → IsSynced first height store
        → IsSynced first
            (poll_heights block_at save left from height indexed store).1.next_height
            (poll_heights block_at save left from height indexed store).0
    unfolding poll_heights
    loop-IsSynced first zero from height indexed store s = s
    loop-IsSynced first (suc left) from height indexed store s =
        elim (result_cases (save (block_at height) store).1) [
          | inl e ↦
              rw (e, poll_heights)
                (loop-IsSynced first left from (height + 1) (indexed + 1) _
                  (rw e at (step-IsSynced first height store s)))
          | inr (inl e) ↦
              rw (e, poll_heights)
                (loop-IsSynced first left from (height + 1) indexed _
                  (rw e at (step-IsSynced first height store s)))
          | inr (inr (h, hash, previous, e)) ↦
              rw (e, poll_heights) (rw e at (step-IsSynced first height store s))
        ]

    pub poll-IsSynced :
        (first tip next : ℕ) (store : BlockStore)
        → IsSynced first next store
        → IsSynced first
            (poll_once block_at save tip next store).1.next_height
            (poll_once block_at save tip next store).0
    unfolding poll_once
    poll-IsSynced first tip next store s = elim (Bool-cases (ltb tip next)) [
      | inl e ↦ rw e s
      | inr e ↦ rw e (loop-IsSynced first (tip + 1 - next) next next 0 store s)
    ]

-- One poll: the node's tip and chain at that time, and the times of the transactions.
pub record Poll : Type 0 where
  pub tip : ℕ
  pub block_at : ℕ → PearlBlockSummary
  pub now : PearlBlockSummary → ℕ

-- The poller's next height and the sink, after each poll in turn.
unfoldable pub run_polls : List Poll → ℕ → BlockStore → ℕ × BlockStore
run_polls [] next store = (next, store)
run_polls (p ∷ polls) next store =
    let done = poll_once p.block_at (λ block. save_block (p.now block) block) p.tip next store in
    run_polls polls done.1.next_height done.0

-- Through any number of polls of a node, whose chain may be reorganised between any two of them,
-- the canonical blocks of the sink stay one hash-linked chain without gaps, from the height where
-- indexing started to the next height of the sink, which is the poller's own. A hash names one
-- block, hence one height, and a node returns for a height a block of that height.
pub polls_keep_chain :
    (heights : String → ℕ) (from : ℕ) (polls : List Poll) (next : ℕ) (store : BlockStore)
    → All (λ p. Serves heights p.block_at) polls
    → IsSynced heights from next store
    → IsSynced heights from (run_polls polls next store).0 (run_polls polls next store).1
unfolding run_polls
polls_keep_chain heights from [] next store h s = s
polls_keep_chain heights from (p ∷ polls) next store h s =
    polls_keep_chain heights from polls _ _ h.1
      (poll-IsSynced heights p.block_at h.0 p.now from p.tip next store s)
