-- ===== src/Indexer/Linked.antt =====
-- services/pearl-indexer/src/postgres-sink.ts, `saveBlock`: the chain of the canonical blocks.
use pearl_infra.Prelude.{
  ℕ, zero, suc, ◌+◌, ◌≤◌, ◌<◌, ◌≡◌, refl, ◌⊎◌, inl, inr, String, Option, none, some, List, [], ◌∷◌,
  true, false, leb, ltb, ◌==◌, ◌===◌, string_eq, if◌then◌else◌, or_default, arith, eq_iff,
  Bool-cases,
}
use pearl_infra.Indexer.Blocks.{PearlBlockSummary}
use pearl_infra.Indexer.Sink.{
  BlockRow, BlockStore, new_row, is_hash, find_block, canonical_block, detach_height, insert_block,
  advance_next_height, set_next_height, is_indexed, store_block, detach_parent, check_parent,
  save_new_block, save_block,
}

-- The next height of a sink that starts at the height `from`.
abbrev pub next_from : ℕ → BlockStore → ℕ
next_from from store = or_default store.next_height from

-- The canonical blocks are one chain from the height `from` on: there is one at every height from
-- there to the next height and none elsewhere, and each names the one below it as its parent.
pub record IsLinked (from : ℕ) (store : BlockStore) : Type 0 where
  pub starts : from ≤ next_from from store
  pub below : (h : ℕ) → h < from → canonical_block h store.rows ≡ none
  pub above : (h : ℕ) → next_from from store ≤ h → canonical_block h store.rows ≡ none
  pub unbroken :
      (h : ℕ) → from ≤ h → h < next_from from store → ¬ (canonical_block h store.rows ≡ none)
  pub linked :
      (h : ℕ) (child parent : BlockRow)
      → canonical_block (suc h) store.rows ≡ some child
      → canonical_block h store.rows ≡ some parent
      → child.previous_hash ≡ some parent.hash

pub canonical-detach :
    (k h : ℕ) (rows : List BlockRow)
    → canonical_block k (detach_height h rows) ≡ (if k == h then none else canonical_block k rows)
unfolding canonical_block detach_height
canonical-detach k h [] = ground arith
canonical-detach k h (row ∷ rows) = ground (arith, canonical-detach k h rows)

-- A block hash names one block, so also one height.
abbrev pub SameHeight : PearlBlockSummary → List BlockRow → Type 0
SameHeight block rows =
    (row : BlockRow) → find_block block.hash rows ≡ some row → row.height ≡ block.height

canonical-insert_ne :
    (now k : ℕ) (block : PearlBlockSummary) (rows : List BlockRow)
    → SameHeight block rows
    → k == block.height ≡ false
    → canonical_block k (insert_block now block rows) ≡ canonical_block k rows
unfolding canonical_block insert_block find_block
canonical-insert_ne now k block [] s h = ground arith
canonical-insert_ne now k block (row ∷ rows) s h = elim (Bool-cases (row.hash === block.hash)) [
  | inl e ↦ ground (arith, s row)
  | inr e ↦ ground (arith, canonical-insert_ne now k block rows (λ r f. s r (ground arith)) h)
]

canonical-insert_self :
    (now : ℕ) (block : PearlBlockSummary) (rows : List BlockRow)
    → SameHeight block rows
    → canonical_block block.height rows ≡ none
    → canonical_block block.height (insert_block now block rows) ≡ some (new_row now block)
unfolding canonical_block insert_block find_block
canonical-insert_self now block [] s h = ground arith
canonical-insert_self now block (row ∷ rows) s h = elim (Bool-cases (row.hash === block.hash)) [
  | inl e ↦ ground (arith, s row)
  | inr e ↦ ground (arith, canonical-insert_self now block rows (λ r f. s r (ground arith)))
]

-- A block that is indexed already is canonical at its height.
indexed-canonical :
    (block : PearlBlockSummary) (rows : List BlockRow)
    → is_indexed block (find_block block.hash rows) ≡ true
    → ¬ (canonical_block block.height rows ≡ none)
unfolding is_indexed find_block canonical_block
indexed-canonical block [] i n = ground arith
indexed-canonical block (row ∷ rows) i n = elim (Bool-cases (row.hash === block.hash)) [
  | inl e ↦ ground arith
  | inr e ↦ indexed-canonical block rows (ground arith) (ground arith)
]

module _ (from now : ℕ) (block : PearlBlockSummary) (store : BlockStore)
    (same : SameHeight block store.rows) (valid : IsLinked from store) where
  canonical-stored :
      (k : ℕ)
      → block.height ≡ next_from from store
      → canonical_block k (insert_block now block store.rows)
        ≡ (if k == block.height then some (new_row now block) else canonical_block k store.rows)
  canonical-stored k reached = elim (Bool-cases (k == block.height)) [
    | inl e ↦
        let at : k ≡ block.height = ground arith in
        rw (e, at)
          (canonical-insert_self now block store.rows same
            (valid.above block.height (ground arith)))
    | inr e ↦ rw e (canonical-insert_ne now k block store.rows same e)
  ]

  -- The parent that is canonical, if there is one, is the parent that the block names.
  store-IsLinked :
      block.height ≡ next_from from store
      → ((h : ℕ) (parent : BlockRow)
          → block.height ≡ suc h
          → canonical_block h store.rows ≡ some parent
          → block.previous_hash ≡ some parent.hash)
      → IsLinked from (store_block now block store).0
  unfolding store_block advance_next_height
  store-IsLinked reached fits = record {
    starts = ground (arith, valid.starts);
    below = λ h le. rw (canonical-stored h reached) (ground (arith, valid.starts, valid.below h));
    above = λ h le. rw (canonical-stored h reached) (ground (arith, valid.above h));
    unbroken =
        λ h le lt none_at. ground (arith, canonical-stored h reached, none_at, valid.unbroken h);
    linked = λ h child parent ec ep. ground (
      arith,
      canonical-stored h reached,
      canonical-stored (suc h) reached,
      valid.above (suc h),
      valid.linked h child parent,
      fits h parent,
    );
  }

  detach-IsLinked :
      (h : ℕ) (parent : BlockRow)
      → block.height ≡ suc h
      → block.height ≡ next_from from store
      → canonical_block h store.rows ≡ some parent
      → IsLinked from (detach_parent h parent block store).0
  unfolding detach_parent set_next_height
  detach-IsLinked h parent e reached at = record {
    starts = ground (arith, at, valid.below h);
    below = λ k le. rw (canonical-detach k h store.rows) (ground (arith, valid.below k));
    above = λ k le. rw (canonical-detach k h store.rows) (ground (arith, valid.above k));
    unbroken = λ k le lt none_at.
        ground (arith, none_at, canonical-detach k h store.rows, valid.unbroken k);
    linked = λ k child other ec eo.
        valid.linked k child other (ground (arith, canonical-detach (suc k) h store.rows))
          (ground (arith, canonical-detach k h store.rows));
  }

  subst_height :
      (h k : ℕ) (row : BlockRow)
      → block.height ≡ suc h
      → block.height ≡ suc k
      → canonical_block k store.rows ≡ some row
      → canonical_block h store.rows ≡ some row
  subst_height h k row e f c = let same_height : h ≡ k = omega arith in rw same_height c

  is_hash_sound :
      (hash : String) (previous : Option String)
      → is_hash hash previous ≡ true
      → previous ≡ some hash
  is_hash_sound hash none e = cc
  is_hash_sound hash (some p) e = ground (arith, eq_iff hash p)

  check-IsLinked :
      (h : ℕ) (found : Option BlockRow)
      → block.height ≡ suc h
      → canonical_block h store.rows ≡ found
      → block.height ≡ next_from from store
      → IsLinked from (check_parent now h found block store).0
  unfolding check_parent
  check-IsLinked h none e f reached =
      store-IsLinked reached
        (λ k parent ek ep. absurd (ground (arith, subst_height h k parent e ek ep, f)))
  check-IsLinked h (some parent) e f reached =
      elim (Bool-cases (is_hash parent.hash block.previous_hash)) [
        | inl fits ↦ rw fits (
            store-IsLinked reached (λ k other ek ep. ground (
              arith,
              is_hash_sound parent.hash block.previous_hash fits,
              subst_height h k other e ek ep,
            )))
        | inr broken ↦ rw broken (detach-IsLinked h parent e reached f)
      ]

  save_new-IsLinked :
      (h : ℕ)
      → block.height ≡ h
      → block.height ≡ next_from from store
      → IsLinked from (save_new_block now h block store).0
  unfolding save_new_block
  save_new-IsLinked zero e reached = store-IsLinked reached (λ k parent ek ep. absurd (omega arith))
  save_new-IsLinked (suc h) e reached =
      check-IsLinked h (canonical_block h store.rows) e refl reached

  -- A block that is canonical already is between the first and the next height.
  pub indexed-between :
      is_indexed block (find_block block.hash store.rows) ≡ true
      → (from ≤ block.height) × (block.height < next_from from store)
  indexed-between old =
      let there = indexed-canonical block store.rows old in
      (
        elim (Bool-cases (ltb block.height from)) [
          | inl e ↦ absurd (there (valid.below block.height (ground arith)))
          | inr e ↦ ground arith
        ],
        elim (Bool-cases (leb (next_from from store) block.height)) [
          | inl e ↦ absurd (there (valid.above block.height (ground arith)))
          | inr e ↦ ground arith
        ],
      )

  duplicate-IsLinked :
      is_indexed block (find_block block.hash store.rows) ≡ true
      → IsLinked from (advance_next_height (block.height + 1) store)
  unfolding advance_next_height
  duplicate-IsLinked old = record {
    starts = ground (arith, valid.starts, indexed-between old);
    below = valid.below;
    above = λ h le. valid.above h (ground (arith, indexed-between old));
    unbroken = λ h le lt. valid.unbroken h le (ground (arith, indexed-between old));
    linked = valid.linked;
  }

  -- On a sink whose canonical blocks are one hash-linked chain without gaps, from a first height
  -- to the next height, saving the block of the next height, or one that is indexed already, keeps
  -- them such a chain, also where the block does not fit its parent and the parent is detached. A
  -- row with the block's hash has the block's height.
  pub save-IsLinked :
      (block.height ≡ next_from from store)
        ⊎ (is_indexed block (find_block block.hash store.rows) ≡ true)
      → IsLinked from (save_block now block store).0
  unfolding save_block
  save-IsLinked reached = elim (Bool-cases (is_indexed block (find_block block.hash store.rows))) [
    | inl old ↦ rw old (duplicate-IsLinked old)
    | inr new ↦ rw new (save_new-IsLinked block.height refl (ground arith))
  ]
