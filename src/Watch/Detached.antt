-- ===== src/Watch/Detached.antt =====
-- services/pearl-indexer/src/funding-scanner.ts, `saveBlock`: what a reorg leaves of the detached
-- block's observations, and what an exception in the scan leaves of the block.
use pearl_infra.Prelude.{
  ℕ, zero, suc, String, ◌≡◌, inl, inr, refl, some, none, Option, List, [], ◌∷◌, true, false, ◌&&◌,
  ◌===◌, string_eq, arith, eq_iff, Bool-cases, or_default,
}
use pearl_infra.Prelude.Lists.{All}
use pearl_infra.Prelude.Map.{get}
use pearl_infra.Prelude.Dates.{Timestamp}
use pearl_infra.Indexer.Blocks.{PearlBlockSummary, saved, reorg, duplicate, result_cases}
use pearl_infra.Indexer.Sink.{
  BlockRow, BlockStore, find_block, insert_block, save_block, save_new_block, check_parent,
  store_block, is_hash, detach_parent, canonical_block, is_indexed, advance_next_height,
}
use pearl_infra.Watch.Types.{PearlNetwork, AddressObservation}
use pearl_infra.Watch.Repository.{
  WatchRepository, is_live, detach_list, detach_observations_for_block, observations_of,
}
use pearl_infra.Watch.Scanner.{ScannerState, save_scanned_block}
use pearl_infra.Watch.Wells.{detached_list, get-detach}

abbrev pub IsGone : String → AddressObservation → Type 0
IsGone hash o = ((o.block_hash === hash) && is_live o) ≡ false

detach-IsGone :
    (hash : String) (list : List AddressObservation) → All (IsGone hash) (detach_list hash list).0
unfolding detach_list
detach-IsGone hash [] = tt
detach-IsGone hash (o ∷ list) = elim (Bool-cases ((o.block_hash === hash) && is_live o)) [
  | inl e ↦ rw (detach_list, e) (ground arith, detach-IsGone hash list)
  | inr e ↦ rw (detach_list, e) (e, detach-IsGone hash list)
]

detached-IsGone :
    (hash id : String) (repo : WatchRepository)
    → All (IsGone hash) (observations_of id (detach_observations_for_block hash repo).0)
unfolding detach_observations_for_block
detached-IsGone hash id repo =
    rw (detach_observations_for_block, get-detach hash id repo.observations)
      (go (get id repo.observations))
  where
    go :
        (list : Option (List AddressObservation))
        → All (IsGone hash) (or_default (detached_list hash list) [])
    go none = tt
    go (some list) = detach-IsGone hash list

-- Where a block makes the sink detach another one, no watch keeps a live observation of the
-- detached block. A block's hash is not empty.
pub reorg_detaches :
    (parse_date : String → Timestamp) (stored_at : ℕ) (now : String) (network : PearlNetwork)
    (block : PearlBlockSummary) (s : ScannerState) (height : ℕ) (hash : String)
    (previous : Option String) (id : String)
    → (hash === "") ≡ false
    → (save_scanned_block parse_date stored_at now network block s).1
      ≡ some (reorg height hash previous)
    → All
        (IsGone hash)
        (observations_of id (save_scanned_block parse_date stored_at now network block s).0.repo)
unfolding save_scanned_block
reorg_detaches parse_date stored_at now network block s height hash previous id h e =
    elim (result_cases (save_block stored_at block s.store).1) [
      | inl f ↦ absurd (ground (arith, e, f))
      | inr (inl f) ↦ absurd (ground (arith, e, f))
      | inr (inr (height', hash', previous', f)) ↦
          let same : hash' ≡ hash = ground (arith, e, f) in
          rw (save_scanned_block, f, same, h) (detached-IsGone hash id s.repo)
    ]

-- The row of a block after it is inserted.
abbrev pub HeightOf : PearlBlockSummary → List BlockRow → Type 0
HeightOf block rows =
    (row : BlockRow) → find_block block.hash rows ≡ some row → row.height ≡ block.height

insert_indexed :
    (now : ℕ) (block : PearlBlockSummary) (rows : List BlockRow)
    → HeightOf block rows
    → is_indexed block (find_block block.hash (insert_block now block rows)) ≡ true
unfolding find_block insert_block is_indexed
insert_indexed now block [] h = ground (arith, eq_iff block.hash block.hash)
insert_indexed now block (row ∷ rows) h = elim (Bool-cases (row.hash === block.hash)) [
  | inl e ↦ ground (arith, e, h row, eq_iff block.hash block.hash)
  | inr e ↦
      rw (insert_block, e, find_block, e)
        (insert_indexed now block rows (λ r f. h r (ground (arith, e, f))))
]

check_rows :
    (now height : ℕ) (parent : Option BlockRow) (block : PearlBlockSummary) (store : BlockStore)
    → (check_parent now height parent block store).1 ≡ saved
    → (check_parent now height parent block store).0.rows ≡ insert_block now block store.rows
unfolding check_parent store_block detach_parent advance_next_height
check_rows now height none block store e = refl
check_rows now height (some parent) block store e =
    elim (Bool-cases (is_hash parent.hash block.previous_hash)) [
      | inl f ↦ rw (check_parent, f) refl
      | inr f ↦ absurd (ground (arith, e, f))
    ]

new_rows :
    (now height : ℕ) (block : PearlBlockSummary) (store : BlockStore)
    → (save_new_block now height block store).1 ≡ saved
    → (save_new_block now height block store).0.rows ≡ insert_block now block store.rows
unfolding save_new_block store_block advance_next_height
new_rows now zero block store e = refl
new_rows now (suc height) block store e =
    check_rows now height (canonical_block height store.rows) block store e

saved_rows :
    (now : ℕ) (block : PearlBlockSummary) (store : BlockStore)
    → (save_block now block store).1 ≡ saved
    → (save_block now block store).0.rows ≡ insert_block now block store.rows
unfolding save_block
saved_rows now block store e =
    elim (Bool-cases (is_indexed block (find_block block.hash store.rows))) [
      | inl f ↦ absurd (ground (arith, e, f))
      | inr f ↦ rw (save_block, f) (new_rows now block.height block store (ground (arith, e, f)))
    ]

indexed_duplicate :
    (later : ℕ) (block : PearlBlockSummary) (store : BlockStore)
    → is_indexed block (find_block block.hash store.rows) ≡ true
    → (save_block later block store).1 ≡ duplicate
unfolding save_block
indexed_duplicate later block store i = ground (arith, i)

save_again :
    (now later : ℕ) (block : PearlBlockSummary) (store : BlockStore)
    → HeightOf block store.rows
    → (save_block now block store).1 ≡ saved
    → (save_block later block (save_block now block store).0).1 ≡ duplicate
save_again now later block store h e =
    indexed_duplicate later block (save_block now block store).0
      (rw (saved_rows now block store e) (insert_indexed now block store.rows h))

module _ (parse_date : String → Timestamp) (stored_at : ℕ) (now : String) (network : PearlNetwork)
    (block : PearlBlockSummary) (s : ScannerState) where
  duplicate_skips :
      (save_block stored_at block s.store).1 ≡ duplicate
      → ((save_scanned_block parse_date stored_at now network block s).1 ≡ some duplicate)
        × ((save_scanned_block parse_date stored_at now network block s).0.repo ≡ s.repo)
  unfolding save_scanned_block
  duplicate_skips e = rw (save_scanned_block, e) (refl, refl)

  failed_store :
      (save_scanned_block parse_date stored_at now network block s).1 ≡ none
      → ((save_block stored_at block s.store).1 ≡ saved)
        × ((save_scanned_block parse_date stored_at now network block s).0.store
            ≡ (save_block stored_at block s.store).0)
  unfolding save_scanned_block
  failed_store e = elim (result_cases (save_block stored_at block s.store).1) [
    | inl f ↦ (f, rw (save_scanned_block, f) refl)
    | inr (inl f) ↦ absurd (ground (arith, e, f))
    | inr (inr (height, hash, previous, f)) ↦ absurd (ground (arith, e, f))
  ]

-- A block whose scan throws stays in the blocks table: when the poller delivers it again, it is a
-- duplicate, and nothing of it is scanned. A row under the block's hash has the block's height.
pub failed_scan_is_lost :
    (parse_date : String → Timestamp) (stored_at later : ℕ) (now now_again : String)
    (network : PearlNetwork) (block : PearlBlockSummary) (s : ScannerState)
    → HeightOf block s.store.rows
    → (save_scanned_block parse_date stored_at now network block s).1 ≡ none
    → let failed = (save_scanned_block parse_date stored_at now network block s).0 in
      let again = save_scanned_block parse_date later now_again network block failed in
      (again.1 ≡ some duplicate) × (again.0.repo ≡ failed.repo)
failed_scan_is_lost parse_date stored_at later now now_again network block s h e =
    let (f, kept) = failed_store parse_date stored_at now network block s e in
    duplicate_skips parse_date later now_again network block _
      (rw kept (save_again stored_at later block s.store h f))
