-- ===== src/Indexer/Sink.antt =====
-- services/pearl-indexer/src/postgres-sink.ts: the blocks table, one function for each statement
-- that the sink sends to it. Each call is one transaction, at the time `now`.
use pearl_infra.Prelude.{
  ℕ, zero, suc, ◌+◌, String, Option, none, some, List, [], ◌∷◌, Bool, true, false, not, ◌&&◌, ltb,
  leb, ◌==◌, ◌===◌, string_eq, if◌then◌else◌, or_default,
}
use pearl_infra.Prelude.Dates.{Timestamp}
use pearl_infra.Indexer.Blocks.{PearlBlockSummary, SaveBlockResult, saved, duplicate, reorg}

pub record BlockRow : Type 0 where
  pub hash : String
  pub height : ℕ
  pub previous_hash : Option String
  pub timestamp : Timestamp
  pub txids : List String
  pub detached : Bool
  pub indexed_at : ℕ

-- `pearl_blocks`, and the row `next_height` of `indexer_state`.
pub record BlockStore : Type 0 where
  pub rows : List BlockRow
  pub next_height : Option ℕ

-- SELECT height, detached FROM pearl_blocks WHERE hash = $1
unfoldable pub find_block : String → List BlockRow → Option BlockRow
find_block hash [] = none
find_block hash (row ∷ rows) = if row.hash === hash then some row else find_block hash rows

abbrev pub is_canonical_at : ℕ → BlockRow → Bool
is_canonical_at height row = not row.detached && row.height == height

abbrev pub later_row : BlockRow → Option BlockRow → BlockRow
later_row row none = row
later_row row (some other) = if leb other.indexed_at row.indexed_at then row else other

-- SELECT hash … WHERE height = $1 AND detached = false ORDER BY indexed_at DESC LIMIT 1
unfoldable pub canonical_block : ℕ → List BlockRow → Option BlockRow
canonical_block height [] = none
canonical_block height (row ∷ rows) =
    if is_canonical_at height row
    then some (later_row row (canonical_block height rows))
    else canonical_block height rows

-- UPDATE pearl_blocks SET detached = true WHERE height = $1 AND detached = false
unfoldable pub detach_height : ℕ → List BlockRow → List BlockRow
detach_height height [] = []
detach_height height (row ∷ rows) =
    (if is_canonical_at height row then record row { detached = true } else row)
    ∷ detach_height height rows

abbrev pub new_row : ℕ → PearlBlockSummary → BlockRow
new_row now block = record {
  hash = block.hash;
  height = block.height;
  previous_hash = block.previous_hash;
  timestamp = block.timestamp;
  txids = block.txids;
  detached = false;
  indexed_at = now;
}

-- INSERT … ON CONFLICT (hash) DO UPDATE: the height of a row that is there is kept.
unfoldable pub insert_block : ℕ → PearlBlockSummary → List BlockRow → List BlockRow
insert_block now block [] = new_row now block ∷ []
insert_block now block (row ∷ rows) =
    if row.hash === block.hash
    then record (new_row now block) { height = row.height } ∷ rows
    else row ∷ insert_block now block rows

abbrev pub greatest : ℕ → Option ℕ → ℕ
greatest candidate none = candidate
greatest candidate (some height) = if ltb height candidate then candidate else height

unfoldable pub advance_next_height : ℕ → BlockStore → BlockStore
advance_next_height candidate store = record store {
  next_height = some (greatest candidate store.next_height);
}

unfoldable pub set_next_height : ℕ → BlockStore → BlockStore
set_next_height height store = record store { next_height = some height }

-- Whether this block is indexed at its height and not detached.
unfoldable pub is_indexed : PearlBlockSummary → Option BlockRow → Bool
is_indexed block none = false
is_indexed block (some row) = not row.detached && row.height == block.height

abbrev pub is_hash : String → Option String → Bool
is_hash hash none = false
is_hash hash (some previous) = hash === previous

-- The block is stored: the last part of `saveBlock`.
unfoldable pub store_block : ℕ → PearlBlockSummary → BlockStore → BlockStore × SaveBlockResult
unfolding insert_block advance_next_height
store_block now block store = (
  advance_next_height (block.height + 1)
      (record store { rows = insert_block now block store.rows }),
  saved,
)

-- The parent that is indexed is not the block's parent.
unfoldable pub detach_parent :
    ℕ → BlockRow → PearlBlockSummary → BlockStore → BlockStore × SaveBlockResult
unfolding detach_height set_next_height
detach_parent height parent block store = (
  set_next_height height (record store { rows = detach_height height store.rows }),
  reorg height parent.hash block.previous_hash,
)

-- The reorg check against the canonical block at `height`.
unfoldable pub check_parent :
    ℕ → ℕ → Option BlockRow → PearlBlockSummary → BlockStore → BlockStore × SaveBlockResult
unfolding store_block detach_parent
check_parent now height none block store = store_block now block store
check_parent now height (some parent) block store =
    if is_hash parent.hash block.previous_hash
    then store_block now block store
    else detach_parent height parent block store

unfoldable pub save_new_block :
    ℕ → ℕ → PearlBlockSummary → BlockStore → BlockStore × SaveBlockResult
unfolding check_parent canonical_block
save_new_block now zero block store = store_block now block store
save_new_block now (suc height) block store =
    check_parent now height (canonical_block height store.rows) block store

unfoldable pub save_block : ℕ → PearlBlockSummary → BlockStore → BlockStore × SaveBlockResult
unfolding save_new_block find_block is_indexed
save_block now block store =
    if is_indexed block (find_block block.hash store.rows)
    then (advance_next_height (block.height + 1) store, duplicate)
    else save_new_block now block.height block store

-- A detached row with no canonical row at its height: these heights are replayed.
unfoldable pub lowest_replay : List BlockRow → List BlockRow → Option ℕ
unfolding canonical_block
lowest_replay all [] = none
lowest_replay all (row ∷ rows) =
    let rest = lowest_replay all rows in
    elim (canonical_block row.height all) [
      | some canonical ↦ rest
      | none ↦
          if row.detached
          then some (elim rest [
            | none ↦ row.height
            | some h ↦ if ltb h row.height then h else row.height
          ])
          else rest
    ]

unfoldable pub load_next_height : ℕ → BlockStore → ℕ
unfolding lowest_replay
load_next_height default_value store =
    let persisted = or_default store.next_height default_value in
    elim (lowest_replay store.rows store.rows) [
      | none ↦ persisted
      | some replay ↦ if ltb replay persisted then replay else persisted
    ]
