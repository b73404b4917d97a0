-- ===== src/Watch/Scanner.antt =====
-- services/pearl-indexer/src/funding-scanner.ts, `FundingScannerSink` around the sink of the blocks
-- table. What it logs is left out. `now` is the time of the watch repository's calls.
use pearl_infra.Prelude.{
  ℕ, String, some, none, Option, List, [], ◌∷◌, Bool, true, false, not, ◌&&◌, ◌===◌, string_eq,
  if◌then◌else◌,
}
use pearl_infra.Prelude.Lists.{filter, any}
use pearl_infra.Prelude.Text.{show, concat}
use pearl_infra.Prelude.Dates.{Timestamp}
use pearl_infra.Indexer.Blocks.{
  PearlBlockInput, PearlBlockOutput, PearlBlockSummary, SaveBlockResult, saved, reorg,
}
use pearl_infra.Indexer.Blocks
use pearl_infra.Indexer.Sink.{BlockStore, save_block}
use pearl_infra.Watch.Types.{PearlNetwork, AddressObservation, WatchedAddress, ObservedOutpoint}
use pearl_infra.Watch.Repository.{
  WatchRepository, get_watch, find_active_by_address, is_live, RecordObservationInput,
  RecordSpendInput, record_observation, find_observed_outpoint, record_spend, advance_confirmations,
  detach_observations_for_block,
}
use pearl_infra.Watch.Funding.{duplicate, classification_name, classify_funding}
use pearl_infra.Watch.SpendKinds.{classify_spend, spend_name}

abbrev pub outpoint_of : PearlBlockOutput → String
outpoint_of output = concat (output.txid ∷ ":" ∷ show output.vout ∷ [])

abbrev pub is_prior : String → AddressObservation → Bool
is_prior outpoint o = not (o.outpoint === outpoint) && is_live o

unfoldable pub has_prior_live_observation : WatchedAddress → String → WatchRepository → Bool
has_prior_live_observation watch outpoint repo = elim (get_watch watch.watch_id repo) [
  | none ↦ false
  | some history ↦ any (is_prior outpoint) history.observations
]

-- The sink's state: the blocks table and the watch repository.
pub record ScannerState : Type 0 where
  pub store : BlockStore
  pub repo : WatchRepository

abbrev spend_input : PearlBlockSummary → String → String → ObservedOutpoint → RecordSpendInput
spend_input block txid outpoint observed =
    let classified =
      classify_spend observed.watch txid outpoint
        (filter (λ output. output.txid === txid) block.outputs) in
    record {
      spend_txid = txid;
      spent_outpoint = outpoint;
      block_hash = block.hash;
      height = block.height;
      classification = spend_name classified.classification;
      classification_data = some classified.classification_data;
    }

-- One input: `!input.spentOutpoint` is that of a coinbase.
unfoldable pub scan_input :
    String → PearlBlockSummary → String → Option String → WatchRepository → WatchRepository
scan_input now block txid none repo = repo
scan_input now block txid (some outpoint) repo =
    if outpoint === "" then repo else elim (find_observed_outpoint outpoint repo) [
      | none ↦ repo
      | some observed ↦ (record_spend now (spend_input block txid outpoint observed) repo).0
    ]

unfoldable pub scan_spends :
    String → PearlBlockSummary → List PearlBlockInput → WatchRepository → WatchRepository
scan_spends now block [] repo = repo
scan_spends now block (input ∷ inputs) repo =
    scan_spends now block inputs (scan_input now block input.txid input.spent_outpoint repo)

module _ (parse_date : String → Timestamp) where
  -- `none` where `classifyFunding` throws.
  unfoldable pub verdict :
      PearlBlockOutput → PearlBlockSummary → WatchedAddress → WatchRepository → Option String
  verdict output block watch repo =
      if has_prior_live_observation watch (outpoint_of output) repo
      then some (classification_name duplicate)
      else elim (classify_funding parse_date output block watch) [
        | none ↦ none
        | some classification ↦ some (classification_name classification)
      ]

  abbrev pub observation_input :
      PearlBlockOutput → PearlBlockSummary → WatchedAddress → String → RecordObservationInput
  observation_input output block watch classification = record {
    outpoint = outpoint_of output;
    watch_id = watch.watch_id;
    block_hash = block.hash;
    height = block.height;
    amount_grains = output.amount_grains;
    classification = classification;
  }

  -- The watches of one output's address. `false` says that the scan threw, with what was written
  -- before it.
  unfoldable pub scan_watches :
      String
      → PearlBlockOutput
      → PearlBlockSummary
      → List WatchedAddress
      → WatchRepository
      → WatchRepository × Bool
  scan_watches now output block [] repo = (repo, true)
  scan_watches now output block (watch ∷ watches) repo = elim (verdict output block watch repo) [
    | none ↦ (repo, false)
    | some classification ↦
        scan_watches now output block watches
          (record_observation now (observation_input output block watch classification) repo)
  ]

  abbrev pub scan_output :
      String
      → PearlNetwork
      → PearlBlockSummary
      → PearlBlockOutput
      → Option String
      → WatchRepository
      → WatchRepository × Bool
  scan_output now network block output none repo = (repo, true)
  scan_output now network block output (some address) repo =
      if address === ""
      then (repo, true)
      else scan_watches now output block (find_active_by_address network address repo) repo

  unfoldable pub scan_outputs :
      String
      → PearlNetwork
      → PearlBlockSummary
      → List PearlBlockOutput
      → WatchRepository
      → WatchRepository × Bool
  scan_outputs now network block [] repo = (repo, true)
  scan_outputs now network block (output ∷ outputs) repo =
      let done = scan_output now network block output output.script_pub_key.address repo in
      elim done.1 [ false ↦ done | true ↦ scan_outputs now network block outputs done.0 ]

  -- What follows the storing of a new block.
  unfoldable pub scan_block :
      String → PearlNetwork → PearlBlockSummary → WatchRepository → WatchRepository × Bool
  scan_block now network block repo =
      let found = scan_outputs now network block block.outputs repo in
      elim found.1 [
        | false ↦ found
        | true ↦
            let spent = scan_spends now block block.inputs found.0 in
            ((advance_confirmations block.height spent).0, true)
      ]

  abbrev pub detach_reorged : String → WatchRepository → WatchRepository
  detach_reorged indexed_hash repo =
      if indexed_hash === "" then repo else (detach_observations_for_block indexed_hash repo).0

  -- `saveBlock`; `none` is the exception, which leaves the block stored. `stored_at` is the time of
  -- the blocks table.
  unfoldable pub save_scanned_block :
      ℕ
      → String
      → PearlNetwork
      → PearlBlockSummary
      → ScannerState
      → ScannerState × Option SaveBlockResult
  save_scanned_block stored_at now network block s =
      let done = save_block stored_at block s.store in
      elim done.1 [
        | reorg height indexed_hash previous ↦ (
          record { store = done.0; repo = detach_reorged indexed_hash s.repo },
          some (reorg height indexed_hash previous),
        )
        | Blocks.duplicate ↦ (record { store = done.0; repo = s.repo }, some Blocks.duplicate)
        | saved ↦
            let scanned = scan_block now network block s.repo in
            (record { store = done.0; repo = scanned.0 }, if scanned.1 then some saved else none)
      ]
