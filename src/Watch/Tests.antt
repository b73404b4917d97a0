-- ===== src/Watch/Tests.antt =====
-- The theorems about the watch repository and the scanner on one watch and a few blocks.
use pearl_infra.Prelude.{ℕ, ◌≤◌, String, ◌≡◌, refl, some, none, List, [], ◌∷◌, true, false, arith}
use pearl_infra.Prelude.Lists.{All, length}
use pearl_infra.Prelude.Map.{get, set, values}
use pearl_infra.Prelude.Digits.{digits_value}
use pearl_infra.Prelude.BigInts.{codes, big_int}
use pearl_infra.Prelude.Dates.{Timestamp}
use pearl_infra.Prelude.Int.{pos}
use pearl_infra.Prelude.Text.{show, concat}
use pearl_infra.Indexer.Blocks.{PearlBlockOutput, PearlBlockSummary, duplicate, reorg}
use pearl_infra.Indexer.Sink.{
  BlockRow, find_block, insert_block, canonical_block, save_block, save_new_block, check_parent,
  store_block, detach_parent, detach_height, set_next_height, advance_next_height, is_indexed,
}
use pearl_infra.Watch.Types.{
  otc_escrow, mainnet, WatchedAddress, active, text_value, number_value, RegisterWatchInput,
  pending,
}
use pearl_infra.Watch.Repository.{
  register, registered, close, RecordObservationInput, record_observation, record_in,
  advance_confirmations, advance_watches, advance_list, replace_list, observations_of, get_watch,
}
use pearl_infra.Watch.Funding.{classify_funding, read_string_metadata, read_number_metadata}
use pearl_infra.Watch.SpendKinds.{
  release, to_release, to_refund, classify_escrow_spend, classify_by_expected_txid,
  output_matches_expected, read_expected_outputs, read_direct_spend_amount_bounds, read_outputs,
  output_amount_matches, first_match, present,
}
use pearl_infra.Watch.Scanner.{
  ScannerState, save_scanned_block, scan_block, scan_outputs, scan_watches, scan_spends, verdict,
  has_prior_live_observation,
}
use pearl_infra.Watch.Tidy.{counted_of}
use pearl_infra.Watch.Counted.{
  ScannerCall, register_call, close_call, block_call, run_calls, empty_repository, empty-IsWell,
  run_calls-IsWell, one_payment_counted,
}
use pearl_infra.Watch.Confirmed.{IsCurrent, advance_exact}
use pearl_infra.Watch.Detached.{IsGone, reorg_detaches, failed_scan_is_lost}
use pearl_infra.Watch.Verdicts.{Matched, Missed, release_sound}
use pearl_infra.Watch.Terms.{KeepsTerms, register_agrees, watch_terms_stay}
use pearl_infra.Watch.Replay.{record_replay}

abbrev no_date : String → Timestamp
no_date text = none

abbrev request : RegisterWatchInput
request = record {
  watch_id = "w1";
  purpose = otc_escrow;
  network = mainnet;
  address = "prl1escrow";
  required_confirmations = 2;
  metadata = some (
      ("expected_amount_grains", text_value "500")
      ∷ ("expiry_height", number_value 90)
      ∷ ("release_address", text_value "prl1buyer")
      ∷ ("release_amount_min_grains", text_value "1")
      ∷ ("release_amount_max_grains", text_value "500")
      ∷ []);
}

abbrev paid_to : String → String → String → PearlBlockOutput
paid_to txid address amount = record {
  txid = txid;
  vout = 0;
  amount_grains = amount;
  script_pub_key = record { hex = ""; script_type = none; address = some address };
}

abbrev block_of : String → ℕ → List PearlBlockOutput → PearlBlockSummary
block_of hash height outputs = record {
  hash = hash;
  height = height;
  previous_hash = some "h6";
  txids = [];
  inputs = [];
  outputs = outputs;
  timestamp = none;
}

abbrev paying_block : PearlBlockSummary
paying_block = block_of "h7" 7 (paid_to "t1" "prl1escrow" "500" ∷ [])

abbrev empty_state : ScannerState
empty_state = record { store = record { rows = []; next_height = none }; repo = empty_repository }

abbrev calls : List ScannerCall
calls =
    register_call "2026-01-01" request
    ∷ block_call 5 "2026-01-02" paying_block
    ∷ close_call "2026-01-03" "w1"
    ∷ []

-- The scan of the block finds the payment.
paid_once :
    length (counted_of (observations_of "w1" (run_calls no_date mainnet calls empty_state).repo))
    ≡ 1
unfolding run_calls register set get close save_scanned_block scan_block scan_outputs scan_watches
    scan_spends verdict has_prior_live_observation get_watch values record_observation record_in
    advance_confirmations advance_watches advance_list replace_list classify_funding
    read_string_metadata read_number_metadata big_int codes digits_value show concat save_block
    save_new_block check_parent store_block find_block is_indexed canonical_block insert_block
    advance_next_height
paid_once = refl

one_payment_counted_example :
    length (counted_of (observations_of "w1" (run_calls no_date mainnet calls empty_state).repo))
    ≤ 1
one_payment_counted_example =
    one_payment_counted no_date mainnet calls (record { rows = []; next_height = none }) "w1"

abbrev watch : WatchedAddress
watch = record {
  watch_id = "w1";
  purpose = otc_escrow;
  network = mainnet;
  address = "prl1escrow";
  required_confirmations = 2;
  status = active;
  metadata =
      ("expected_amount_grains", text_value "500")
      ∷ ("expiry_height", number_value 90)
      ∷ ("release_address", text_value "prl1buyer")
      ∷ ("release_amount_min_grains", text_value "1")
      ∷ ("release_amount_max_grains", text_value "500")
      ∷ [];
  created_at = "2026-01-01";
  updated_at = "2026-01-01";
}

abbrev paid_calls : List ScannerCall
paid_calls = register_call "2026-01-01" request ∷ block_call 5 "2026-01-02" paying_block ∷ []

abbrev paid_state : ScannerState
paid_state = run_calls no_date mainnet paid_calls empty_state

paid_state_watch : get "w1" paid_state.repo.watches ≡ some watch
unfolding run_calls register set get close save_scanned_block scan_block scan_outputs scan_watches
    scan_spends verdict has_prior_live_observation get_watch values record_observation record_in
    advance_confirmations advance_watches advance_list replace_list classify_funding
    read_string_metadata read_number_metadata big_int codes digits_value show concat save_block
    save_new_block check_parent store_block find_block is_indexed canonical_block insert_block
    advance_next_height
paid_state_watch = refl

advance_exact_example :
    All (IsCurrent 8 2) (observations_of "w1" (advance_confirmations 8 paid_state.repo).0)
advance_exact_example =
    advance_exact 8 paid_state.repo "w1" watch
      (run_calls-IsWell no_date mainnet paid_calls empty_state empty-IsWell) paid_state_watch

abbrev other_row : BlockRow
other_row = record {
  hash = "x6";
  height = 6;
  previous_hash = some "h5";
  timestamp = none;
  txids = [];
  detached = false;
  indexed_at = 3;
}

abbrev forked_state : ScannerState
forked_state = record {
  store = record { rows = other_row ∷ []; next_height = some 7 };
  repo = record {
    watches = ("w1", watch) ∷ [];
    observations =
        (
          "w1",
          record {
            outpoint = "t0:0";
            watch_id = "w1";
            block_hash = "x6";
            height = 6;
            amount_grains = "500";
            confirmations = pos 1;
            match_status = pending;
            classification = "on_time";
            observed_at = "2026-01-01";
          }
              ∷ [],
        )
        ∷ [];
    spends = [];
  };
}

forked :
    (save_scanned_block no_date 9 "2026-01-02" mainnet paying_block forked_state).1
    ≡ some (reorg 6 "x6" (some "h6"))
unfolding save_scanned_block save_block save_new_block check_parent detach_parent find_block
    is_indexed canonical_block detach_height set_next_height
forked = refl

reorg_detaches_example : All (IsGone "x6") (
    observations_of "w1"
      (save_scanned_block no_date 9 "2026-01-02" mainnet paying_block forked_state).0.repo)
reorg_detaches_example =
    reorg_detaches no_date 9 "2026-01-02" mainnet paying_block forked_state 6 "x6" (some "h6") "w1"
      refl forked

abbrev odd_block : PearlBlockSummary
odd_block = block_of "h7" 7 (paid_to "t1" "prl1escrow" "5.0" ∷ [])

abbrev watched_state : ScannerState
watched_state = record {
  store = record { rows = []; next_height = none };
  repo = record { watches = ("w1", watch) ∷ []; observations = []; spends = [] };
}

odd_block_throws :
    (save_scanned_block no_date 9 "2026-01-02" mainnet odd_block watched_state).1 ≡ none
unfolding run_calls register set get close save_scanned_block scan_block scan_outputs scan_watches
    scan_spends verdict has_prior_live_observation get_watch values record_observation record_in
    advance_confirmations advance_watches advance_list replace_list classify_funding
    read_string_metadata read_number_metadata big_int codes digits_value show concat save_block
    save_new_block check_parent store_block find_block is_indexed canonical_block insert_block
    advance_next_height
odd_block_throws = refl

no_rows : (row : BlockRow) → find_block "h7" [] ≡ some row → row.height ≡ 7
no_rows row e = unfold find_block in ground arith

failed_scan_is_lost_example :
    let failed = (save_scanned_block no_date 9 "2026-01-02" mainnet odd_block watched_state).0 in
    let again = save_scanned_block no_date 12 "2026-01-03" mainnet odd_block failed in
    (again.1 ≡ some duplicate) × (again.0.repo ≡ failed.repo)
failed_scan_is_lost_example =
    failed_scan_is_lost no_date 9 12 "2026-01-02" "2026-01-03" mainnet odd_block watched_state
      no_rows odd_block_throws

abbrev release_outputs : List PearlBlockOutput
release_outputs = paid_to "t2" "prl1buyer" "499" ∷ []

is_release : (classify_escrow_spend watch "t2" "t1:0" release_outputs).classification ≡ release
unfolding classify_escrow_spend classify_by_expected_txid output_matches_expected
    read_expected_outputs read_direct_spend_amount_bounds read_string_metadata read_outputs present
    first_match output_amount_matches get codes digits_value concat
is_release = refl

release_sound_example :
    Matched (read_expected_outputs watch to_release) release_outputs
    × Missed (read_expected_outputs watch to_refund) release_outputs
release_sound_example = release_sound watch "t2" "t1:0" release_outputs is_release

registered_new : (register "2026-01-01" request empty_repository).1 ≡ registered watch true
unfolding register get
registered_new = refl

register_agrees_example :
    (get "w1" (register "2026-01-01" request empty_repository).0.watches ≡ some watch)
    × (watch.purpose ≡ otc_escrow)
    × (watch.network ≡ mainnet)
    × (watch.address ≡ "prl1escrow")
    × (watch.required_confirmations ≡ 2)
register_agrees_example =
    register_agrees "2026-01-01" request empty_repository watch true registered_new

watch_terms_stay_example :
    (later : WatchedAddress) × (get "w1" (run_calls no_date mainnet calls paid_state).repo.watches
      ≡ some later)
    × KeepsTerms watch later
watch_terms_stay_example =
    watch_terms_stay no_date mainnet calls paid_state "w1" watch paid_state_watch

abbrev observed : String → RecordObservationInput
observed hash = record {
  outpoint = "t1:0";
  watch_id = "w1";
  block_hash = hash;
  height = 7;
  amount_grains = "500";
  classification = "on_time";
}

record_replay_example :
    observations_of "w1" (
      record_observation "2026-01-03"
        (observed "h8")
        (record_observation "2026-01-02" (observed "h7") empty_repository))
    ≡ observations_of "w1" (record_observation "2026-01-02" (observed "h7") empty_repository)
record_replay_example =
    record_replay "2026-01-02" "2026-01-03" (observed "h7") (observed "h8") empty_repository "w1"
      refl refl
