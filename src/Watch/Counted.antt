-- ===== src/Watch/Counted.antt =====
-- services/pearl-indexer/src/funding-scanner.ts: a watch counts one payment, however blocks,
-- reorgs and calls of the repository follow one another.
use pearl_infra.Prelude.{
  ℕ, ◌≤◌, String, ◌≡◌, inl, inr, refl, sym, some, none, Option, List, [], ◌∷◌, false, ◌===◌,
  string_eq, arith, eq_iff, Option-cases, Bool-cases,
}
use mathlib.Core.Path.{subst}
use pearl_infra.Prelude.Lists.{length, any, All, All-filter}
use pearl_infra.Prelude.Map.{Dict, get, values, All-values}
use pearl_infra.Prelude.Dates.{Timestamp}
use pearl_infra.Indexer.Blocks.{result_cases, PearlBlockInput, PearlBlockOutput, PearlBlockSummary}
use pearl_infra.Indexer.Sink.{BlockStore, save_block}
use pearl_infra.Watch.Types.{PearlNetwork, AddressObservation, WatchedAddress, RegisterWatchInput}
use pearl_infra.Watch.Repository.{
  WatchRepository, get_watch, register, close, find_active_by_address, record_observation,
  find_observed_outpoint, observations_of,
}
use pearl_infra.Watch.Scanner.{
  ScannerState, outpoint_of, is_prior, has_prior_live_observation, scan_input, scan_spends,
  observation_input, verdict, scan_watches, scan_output, scan_outputs, scan_block,
  save_scanned_block,
}
use pearl_infra.Watch.Tidy.{CountedAt, counted_of, length-counted}
use pearl_infra.Watch.Wells.{
  IsWell, record-IsWell, record_spend-IsWell, advance-IsWell, detach-IsWell, register-IsWell,
  close-IsWell,
}

scan_input-IsWell :
    (now : String) (block : PearlBlockSummary) (txid : String) (spent : Option String)
    (repo : WatchRepository)
    → IsWell repo
    → IsWell (scan_input now block txid spent repo)
unfolding scan_input
scan_input-IsWell now block txid none repo s = s
scan_input-IsWell now block txid (some outpoint) repo s = elim (Bool-cases (outpoint === "")) [
  | inl e ↦ rw e s
  | inr e ↦ elim (Option-cases (find_observed_outpoint outpoint repo)) [
    | inl f ↦ rw (e, f) s
    | inr (observed, f) ↦ rw (e, f) (record_spend-IsWell now _ repo s)
  ]
]

scan_spends-IsWell :
    (now : String) (block : PearlBlockSummary) (inputs : List PearlBlockInput)
    (repo : WatchRepository)
    → IsWell repo
    → IsWell (scan_spends now block inputs repo)
unfolding scan_spends
scan_spends-IsWell now block [] repo s = s
scan_spends-IsWell now block (input ∷ inputs) repo s =
    scan_spends-IsWell now block inputs _
      (scan_input-IsWell now block input.txid input.spent_outpoint repo s)

-- The watches that the scanner goes through are registered.
abbrev Registered : Dict WatchedAddress → WatchedAddress → Type 0
Registered watches w = get w.watch_id watches ≡ some w

found-Registered :
    (network : PearlNetwork) (address : String) (repo : WatchRepository)
    → IsWell repo
    → All (Registered repo.watches) (find_active_by_address network address repo)
found-Registered network address repo s =
    All-filter (Registered repo.watches) _ (values repo.watches) (
      All-values (Registered repo.watches) repo.watches s.watch_keys
        (λ k w e. subst (λ j. get j repo.watches ≡ some w) (sym (s.keyed k w e)) e))

no_prior-CountedAt :
    (outpoint : String) (list : List AddressObservation)
    → any (is_prior outpoint) list ≡ false
    → CountedAt outpoint list
no_prior-CountedAt outpoint [] h = tt
no_prior-CountedAt outpoint (o ∷ list) h = (
  λ e. ground (arith, eq_iff o.outpoint outpoint),
  no_prior-CountedAt outpoint list (ground arith),
)

no_prior :
    (watch : WatchedAddress) (outpoint : String) (repo : WatchRepository)
    → Registered repo.watches watch
    → has_prior_live_observation watch outpoint repo ≡ false
    → CountedAt outpoint (observations_of watch.watch_id repo)
unfolding has_prior_live_observation get_watch
no_prior watch outpoint repo r h =
    no_prior-CountedAt outpoint _ (rw (has_prior_live_observation, get_watch, r) at h)

module _ (parse_date : String → Timestamp) where
  scan_watch-IsWell :
      (now classification : String) (output : PearlBlockOutput) (block : PearlBlockSummary)
      (watch : WatchedAddress) (repo : WatchRepository)
      → Registered repo.watches watch
      → verdict parse_date output block watch repo ≡ some classification
      → IsWell repo
      → IsWell (
          record_observation now
            (observation_input parse_date output block watch classification)
            repo)
  unfolding verdict
  scan_watch-IsWell now classification output block watch repo r e s =
      elim (Bool-cases (has_prior_live_observation watch (outpoint_of output) repo)) [
        | inl prior ↦
            let named : classification ≡ "duplicate" = ground (arith, e, prior) in
            record-IsWell (s.tidy watch.watch_id).place now _ repo s (s.tidy watch.watch_id).counted
              (λ c. absurd (ground (arith, eq_iff classification "duplicate", rw named at c)))
        | inr apart ↦
            record-IsWell (outpoint_of output) now _ repo s
              (no_prior watch (outpoint_of output) repo r apart) (λ c. refl)
      ]

  scan_watches-IsWell :
      (now : String) (output : PearlBlockOutput) (block : PearlBlockSummary)
      (watches : List WatchedAddress) (repo : WatchRepository)
      → All (Registered repo.watches) watches
      → IsWell repo
      → IsWell (scan_watches parse_date now output block watches repo).0
  unfolding scan_watches record_observation
  scan_watches-IsWell now output block [] repo r s = s
  scan_watches-IsWell now output block (watch ∷ watches) repo r s =
      elim (Option-cases (verdict parse_date output block watch repo)) [
        | inl e ↦ rw (scan_watches, e) s
        | inr (classification, e) ↦
            rw (scan_watches, e)
              (scan_watches-IsWell now output block watches _ r.1
                (scan_watch-IsWell now classification output block watch repo r.0 e s))
      ]

  scan_output-IsWell :
      (now : String) (network : PearlNetwork) (block : PearlBlockSummary)
      (output : PearlBlockOutput) (address : Option String) (repo : WatchRepository)
      → IsWell repo
      → IsWell (scan_output parse_date now network block output address repo).0
  scan_output-IsWell now network block output none repo s = s
  scan_output-IsWell now network block output (some address) repo s =
      elim (Bool-cases (address === "")) [
        | inl e ↦ rw e s
        | inr e ↦ rw e (
            scan_watches-IsWell now output block _ repo (found-Registered network address repo s) s)
      ]

  scan_outputs-IsWell :
      (now : String) (network : PearlNetwork) (block : PearlBlockSummary)
      (outputs : List PearlBlockOutput) (repo : WatchRepository)
      → IsWell repo
      → IsWell (scan_outputs parse_date now network block outputs repo).0
  unfolding scan_outputs
  scan_outputs-IsWell now network block [] repo s = s
  scan_outputs-IsWell now network block (output ∷ outputs) repo s =
      let here = scan_output-IsWell now network block output output.script_pub_key.address repo s in
      elim (Bool-cases
        (scan_output parse_date now network block output output.script_pub_key.address repo).1) [
          | inl e ↦ rw (scan_outputs, e) (scan_outputs-IsWell now network block outputs _ here)
          | inr e ↦ rw (scan_outputs, e) here
        ]

  scan_block-IsWell :
      (now : String) (network : PearlNetwork) (block : PearlBlockSummary) (repo : WatchRepository)
      → IsWell repo
      → IsWell (scan_block parse_date now network block repo).0
  unfolding scan_block
  scan_block-IsWell now network block repo s =
      let here = scan_outputs-IsWell now network block block.outputs repo s in
      elim (Bool-cases (scan_outputs parse_date now network block block.outputs repo).1) [
        | inl e ↦
            rw (scan_block, e)
              (advance-IsWell block.height _ (scan_spends-IsWell now block block.inputs _ here))
        | inr e ↦ rw (scan_block, e) here
      ]

  pub save_scanned-IsWell :
      (stored_at : ℕ) (now : String) (network : PearlNetwork) (block : PearlBlockSummary)
      (s : ScannerState)
      → IsWell s.repo
      → IsWell (save_scanned_block parse_date stored_at now network block s).0.repo
  unfolding save_scanned_block
  save_scanned-IsWell stored_at now network block s well =
      elim (result_cases (save_block stored_at block s.store).1) [
        | inl e ↦ rw (save_scanned_block, e) (scan_block-IsWell now network block s.repo well)
        | inr (inl e) ↦ rw (save_scanned_block, e) well
        | inr (inr (height, hash, previous, e)) ↦ elim (Bool-cases (hash === "")) [
          | inl f ↦ rw (save_scanned_block, e, f) well
          | inr f ↦ rw (save_scanned_block, e, f) (detach-IsWell hash s.repo well)
        ]
      ]

-- A call of the service: an HTTP request to the repository, or a block from the poller.
pub data ScannerCall : Type 0 where
  register_call : String → RegisterWatchInput → ScannerCall
  close_call : String → String → ScannerCall
  block_call : ℕ → String → PearlBlockSummary → ScannerCall

module _ (parse_date : String → Timestamp) (network : PearlNetwork) where
  abbrev pub run_call : ScannerCall → ScannerState → ScannerState
  run_call (register_call now input) s = record s { repo = (register now input s.repo).0 }
  run_call (close_call now watch_id) s = record s { repo = (close now watch_id s.repo).0 }
  run_call (block_call stored_at now block) s =
      (save_scanned_block parse_date stored_at now network block s).0

  unfoldable pub run_calls : List ScannerCall → ScannerState → ScannerState
  run_calls [] s = s
  run_calls (call ∷ calls) s = run_calls calls (run_call call s)

  run_call-IsWell :
      (call : ScannerCall) (s : ScannerState) → IsWell s.repo → IsWell (run_call call s).repo
  run_call-IsWell (register_call now input) s w = register-IsWell now input s.repo w
  run_call-IsWell (close_call now watch_id) s w = close-IsWell now watch_id s.repo w
  run_call-IsWell (block_call stored_at now block) s w =
      save_scanned-IsWell parse_date stored_at now network block s w

  pub run_calls-IsWell :
      (calls : List ScannerCall) (s : ScannerState)
      → IsWell s.repo
      → IsWell (run_calls calls s).repo
  unfolding run_calls
  run_calls-IsWell [] s w = w
  run_calls-IsWell (call ∷ calls) s w = run_calls-IsWell calls _ (run_call-IsWell call s w)

abbrev pub empty_repository : WatchRepository
empty_repository = record { watches = []; observations = []; spends = [] }

pub empty-IsWell : IsWell empty_repository
unfolding get
empty-IsWell = record {
  watch_keys = tt;
  keyed = λ k w e. ground (arith, e);
  observation_keys = tt;
  tidy = λ id. record { distinct = tt; place = ""; counted = tt };
}

-- After any sequence of blocks, reorgs, registrations and closings that starts from an empty watch
-- repository, each watch has at most one observation that is not detached and is not classified as
-- a duplicate.
pub one_payment_counted :
    (parse_date : String → Timestamp) (network : PearlNetwork) (calls : List ScannerCall)
    (store : BlockStore) (watch_id : String)
    → length (
        counted_of (
          observations_of watch_id
            (run_calls parse_date network calls
              (record { store = store; repo = empty_repository })).repo))
      ≤ 1
one_payment_counted parse_date network calls store watch_id = length-counted _ (
    (run_calls-IsWell parse_date network calls (record { store = store; repo = empty_repository })
        empty-IsWell).tidy
      watch_id)
