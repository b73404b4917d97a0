-- ===== src/Watch/Terms.antt =====
-- services/pearl-indexer/src/watched-address-repository.ts: what a watch was registered with stays.
use pearl_infra.Prelude.{
  ℕ, String, ◌≡◌, inl, inr, refl, ◌∙◌, ap, some, none, Option, List, [], ◌∷◌, Bool, true, ◌===◌,
  string_eq, nat_eq, arith, eq_iff, Option-cases, Bool-cases, ===_sound,
}
use mathlib.Core.Path.{subst}
use pearl_infra.Prelude.Lists.{length, find}
use pearl_infra.Prelude.Map.{get, set, get-set, get-set_self}
use pearl_infra.Prelude.Dates.{Timestamp}
use pearl_infra.Indexer.Blocks.{PearlBlockInput, PearlBlockOutput, PearlBlockSummary, result_cases}
use pearl_infra.Indexer.Sink.{save_block}
use pearl_infra.Watch.Types.{
  purpose_eq, PearlNetwork, network_eq, WatchedAddress, closed, RegisterWatchInput,
}
use pearl_infra.Watch.Repository.{
  WatchRepository, register, diff_watch_fields, new_watch, with_metadata, registered, close,
  record_observation, find_observed_outpoint, RecordSpendInput, record_spend, record_spend_of,
  is_spend, spends_of, advance_confirmations, detach_observations_for_block,
}
use pearl_infra.Watch.Scanner.{
  ScannerState, scan_input, scan_spends, verdict, scan_watches, scan_output, scan_outputs,
  scan_block, save_scanned_block,
}
use pearl_infra.Watch.Counted.{
  ScannerCall, register_call, close_call, block_call, run_call, run_calls,
}

-- The terms of `later` are those of `watch`; a closed watch stays closed.
pub record KeepsTerms (watch later : WatchedAddress) : Type 0 where
  pub same_purpose : later.purpose ≡ watch.purpose
  pub same_network : later.network ≡ watch.network
  pub same_address : later.address ≡ watch.address
  pub same_required : later.required_confirmations ≡ watch.required_confirmations
  pub stays_closed : watch.status ≡ closed → later.status ≡ closed

keeps_refl : (w : WatchedAddress) → KeepsTerms w w
keeps_refl w = record {
  same_purpose = refl;
  same_network = refl;
  same_address = refl;
  same_required = refl;
  stays_closed = λ e. e;
}

-- Nothing that the scanner does changes a watch.
record_spend_watches :
    (now : String) (input : RecordSpendInput) (repo : WatchRepository)
    → (record_spend now input repo).0.watches ≡ repo.watches
unfolding record_spend record_spend_of
record_spend_watches now input repo =
    elim (Option-cases (find_observed_outpoint input.spent_outpoint repo)) [
      | inl e ↦ rw (record_spend, e) refl
      | inr (observed, e) ↦
          elim (Option-cases (find (is_spend input) (spends_of observed.watch.watch_id repo))) [
            | inl f ↦ rw (record_spend, e, record_spend_of, f) refl
            | inr (existing, f) ↦ rw (record_spend, e, record_spend_of, f) refl
          ]
    ]

scan_input_watches :
    (now : String) (block : PearlBlockSummary) (txid : String) (spent : Option String)
    (repo : WatchRepository)
    → (scan_input now block txid spent repo).watches ≡ repo.watches
unfolding scan_input
scan_input_watches now block txid none repo = refl
scan_input_watches now block txid (some outpoint) repo = elim (Bool-cases (outpoint === "")) [
  | inl e ↦ rw e refl
  | inr e ↦ elim (Option-cases (find_observed_outpoint outpoint repo)) [
    | inl f ↦ rw (e, f) refl
    | inr (observed, f) ↦ rw (e, f) (record_spend_watches now _ repo)
  ]
]

scan_spends_watches :
    (now : String) (block : PearlBlockSummary) (inputs : List PearlBlockInput)
    (repo : WatchRepository)
    → (scan_spends now block inputs repo).watches ≡ repo.watches
unfolding scan_spends
scan_spends_watches now block [] repo = refl
scan_spends_watches now block (input ∷ inputs) repo =
    scan_spends_watches now block inputs _
    ∙ scan_input_watches now block input.txid input.spent_outpoint repo

module _ (parse_date : String → Timestamp) where
  scan_watches_watches :
      (now : String) (output : PearlBlockOutput) (block : PearlBlockSummary)
      (watches : List WatchedAddress) (repo : WatchRepository)
      → (scan_watches parse_date now output block watches repo).0.watches ≡ repo.watches
  unfolding scan_watches record_observation
  scan_watches_watches now output block [] repo = refl
  scan_watches_watches now output block (watch ∷ watches) repo =
      elim (Option-cases (verdict parse_date output block watch repo)) [
        | inl e ↦ rw (scan_watches, e) refl
        | inr (classification, e) ↦
            rw (scan_watches, e) (scan_watches_watches now output block watches _)
      ]

  scan_output_watches :
      (now : String) (network : PearlNetwork) (block : PearlBlockSummary)
      (output : PearlBlockOutput) (address : Option String) (repo : WatchRepository)
      → (scan_output parse_date now network block output address repo).0.watches ≡ repo.watches
  scan_output_watches now network block output none repo = refl
  scan_output_watches now network block output (some address) repo =
      elim (Bool-cases (address === "")) [
        | inl e ↦ rw e refl
        | inr e ↦ rw e (scan_watches_watches now output block _ repo)
      ]

  scan_outputs_watches :
      (now : String) (network : PearlNetwork) (block : PearlBlockSummary)
      (outputs : List PearlBlockOutput) (repo : WatchRepository)
      → (scan_outputs parse_date now network block outputs repo).0.watches ≡ repo.watches
  unfolding scan_outputs
  scan_outputs_watches now network block [] repo = refl
  scan_outputs_watches now network block (output ∷ outputs) repo =
      let here = scan_output_watches now network block output output.script_pub_key.address repo in
      elim (Bool-cases
        (scan_output parse_date now network block output output.script_pub_key.address repo).1) [
          | inl e ↦ rw (scan_outputs, e) (scan_outputs_watches now network block outputs _ ∙ here)
          | inr e ↦ rw (scan_outputs, e) here
        ]

  scan_block_watches :
      (now : String) (network : PearlNetwork) (block : PearlBlockSummary) (repo : WatchRepository)
      → (scan_block parse_date now network block repo).0.watches ≡ repo.watches
  unfolding scan_block advance_confirmations
  scan_block_watches now network block repo =
      let here = scan_outputs_watches now network block block.outputs repo in
      elim (Bool-cases (scan_outputs parse_date now network block block.outputs repo).1) [
        | inl e ↦ rw (scan_block, e) (scan_spends_watches now block block.inputs _ ∙ here)
        | inr e ↦ rw (scan_block, e) here
      ]

  save_watches :
      (stored_at : ℕ) (now : String) (network : PearlNetwork) (block : PearlBlockSummary)
      (s : ScannerState)
      → (save_scanned_block parse_date stored_at now network block s).0.repo.watches
        ≡ s.repo.watches
  unfolding save_scanned_block detach_observations_for_block
  save_watches stored_at now network block s =
      elim (result_cases (save_block stored_at block s.store).1) [
        | inl e ↦ rw (save_scanned_block, e) (scan_block_watches now network block s.repo)
        | inr (inl e) ↦ rw (save_scanned_block, e) refl
        | inr (inr (height, hash, previous, e)) ↦ elim (Bool-cases (hash === "")) [
          | inl f ↦ rw (save_scanned_block, e, f) refl
          | inr f ↦ rw (save_scanned_block, e, f) refl
        ]
      ]

-- The watch under `id` keeps its terms from one repository to another.
abbrev pub Keeps : String → WatchRepository → WatchRepository → Type 0
Keeps id repo later =
    (w : WatchedAddress)
    → get id repo.watches ≡ some w
    → (v : WatchedAddress) × (get id later.watches ≡ some v) × KeepsTerms w v

watches-Keeps :
    (id : String) (repo later : WatchRepository)
    → later.watches ≡ repo.watches
    → Keeps id repo later
watches-Keeps id repo later same w e = (w, ap (get id) same ∙ e, keeps_refl w)

set-Keeps :
    (id k : String) (old new : WatchedAddress) (repo : WatchRepository)
    → get k repo.watches ≡ some old
    → KeepsTerms old new
    → Keeps id repo (record repo { watches = set k new repo.watches })
set-Keeps id k old new repo e keeps w f = elim (Bool-cases (k === id)) [
  | inl same ↦
      let at_id : k ≡ id = (eq_iff k id).0 same in
      let is_old : old ≡ w = ground (arith, e, f, at_id) in
      (
        new,
        rw (get-set k id new repo.watches, same) refl,
        subst (λ x. KeepsTerms x new) is_old keeps,
      )
  | inr other ↦ (w, rw (get-set k id new repo.watches, other) f, keeps_refl w)
]

same_terms :
    (existing : WatchedAddress) (input : RegisterWatchInput)
    → (length (diff_watch_fields existing input) === 0) ≡ true
    → (existing.purpose ≡ input.purpose)
      × (existing.network ≡ input.network)
      × (existing.address ≡ input.address)
      × (existing.required_confirmations ≡ input.required_confirmations)
unfolding diff_watch_fields
same_terms existing input h = (
  ===_sound existing.purpose input.purpose (ground (arith, h)),
  ===_sound existing.network input.network (ground (arith, h)),
  ===_sound existing.address input.address (ground (arith, h)),
  ===_sound existing.required_confirmations input.required_confirmations (ground (arith, h)),
)

-- Where a request to register a watch is not refused, the watch that stands under its id then is
-- the one returned, with the purpose, network, address and confirmations of the request.
pub register_agrees :
    (now : String) (input : RegisterWatchInput) (repo : WatchRepository) (w : WatchedAddress)
    (is_new : Bool)
    → (register now input repo).1 ≡ registered w is_new
    → (get input.watch_id (register now input repo).0.watches ≡ some w)
      × (w.purpose ≡ input.purpose)
      × (w.network ≡ input.network)
      × (w.address ≡ input.address)
      × (w.required_confirmations ≡ input.required_confirmations)
unfolding register
register_agrees now input repo w is_new r = elim (Option-cases (get input.watch_id repo.watches)) [
  | inl e ↦
      let made : new_watch now input ≡ w = ground (arith, rw (register, e) at r) in
      rw (register, e, ← made) (get-set_self _ _ repo.watches, refl, refl, refl, refl)
  | inr (existing, e) ↦ elim (Bool-cases (length (diff_watch_fields existing input) === 0)) [
    | inl same ↦
        let made : with_metadata now input existing ≡ w =
          ground (arith, rw (register, e, same) at r) in
        let (purpose, network, address, required) = same_terms existing input same in
        rw (register, e, same, ← made)
          (get-set_self _ _ repo.watches, purpose, network, address, required)
    | inr differ ↦ absurd (ground (arith, rw (register, e, differ) at r))
  ]
]

register-Keeps :
    (id now : String) (input : RegisterWatchInput) (repo : WatchRepository)
    → Keeps id repo (register now input repo).0
unfolding register
register-Keeps id now input repo = elim (Option-cases (get input.watch_id repo.watches)) [
  | inl e ↦
      rw (register, e)
        (λ w f. elim (Bool-cases (input.watch_id === id)) [
          | inl same ↦ absurd (ground (arith, e, f, eq_iff input.watch_id id))
          | inr other ↦ (
            w,
            rw (get-set input.watch_id id (new_watch now input) repo.watches, other) f,
            keeps_refl w,
          )
        ])
  | inr (existing, e) ↦ elim (Bool-cases (length (diff_watch_fields existing input) === 0)) [
    | inl same ↦
        rw (register, e, same)
          (set-Keeps id input.watch_id existing (with_metadata now input existing) repo e (record {
            same_purpose = refl;
            same_network = refl;
            same_address = refl;
            same_required = refl;
            stays_closed = λ c. c;
          }))
    | inr differ ↦ rw (register, e, differ) (watches-Keeps id repo repo refl)
  ]
]

close-Keeps :
    (id now watch_id : String) (repo : WatchRepository) → Keeps id repo (close now watch_id repo).0
unfolding close
close-Keeps id now watch_id repo = elim (Option-cases (get watch_id repo.watches)) [
  | inl e ↦ rw (close, e) (watches-Keeps id repo repo refl)
  | inr (watch, e) ↦
      rw (close, e)
        (set-Keeps id watch_id watch (record watch { status = closed; updated_at = now }) repo e
          (record {
            same_purpose = refl;
            same_network = refl;
            same_address = refl;
            same_required = refl;
            stays_closed = λ c. refl;
          }))
]

keeps_trans : (a b c : WatchedAddress) → KeepsTerms a b → KeepsTerms b c → KeepsTerms a c
keeps_trans a b c h k = record {
  same_purpose = k.same_purpose ∙ h.same_purpose;
  same_network = k.same_network ∙ h.same_network;
  same_address = k.same_address ∙ h.same_address;
  same_required = k.same_required ∙ h.same_required;
  stays_closed = λ e. k.stays_closed (h.stays_closed e);
}

module _ (parse_date : String → Timestamp) (network : PearlNetwork) where
  run_call-Keeps :
      (id : String) (call : ScannerCall) (s : ScannerState)
      → Keeps id s.repo (run_call parse_date network call s).repo
  run_call-Keeps id (register_call now input) s = register-Keeps id now input s.repo
  run_call-Keeps id (close_call now watch_id) s = close-Keeps id now watch_id s.repo
  run_call-Keeps id (block_call stored_at now block) s =
      watches-Keeps id s.repo (save_scanned_block parse_date stored_at now network block s).0.repo
        (save_watches parse_date stored_at now network block s)

  calls_keep :
      (id : String) (calls : List ScannerCall) (s : ScannerState)
      → Keeps id s.repo (run_calls parse_date network calls s).repo
  unfolding run_calls
  calls_keep id [] s w e = (w, e, keeps_refl w)
  calls_keep id (call ∷ calls) s w e =
      let (v, f, k) = run_call-Keeps id call s w e in
      let (u, g, m) = calls_keep id calls (run_call parse_date network call s) v f in
      (u, g, keeps_trans w v u k m)

-- Once a watch is registered, no sequence of calls and blocks removes it, changes its purpose,
-- network, address or required confirmations, or opens it again after it was closed.
pub watch_terms_stay :
    (parse_date : String → Timestamp) (network : PearlNetwork) (calls : List ScannerCall)
    (s : ScannerState) (id : String) (w : WatchedAddress)
    → get id s.repo.watches ≡ some w
    → (later : WatchedAddress) × (get id (run_calls parse_date network calls s).repo.watches
        ≡ some later)
      × KeepsTerms w later
watch_terms_stay parse_date network calls s id w e = calls_keep parse_date network id calls s w e
