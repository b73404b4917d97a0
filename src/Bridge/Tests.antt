-- ===== src/Bridge/Tests.antt =====
-- Deposits, exits and attestations on which the bridge's theorems are applied.
use pearl_infra.Prelude.{
  ℕ, String, ◌≡◌, ◌↔◌, ◌≤◌, ◌<◌, refl, some, none, Option, List, [], ◌∷◌, Bool, true, false, arith,
}
use pearl_infra.Prelude.Lists.{unique, length, All}
use pearl_infra.Prelude.Map.{get, set}
use pearl_infra.Prelude.Digits.{digits_value}
use pearl_infra.Prelude.Text.{to_lower_case}
use pearl_infra.Prelude.BigInts.{big_int, codes}
use pearl_infra.Bridge.Types.{
  Metadata, text_value, PearlNetwork, BridgeWatchPurpose, WatchStatus, ObservationMatchStatus,
  BridgeAddressObservation, BridgeExitStatus, BridgeExitRequest, BridgePilotLimits, prepare_mint,
  prepare_exit_release,
}
use pearl_infra.Bridge.Exits.{BridgeState, upsert_exit_request, exit_conflict, normalize_pearl_txid}
use pearl_infra.Bridge.Exclusive.{IsExclusive, upsert-IsExclusive}
use pearl_infra.Bridge.Keeps.{upsert_all, Holds, upsert_all-Holds}
use pearl_infra.Bridge.Quorum.{
  BridgeEventKind, BridgeCanonicalEvent, BridgeRelayerAttestation, BridgeQuorumPolicy,
  BridgeAttestationQuorum, approved, validate_quorum_policy, count_attestation, count_attestations,
  quorum_status, evaluate_bridge_attestation_quorum,
}
use pearl_infra.Bridge.Blockers.{DepositMintDecisionInput, read_string, get_deposit_blocker}
use pearl_infra.Bridge.Policy.{
  ExitReleaseDecisionInput, get_attestation_quorum_decision, approve, confirmed_deposit,
  deposit_verdict, decide_deposit_mint, exit_verdict, decide_exit_release,
}
use pearl_infra.Bridge.Minting.{MintConditions, prepare_mint_iff, action_of}
use pearl_infra.Bridge.Releasing.{ReleaseConditions, prepare_exit_release_iff}
use pearl_infra.Bridge.Spends.{
  matched_exit_release, match_reserve_spend_to_exit, match_fields, match_exact, exact_candidates,
  read_amount_grains, read_address, normalize_amount_grains,
}
use pearl_infra.Bridge.Matched.{MatchConditions, matched_sound}
use pearl_infra.Bridge.Types.{BridgeAddressSpend}
use pearl_infra.Bridge.Approved.{IsValid, Distinct, approved_quorum}

abbrev exit_of : String → String → BridgeExitStatus → Option String → BridgeExitRequest
exit_of id burn status release = record {
  exit_id = id;
  igra_burn_txid = burn;
  igra_burn_log_index = 0;
  igra_burn_block = 12;
  igra_chain_id = 19416;
  requested_amount_grains = "500";
  pearl_recipient = "prl1recipient";
  status = status;
  pearl_release_txid = release;
  pearl_release_block = none;
  released_at = none;
  metadata = none;
  created_at = "2026-01-01T00:00:00.000Z";
  updated_at = "2026-01-02T00:00:00.000Z";
}

abbrev no_state : BridgeState Bool
no_state = record { snapshots = []; events = []; exits = []; decisions = [] }

abbrev first_exit : BridgeExitRequest
first_exit = exit_of "exit-1" "0xb1" BridgeExitStatus.released (some "0xAA")

abbrev second_exit : BridgeExitRequest
second_exit = exit_of "exit-2" "0xb2" BridgeExitStatus.pending none

-- Another exit that claims the release of the first.
abbrev thief : BridgeExitRequest
thief = exit_of "exit-3" "0xb3" BridgeExitStatus.released (some "0xaa")

no_state-IsExclusive : IsExclusive no_state.exits
unfolding get
no_state-IsExclusive = record {
  own_key = λ k a g. ground arith;
  apart = λ k j a b g i d. ground arith;
}

abbrev one_exit : BridgeState Bool
one_exit = (upsert_exit_request first_exit no_state).0

upsert-IsExclusive_example : IsExclusive (upsert_exit_request second_exit one_exit).0.exits
upsert-IsExclusive_example =
    upsert-IsExclusive second_exit one_exit
      (upsert-IsExclusive first_exit no_state no_state-IsExclusive)

thief_refused :
    exit_conflict (first_exit ∷ []) thief ≡ some "Pearl release txid already belongs to exit exit-1"
unfolding exit_conflict pearl_infra.Bridge.Exits.is_prefixed_hash normalize_pearl_txid to_lower_case
    codes pearl_infra.Prelude.Text.concat
thief_refused = refl

abbrev released_state : BridgeState Bool
released_state = record no_state { exits = ("exit-1", first_exit) ∷ [] }

-- A later report that takes the first exit back to `pending` with another release.
abbrev late_report : BridgeExitRequest
late_report = exit_of "exit-1" "0xb1" BridgeExitStatus.pending (some "0xbb")

upsert_all-Holds_example :
    Holds "exit-1" BridgeExitStatus.released "0xAA" "2026-01-01T00:00:00.000Z"
      (upsert_all (late_report ∷ thief ∷ []) released_state)
upsert_all-Holds_example =
    upsert_all-Holds "exit-1" BridgeExitStatus.released "0xAA" "2026-01-01T00:00:00.000Z"
      (late_report ∷ thief ∷ []) released_state refl
      (first_exit, unfold get in refl, record { status = refl; release = refl; created = refl })

abbrev event : BridgeCanonicalEvent
event = record {
  event_id = "event";
  event_hash = "hash";
  kind = BridgeEventKind.deposit;
  domain = "pearl-igra-bridge:v1:deposit";
  payload = [];
  required_confirmations = 6;
  observed_confirmations = 7;
}

abbrev attested_by : String → BridgeRelayerAttestation
attested_by relayer = record {
  relayer_id = relayer;
  event_id = "event";
  event_hash = "hash";
  observed_at = "2026-01-01T00:00:00.000Z";
  signature = none;
  metadata = none;
}

abbrev two_of_three : BridgeQuorumPolicy
two_of_three = record { relayer_ids = "r1" ∷ "r2" ∷ "r3" ∷ []; required_attestations = 2 }

abbrev two_attestations : List BridgeRelayerAttestation
two_attestations = attested_by "r3" ∷ attested_by "r1" ∷ []

two_approve :
    (evaluate_bridge_attestation_quorum event two_attestations two_of_three).status ≡ approved
unfolding evaluate_bridge_attestation_quorum count_attestations count_attestation
    validate_quorum_policy unique quorum_status get set
two_approve = refl

approved_quorum_example :
    All (IsValid event two_of_three) two_attestations
    × Distinct two_attestations
    × (0 < 2)
    × (2 ≤ length two_attestations)
    × (6 ≤ 7)
approved_quorum_example = approved_quorum event two_attestations two_of_three two_approve

abbrev observed : BridgeAddressObservation
observed = record {
  outpoint = "tx:0";
  watch_id = "watch";
  block_hash = "block";
  height = 100;
  amount_grains = "500";
  confirmations = 6;
  match_status = ObservationMatchStatus.confirmed;
  classification = "on_time";
  observed_at = "2026-01-01T00:00:00.000Z";
}

abbrev limits : BridgePilotLimits
limits = record {
  min_deposit_grains = "100";
  max_deposit_grains = "1000";
  max_exit_grains = "1000";
  pilot_supply_cap_grains = "5000";
  rolling_window_cap_grains = some "1000";
  rolling_window_used_grains = none;
}

abbrev quorum : BridgeAttestationQuorum
quorum = evaluate_bridge_attestation_quorum event two_attestations two_of_three

abbrev deposit_input : DepositMintDecisionInput
deposit_input = record {
  watch = record {
    watch_id = "watch";
    purpose = BridgeWatchPurpose.bridge_deposit;
    network = PearlNetwork.mainnet;
    address = "prl1deposit";
    required_confirmations = 6;
    status = WatchStatus.active;
    metadata =
        ("expected_amount_min_grains", text_value "400")
        ∷ ("expected_amount_max_grains", text_value "600")
        ∷ [];
    created_at = "2026-01-01T00:00:00.000Z";
    updated_at = "2026-01-01T00:00:00.000Z";
    observations = observed ∷ [];
    spends = [];
  };
  observation = some observed;
  limits = limits;
  minted_supply_grains = "0";
  attestation_quorum = some quorum;
  manual_approval_id = some "operator";
}

-- A stand-in for the digest, and for the printed metadata.
abbrev digest : String → String
digest text = text

abbrev printed : Metadata → String
printed metadata = "{}"

prepare_mint_iff_example :
    (action_of (decide_deposit_mint digest printed deposit_input) ≡ some prepare_mint)
    ↔ MintConditions deposit_input observed
prepare_mint_iff_example = prepare_mint_iff digest printed deposit_input observed refl

minted : action_of (decide_deposit_mint digest printed deposit_input) ≡ some prepare_mint
unfolding decide_deposit_mint deposit_verdict confirmed_deposit get_deposit_blocker approve
    get_attestation_quorum_decision read_string get set big_int codes digits_value
    evaluate_bridge_attestation_quorum count_attestations count_attestation validate_quorum_policy
    unique quorum_status
minted = refl

abbrev exit_input : ExitReleaseDecisionInput
exit_input = record {
  exit = second_exit;
  reconciliation = record { blockers = []; reserve_available_grains = "500" };
  limits = limits;
  attestation_quorum = some quorum;
  manual_approval_id = some "operator";
}

prepare_exit_release_iff_example :
    (action_of (decide_exit_release digest printed exit_input) ≡ some prepare_exit_release)
    ↔ ReleaseConditions exit_input
prepare_exit_release_iff_example = prepare_exit_release_iff digest printed exit_input

exit_released :
    action_of (decide_exit_release digest printed exit_input) ≡ some prepare_exit_release
unfolding decide_exit_release pearl_infra.Prelude.BigInts.is_negative exit_verdict approve
    get_attestation_quorum_decision big_int codes digits_value evaluate_bridge_attestation_quorum
    count_attestations count_attestation validate_quorum_policy unique quorum_status get set
exit_released = refl

abbrev reserve_spend : BridgeAddressSpend
reserve_spend = record {
  spend_txid = "0xCC";
  spent_outpoint = "reserve:0";
  block_hash = "block";
  height = 120;
  classification = "exit_release";
  classification_data =
      some (
        ("amount_grains", text_value "0500")
        ∷ ("pearl_recipient", text_value "PRL1recipient")
        ∷ []);
  observed_at = "2026-01-03T00:00:00.000Z";
}

abbrev another_exit : BridgeExitRequest
another_exit = record second_exit { exit_id = "exit-4"; pearl_recipient = "prl1other" }

spend_matched :
    (match_reserve_spend_to_exit reserve_spend (another_exit ∷ second_exit ∷ []) []).status
    ≡ matched_exit_release
unfolding match_reserve_spend_to_exit match_fields match_exact exact_candidates read_amount_grains
    read_address normalize_amount_grains normalize_pearl_txid
    pearl_infra.Bridge.Exits.is_prefixed_hash to_lower_case pearl_infra.Prelude.Text.show get codes
    digits_value
spend_matched = refl

matched_sound_example :
    (exit : BridgeExitRequest) × ((match_reserve_spend_to_exit reserve_spend
        (another_exit ∷ second_exit ∷ [])
        []).exit_id
      ≡ some exit.exit_id)
    × MatchConditions reserve_spend (another_exit ∷ second_exit ∷ []) [] exit
matched_sound_example =
    matched_sound reserve_spend (another_exit ∷ second_exit ∷ []) [] spend_matched
