-- ===== src/Settlement/Tests.antt =====
-- Runs of the settlement worker, and the theorems about it at concrete trades.
use pearl_infra.Prelude.{ℕ, ◌≤◌, ◌≡◌, ◌↔◌, refl, inl, inr, none, some, List, [], ◌∷◌, false, map}
use pearl_infra.Prelude.Lists.{includes}
use pearl_infra.Prelude.Map.{get, set}
use pearl_infra.Prelude.Text.{concat, join, show, to_lower_case, slice_start}
use pearl_infra.Sdk.Trade.{
  OtcTrade, TradeState, trade_state_eq, state_name, buy_prl, coordinator, simnet, PearlEscrowLeg,
  UsdcEscrowLeg, OtcTradeDeadlines,
}
use pearl_infra.Sdk.Amounts.{
  parse_usdc_to_micros, parse_decimal_to_units, trim, split, is_invalid_amount,
}
use pearl_infra.Prelude.Digits.{digits_value}
use pearl_infra.Sdk.States.{trade_state_is_terminal}
use pearl_infra.Usdc.Types.{
  UsdcEscrowStatus, UsdcEscrowTradeEventState, UsdcEscrowNetwork, deposited_event,
}
use pearl_infra.Settlement.Types.{
  PearlProofStatus, BaseEscrowStatus, prepare_prl_release, prepare_prl_refund, prepare_usdc_release,
  manual_review, action_name, PearlProofState, BaseEscrowEventState, SettlementSnapshot, Hashing,
}
use pearl_infra.Settlement.Decision.{
  create_settlement_snapshot, evaluate_settlement_snapshot, evaluate_safe_snapshot,
  get_manual_review_reason, is_prl_release_allowed, is_worker_auto_release_authorized,
  may_refund_prl, create_settlement_decision_record, settlement_idempotency_key,
  create_settlement_snapshot_hash, manual_review_trade_states,
}
use pearl_infra.Settlement.Loop.{
  World, list_open_trades, find_trade, execute_settlement_decision, execute_action, save_decision,
  act_on_saved, process_trade, process_trades, run_settlement_worker_iteration, with_prepared,
}
use pearl_infra.Settlement.Release.{
  ReleaseConditions, prepare_release_iff, prepare_usdc_release_iff,
}
use pearl_infra.Settlement.Refund.{
  RefundConditions, Unsafe, prepare_refund_iff, refund_decided_again, manual_review_iff,
}
use pearl_infra.Settlement.Once.{releases, Pass, run_passes, releases_at_most_once}
use pearl_infra.Settlement.BaseState.{
  base_escrow_event_state_from_usdc_trade_state, find_base_escrow_state_mismatch, find_mismatch,
  requires_created_terms, ok,
}
use pearl_infra.Settlement.BaseTerms.{TermsAgree, deposited_terms}

abbrev deadlines : OtcTradeDeadlines
deadlines = record {
  quote_expires_at = some 100000;
  pearl_funding_deadline = some 200000;
  usdc_deposit_deadline = some 300000;
  settlement_deadline = some 400000;
  refund_available_at = some 500000;
}

abbrev pearl_leg : PearlEscrowLeg
pearl_leg = record {
  network = simnet;
  address = "prl1p";
  expected_amount_grains = "100000000";
  required_confirmations = 3;
  internal_pubkey_hex = none;
  script_nonce_hex = none;
  taproot_output_script_hex = none;
  derivation_path = none;
  refund_eligible_after_height = none;
  refund_eligible_after_unix_time = none;
  funding_outpoint = some "aa:0";
  release_txid = none;
  refund_txid = none;
  signer_pubkeys = none;
  buyer_release_presignature = none;
}

abbrev usdc_leg : UsdcEscrowLeg
usdc_leg = record {
  chain_id = 8453;
  contract = "0xAB";
  usdc_token = "0xcc";
  trade_key = "key";
  expected_amount_micros = "2500000";
  required_confirmations = 2;
  deposit_tx_hash = none;
  release_tx_hash = none;
  refund_tx_hash = none;
  expires_at = some 600000;
}

abbrev trade_in : TradeState → OtcTrade
trade_in state = record {
  trade_id = "t1";
  quote_id = "q1";
  state = state;
  side = buy_prl;
  amount_prl = "1";
  amount_usdc = "2.5";
  fee_prl = "0";
  fee_usdc = "0.01";
  buyer_pearl_address = "prl1b";
  buyer_usdc_address = "0xB1";
  seller_pearl_refund_address = "prl1s";
  seller_usdc_receive_address = "0xC1";
  pearl_escrow_mode = some coordinator;
  pearl_release_signing_mode = none;
  buyer_pearl_pubkey = none;
  seller_pearl_pubkey = none;
  pearl_escrow = pearl_leg;
  usdc_escrow = usdc_leg;
  deadlines = deadlines;
  created_at = some 1000;
  updated_at = some 1000;
}

abbrev pearl_in : PearlProofStatus → PearlProofState
pearl_in status = record {
  status = status;
  source_event_id = "pearl:1";
  txid = none;
  outpoint = some "aa:0";
  confirmations = 3;
  observed_at = some 150000;
  reason = none;
}

abbrev base_in : BaseEscrowStatus → BaseEscrowEventState
base_in status = record {
  status = status;
  source_event_id = "base:1";
  tx_hash = none;
  confirmations = 2;
  observed_at = some 160000;
  reason = none;
}

abbrev snapshot_in : TradeState → PearlProofStatus → BaseEscrowStatus → SettlementSnapshot
snapshot_in state pearl base = record {
  trade = trade_in state;
  pearl = pearl_in pearl;
  base = base_in base;
  observed_at = some 170000;
}

-- Both legs are funded.
abbrev funded : SettlementSnapshot
funded =
    snapshot_in TradeState.usdc_escrow_confirmed PearlProofStatus.confirmed
      BaseEscrowStatus.deposited

-- The USDC never came.
abbrev unpaid : SettlementSnapshot
unpaid =
    snapshot_in TradeState.pearl_escrow_confirmed PearlProofStatus.confirmed BaseEscrowStatus.none

prepare_release_iff_example :
    ((evaluate_settlement_snapshot funded 170000).action ≡ prepare_prl_release)
    ↔ ReleaseConditions funded
prepare_release_iff_example = prepare_release_iff funded 170000

prepare_usdc_release_iff_example :
    let s =
      snapshot_in TradeState.release_pending PearlProofStatus.released BaseEscrowStatus.deposited in
    ((evaluate_settlement_snapshot s 170000).action ≡ prepare_usdc_release) ↔ (
      (s.pearl.status ≡ PearlProofStatus.released)
      × (s.base.status ≡ BaseEscrowStatus.deposited)
      × (includes manual_review_trade_states s.trade.state ≡ false)
      × (trade_state_is_terminal s.trade.state ≡ false))
prepare_usdc_release_iff_example =
    prepare_usdc_release_iff
      (snapshot_in TradeState.release_pending PearlProofStatus.released BaseEscrowStatus.deposited)
      170000

prepare_refund_iff_example :
    ((evaluate_settlement_snapshot unpaid 500000).action ≡ prepare_prl_refund)
    ↔ RefundConditions unpaid 500000
prepare_refund_iff_example = prepare_refund_iff unpaid 500000

unpaid_conditions : RefundConditions unpaid 500000
unpaid_conditions = record {
  funded = inr refl;
  unpaid = inl refl;
  available = refl;
  in_time = refl;
  not_in_review = refl;
  is_open = unfold trade_state_is_terminal in refl;
}

refund_decided_again_example :
    ((evaluate_settlement_snapshot unpaid 500000).to_state ≡ some TradeState.refund_pending)
    × ((evaluate_settlement_snapshot
          (snapshot_in TradeState.refund_pending PearlProofStatus.confirmed BaseEscrowStatus.none)
          500000).action
        ≡ prepare_prl_refund)
refund_decided_again_example = refund_decided_again unpaid 500000 unpaid_conditions

manual_review_iff_example :
    let s =
      snapshot_in TradeState.usdc_escrow_confirmed PearlProofStatus.confirmed
        BaseEscrowStatus.released in
    ((evaluate_settlement_snapshot s 170000).action ≡ manual_review) ↔ Unsafe s
manual_review_iff_example =
    manual_review_iff
      (snapshot_in TradeState.usdc_escrow_confirmed PearlProofStatus.confirmed
        BaseEscrowStatus.released)
      170000

-- A digest that keeps what it is given.
abbrev plain : Hashing
plain = record { sha256 = λ text. text; sha256_json = λ input. state_name input.trade_state }

abbrev world : World
world = record {
  trades = trade_in TradeState.usdc_escrow_confirmed ∷ [];
  transitions = [];
  manual_reviews = [];
  decisions = [];
  signer_actions = [];
  broadcaster_actions = [];
}

abbrev funded_pass : ℕ → Pass
funded_pass now = record {
  now = now;
  pearl = λ trade. pearl_in PearlProofStatus.confirmed;
  base = λ trade. base_in BaseEscrowStatus.deposited;
}

abbrev two_passes : List Pass
two_passes = funded_pass 170000 ∷ funded_pass 180000 ∷ []

releases_at_most_once_example : releases "t1" (run_passes plain two_passes world).signer_actions ≤ 1
releases_at_most_once_example = releases_at_most_once plain two_passes world "t1" refl

-- The release is prepared in the first pass.
released_once : releases "t1" (run_passes plain two_passes world).signer_actions ≡ 1
unfolding run_passes run_settlement_worker_iteration process_trades process_trade act_on_saved
    save_decision execute_settlement_decision execute_action with_prepared list_open_trades
    find_trade create_settlement_decision_record settlement_idempotency_key
    create_settlement_snapshot_hash evaluate_settlement_snapshot evaluate_safe_snapshot
    get_manual_review_reason is_prl_release_allowed is_worker_auto_release_authorized may_refund_prl
    trade_state_is_terminal create_settlement_snapshot concat join get set action_name state_name
    slice_start
released_once = refl

abbrev unpaid_pass : ℕ → Pass
unpaid_pass now = record {
  now = now;
  pearl = λ trade. pearl_in PearlProofStatus.confirmed;
  base = λ trade. base_in BaseEscrowStatus.none;
}

-- Two passes that observe the same prepare the refund of one escrow twice.
refunded_twice :
    map
      (λ a. a.action)
      (run_passes plain
        (unpaid_pass 500000 ∷ unpaid_pass 510000 ∷ [])
        (record world { trades = trade_in TradeState.pearl_escrow_confirmed ∷ [] })).signer_actions
    ≡ prepare_prl_refund ∷ prepare_prl_refund ∷ []
unfolding run_passes run_settlement_worker_iteration process_trades process_trade act_on_saved
    save_decision execute_settlement_decision execute_action with_prepared list_open_trades
    find_trade create_settlement_decision_record settlement_idempotency_key
    create_settlement_snapshot_hash evaluate_settlement_snapshot evaluate_safe_snapshot
    get_manual_review_reason is_prl_release_allowed is_worker_auto_release_authorized may_refund_prl
    trade_state_is_terminal create_settlement_snapshot concat join get set action_name state_name
    slice_start
refunded_twice = refl

abbrev deposited_state : UsdcEscrowTradeEventState
deposited_state = record {
  network = UsdcEscrowNetwork.base;
  chain_id = 8453;
  contract_address = "0xab";
  trade_key = "key";
  status = UsdcEscrowStatus.deposited;
  source_event_id = "base:1";
  last_event_name = deposited_event;
  tx_hash = "0x01";
  block_number = 7;
  block_hash = none;
  confirmations = 2;
  observed_at = some 160000;
  buyer = some "0xb1";
  seller = some "0xc1";
  payer = some "0xb1";
  amount_micros = some "2500000";
  fee_micros = some "10000";
  expiry_unix_seconds = some 600;
  seller_amount_micros = none;
  fee_amount_micros = none;
  deposit_tx_hash = some "0x01";
  release_tx_hash = none;
  refund_tx_hash = none;
  cancelled_tx_hash = none;
}

abbrev seen_deposit : BaseEscrowEventState
seen_deposit = record {
  status = BaseEscrowStatus.deposited;
  source_event_id = "base:1";
  tx_hash = some "0x01";
  confirmations = 2;
  observed_at = some 160000;
  reason = none;
}

deposit_is_seen :
    base_escrow_event_state_from_usdc_trade_state
      (some deposited_state)
      (trade_in TradeState.usdc_escrow_pending)
    ≡ ok seen_deposit
unfolding base_escrow_event_state_from_usdc_trade_state find_base_escrow_state_mismatch
    find_mismatch requires_created_terms parse_usdc_to_micros parse_decimal_to_units trim split
    is_invalid_amount digits_value show to_lower_case
deposit_is_seen = refl

deposited_terms_example :
    (UsdcEscrowStatus.deposited ≡ UsdcEscrowStatus.deposited)
    × TermsAgree deposited_state (trade_in TradeState.usdc_escrow_pending)
deposited_terms_example =
    deposited_terms deposited_state (trade_in TradeState.usdc_escrow_pending) seen_deposit
      deposit_is_seen refl
