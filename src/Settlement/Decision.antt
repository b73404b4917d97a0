-- ===== src/Settlement/Decision.antt =====
-- services/settlement-worker/src/decision-engine.ts
use pearl_infra.Prelude.{
  ℕ, String, some, none, Option, List, [], ◌∷◌, Bool, true, false, not, ◌&&◌, ◌===◌, if◌then◌else◌,
  leb,
}
use pearl_infra.Prelude.Lists.{includes, sort}
use pearl_infra.Prelude.Dates.{earlier, not_later}
use pearl_infra.Prelude.Text.{concat, join, text_lt, slice_start}
use pearl_infra.Sdk.Trade.{
  OtcTrade, TradeState, trade_state_eq, state_name, PearlEscrowMode, multisig, coordinator,
  PearlReleaseSigningMode, preauthorize_release, manual_after_base_deposit,
  PearlBuyerReleasePresignature,
}
use pearl_infra.Sdk.States.{trade_state_is_terminal}
use pearl_infra.Settlement.Types.{
  PearlProofStatus, BaseEscrowStatus, pearl_status_eq, base_status_eq, pearl_status_name,
  base_status_name, SettlementDecisionAction, wait, manual_review, prepare_prl_release,
  prepare_prl_refund, prepare_usdc_release, mark_released, mark_refunded, action_name,
  PearlProofState, BaseEscrowEventState, SettlementSnapshot, SettlementDecisionRecord, Hashing,
}

unfoldable pub create_settlement_snapshot :
    OtcTrade → PearlProofState → BaseEscrowEventState → ℕ → SettlementSnapshot
create_settlement_snapshot trade pearl base now = record {
  trade = trade;
  pearl = pearl;
  base = base;
  observed_at = some now;
}

abbrev pub manual_review_trade_states : List TradeState
manual_review_trade_states =
    TradeState.late_prl_funding ∷ TradeState.usdc_refunded ∷ TradeState.prl_release_failed
    ∷ TradeState.amount_mismatch ∷ TradeState.reorged ∷ TradeState.stale_indexer
    ∷ TradeState.unknown_spend ∷ []

abbrev pub is_multisig : Option PearlEscrowMode → Bool
is_multisig (some multisig) = true
is_multisig (some coordinator) = false
is_multisig none = false

abbrev pub is_preauthorized : Option PearlReleaseSigningMode → Bool
is_preauthorized (some preauthorize_release) = true
is_preauthorized (some manual_after_base_deposit) = false
is_preauthorized none = false

-- A presignature that is there and was not revoked.
abbrev pub is_live_presignature : Option PearlBuyerReleasePresignature → Bool
is_live_presignature none = false
is_live_presignature (some presig) = elim presig.revoked_at [ none ↦ true | some at ↦ false ]

unfoldable pub is_worker_auto_release_authorized : SettlementSnapshot → Bool
is_worker_auto_release_authorized snapshot =
    if is_multisig snapshot.trade.pearl_escrow_mode
    then (if is_preauthorized snapshot.trade.pearl_release_signing_mode
        then is_live_presignature snapshot.trade.pearl_escrow.buyer_release_presignature
        else false)
    else true

unfoldable pub is_prl_release_allowed : SettlementSnapshot → Bool
is_prl_release_allowed snapshot =
    let base_conditions_met : Bool =
      snapshot.trade.state === TradeState.usdc_escrow_confirmed
      && (snapshot.pearl.status === PearlProofStatus.confirmed
          && (snapshot.base.status === BaseEscrowStatus.deposited
              && (leb snapshot.trade.pearl_escrow.required_confirmations
                    snapshot.pearl.confirmations
                  && (leb snapshot.trade.usdc_escrow.required_confirmations
                        snapshot.base.confirmations
                      && not_later snapshot.pearl.observed_at
                          snapshot.trade.deadlines.pearl_funding_deadline)))) in
    if not base_conditions_met then false else is_worker_auto_release_authorized snapshot

-- `undefined` is `none`.
unfoldable pub get_manual_review_reason : SettlementSnapshot → Option String
unfolding concat
get_manual_review_reason snapshot =
    let pearl = snapshot.pearl.status in
    let base = snapshot.base.status in
    if includes manual_review_trade_states snapshot.trade.state
    then some (
        concat ("trade is already in manual-review state: " ∷ state_name snapshot.trade.state ∷ []))
    else if includes
        (PearlProofStatus.amount_mismatch ∷ PearlProofStatus.reorged
          ∷ PearlProofStatus.unknown_spend ∷ PearlProofStatus.late ∷ [])
        pearl
    then some (concat ("Pearl proof is unsafe: " ∷ pearl_status_name pearl ∷ []))
    else if includes (PearlProofStatus.seen ∷ PearlProofStatus.confirmed ∷ []) pearl
        && earlier snapshot.trade.deadlines.pearl_funding_deadline snapshot.pearl.observed_at
    then some "Pearl funding was observed after the funding deadline"
    else if includes (BaseEscrowStatus.reorged ∷ BaseEscrowStatus.stale ∷ []) base
    then some (concat ("Base escrow observation is unsafe: " ∷ base_status_name base ∷ []))
    else if base === BaseEscrowStatus.released && not (pearl === PearlProofStatus.released)
    then some "Base USDC was released before PRL release confirmation"
    else if base === BaseEscrowStatus.refunded
        && not (includes (PearlProofStatus.refunded ∷ PearlProofStatus.missing ∷ []) pearl)
    then some "Base USDC was refunded while PRL remains funded or spendable"
    else if pearl === PearlProofStatus.released && base === BaseEscrowStatus.refunded
    then some "PRL release and USDC refund both observed"
    else none

-- `Pick<SettlementDecisionRecord, 'action' | 'reason' | 'toState'>`
pub record Evaluation : Type 0 where
  pub action : SettlementDecisionAction
  pub to_state : Option TradeState
  pub reason : String

unfoldable pub may_refund_prl : SettlementSnapshot → ℕ → Bool
may_refund_prl snapshot now =
    includes (PearlProofStatus.seen ∷ PearlProofStatus.confirmed ∷ []) snapshot.pearl.status
    && (includes
          (BaseEscrowStatus.none ∷ BaseEscrowStatus.created ∷ BaseEscrowStatus.cancelled ∷ [])
          snapshot.base.status
        && not_later snapshot.trade.deadlines.refund_available_at (some now))

-- The tests behind the manual-review gate.
unfoldable pub evaluate_safe_snapshot : SettlementSnapshot → ℕ → Evaluation
evaluate_safe_snapshot snapshot now =
    let pearl = snapshot.pearl.status in
    let base = snapshot.base.status in
    if trade_state_is_terminal snapshot.trade.state
    then record {
      action = wait;
      to_state = none;
      reason = concat ("terminal trade state: " ∷ state_name snapshot.trade.state ∷ []);
    }
    else if pearl === PearlProofStatus.released && base === BaseEscrowStatus.deposited
    then record {
      action = prepare_usdc_release;
      to_state = none;
      reason = "PRL release is confirmed and USDC remains deposited";
    }
    else if pearl === PearlProofStatus.released && base === BaseEscrowStatus.released
    then record {
      action = mark_released;
      to_state = some TradeState.released;
      reason = "PRL release is confirmed";
    }
    else if pearl === PearlProofStatus.refunded
    then record {
      action = mark_refunded;
      to_state = some TradeState.refunded;
      reason = "PRL refund is confirmed";
    }
    else if is_prl_release_allowed snapshot
    then record {
      action = prepare_prl_release;
      to_state = some TradeState.release_pending;
      reason = "both Pearl and Base legs are funded";
    }
    else if may_refund_prl snapshot now
    then record {
      action = prepare_prl_refund;
      to_state = some TradeState.refund_pending;
      reason = "USDC leg was not deposited before refund availability";
    }
    else record { action = wait; to_state = none; reason = "settlement prerequisites are not met" }

unfoldable pub evaluate_settlement_snapshot : SettlementSnapshot → ℕ → Evaluation
evaluate_settlement_snapshot snapshot now = elim (get_manual_review_reason snapshot) [
  | some reason ↦ record {
    action = manual_review;
    to_state = some TradeState.failed_manual_review;
    reason = reason;
  }
  | none ↦ evaluate_safe_snapshot snapshot now
]

module _ (h : Hashing) where
  open h use {sha256, sha256_json}

  unfoldable pub create_settlement_snapshot_hash : SettlementSnapshot → String
  unfolding concat
  create_settlement_snapshot_hash snapshot = concat (
      "sha256:"
      ∷ sha256_json (record {
        trade_id = snapshot.trade.trade_id;
        trade_state = snapshot.trade.state;
        deadlines = snapshot.trade.deadlines;
        pearl = snapshot.pearl;
        base = snapshot.base;
      })
      ∷ [])

  abbrev pub sorted_source_event_ids : SettlementSnapshot → List String
  sorted_source_event_ids snapshot =
      sort text_lt (snapshot.pearl.source_event_id ∷ snapshot.base.source_event_id ∷ [])

  unfoldable pub settlement_idempotency_key : SettlementSnapshot → ℕ → String
  unfolding join evaluate_settlement_snapshot create_settlement_snapshot_hash
  settlement_idempotency_key snapshot now = join ":" (
      "settlement"
      ∷ snapshot.trade.trade_id
      ∷ action_name (evaluate_settlement_snapshot snapshot now).action
      ∷ join "+" (sorted_source_event_ids snapshot)
      ∷ create_settlement_snapshot_hash snapshot
      ∷ [])

  unfoldable pub create_settlement_decision_record :
      SettlementSnapshot → ℕ → SettlementDecisionRecord
  create_settlement_decision_record snapshot now =
      let evaluated = evaluate_settlement_snapshot snapshot now in
      let key = settlement_idempotency_key snapshot now in
      record {
        decision_id = concat ("decision_" ∷ slice_start 24 (sha256 key) ∷ []);
        idempotency_key = key;
        trade_id = snapshot.trade.trade_id;
        action = evaluated.action;
        to_state = evaluated.to_state;
        reason = evaluated.reason;
        source_event_ids = sorted_source_event_ids snapshot;
        snapshot_hash = create_settlement_snapshot_hash snapshot;
        created_at = some now;
        metadata = record {
          trade_state = snapshot.trade.state;
          pearl_status = snapshot.pearl.status;
          base_status = snapshot.base.status;
          pearl_confirmations = snapshot.pearl.confirmations;
          base_confirmations = snapshot.base.confirmations;
        };
      }
