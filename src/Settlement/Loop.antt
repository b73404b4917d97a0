-- ===== src/Settlement/Loop.antt =====
-- services/settlement-worker/src/settlement-loop.ts: one pass of the worker over its trades, with
-- the in-memory trade source, signer, broadcaster and decision repository of that package. A trade
-- object is shared between the list of the pass and the source, and is named here by its trade id,
-- which is unique: each step reads the object as the steps before have left it.
use pearl_infra.Prelude.{
  ℕ, String, some, none, Option, List, [], ◌∷◌, ◌++◌, map, Bool, true, false, not, ◌===◌, string_eq,
  if◌then◌else◌, or_default,
}
use pearl_infra.Prelude.Lists.{includes, filter, length}
use pearl_infra.Prelude.Map.{Dict, get, set}
use pearl_infra.Prelude.Text.{concat}
use pearl_infra.Sdk.Trade.{OtcTrade, TradeState, trade_state_eq}
use pearl_infra.Settlement.Types.{
  SettlementDecisionAction, wait, manual_review, prepare_prl_release, prepare_prl_refund,
  prepare_usdc_release, mark_released, mark_refunded, PearlProofState, BaseEscrowEventState,
  SettlementDecisionRecord, SettlementPreparedAction, Hashing,
}
use pearl_infra.Settlement.Decision.{create_settlement_snapshot, create_settlement_decision_record}

-- An entry of `transitions`.
pub record Transition : Type 0 where
  pub trade_id : String
  pub state : TradeState
  pub decision_id : String

-- An entry of `manualReviews`.
pub record ManualReview : Type 0 where
  pub trade_id : String
  pub reason : String
  pub decision_id : String

-- The state of the in-memory dependencies.
pub record World : Type 0 where
  pub trades : List OtcTrade
  pub transitions : List Transition
  pub manual_reviews : List ManualReview
  pub decisions : Dict SettlementDecisionRecord
  pub signer_actions : List SettlementPreparedAction
  pub broadcaster_actions : List SettlementPreparedAction

-- `this.trades.find((candidate) => candidate.tradeId === tradeId)`
unfoldable pub find_trade : String → List OtcTrade → Option OtcTrade
find_trade trade_id [] = none
find_trade trade_id (trade ∷ trades) =
    if trade.trade_id === trade_id then some trade else find_trade trade_id trades

-- The two assignments to the trade that `find` returns.
unfoldable pub set_trade_state :
    String → TradeState → SettlementDecisionRecord → List OtcTrade → List OtcTrade
set_trade_state trade_id state decision [] = []
set_trade_state trade_id state decision (trade ∷ trades) =
    if trade.trade_id === trade_id
    then record trade { state = state; updated_at = decision.created_at } ∷ trades
    else trade ∷ set_trade_state trade_id state decision trades

abbrev pub closed_states : List TradeState
closed_states =
    TradeState.released ∷ TradeState.refunded ∷ TradeState.cancelled
    ∷ TradeState.failed_manual_review ∷ []

unfoldable pub list_open_trades : World → List OtcTrade
list_open_trades w = filter (λ trade. not (includes closed_states trade.state)) w.trades

unfoldable pub apply_trade_state : String → TradeState → SettlementDecisionRecord → World → World
unfolding set_trade_state
apply_trade_state trade_id state decision w = record w {
  trades = set_trade_state trade_id state decision w.trades;
  transitions =
      w.transitions
      ++ record { trade_id = trade_id; state = state; decision_id = decision.decision_id } ∷ [];
}

unfoldable pub flag_manual_review : String → String → SettlementDecisionRecord → World → World
unfolding set_trade_state
flag_manual_review trade_id reason decision w = record w {
  trades = set_trade_state trade_id TradeState.failed_manual_review decision w.trades;
  manual_reviews =
      w.manual_reviews
      ++ record { trade_id = trade_id; reason = reason; decision_id = decision.decision_id } ∷ [];
}

unfoldable pub create_prepared_action :
    OtcTrade → SettlementDecisionRecord → String → SettlementPreparedAction
unfolding concat
create_prepared_action trade decision adapter = record {
  action_id = concat (adapter ∷ "_" ∷ decision.decision_id ∷ []);
  decision_id = decision.decision_id;
  trade_id = trade.trade_id;
  action = decision.action;
  idempotency_key = concat (adapter ∷ ":" ∷ decision.idempotency_key ∷ []);
  created_at = decision.created_at;
  adapter = adapter;
  live_broadcast = false;
}

abbrev pub Prepared : Type 0
Prepared = Option SettlementPreparedAction

-- `prepare` of the in-memory signer, for a release and for a refund.
unfoldable pub signer_prepare : OtcTrade → SettlementDecisionRecord → World → World × Prepared
unfolding create_prepared_action
signer_prepare trade decision w =
    let action = create_prepared_action trade decision "signer" in
    (record w { signer_actions = w.signer_actions ++ action ∷ [] }, some action)

unfoldable pub prepare_usdc : OtcTrade → SettlementDecisionRecord → World → World × Prepared
unfolding create_prepared_action
prepare_usdc trade decision w =
    let action = create_prepared_action trade decision "broadcaster" in
    (record w { broadcaster_actions = w.broadcaster_actions ++ action ∷ [] }, some action)

-- `if (decision.toState) await applyTradeState(…)`
unfoldable pub mark_state : Option TradeState → OtcTrade → SettlementDecisionRecord → World → World
mark_state none trade decision w = w
mark_state (some state) trade decision w = apply_trade_state trade.trade_id state decision w

-- The `switch` of `executeSettlementDecision`.
unfoldable pub execute_action :
    SettlementDecisionAction → OtcTrade → SettlementDecisionRecord → World → World × Prepared
unfolding signer_prepare prepare_usdc apply_trade_state flag_manual_review mark_state
execute_action wait trade decision w = (w, none)
execute_action manual_review trade decision w =
    (flag_manual_review trade.trade_id decision.reason decision w, none)
execute_action prepare_prl_release trade decision w = signer_prepare trade decision (
    apply_trade_state trade.trade_id (or_default decision.to_state TradeState.release_pending)
      decision w)
execute_action prepare_prl_refund trade decision w = signer_prepare trade decision (
    apply_trade_state trade.trade_id (or_default decision.to_state TradeState.refund_pending)
      decision w)
execute_action prepare_usdc_release trade decision w = prepare_usdc trade decision w
execute_action mark_released trade decision w =
    (mark_state decision.to_state trade decision w, none)
execute_action mark_refunded trade decision w =
    (mark_state decision.to_state trade decision w, none)

unfoldable pub execute_settlement_decision :
    OtcTrade → SettlementDecisionRecord → World → World × Prepared
execute_settlement_decision trade decision w = execute_action decision.action trade decision w

-- `InMemorySettlementDecisionRepository.saveDecision`
unfoldable pub save_decision :
    SettlementDecisionRecord → World → World × (SettlementDecisionRecord × Bool)
save_decision decision w = elim (get decision.idempotency_key w.decisions) [
  | some existing ↦ (w, (existing, false))
  | none ↦
      (record w { decisions = set decision.idempotency_key decision w.decisions }, (decision, true))
]

-- `SettlementWorkerIterationResult`, as it grows.
pub record IterationResult : Type 0 where
  pub decisions : List SettlementDecisionRecord
  pub created_decision_ids : List String
  pub prepared_actions : List SettlementPreparedAction

unfoldable pub with_prepared : Prepared → IterationResult → IterationResult
with_prepared none r = r
with_prepared (some action) r = record r { prepared_actions = r.prepared_actions ++ action ∷ [] }

module _ (h : Hashing) (pearl : OtcTrade → PearlProofState)
    (base : OtcTrade → BaseEscrowEventState) where
  -- What follows `if (!saved.created) continue`.
  unfoldable pub act_on_saved :
      OtcTrade
      → World × (SettlementDecisionRecord × Bool)
      → IterationResult
      → World × IterationResult
  act_on_saved trade (w, (decision, created)) r =
      let r' : IterationResult = record r { decisions = r.decisions ++ decision ∷ [] } in
      let executed = execute_settlement_decision trade decision w in
      if created
      then (
        executed.0,
        with_prepared executed.1 (record r' {
          created_decision_ids = r'.created_decision_ids ++ decision.decision_id ∷ [];
        }),
      )
      else (w, r')

  -- The body of the loop.
  unfoldable pub process_trade : ℕ → OtcTrade → World → IterationResult → World × IterationResult
  process_trade now trade w r =
      let snapshot = create_settlement_snapshot trade (pearl trade) (base trade) now in
      act_on_saved trade (save_decision (create_settlement_decision_record h snapshot now) w) r

  unfoldable pub process_trades :
      ℕ → List String → World → IterationResult → World × IterationResult
  process_trades now [] w r = (w, r)
  process_trades now (trade_id ∷ ids) w r = elim (find_trade trade_id w.trades) [
    | none ↦ process_trades now ids w r
    | some trade ↦ let done = process_trade now trade w r in process_trades now ids done.0 done.1
  ]

  unfoldable pub run_settlement_worker_iteration : ℕ → World → World × (ℕ × IterationResult)
  run_settlement_worker_iteration now w =
      let trades = list_open_trades w in
      let start : IterationResult = record {
        decisions = [];
        created_decision_ids = [];
        prepared_actions = [];
      } in
      let done = process_trades now (map (λ trade. trade.trade_id) trades) w start in
      (done.0, (length trades, done.1))
