-- ===== src/Otc/Trades.antt =====
-- services/otc-api/src/repository.ts and trade-service.ts: trades and their events.
use pearl_infra.Prelude.{
  String, some, none, Option, List, [], ◌∷◌, ◌++◌, Bool, ◌===◌, if◌then◌else◌, or_default,
}
use pearl_infra.Prelude.Equality.{string_eq}
use pearl_infra.Prelude.Lists.{any}
use pearl_infra.Prelude.Map.{Dict, get, set}
use pearl_infra.Prelude.Dates.{Timestamp}
use pearl_infra.Sdk.Trade.{TradeState, OtcTrade}
use pearl_infra.Sdk.States.{can_transition_trade}
use pearl_infra.Otc.Types.{Text, OtcOrder, OtcError, Checked, throws, done}
use pearl_infra.Otc.Orders.{OrderRepository, reserve_order_fill}

-- `TradeEvent`, without what no event of these calls carries.
pub record TradeEvent : Type 0 where
  pub trade_id : String
  pub from_state : TradeState
  pub to_state : TradeState
  pub source_event_id : String
  pub observed_at : Timestamp

pub record TradeRepository : Type 0 where
  pub order_book : OrderRepository
  pub trades : Dict OtcTrade
  pub trade_client_requests : Dict String
  pub trade_request_hashes : Dict String
  pub trade_by_quote : Dict String
  pub events : Dict (List TradeEvent)

abbrev hash_saved : String → Option String → Dict String → Dict String
hash_saved client_request_id none hashes = hashes
hash_saved client_request_id (some hash) hashes =
    if hash === "" then hashes else set client_request_id hash hashes

unfoldable pub save_trade : OtcTrade → String → Option String → TradeRepository → TradeRepository
save_trade trade client_request_id request_hash repo = record repo {
  trades = set trade.trade_id trade repo.trades;
  trade_client_requests = set client_request_id trade.trade_id repo.trade_client_requests;
  trade_by_quote = set trade.quote_id trade.trade_id repo.trade_by_quote;
  trade_request_hashes = hash_saved client_request_id request_hash repo.trade_request_hashes;
}

abbrev pub events_of : String → TradeRepository → List TradeEvent
events_of trade_id repo = or_default (get trade_id repo.events) []

abbrev pub has_source : TradeEvent → TradeEvent → Bool
has_source event candidate = candidate.source_event_id === event.source_event_id

-- An event whose source is known is not added again.
unfoldable pub append_event : TradeEvent → TradeRepository → TradeRepository
append_event event repo =
    if any (has_source event) (events_of event.trade_id repo) then repo else record repo {
      events = set event.trade_id (events_of event.trade_id repo ++ event ∷ []) repo.events;
    }

unfoldable pub update_trade : OtcTrade → TradeRepository → TradeRepository
update_trade trade repo = record repo { trades = set trade.trade_id trade repo.trades }

pub record OrderFill : Type 0 where
  pub order_id : String
  pub amount_prl : Text
  pub updated_at : String

pub record SaveAcceptedTradeInput : Type 0 where
  pub trade : OtcTrade
  pub client_request_id : String
  pub request_hash : Option String
  pub event : TradeEvent
  pub order_fill : Option OrderFill

abbrev pub save_and_append : SaveAcceptedTradeInput → TradeRepository → TradeRepository
save_and_append input repo =
    append_event input.event
      (save_trade input.trade input.client_request_id input.request_hash repo)

-- `none` where nothing is thrown.
abbrev after_fill :
    SaveAcceptedTradeInput
    → TradeRepository
    → OrderRepository × Checked OtcOrder
    → TradeRepository × Option OtcError
after_fill input repo (orders, throws error) = (record repo { order_book = orders }, some error)
after_fill input repo (orders, done order) =
    (save_and_append input (record repo { order_book = orders }), none)

unfoldable pub save_accepted_trade :
    SaveAcceptedTradeInput → TradeRepository → TradeRepository × Option OtcError
save_accepted_trade input repo = elim input.order_fill [
  | none ↦ (save_and_append input repo, none)
  | some fill ↦
      after_fill input repo
        (reserve_order_fill fill.order_id fill.amount_prl fill.updated_at repo.order_book)
]

-- What `transitionTrade` throws or returns; the notifications and points that follow are left out.
pub data TransitionResult : Type 0 where
  trade_not_found invalid_transition : TransitionResult
  moved_to : OtcTrade → TransitionResult

abbrev pub moved_trade : TradeState → Timestamp → OtcTrade → OtcTrade
moved_trade to_state now trade = record trade { state = to_state; updated_at = now }

abbrev transition_event : String → OtcTrade → TradeState → String → Timestamp → TradeEvent
transition_event trade_id trade to_state source_event_id now = record {
  trade_id = trade_id;
  from_state = trade.state;
  to_state = to_state;
  source_event_id = source_event_id;
  observed_at = now;
}

unfoldable pub transition_trade :
    Timestamp → String → TradeState → String → TradeRepository → TradeRepository × TransitionResult
transition_trade now trade_id to_state source_event_id repo = elim (get trade_id repo.trades) [
  | none ↦ (repo, trade_not_found)
  | some trade ↦
      if can_transition_trade trade.state to_state
      then (
        append_event (transition_event trade_id trade to_state source_event_id now)
            (update_trade (moved_trade to_state now trade) repo),
        moved_to (moved_trade to_state now trade),
      )
      else (repo, invalid_transition)
]

pub record Transition : Type 0 where
  pub now : Timestamp
  pub trade_id : String
  pub to_state : TradeState
  pub source_event_id : String

unfoldable pub run_transitions : List Transition → TradeRepository → TradeRepository
run_transitions [] repo = repo
run_transitions (t ∷ ts) repo =
    run_transitions ts (transition_trade t.now t.trade_id t.to_state t.source_event_id repo).0
