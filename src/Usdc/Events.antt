-- ===== src/Usdc/Events.antt =====
-- packages/usdc-escrow-client/src/events.ts: how an event changes what is known of a trade.
use pearl_infra.Prelude.{
  ℕ, String, some, none, Option, List, [], ◌∷◌, Bool, ◌&&◌, ◌===◌, string_eq, nat_eq, if◌then◌else◌,
  ltb, ◌==◌,
}
use pearl_infra.Prelude.Lists.{sort}
use pearl_infra.Prelude.Map.{Dict, get, set}
use pearl_infra.Prelude.Text.{join, show, to_lower_case, truthy}
use pearl_infra.Usdc.Types.{
  UsdcEscrowStatus, created, deposited, released, refunded, cancelled, network_eq,
  UsdcEscrowTradeEventName, trade_created, deposited_event, released_event, refunded_event,
  cancelled_event, EventBody, created_body, deposited_body, released_body, refunded_body,
  cancelled_body, UsdcEscrowTradeEvent, event_name, UsdcEscrowTradeEventState,
}

unfoldable pub event_name_text : UsdcEscrowTradeEventName → String
event_name_text trade_created = "TradeCreated"
event_name_text deposited_event = "Deposited"
event_name_text released_event = "Released"
event_name_text refunded_event = "Refunded"
event_name_text cancelled_event = "Cancelled"

unfoldable pub create_usdc_escrow_source_event_id : UsdcEscrowTradeEvent → String
unfolding join show event_name event_name_text
create_usdc_escrow_source_event_id event = join ":" (
    "base"
    ∷ show event.chain_id
    ∷ event.trade_key
    ∷ event_name_text (event_name event.body)
    ∷ event.tx_hash
    ∷ show event.log_index
    ∷ [])

unfoldable pub usdc_escrow_status_from_event : UsdcEscrowTradeEventName → UsdcEscrowStatus
usdc_escrow_status_from_event trade_created = created
usdc_escrow_status_from_event deposited_event = deposited
usdc_escrow_status_from_event released_event = released
usdc_escrow_status_from_event refunded_event = refunded
usdc_escrow_status_from_event cancelled_event = cancelled

unfoldable pub event_belongs_to_previous_state :
    UsdcEscrowTradeEventState → UsdcEscrowTradeEvent → Bool
event_belongs_to_previous_state previous event =
    previous.network === event.network
    && (previous.chain_id === event.chain_id
        && (to_lower_case previous.contract_address === to_lower_case event.contract_address
            && previous.trade_key === event.trade_key))

-- A call that may throw.
pub data EventResult {ℓ} (A : Type ℓ) : Type ℓ where
  ok : A → EventResult A
  -- the trade of "USDC escrow event does not match previous state for trade …"
  mismatch : String → EventResult A

-- The constant `base`, over a state with no optional field: what `{}` stands for.
unfoldable pub fresh_state : UsdcEscrowStatus → UsdcEscrowTradeEvent → UsdcEscrowTradeEventState
unfolding create_usdc_escrow_source_event_id event_name
fresh_state status event = record {
  network = event.network;
  chain_id = event.chain_id;
  contract_address = event.contract_address;
  trade_key = event.trade_key;
  status = status;
  source_event_id = create_usdc_escrow_source_event_id event;
  last_event_name = event_name event.body;
  tx_hash = event.tx_hash;
  block_number = event.block_number;
  block_hash = if truthy event.block_hash then event.block_hash else none;
  confirmations = event.confirmations;
  observed_at = event.observed_at;
  buyer = none;
  seller = none;
  payer = none;
  amount_micros = none;
  fee_micros = none;
  expiry_unix_seconds = none;
  seller_amount_micros = none;
  fee_amount_micros = none;
  deposit_tx_hash = none;
  release_tx_hash = none;
  refund_tx_hash = none;
  cancelled_tx_hash = none;
}

-- The constant `base`, spread over the previous state, with the new status.
unfoldable pub base_state :
    Option UsdcEscrowTradeEventState
    → UsdcEscrowStatus
    → UsdcEscrowTradeEvent
    → UsdcEscrowTradeEventState
unfolding fresh_state
base_state none status event = fresh_state status event
base_state (some previous) status event = record previous {
  network = event.network;
  chain_id = event.chain_id;
  contract_address = event.contract_address;
  trade_key = event.trade_key;
  status = status;
  source_event_id = create_usdc_escrow_source_event_id event;
  last_event_name = event_name event.body;
  tx_hash = event.tx_hash;
  block_number = event.block_number;
  block_hash = if truthy event.block_hash then event.block_hash else previous.block_hash;
  confirmations = event.confirmations;
  observed_at = event.observed_at;
}

-- The `switch` on the event's name.
unfoldable pub apply_body :
    Option UsdcEscrowTradeEventState → UsdcEscrowTradeEvent → EventBody → UsdcEscrowTradeEventState
unfolding base_state
apply_body previous event (created_body buyer seller amount fee expiry) =
    record (base_state previous created event) {
      buyer = some buyer;
      seller = some seller;
      amount_micros = some amount;
      fee_micros = some fee;
      expiry_unix_seconds = some expiry;
    }
apply_body previous event (deposited_body payer amount) =
    record (base_state previous deposited event) {
      payer = some payer;
      amount_micros = some amount;
      deposit_tx_hash = some event.tx_hash;
    }
apply_body previous event (released_body seller seller_amount fee_amount) =
    record (base_state previous released event) {
      seller = some seller;
      seller_amount_micros = some seller_amount;
      fee_amount_micros = some fee_amount;
      release_tx_hash = some event.tx_hash;
    }
apply_body previous event (refunded_body buyer amount) =
    record (base_state previous refunded event) {
      buyer = some buyer;
      amount_micros = some amount;
      refund_tx_hash = some event.tx_hash;
    }
apply_body previous event cancelled_body = record (base_state previous cancelled event) {
  cancelled_tx_hash = some event.tx_hash;
}

unfoldable pub apply_usdc_escrow_trade_event :
    Option UsdcEscrowTradeEventState → UsdcEscrowTradeEvent → EventResult UsdcEscrowTradeEventState
unfolding event_belongs_to_previous_state apply_body
apply_usdc_escrow_trade_event none event = ok (apply_body none event event.body)
apply_usdc_escrow_trade_event (some previous) event =
    if event_belongs_to_previous_state previous event
    then ok (apply_body (some previous) event event.body)
    else mismatch previous.trade_key

-- `EVENT_ORDER`
abbrev pub event_order : UsdcEscrowTradeEventName → ℕ
event_order trade_created = 0
event_order deposited_event = 1
event_order _ = 2

-- `compareUsdcEscrowEvents(left, right) < 0`
unfoldable pub before : UsdcEscrowTradeEvent → UsdcEscrowTradeEvent → Bool
unfolding event_name
before left right =
    if left.block_number == right.block_number
    then (if left.log_index == right.log_index
        then ltb (event_order (event_name left.body)) (event_order (event_name right.body))
        else ltb left.log_index right.log_index)
    else ltb left.block_number right.block_number

-- The loop over the sorted events. An event that does not fit ends it with the error.
unfoldable pub apply_events :
    Dict UsdcEscrowTradeEventState
    → List UsdcEscrowTradeEvent
    → EventResult (Dict UsdcEscrowTradeEventState)
apply_events states [] = ok states
apply_events states (event ∷ events) =
    elim (apply_usdc_escrow_trade_event (get event.trade_key states) event) [
      | mismatch trade ↦ mismatch trade
      | ok state ↦ apply_events (set event.trade_key state states) events
    ]

unfoldable pub normalize_usdc_escrow_trade_events :
    List UsdcEscrowTradeEvent → EventResult (Dict UsdcEscrowTradeEventState)
unfolding before apply_events
normalize_usdc_escrow_trade_events events = apply_events [] (sort before events)
