-- ===== src/Usdc/Tests.antt =====
-- Events on which the theorem on the repository is applied.
use pearl_infra.Prelude.{String, ◌≡◌, ◌⊎◌, refl, some, none, List, [], ◌∷◌}
use pearl_infra.Prelude.Map.{get, set, values}
use pearl_infra.Prelude.Text.{to_lower_case}
use pearl_infra.Usdc.Types.{
  base, EventBody, created_body, deposited_body, UsdcEscrowTradeEvent, event_name,
  UsdcEscrowTradeEventState,
}
use pearl_infra.Usdc.Events.{
  ok, mismatch, event_belongs_to_previous_state, fresh_state, base_state, apply_body,
  apply_usdc_escrow_trade_event, before, apply_events, normalize_usdc_escrow_trade_events,
}
use pearl_infra.Usdc.Repository.{EventRepository, ingest_events}
use pearl_infra.Usdc.Latest.{IsLatest, normalize-IsLatest}
use pearl_infra.Usdc.Ingest.{AllLatest, AllLatestOr, ingest-AllLatest}

abbrev event_of : String → EventBody → UsdcEscrowTradeEvent
event_of tx body = record {
  network = base;
  chain_id = 8453;
  contract_address = "0xEscrow";
  trade_key = "trade-1";
  tx_hash = tx;
  log_index = 1;
  block_number = 10;
  block_hash = none;
  confirmations = 3;
  observed_at = some 1000;
  body = body;
}

abbrev no_events : EventRepository
no_events = record { events_by_id = []; state_by_trade_key = [] }

no_events-AllLatest : AllLatest no_events
unfolding get values
no_events-AllLatest key = tt

abbrev two_events : List UsdcEscrowTradeEvent
two_events =
    event_of "0x02" (deposited_body "0xpayer" "1000000")
    ∷ event_of "0x01" (created_body "0xbuyer" "0xseller" "990000" "10000" 2000)
    ∷ []

ingest-AllLatest_example :
    let after = ingest_events two_events no_events in
    ((out : List UsdcEscrowTradeEventState) × (after.1 ≡ ok out) × AllLatest after.0)
    ⊎ ((trade : String) × (after.1 ≡ mismatch trade)
        × AllLatestOr no_events.state_by_trade_key after.0)
ingest-AllLatest_example = ingest-AllLatest two_events no_events no_events-AllLatest

-- The deposit comes first in the list and last on the chain.
abbrev deposited_state : UsdcEscrowTradeEventState
deposited_state =
    apply_body
      (some (
        apply_body none (event_of "0x01" (created_body "0xbuyer" "0xseller" "990000" "10000" 2000))
          (created_body "0xbuyer" "0xseller" "990000" "10000" 2000)))
      (event_of "0x02" (deposited_body "0xpayer" "1000000")) (deposited_body "0xpayer" "1000000")

two_events_normalized :
    normalize_usdc_escrow_trade_events two_events ≡ ok (("trade-1", deposited_state) ∷ [])
unfolding normalize_usdc_escrow_trade_events before apply_events apply_usdc_escrow_trade_event
    event_belongs_to_previous_state apply_body base_state fresh_state event_name get set
    to_lower_case
two_events_normalized = refl

normalize-IsLatest_example :
    IsLatest "trade-1" two_events (get "trade-1" (("trade-1", deposited_state) ∷ []))
normalize-IsLatest_example =
    normalize-IsLatest two_events (("trade-1", deposited_state) ∷ []) "trade-1"
      two_events_normalized
