-- ===== src/Usdc/Repository.antt =====
-- packages/usdc-escrow-client/src/events.ts, `InMemoryUsdcEscrowEventRepository`.
use pearl_infra.Prelude.{
  String, some, none, Option, List, [], ◌∷◌, ◌===◌, string_eq, if◌then◌else◌, map,
}
use pearl_infra.Prelude.Lists.{filter, unique}
use pearl_infra.Prelude.Map.{Dict, get, set, has, values}
use pearl_infra.Usdc.Types.{UsdcEscrowTradeEvent, UsdcEscrowTradeEventState}
use pearl_infra.Usdc.Events.{
  EventResult, ok, mismatch, create_usdc_escrow_source_event_id, normalize_usdc_escrow_trade_events,
}

pub record EventRepository : Type 0 where
  pub events_by_id : Dict UsdcEscrowTradeEvent
  pub state_by_trade_key : Dict UsdcEscrowTradeEventState

-- The first loop: the events that are new, with the map that then holds them.
unfoldable pub insert_events :
    List UsdcEscrowTradeEvent
    → Dict UsdcEscrowTradeEvent
    → Dict UsdcEscrowTradeEvent × List UsdcEscrowTradeEvent
insert_events [] known = (known, [])
insert_events (event ∷ events) known =
    let id = create_usdc_escrow_source_event_id event in
    let skipped = insert_events events known in
    let kept = insert_events events (set id event known) in
    if has id known then skipped else (kept.0, event ∷ kept.1)

-- `normalizeUsdcEscrowTradeEvents(eventsForTrade)`
unfoldable pub trade_states_of :
    String → EventRepository → EventResult (Dict UsdcEscrowTradeEventState)
trade_states_of trade_key repository =
    normalize_usdc_escrow_trade_events
      (filter (λ event. event.trade_key === trade_key) (values repository.events_by_id))

-- `if (nextState) this.stateByTradeKey.set(tradeKey, nextState)`
unfoldable pub keep_state :
    String → Option UsdcEscrowTradeEventState → EventRepository → EventRepository
keep_state trade_key none repository = repository
keep_state trade_key (some state) repository = record repository {
  state_by_trade_key = set trade_key state repository.state_by_trade_key;
}

-- The second loop. What was stored before an exception stays stored.
unfoldable pub update_states :
    List String → EventRepository → EventRepository × EventResult EventRepository
update_states [] repository = (repository, ok repository)
update_states (trade_key ∷ keys) repository = elim (trade_states_of trade_key repository) [
  | mismatch trade ↦ (repository, mismatch trade)
  | ok states ↦ update_states keys (keep_state trade_key (get trade_key states) repository)
]

-- `map(get).filter(Boolean)`
unfoldable pub states_of :
    List String → Dict UsdcEscrowTradeEventState → List UsdcEscrowTradeEventState
states_of [] states = []
states_of (trade_key ∷ keys) states = elim (get trade_key states) [
  | none ↦ states_of keys states
  | some state ↦ state ∷ states_of keys states
]

abbrev pub returned :
    List String → EventResult EventRepository → EventResult (List UsdcEscrowTradeEventState)
returned keys (mismatch trade) = mismatch trade
returned keys (ok repository) = ok (states_of keys repository.state_by_trade_key)

unfoldable pub ingest_events :
    List UsdcEscrowTradeEvent
    → EventRepository
    → EventRepository × EventResult (List UsdcEscrowTradeEventState)
ingest_events events repository =
    let inserted = insert_events events repository.events_by_id in
    let keys = unique (map (λ event. event.trade_key) inserted.1) in
    let updated = update_states keys (record repository { events_by_id = inserted.0 }) in
    (updated.0, returned keys updated.1)

abbrev pub get_trade_state : String → EventRepository → Option UsdcEscrowTradeEventState
get_trade_state trade_key repository = get trade_key repository.state_by_trade_key
