-- ===== src/Usdc/Latest.antt =====
-- packages/usdc-escrow-client/src/events.ts, `normalizeUsdcEscrowTradeEvents`: the states that it
-- gives, against the events in the order of the chain.
use pearl_infra.Prelude.{
  ◌≤◌, ◌<◌, String, ◌≡◌, ◌⊎◌, inl, inr, refl, some, none, Option, List, [], ◌∷◌, true, false, arith,
  eq_iff, ◌===◌, string_eq, Bool-cases,
}
use mathlib.Core.Path.{subst}
use pearl_infra.Prelude.Lists.{All, sort}
use pearl_infra.Prelude.Sorted.{
  Exists, Exists-map, All-map, All-true, All-unsort, Exists-unsort, IsSorted, sort-IsSorted,
}
use pearl_infra.Prelude.Map.{Dict, get, set, get-set}
use pearl_infra.Usdc.Types.{
  deposited, released, refunded, UsdcEscrowTradeEvent, event_name, UsdcEscrowTradeEventState,
}
use pearl_infra.Usdc.Events.{
  EventResult, ok, mismatch, usdc_escrow_status_from_event, create_usdc_escrow_source_event_id,
  event_order, fresh_state, base_state, apply_body, before, apply_usdc_escrow_trade_event,
  apply_events, normalize_usdc_escrow_trade_events,
}

-- What a state takes from the event that was applied last.
pub record Describes (s : UsdcEscrowTradeEventState) (event : UsdcEscrowTradeEvent) : Type 0 where
  pub own_key : s.trade_key ≡ event.trade_key
  pub name : s.last_event_name ≡ event_name event.body
  pub of_event : s.status ≡ usdc_escrow_status_from_event (event_name event.body)
  pub tx : s.tx_hash ≡ event.tx_hash
  pub source : s.source_event_id ≡ create_usdc_escrow_source_event_id event
  pub block : s.block_number ≡ event.block_number
  pub confirmed : s.confirmations ≡ event.confirmations
  pub deposit : s.status ≡ deposited → s.deposit_tx_hash ≡ some event.tx_hash
  pub release : s.status ≡ released → s.release_tx_hash ≡ some event.tx_hash
  pub refund : s.status ≡ refunded → s.refund_tx_hash ≡ some event.tx_hash

-- The block, then the log index, then the kind of event decide: a creation is ahead of a deposit, and
-- both are ahead of the rest.
abbrev pub IsNotAfter : UsdcEscrowTradeEvent → UsdcEscrowTradeEvent → Type 0
IsNotAfter other event =
    (other.block_number < event.block_number)
    ⊎ ((other.block_number ≡ event.block_number)
        × ((other.log_index < event.log_index)
            ⊎ ((other.log_index ≡ event.log_index)
                × (event_order (event_name other.body) ≤ event_order (event_name event.body)))))

-- An event of the trade that no other event of the trade comes after, and that `s` describes.
pub record IsLast (key : String) (events : List UsdcEscrowTradeEvent)
    (s : UsdcEscrowTradeEventState) (event : UsdcEscrowTradeEvent) : Type 0 where
  pub of_trade : event.trade_key ≡ key
  pub last : All (λ other. ((other.trade_key === key) ≡ false) ⊎ IsNotAfter other event) events
  pub describes : Describes s event

-- The trade has no event, or `s` is the state after the last one.
abbrev pub IsLatest : String → List UsdcEscrowTradeEvent → Option UsdcEscrowTradeEventState → Type 0
IsLatest key events none = All (λ event. (event.trade_key === key) ≡ false) events
IsLatest key events (some s) = Exists (IsLast key events s) events

apply_body-Describes :
    (previous : Option UsdcEscrowTradeEventState) (event : UsdcEscrowTradeEvent)
    → Describes (apply_body previous event event.body) event
unfolding apply_body base_state fresh_state usdc_escrow_status_from_event event_name
apply_body-Describes previous event = record {
  own_key = ground arith;
  name = ground arith;
  of_event = ground arith;
  tx = ground arith;
  source = ground arith;
  block = ground arith;
  confirmed = ground arith;
  deposit = λ d. ground arith;
  release = λ r. ground arith;
  refund = λ r. ground arith;
}

apply_ok :
    (previous : Option UsdcEscrowTradeEventState) (event : UsdcEscrowTradeEvent)
    (s : UsdcEscrowTradeEventState)
    → apply_usdc_escrow_trade_event previous event ≡ ok s
    → apply_body previous event event.body ≡ s
unfolding apply_usdc_escrow_trade_event
apply_ok none event s e = ground arith
apply_ok (some previous) event s e = ground arith

before_irrefl : (a : UsdcEscrowTradeEvent) → before a a ≡ false
unfolding before
before_irrefl a = ground arith

before_asym : (a b : UsdcEscrowTradeEvent) → before a b ≡ true → before b a ≡ false
unfolding before
before_asym a b h = ground arith

not_before_trans :
    (a b c : UsdcEscrowTradeEvent) → before b a ≡ false → before c b ≡ false → before c a ≡ false
unfolding before
not_before_trans a b c h k = ground arith

not_before-IsNotAfter :
    (event other : UsdcEscrowTradeEvent) → before event other ≡ false → IsNotAfter other event
unfolding before
not_before-IsNotAfter event other h = ground arith

-- The events after one of them in the sorted list leave it last, or give a later one.
module _ (key : String) (event : UsdcEscrowTradeEvent) (events : List UsdcEscrowTradeEvent)
    (later : All (λ other. before other event ≡ false) events) where
  keep-IsLast :
      (s : UsdcEscrowTradeEventState)
      → Exists (IsLast key events s) events
      → Exists (IsLast key (event ∷ events) s) (event ∷ events)
  keep-IsLast s h = inr (
      Exists-map events
        (λ x not_before l. record {
          of_trade = l.of_trade;
          last = (inr (not_before-IsNotAfter x event not_before), l.last);
          describes = l.describes;
        })
        later h)

  be-IsLast :
      (s : UsdcEscrowTradeEventState)
      → event.trade_key ≡ key
      → Describes s event
      → All (λ other. (other.trade_key === key) ≡ false) events
      → Exists (IsLast key (event ∷ events) s) (event ∷ events)
  be-IsLast s same d others = inl (record {
    of_trade = same;
    last = (
      inr (not_before-IsNotAfter event event (before_irrefl event)),
      All-map events (λ x h. inl h) others,
    );
    describes = d;
  })

-- After the events the trade has the state that it had and none of them is of the trade, or it has
-- the state after its last event.
abbrev Outcome :
    String
    → List UsdcEscrowTradeEvent
    → Dict UsdcEscrowTradeEventState
    → Dict UsdcEscrowTradeEventState
    → Type 0
Outcome key events states final =
    ((get key final ≡ get key states) × All (λ event. (event.trade_key === key) ≡ false) events)
    ⊎ ((s : UsdcEscrowTradeEventState) × (get key final ≡ some s)
        × Exists (IsLast key events s) events)

step-Outcome :
    (key : String) (event : UsdcEscrowTradeEvent) (events : List UsdcEscrowTradeEvent)
    (s : UsdcEscrowTradeEventState) (states final : Dict UsdcEscrowTradeEventState)
    → All (λ other. before other event ≡ false) events
    → Describes s event
    → Outcome key events (set event.trade_key s states) final
    → Outcome key (event ∷ events) states final
step-Outcome key event events s states final later d (inr (t, found, last)) =
    inr (t, found, keep-IsLast key event events later t last)
step-Outcome key event events s states final later d (inl (same, others)) =
    let at = get-set event.trade_key key s states in
    elim (Bool-cases (event.trade_key === key)) [
      | inl e ↦ inr (
        s,
        ground (arith, same, at, e),
        be-IsLast key event events later s ((eq_iff event.trade_key key).0 e) d others,
      )
      | inr e ↦ inl (ground (arith, same, at, e), (e, others))
    ]

-- One turn of the loop, where it returns.
turn-Outcome :
    (key : String) (event : UsdcEscrowTradeEvent) (events : List UsdcEscrowTradeEvent)
    (states final : Dict UsdcEscrowTradeEventState) (r : EventResult UsdcEscrowTradeEventState)
    → apply_usdc_escrow_trade_event (get event.trade_key states) event ≡ r
    → All (λ other. before other event ≡ false) events
    → (elim r as (λ _. EventResult (Dict UsdcEscrowTradeEventState)) [
      | mismatch trade ↦ mismatch trade
      | ok state ↦ apply_events (set event.trade_key state states) events
    ])
      ≡ ok final
    → ((next : Dict UsdcEscrowTradeEventState)
        → apply_events next events ≡ ok final
        → Outcome key events next final)
    → Outcome key (event ∷ events) states final
turn-Outcome key event events states final (mismatch trade) applied later returned rest =
    absurd (ground (arith, returned))
turn-Outcome key event events states final (ok s) applied later returned rest =
    step-Outcome key event events s states final later
      (subst (λ x. Describes x event) (apply_ok (get event.trade_key states) event s applied)
        (apply_body-Describes (get event.trade_key states) event))
      (rest (set event.trade_key s states) returned)

apply_events-Outcome :
    (key : String) (events : List UsdcEscrowTradeEvent)
    (states final : Dict UsdcEscrowTradeEventState)
    → IsSorted before events
    → apply_events states events ≡ ok final
    → Outcome key events states final
unfolding apply_events
apply_events-Outcome key [] states final sorted e = inl (ground (arith, e), tt)
apply_events-Outcome key (event ∷ events) states final sorted e =
    turn-Outcome key event events states final
      (apply_usdc_escrow_trade_event (get event.trade_key states) event) refl sorted.0 e
      (λ next. apply_events-Outcome key events next final sorted.1)

-- What is so in the sorted list is so in the list.
unsorted-IsLatest :
    (key : String) (events : List UsdcEscrowTradeEvent) (final : Dict UsdcEscrowTradeEventState)
    → Outcome key (sort before events) [] final
    → IsLatest key events (get key final)
unfolding get
unsorted-IsLatest key events final (inl (none_at, others)) =
    let at : get key final ≡ none = none_at in rw at (All-unsort before _ events others)
unsorted-IsLatest key events final (inr (s, found, last)) = rw found (
    Exists-unsort before _ events (
      Exists-map (sort before events)
        (λ x u l. record {
          of_trade = l.of_trade;
          last = All-unsort before _ events l.last;
          describes = l.describes;
        })
        (All-true {P = λ x. Unit} (sort before events) (λ x. tt)) last))

-- Where the events fit each other, whatever their order in the list, a trade without an event has no
-- state, and each other trade has one that its last event in the order of blocks, log indices and
-- event kinds describes: the state has this event's trade, name, status, transaction, source id,
-- block number and confirmations, and its transaction as the deposit, release or refund where the
-- status is that.
pub normalize-IsLatest :
    (events : List UsdcEscrowTradeEvent) (final : Dict UsdcEscrowTradeEventState) (key : String)
    → normalize_usdc_escrow_trade_events events ≡ ok final
    → IsLatest key events (get key final)
unfolding normalize_usdc_escrow_trade_events
normalize-IsLatest events final key e = unsorted-IsLatest key events final (
    apply_events-Outcome key (sort before events) [] final
      (sort-IsSorted before before_asym not_before_trans events) e)
