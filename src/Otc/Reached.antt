-- ===== src/Otc/Reached.antt =====
-- services/otc-api: the states that a trade's transitions lead to, its events, and what an accepted
-- quote leaves where its order cannot be filled.
use pearl_infra.Prelude.{
  String, ◌≡◌, refl, sym, ap, ◌∙◌, inl, inr, ◌⊎◌, Option, some, none, List, [], ◌∷◌, true, false,
  ◌===◌, arith, eq_iff, Option-cases, Bool-cases,
}
use mathlib.Core.Path.{subst}
use pearl_infra.Prelude.Equality.{string_eq}
use pearl_infra.Prelude.Lists.{any}
use pearl_infra.Prelude.Map.{Dict, get, set, get-set, get-set_self}
use pearl_infra.Prelude.Dates.{Timestamp}
use pearl_infra.Sdk.Trade.{TradeState, OtcTrade}
use pearl_infra.Sdk.States.{can_transition_trade, Reach, here, next}
use pearl_infra.Otc.Types.{OtcOrder, OtcError, Checked, throws, done}
use pearl_infra.Otc.Orders.{OrderRepository, reserve_order_fill, update_order, fill_order}
use pearl_infra.Otc.Accounts.{Checked-cases}
use pearl_infra.Otc.Trades.{
  TradeEvent, TradeRepository, save_trade, events_of, has_source, append_event, update_trade,
  OrderFill, SaveAcceptedTradeInput, save_and_append, save_accepted_trade, transition_trade,
  moved_trade, Transition, run_transitions,
}

-- Every trade stands under its id.
abbrev pub Keyed : Dict OtcTrade → Type 0
Keyed trades = (k : String) (t : OtcTrade) → get k trades ≡ some t → t.trade_id ≡ k

append_trades :
    (event : TradeEvent) (repo : TradeRepository) → (append_event event repo).trades ≡ repo.trades
unfolding append_event
append_trades event repo =
    elim (Bool-cases (any (has_source event) (events_of event.trade_id repo))) [
      | inl e ↦ rw (append_event, e) refl
      | inr e ↦ rw (append_event, e) refl
    ]

reach_trans : {s t u : TradeState} → Reach s t → Reach t u → Reach s u
reach_trans p here = p
reach_trans p (next q e) = next (reach_trans p q) e

-- The trade `id` is there, in a state that can be reached from `s`.
pub record Reached (id : String) (s : TradeState) (repo : TradeRepository) : Type 0 where
  pub trade : OtcTrade
  pub stored : get id repo.trades ≡ some trade
  pub reaches : Reach s trade.state

transition_trades :
    (t : Transition) (repo : TradeRepository) (trade : OtcTrade)
    → get t.trade_id repo.trades ≡ some trade
    → can_transition_trade trade.state t.to_state ≡ true
    → (transition_trade t.now t.trade_id t.to_state t.source_event_id repo).0.trades
      ≡ set trade.trade_id (moved_trade t.to_state t.now trade) repo.trades
unfolding transition_trade update_trade
transition_trades t repo trade e c = rw (transition_trade, e, c) (append_trades _ _)

transition_refused :
    (t : Transition) (repo : TradeRepository) (trade : OtcTrade)
    → get t.trade_id repo.trades ≡ some trade
    → can_transition_trade trade.state t.to_state ≡ false
    → (transition_trade t.now t.trade_id t.to_state t.source_event_id repo).0 ≡ repo
unfolding transition_trade
transition_refused t repo trade e c = rw (transition_trade, e, c) refl

transition_missing :
    (t : Transition) (repo : TradeRepository)
    → get t.trade_id repo.trades ≡ none
    → (transition_trade t.now t.trade_id t.to_state t.source_event_id repo).0 ≡ repo
unfolding transition_trade
transition_missing t repo e = rw (transition_trade, e) refl

set-Keyed :
    (k : String) (t : OtcTrade) (trades : Dict OtcTrade)
    → Keyed trades
    → t.trade_id ≡ k
    → Keyed (set k t trades)
set-Keyed k t trades h e j v f = ground (arith, get-set k j t trades, h j v, eq_iff k j)

-- One transition that is allowed.
moved-Reached :
    (id k : String) (s to_state : TradeState) (now : Timestamp) (trade : OtcTrade)
    (repo later : TradeRepository)
    → get k repo.trades ≡ some trade
    → can_transition_trade trade.state to_state ≡ true
    → later.trades ≡ set k (moved_trade to_state now trade) repo.trades
    → Reached id s repo
    → Reached id s later
moved-Reached id k s to_state now trade repo later e c same r = elim (Bool-cases (k === id)) [
  | inl here_id ↦
      let at_id : k ≡ id = (eq_iff k id).0 here_id in
      let is_trade : r.trade ≡ trade = ground (arith, e, r.stored, at_id) in
      record {
        trade = moved_trade to_state now trade;
        stored =
            ap (get id) same
            ∙ (get-set k id (moved_trade to_state now trade) repo.trades ∙ rw here_id refl);
        reaches = next (subst (λ t. Reach s t.state) is_trade r.reaches) c;
      }
  | inr other ↦ record {
    trade = r.trade;
    stored =
        ap (get id) same
        ∙ (get-set k id (moved_trade to_state now trade) repo.trades ∙ rw other r.stored);
    reaches = r.reaches;
  }
]

step-Reached :
    (id : String) (s : TradeState) (t : Transition) (repo : TradeRepository)
    → Keyed repo.trades
    → Reached id s repo
    → let after = (transition_trade t.now t.trade_id t.to_state t.source_event_id repo).0 in
      Keyed after.trades × Reached id s after
step-Reached id s t repo keyed r = elim (Option-cases (get t.trade_id repo.trades)) [
  | inl e ↦ rw (transition_missing t repo e) (keyed, r)
  | inr (trade, e) ↦ elim (Bool-cases (can_transition_trade trade.state t.to_state)) [
    | inr c ↦ rw (transition_refused t repo trade e c) (keyed, r)
    | inl c ↦
        let same = transition_trades t repo trade e c in
        let own : trade.trade_id ≡ t.trade_id = keyed t.trade_id trade e in
        let at_key = same ∙ ap (λ k. set k (moved_trade t.to_state t.now trade) repo.trades) own in
        (
          subst Keyed (sym at_key)
              (set-Keyed t.trade_id (moved_trade t.to_state t.now trade) repo.trades keyed own),
          moved-Reached id t.trade_id s t.to_state t.now trade repo _ e c at_key r,
        )
  ]
]

run-Reached :
    (id : String) (s : TradeState) (ts : List Transition) (repo : TradeRepository)
    → Keyed repo.trades
    → Reached id s repo
    → Reached id s (run_transitions ts repo)
unfolding run_transitions
run-Reached id s [] repo keyed r = r
run-Reached id s (t ∷ ts) repo keyed r =
    let (keyed_after, r_after) = step-Reached id s t repo keyed r in
    run-Reached id s ts _ keyed_after r_after

-- Through any sequence of transition requests for any trades, the refused ones included, a trade
-- that is stored stays stored, in a state that the SDK's transitions reach from the state that it
-- had at first. Every trade stands under its id.
pub transitions_reach :
    (ts : List Transition) (repo : TradeRepository) (id : String) (trade : OtcTrade)
    → Keyed repo.trades
    → get id repo.trades ≡ some trade
    → Reached id trade.state (run_transitions ts repo)
transitions_reach ts repo id trade keyed e =
    run-Reached id trade.state ts repo keyed (record { trade = trade; stored = e; reaches = here })

-- A fill that throws leaves the order book as it was.
refused_fill :
    (fill : OrderFill) (orders : OrderRepository) (error : OtcError)
    → (reserve_order_fill fill.order_id fill.amount_prl fill.updated_at orders).1 ≡ throws error
    → (reserve_order_fill fill.order_id fill.amount_prl fill.updated_at orders).0 ≡ orders
unfolding reserve_order_fill update_order
refused_fill fill orders error e = elim (Option-cases (get fill.order_id orders.orders)) [
  | inl f ↦ rw (reserve_order_fill, update_order, f) refl
  | inr (order, f) ↦ elim (Checked-cases (fill_order fill.amount_prl fill.updated_at order)) [
    | inl (other, g) ↦ rw (reserve_order_fill, update_order, f, g) refl
    | inr (updated, g) ↦ absurd (ground (arith, rw (reserve_order_fill, update_order, f, g) at e))
  ]
]

saved_there :
    (input : SaveAcceptedTradeInput) (repo : TradeRepository)
    → get input.trade.trade_id
        (append_event input.event
          (save_trade input.trade input.client_request_id input.request_hash repo)).trades
      ≡ some input.trade
unfolding save_trade
saved_there input repo =
    ap (get input.trade.trade_id) (append_trades input.event _)
    ∙ get-set_self input.trade.trade_id input.trade repo.trades

append-order_book :
    (event : TradeEvent) (repo : TradeRepository)
    → (append_event event repo).order_book ≡ repo.order_book
unfolding append_event
append-order_book event repo =
    elim (Bool-cases (any (has_source event) (events_of event.trade_id repo))) [
      | inl e ↦ rw (append_event, e) refl
      | inr e ↦ rw (append_event, e) refl
    ]

saved_book :
    (input : SaveAcceptedTradeInput) (repo : TradeRepository)
    → (append_event input.event
        (save_trade input.trade input.client_request_id input.request_hash repo)).order_book
      ≡ repo.order_book
unfolding save_trade
saved_book input repo = append-order_book input.event _

-- The trade is stored, nothing is thrown, and the order book is `orders`.
pub record IsAccepted (input : SaveAcceptedTradeInput) (orders : OrderRepository)
    (after : TradeRepository × Option OtcError) : Type 0 where
  pub no_error : after.1 ≡ none
  pub stored : get input.trade.trade_id after.0.trades ≡ some input.trade
  pub order_book : after.0.order_book ≡ orders

abbrev pub reserved : OrderFill → TradeRepository → OrderRepository × Checked OtcOrder
reserved fill repo =
    reserve_order_fill fill.order_id fill.amount_prl fill.updated_at repo.order_book

saved-IsAccepted :
    (input : SaveAcceptedTradeInput) (repo : TradeRepository)
    → IsAccepted input repo.order_book (save_and_append input repo, none)
saved-IsAccepted input repo = record {
  no_error = refl;
  stored = saved_there input repo;
  order_book = saved_book input repo;
}

fill_outcome :
    (input : SaveAcceptedTradeInput) (repo : TradeRepository) (fill : OrderFill)
    → input.order_fill ≡ some fill
    → let after = save_accepted_trade input repo in
      ((error : OtcError) × ((reserved fill repo).1 ≡ throws error) × (after ≡ (repo, some error)))
      ⊎ ((order : OtcOrder) × ((reserved fill repo).1 ≡ done order)
          × IsAccepted input (reserved fill repo).0 after)
unfolding save_accepted_trade
fill_outcome input repo fill e = elim (Checked-cases (reserved fill repo).1) [
  | inl (error, f) ↦
      let same : record repo { order_book = (reserved fill repo).0 } ≡ repo =
        ap (λ orders. record repo { order_book = orders })
          (refused_fill fill repo.order_book error f) in
      inl (error, f, rw (save_accepted_trade, e, f) (ap (λ r. (r, some error)) same))
  | inr (order, f) ↦
      let book = (reserved fill repo).0 in
      let saved : save_accepted_trade input repo
          ≡ (save_and_append input (record repo { order_book = book }), none) =
        rw (save_accepted_trade, e, f) refl in
      inr (
        order,
        f,
        subst (IsAccepted input book) (sym saved)
            (saved-IsAccepted input (record repo { order_book = book })),
      )
]

-- Accepting a quote that names no order saves the trade and leaves the order book. One that names
-- an order changes nothing at all and throws the fill's error where the fill of that order throws;
-- where the fill is done, the trade is saved and the order book is what the fill leaves.
pub accept_all_or_nothing :
    (input : SaveAcceptedTradeInput) (repo : TradeRepository)
    → let after = save_accepted_trade input repo in
      ((input.order_fill ≡ none) × IsAccepted input repo.order_book after)
      ⊎ ((fill : OrderFill) × (input.order_fill ≡ some fill)
          × (((error : OtcError) × ((reserved fill repo).1 ≡ throws error)
                × (after ≡ (repo, some error)))
              ⊎ ((order : OtcOrder) × ((reserved fill repo).1 ≡ done order)
                  × IsAccepted input (reserved fill repo).0 after)))
unfolding save_accepted_trade
accept_all_or_nothing input repo = elim (Option-cases input.order_fill) [
  | inl e ↦
      let saved : save_accepted_trade input repo ≡ (save_and_append input repo, none) =
        rw (save_accepted_trade, e) refl in
      inl (e, subst (IsAccepted input repo.order_book) (sym saved) (saved-IsAccepted input repo))
  | inr (fill, e) ↦ inr (fill, e, fill_outcome input repo fill e)
]
