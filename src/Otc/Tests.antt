-- ===== src/Otc/Tests.antt =====
-- The theorems about orders, quotes and trades on small examples.
use pearl_infra.Prelude.{ℕ, ◌+◌, String, ◌≡◌, ◌⊎◌, refl, some, none, List, [], ◌∷◌, arith, eq_iff}
use pearl_infra.Prelude.Map.{get, set}
use pearl_infra.Prelude.Digits.{digits_value, digits_of}
use pearl_infra.Sdk.Amounts.{
  codes, split, trim, trim_start, parse_decimal_to_units, format_units_to_decimal,
  is_invalid_amount,
}
use pearl_infra.Sdk.Trade.{
  quoted, pearl_escrow_pending, pearl_escrow_seen, sell_prl, OtcTrade, mainnet,
}
use pearl_infra.Otc.Types.{
  open_order, partially_filled, auto_sweep, funded, OtcOrder, OtcError, throws, done,
}
use pearl_infra.Otc.Orders.{
  OrderRepository, parse_decimal_units, format_decimal_units, update_order, fill_order,
  save_order_sweep, apply_order_prefund_sweep_progress, swept_order,
}
use pearl_infra.Otc.Sweeps.{
  big_units, SweepRequest, assert_order_fillable, check_sweep, write_sweep, initiate_order_sweep,
}
use pearl_infra.Otc.Units.{parse_units-format, big_units-digits_of}
use pearl_infra.Otc.Calls.{
  OrderCall, fill_call, sweep_call, refund_call, refunded_call, run_order_calls,
}
use pearl_infra.Otc.Accounts.{Account}
use pearl_infra.Otc.Fills.{fills_and_sweeps_add_up}
use pearl_infra.Otc.Fillable.{fillable_fills}
use pearl_infra.Otc.Quotes.{QuoteAmounts, calculate_quote_amounts, QuoteBounds, quote_bounds}
use pearl_infra.Otc.Trades.{
  OrderFill, TradeRepository, SaveAcceptedTradeInput, save_accepted_trade, Transition,
  run_transitions,
}
use pearl_infra.Otc.Reached.{
  Reached, IsAccepted, reserved, transitions_reach, accept_all_or_nothing,
}

abbrev order : OtcOrder
order = record {
  order_id = "o1";
  maker_user_id = "u1";
  side = sell_prl;
  amount_prl = format_decimal_units 500000000 8;
  remaining_prl = format_decimal_units 500000000 8;
  min_fill_prl = none;
  status = open_order;
  expires_at = none;
  updated_at = "2026-01-01";
  prefund_mode = some auto_sweep;
  prefund_state = some funded;
  prefund_funded_outpoint = some "t0:0";
  prefund_funded_grains = some (digits_of 500);
  prefund_remaining_grains = some (digits_of 500);
  prefund_funded_at = some "2026-01-01";
  prefund_refund_eligible_after_unix_time = some 1800000000;
  prefund_refund_txid = none;
}

abbrev repo : OrderRepository
repo = record { orders = ("o1", order) ∷ []; order_sweeps = []; order_sweep_by_trade_id = [] }

order-Account : Account "o1" 500000000 500 repo
unfolding get
order-Account = record {
  order = order;
  stored = refl;
  own = refl;
  remaining = parse_units-format 500000000 8 (omega arith);
  prefund = big_units-digits_of 500;
  past_funding = refl;
}

abbrev calls : List OrderCall
calls =
    fill_call (codes "2.0") "2026-01-02"
    ∷ sweep_call "2026-01-02" "s1" "trade1" (codes "200")
    ∷ fill_call (codes "4.0") "2026-01-03"
    ∷ sweep_call "2026-01-03" "s2" "trade2" (codes "400")
    ∷ refund_call "2026-01-04"
    ∷ refunded_call "t9" "2026-01-05"
    ∷ []

fills_and_sweeps_add_up_example :
    (unfilled : ℕ) × (unswept : ℕ) × Account "o1" unfilled unswept
      (run_order_calls "o1" calls repo).0
    × (unfilled + (run_order_calls "o1" calls repo).1.0 ≡ 500000000)
    × (unswept + (run_order_calls "o1" calls repo).1.1 ≡ 500)
fills_and_sweeps_add_up_example =
    fills_and_sweeps_add_up "o1" 500000000 500 calls repo order-Account

-- Of a prefund of 5 grains, two sweeps of 4 grains that are both given the order as it was before
-- the first one are both accepted.
abbrev stale : String → String → SweepRequest
stale sweep_id trade_id = record {
  sweep_id = sweep_id;
  order = record order { prefund_remaining_grains = some (codes "5") };
  trade_id = trade_id;
  swept_grains = codes "4";
}

stale_sweeps_accepted :
    let first = initiate_order_sweep "2026-01-02" (stale "s1" "trade1") repo in
    let second = initiate_order_sweep "2026-01-02" (stale "s2" "trade2") first.0 in
    (updated : OtcOrder) × (second.1 ≡ done updated)
unfolding initiate_order_sweep check_sweep write_sweep save_order_sweep
    apply_order_prefund_sweep_progress swept_order update_order get set big_units digits_value
    digits_of
stale_sweeps_accepted = (_, refl)

abbrev small_order : OtcOrder
small_order = record order { remaining_prl = format_decimal_units 5 8 }

small_order_fillable : assert_order_fillable small_order (format_decimal_units 3 8) 1000 ≡ done tt
unfolding assert_order_fillable format_decimal_units parse_decimal_to_units trim trim_start split
    is_invalid_amount digits_value digits_of
small_order_fillable = refl

fillable_fills_example :
    (updated : OtcOrder) × (fill_order (format_decimal_units 3 8) "2026-01-02" small_order
      ≡ done updated)
    × (parse_decimal_units updated.remaining_prl 8 ≡ some 2)
    × (updated.status ≡ partially_filled)
fillable_fills_example = fillable_fills small_order 5 3 1000 "2026-01-02" refl small_order_fillable

abbrev small_quote : QuoteAmounts
small_quote = record {
  amount_prl = format_units_to_decimal 150 8;
  amount_usdc = format_units_to_decimal 3 6;
  fee_prl = codes "0.00000000";
  fee_usdc = format_units_to_decimal 0 6;
  price_usdc_per_prl = codes "2.0";
}

small_quote_made : calculate_quote_amounts (codes "0.0000015") (codes "2.0") 50 ≡ some small_quote
unfolding calculate_quote_amounts parse_decimal_to_units trim trim_start split is_invalid_amount
    digits_value
small_quote_made = refl

quote_bounds_example : QuoteBounds (codes "0.0000015") (codes "2.0") 50 small_quote
quote_bounds_example =
    quote_bounds (codes "0.0000015") (codes "2.0") 50 small_quote small_quote_made

abbrev trade : OtcTrade
trade = record {
  trade_id = "t1";
  quote_id = "q1";
  state = pearl_escrow_pending;
  side = sell_prl;
  amount_prl = "2.0";
  amount_usdc = "4.0";
  fee_prl = "0.0";
  fee_usdc = "0.0";
  buyer_pearl_address = "prl1buyer";
  buyer_usdc_address = "0x1";
  seller_pearl_refund_address = "prl1seller";
  seller_usdc_receive_address = "0x2";
  pearl_escrow_mode = none;
  pearl_release_signing_mode = none;
  buyer_pearl_pubkey = none;
  seller_pearl_pubkey = none;
  pearl_escrow = record {
    network = mainnet;
    address = "prl1escrow";
    expected_amount_grains = "200000000";
    required_confirmations = 2;
    internal_pubkey_hex = none;
    script_nonce_hex = none;
    taproot_output_script_hex = none;
    derivation_path = none;
    refund_eligible_after_height = none;
    refund_eligible_after_unix_time = none;
    funding_outpoint = none;
    release_txid = none;
    refund_txid = none;
    signer_pubkeys = none;
    buyer_release_presignature = none;
  };
  usdc_escrow = record {
    chain_id = 8453;
    contract = "0xc";
    usdc_token = "0xd";
    trade_key = "0xe";
    expected_amount_micros = "4000000";
    required_confirmations = 2;
    deposit_tx_hash = none;
    release_tx_hash = none;
    refund_tx_hash = none;
    expires_at = none;
  };
  deadlines = record {
    quote_expires_at = none;
    pearl_funding_deadline = none;
    usdc_deposit_deadline = none;
    settlement_deadline = none;
    refund_available_at = none;
  };
  created_at = some 1;
  updated_at = some 1;
}

abbrev trades : TradeRepository
trades = record {
  order_book = repo;
  trades = ("t1", trade) ∷ [];
  trade_client_requests = [];
  trade_request_hashes = [];
  trade_by_quote = [];
  events = [];
}

abbrev requests : List Transition
requests =
    record { now = some 2; trade_id = "t1"; to_state = quoted; source_event_id = "e1" }
    ∷ record { now = some 3; trade_id = "t1"; to_state = pearl_escrow_seen; source_event_id = "e2" }
    ∷ []

trades_keyed : (k : String) (t : OtcTrade) → get k trades.trades ≡ some t → t.trade_id ≡ k
unfolding get
trades_keyed k t e = ground (arith, e, eq_iff "t1" k)

trade_stored : get "t1" trades.trades ≡ some trade
unfolding get
trade_stored = refl

transitions_reach_example : Reached "t1" pearl_escrow_pending (run_transitions requests trades)
transitions_reach_example = transitions_reach requests trades "t1" trade trades_keyed trade_stored

abbrev accepted : SaveAcceptedTradeInput
accepted = record {
  trade = trade;
  client_request_id = "c1";
  request_hash = some "h1";
  event = record {
    trade_id = "t1";
    from_state = quoted;
    to_state = pearl_escrow_pending;
    source_event_id = "e0";
    observed_at = some 1;
  };
  order_fill =
      some (record { order_id = "o1"; amount_prl = codes "2.0"; updated_at = "2026-01-02" });
}

accept_all_or_nothing_example :
    let after = save_accepted_trade accepted trades in
    ((accepted.order_fill ≡ none) × IsAccepted accepted trades.order_book after)
    ⊎ ((fill : OrderFill) × (accepted.order_fill ≡ some fill)
        × (((error : OtcError) × ((reserved fill trades).1 ≡ throws error)
              × (after ≡ (trades, some error)))
            ⊎ ((order : OtcOrder) × ((reserved fill trades).1 ≡ done order)
                × IsAccepted accepted (reserved fill trades).0 after)))
accept_all_or_nothing_example = accept_all_or_nothing accepted trades
