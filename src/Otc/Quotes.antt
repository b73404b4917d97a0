-- ===== src/Otc/Quotes.antt =====
-- services/otc-api/src/trade-service.ts: the amounts of a quote, and the deadlines of a trade with
-- their warnings.
use pearl_infra.Prelude.{
  ℕ, ◌+◌, ◌*◌, ◌/◌, ◌≤◌, ◌<◌, ◌≡◌, inl, inr, String, some, none, Option, List, [], ◌∷◌, Bool, false,
  ◌&&◌, ltb, leb, arith, Option-cases,
}
use pearl_infra.Prelude.Lists.{filter}
use pearl_infra.Prelude.Dates.{Timestamp}
use pearl_infra.Sdk.Amounts.{parse_decimal_to_units, format_units_to_decimal, codes}
use pearl_infra.Sdk.RoundTrip.{parse-format}
use pearl_infra.Sdk.Trade.{
  TradeState, pearl_escrow_pending, pearl_escrow_seen, pearl_escrow_confirmed, usdc_escrow_pending,
  usdc_escrow_confirmed, release_pending, OtcTrade, OtcTradeDeadlines,
}
use pearl_infra.Otc.Types.{Text}

pub record QuoteAmounts : Type 0 where
  pub amount_prl : Text
  pub amount_usdc : Text
  pub fee_prl : Text
  pub fee_usdc : Text
  pub price_usdc_per_prl : Text

abbrev pub usdc_micros : ℕ → ℕ → ℕ
usdc_micros grains price = grains * price / 100000000

abbrev pub fee_micros : ℕ → ℕ → ℕ
fee_micros micros fee_bps = micros * fee_bps / 10000

abbrev quote_units : Option ℕ → Option ℕ → Text → ℕ → Option QuoteAmounts
quote_units none price text fee_bps = none
quote_units (some grains) none text fee_bps = none
quote_units (some grains) (some price) text fee_bps = some (record {
  amount_prl = format_units_to_decimal grains 8;
  amount_usdc = format_units_to_decimal (usdc_micros grains price) 6;
  fee_prl = codes "0.00000000";
  fee_usdc = format_units_to_decimal (fee_micros (usdc_micros grains price) fee_bps) 6;
  price_usdc_per_prl = text;
})

-- `none` where an amount cannot be read.
unfoldable pub calculate_quote_amounts : Text → Text → ℕ → Option QuoteAmounts
calculate_quote_amounts amount_prl price_usdc_per_prl fee_bps =
    quote_units (parse_decimal_to_units amount_prl 8) (parse_decimal_to_units price_usdc_per_prl 6)
      price_usdc_per_prl fee_bps

-- The three times of the configuration that a trade's deadlines come from, in milliseconds.
pub record TradeTtls : Type 0 where
  pub pearl_funding_ttl_ms : ℕ
  pub usdc_deposit_ttl_ms : ℕ
  pub settlement_ttl_ms : ℕ

unfoldable pub create_trade_deadlines : Timestamp → ℕ → TradeTtls → OtcTradeDeadlines
create_trade_deadlines quote_expires_at accepted_at config = record {
  quote_expires_at = quote_expires_at;
  pearl_funding_deadline = some (accepted_at + config.pearl_funding_ttl_ms);
  usdc_deposit_deadline = some (accepted_at + config.usdc_deposit_ttl_ms);
  settlement_deadline = some (accepted_at + config.settlement_ttl_ms);
  refund_available_at = some (accepted_at + config.usdc_deposit_ttl_ms);
}

pub record DeadlineWarning : Type 0 where
  pub warning_type : String
  pub at : Timestamp

abbrev warnings_for : TradeState → OtcTradeDeadlines → List DeadlineWarning
warnings_for pearl_escrow_pending d =
    record { warning_type = "pearl_funding"; at = d.pearl_funding_deadline } ∷ []
warnings_for pearl_escrow_seen d =
    record { warning_type = "pearl_funding"; at = d.pearl_funding_deadline } ∷ []
warnings_for pearl_escrow_confirmed d =
    record { warning_type = "usdc_deposit"; at = d.usdc_deposit_deadline } ∷ []
warnings_for usdc_escrow_pending d =
    record { warning_type = "usdc_deposit"; at = d.usdc_deposit_deadline } ∷ []
warnings_for usdc_escrow_confirmed d =
    record { warning_type = "settlement"; at = d.settlement_deadline } ∷ []
warnings_for release_pending d =
    record { warning_type = "settlement"; at = d.settlement_deadline } ∷ []
warnings_for _ d = []

abbrev is_due : ℕ → ℕ → Timestamp → Bool
is_due now window none = false
is_due now window (some at) = ltb now at && leb at (now + window)

unfoldable pub get_due_deadline_warnings : OtcTrade → ℕ → ℕ → List DeadlineWarning
get_due_deadline_warnings trade now window_ms =
    filter (λ warning. is_due now window_ms warning.at) (warnings_for trade.state trade.deadlines)

-- What a quote's texts say, in units.
pub record QuoteBounds (amount_prl price : Text) (fee_bps : ℕ) (q : QuoteAmounts) : Type 0 where
  pub grains : ℕ
  pub price_micros : ℕ
  pub micros : ℕ
  pub fee : ℕ
  pub reads_amount : parse_decimal_to_units amount_prl 8 ≡ some grains
  pub reads_price : parse_decimal_to_units price 6 ≡ some price_micros
  pub same_amount : parse_decimal_to_units q.amount_prl 8 ≡ some grains
  pub reads_usdc : parse_decimal_to_units q.amount_usdc 6 ≡ some micros
  pub reads_fee : parse_decimal_to_units q.fee_usdc 6 ≡ some fee
  pub not_above : micros * 100000000 ≤ grains * price_micros
  pub less_than_one_off : grains * price_micros < (micros + 1) * 100000000
  pub fee_not_above : fee * 10000 ≤ micros * fee_bps
  pub fee_one_off : micros * fee_bps < (fee + 1) * 10000

-- The texts of a quote read back as amounts: the PRL amount is the requested one, the USDC amount
-- is the price of it rounded down to a whole unit of USDC, and the fee is its share of the USDC
-- amount, rounded down.
pub quote_bounds :
    (amount_prl price : Text) (fee_bps : ℕ) (q : QuoteAmounts)
    → calculate_quote_amounts amount_prl price fee_bps ≡ some q
    → QuoteBounds amount_prl price fee_bps q
unfolding calculate_quote_amounts
quote_bounds amount_prl price fee_bps q e =
    elim (Option-cases (parse_decimal_to_units amount_prl 8)) [
      | inl n ↦ absurd (ground (arith, rw (calculate_quote_amounts, n) at e))
      | inr (grains, g) ↦ elim (Option-cases (parse_decimal_to_units price 6)) [
        | inl n ↦ absurd (ground (arith, rw (calculate_quote_amounts, g, n) at e))
        | inr (micros, m) ↦
            let made = rw (calculate_quote_amounts, g, m) at e in
            let usdc = usdc_micros grains micros in
            let amount : format_units_to_decimal grains 8 ≡ q.amount_prl = ground (arith, made) in
            let paid : format_units_to_decimal usdc 6 ≡ q.amount_usdc = ground (arith, made) in
            let charged : format_units_to_decimal (fee_micros usdc fee_bps) 6 ≡ q.fee_usdc =
              ground (arith, made) in
            record {
              grains = grains;
              price_micros = micros;
              micros = usdc;
              fee = fee_micros usdc fee_bps;
              reads_amount = g;
              reads_price = m;
              same_amount = rw (← amount) (parse-format grains 8 (omega arith));
              reads_usdc = rw (← paid) (parse-format usdc 6 (omega arith));
              reads_fee = rw (← charged) (parse-format (fee_micros usdc fee_bps) 6 (omega arith));
              not_above = omega arith;
              less_than_one_off = omega arith;
              fee_not_above = omega arith;
              fee_one_off = omega arith;
            }
      ]
    ]
