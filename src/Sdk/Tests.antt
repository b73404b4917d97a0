-- ===== src/Sdk/Tests.antt =====
-- The theorems about amounts and trade states at concrete values.
use pearl_infra.Prelude.{◌≤◌, ◌≡◌, refl, ◌⊎◌, some, true, false, arith}
use pearl_infra.Sdk.Amounts.{parse_decimal_to_units, format_units_to_decimal, codes}
use pearl_infra.Prelude.Digits.{digits_of}
use pearl_infra.Sdk.RoundTrip.{parse-format}
use pearl_infra.Sdk.Trade.{TradeState}
use pearl_infra.Sdk.States.{Reach, here, next, can_transition_trade, trade_state_is_terminal}
use pearl_infra.Sdk.Phases.{phase, phase-Reach, visits, released_history, terminal_or_reviewable}

format_one : format_units_to_decimal 150000001 8 ≡ codes "1.50000001"
unfolding format_units_to_decimal digits_of
format_one = refl

parse-format_example :
    parse_decimal_to_units (format_units_to_decimal 150000001 8) 8 ≡ some 150000001
parse-format_example = parse-format 150000001 8 (omega arith)

to_confirmed : Reach TradeState.quoted TradeState.usdc_escrow_confirmed
unfolding can_transition_trade
to_confirmed =
    next {t = TradeState.usdc_escrow_pending}
      (next {t = TradeState.pearl_escrow_confirmed}
        (next {t = TradeState.pearl_escrow_seen}
          (next {t = TradeState.pearl_escrow_pending} (next here refl) refl) refl)
        refl)
      refl

to_released : Reach TradeState.quoted TradeState.released
unfolding can_transition_trade
to_released = next {t = TradeState.release_pending} (next to_confirmed refl) refl

phase-Reach_example : phase TradeState.quoted ≤ phase TradeState.released
phase-Reach_example = phase-Reach to_released

released_history_example :
    (visits TradeState.disputed to_released ≡ true)
    ⊎ ((visits TradeState.pearl_escrow_confirmed to_released ≡ true)
        × (visits TradeState.usdc_escrow_confirmed to_released ≡ true))
released_history_example = released_history to_released

terminal_or_reviewable_example :
    ((trade_state_is_terminal TradeState.disputed ≡ true)
      × ((t : TradeState) → can_transition_trade TradeState.disputed t ≡ false))
    ⊎ ((trade_state_is_terminal TradeState.disputed ≡ false)
        × (can_transition_trade TradeState.disputed TradeState.failed_manual_review ≡ true))
terminal_or_reviewable_example = terminal_or_reviewable TradeState.disputed
