-- ===== src/Settlement/BaseState.antt =====
-- services/settlement-worker/src/settlement-loop.ts: the Base escrow as the worker sees it, from
-- the state that the contract's events give and the terms of the trade.
use pearl_infra.Prelude.{
  ℕ, ◌/◌, String, some, none, Option, List, [], ◌∷◌, Bool, false, not, ◌&&◌, ◌||◌, ◌===◌, string_eq,
  nat_eq, is_some, ◌==◌,
}
use pearl_infra.Prelude.Lists.{includes}
use pearl_infra.Prelude.Guards.{first_failure}
use pearl_infra.Prelude.Dates.{Timestamp}
use pearl_infra.Prelude.Text.{to_lower_case, truthy, show}
use pearl_infra.Sdk.Amounts.{parse_usdc_to_micros}
use pearl_infra.Sdk.Trade.{OtcTrade}
use pearl_infra.Usdc.Types.{UsdcEscrowStatus, status_eq, UsdcEscrowTradeEventState}
use pearl_infra.Settlement.Types.{BaseEscrowStatus, BaseEscrowEventState}

unfoldable pub requires_created_terms : UsdcEscrowStatus → Bool
requires_created_terms status =
    status === UsdcEscrowStatus.created
    || (status === UsdcEscrowStatus.deposited
        || (status === UsdcEscrowStatus.released || status === UsdcEscrowStatus.refunded))

-- `a === b` where `a` may be undefined.
abbrev pub is_text : Option String → String → Bool
is_text none b = false
is_text (some a) b = a === b

-- `a && a.toLowerCase() !== b.toLowerCase()`
abbrev pub differs_from : Option String → String → Bool
differs_from none b = false
differs_from (some a) b = truthy (some a) && not (to_lower_case a === to_lower_case b)

-- `a !== undefined && a !== b`
abbrev pub is_other_text : Option String → String → Bool
is_other_text none b = false
is_other_text (some a) b = not (a === b)

-- `Math.floor(new Date(text).getTime() / 1000)`, `none` being NaN, which equals no number.
abbrev pub unix_seconds : Timestamp → Option ℕ
unix_seconds none = none
unix_seconds (some ms) = some (ms / 1000)

abbrev pub is_number : Option ℕ → ℕ → Bool
is_number none n = false
is_number (some m) n = m == n

abbrev pub is_other_expiry : Option ℕ → Option ℕ → Bool
is_other_expiry none expected = false
is_other_expiry (some expiry) expected = not (is_number expected expiry)

-- The tests, once the trade's two amounts are read.
abbrev pub mismatch_guards :
    UsdcEscrowTradeEventState → OtcTrade → String → String → List (Bool × String)
mismatch_guards state trade expected_amount expected_fee =
    (not (state.trade_key === trade.usdc_escrow.trade_key), "Base escrow trade key mismatch")
    ∷ (not (state.chain_id === trade.usdc_escrow.chain_id), "Base escrow chain mismatch")
    ∷ (
      not (to_lower_case state.contract_address === to_lower_case trade.usdc_escrow.contract),
      "Base escrow contract mismatch",
    )
    ∷ (
      requires_created_terms state.status
          && (not (truthy state.buyer)
              || (not (truthy state.seller)
                  || (not (is_some state.fee_micros) || not (is_some state.expiry_unix_seconds)))),
      "Base escrow created terms missing",
    )
    ∷ (differs_from state.buyer trade.buyer_usdc_address, "Base escrow buyer mismatch")
    ∷ (differs_from state.seller trade.seller_usdc_receive_address, "Base escrow seller mismatch")
    ∷ (
      is_other_expiry state.expiry_unix_seconds (unix_seconds trade.usdc_escrow.expires_at),
      "Base escrow expiry mismatch",
    )
    ∷ (
      state.status === UsdcEscrowStatus.created
          && (not (is_text state.amount_micros expected_amount)
              || not (is_text state.fee_micros expected_fee)),
      "Base escrow created terms mismatch",
    )
    ∷ (is_other_text state.fee_micros expected_fee, "Base escrow fee mismatch")
    ∷ (
      includes
            (UsdcEscrowStatus.deposited ∷ UsdcEscrowStatus.released ∷ UsdcEscrowStatus.refunded
              ∷ [])
            state.status
          && not (is_text state.amount_micros trade.usdc_escrow.expected_amount_micros),
      "Base escrow funded amount mismatch",
    )
    ∷ (
      state.status === UsdcEscrowStatus.released
          && (not (is_text state.seller_amount_micros expected_amount)
              || not (is_text state.fee_amount_micros expected_fee)),
      "Base escrow release amount mismatch",
    )
    ∷ []

unfoldable pub find_mismatch :
    UsdcEscrowTradeEventState → OtcTrade → String → String → Option String
find_mismatch state trade expected_amount expected_fee =
    first_failure (mismatch_guards state trade expected_amount expected_fee)

-- What the function throws or returns.
pub data Outcome {ℓ} (A : Type ℓ) : Type ℓ where
  ok : A → Outcome A
  -- an amount of the trade is not a decimal number
  invalid_amount : Outcome A

unfoldable pub find_base_escrow_state_mismatch :
    UsdcEscrowTradeEventState → OtcTrade → Outcome (Option String)
find_base_escrow_state_mismatch state trade = elim (parse_usdc_to_micros trade.amount_usdc) [
  | none ↦ invalid_amount
  | some amount ↦ elim (parse_usdc_to_micros trade.fee_usdc) [
    | none ↦ invalid_amount
    | some fee ↦ ok (find_mismatch state trade (show amount) (show fee))
  ]
]

unfoldable pub base_status_of : UsdcEscrowStatus → BaseEscrowStatus
base_status_of UsdcEscrowStatus.created = BaseEscrowStatus.created
base_status_of UsdcEscrowStatus.deposited = BaseEscrowStatus.deposited
base_status_of UsdcEscrowStatus.released = BaseEscrowStatus.released
base_status_of UsdcEscrowStatus.refunded = BaseEscrowStatus.refunded
base_status_of UsdcEscrowStatus.cancelled = BaseEscrowStatus.cancelled

unfoldable pub observed_base_state :
    UsdcEscrowTradeEventState → Option String → BaseEscrowEventState
unfolding base_status_of
observed_base_state state mismatch = record {
  status = elim mismatch [
    | some reason ↦ BaseEscrowStatus.stale
    | none ↦ base_status_of state.status
  ];
  source_event_id = state.source_event_id;
  tx_hash = some state.tx_hash;
  confirmations = state.confirmations;
  observed_at = state.observed_at;
  reason = mismatch;
}

-- `baseEscrowEventStateFromUsdcTradeState(state, trade)`, with a trade, as the worker calls it.
unfoldable pub base_escrow_event_state_from_usdc_trade_state :
    Option UsdcEscrowTradeEventState → OtcTrade → Outcome BaseEscrowEventState
unfolding observed_base_state
base_escrow_event_state_from_usdc_trade_state none trade = ok (record {
  status = BaseEscrowStatus.none;
  source_event_id = "base:none";
  tx_hash = none;
  confirmations = 0;
  observed_at = some 0;
  reason = none;
})
base_escrow_event_state_from_usdc_trade_state (some state) trade =
    elim (find_base_escrow_state_mismatch state trade) [
      | invalid_amount ↦ invalid_amount
      | ok mismatch ↦ ok (observed_base_state state mismatch)
    ]
