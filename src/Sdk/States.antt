-- ===== src/Sdk/States.antt =====
-- The state machine of a trade: `ALLOWED_TRANSITIONS` of packages/pearl-sdk/src/otc.ts and the
-- tests on it.
use pearl_infra.Prelude.{String, ◌≡◌, List, [], ◌∷◌, Bool, true, ◌==◌, if◌then◌else◌}
use pearl_infra.Prelude.Lists.{includes, length}
use pearl_infra.Prelude.Text.{concat}
use pearl_infra.Sdk.Trade.{
  TradeState, trade_state_eq, state_name, quoted, quote_expired, pearl_escrow_pending,
  pearl_escrow_seen, pearl_escrow_confirmed, usdc_escrow_pending, usdc_escrow_confirmed,
  release_pending, released, refund_available, refund_pending, refunded, disputed, cancelled,
  failed_manual_review, late_prl_funding, usdc_refunded, prl_release_failed, amount_mismatch,
  reorged, stale_indexer, unknown_spend,
}

abbrev pub edge_review_states : List TradeState
edge_review_states = amount_mismatch ∷ reorged ∷ stale_indexer ∷ unknown_spend ∷ []

abbrev pub manual_review_transitions : List TradeState
manual_review_transitions = failed_manual_review ∷ []

unfoldable pub allowed_transitions : TradeState → List TradeState
allowed_transitions quoted =
    quote_expired ∷ pearl_escrow_pending ∷ cancelled ∷ disputed ∷ failed_manual_review ∷ []
allowed_transitions quote_expired = []
allowed_transitions pearl_escrow_pending =
    pearl_escrow_seen ∷ late_prl_funding ∷ cancelled ∷ disputed ∷ failed_manual_review
    ∷ edge_review_states
allowed_transitions pearl_escrow_seen =
    pearl_escrow_confirmed ∷ pearl_escrow_pending ∷ late_prl_funding ∷ disputed
    ∷ failed_manual_review ∷ edge_review_states
allowed_transitions pearl_escrow_confirmed =
    usdc_escrow_pending ∷ refund_available ∷ disputed ∷ failed_manual_review ∷ edge_review_states
allowed_transitions usdc_escrow_pending =
    usdc_escrow_confirmed ∷ refund_available ∷ usdc_refunded ∷ disputed ∷ failed_manual_review
    ∷ edge_review_states
allowed_transitions usdc_escrow_confirmed =
    release_pending ∷ usdc_refunded ∷ disputed ∷ failed_manual_review ∷ edge_review_states
allowed_transitions release_pending =
    released ∷ prl_release_failed ∷ disputed ∷ failed_manual_review ∷ edge_review_states
allowed_transitions released = []
allowed_transitions refund_available =
    refund_pending ∷ usdc_refunded ∷ disputed ∷ failed_manual_review ∷ []
allowed_transitions refund_pending = refunded ∷ usdc_refunded ∷ disputed ∷ failed_manual_review ∷ []
allowed_transitions refunded = []
allowed_transitions disputed = release_pending ∷ refund_available ∷ failed_manual_review ∷ []
allowed_transitions cancelled = []
allowed_transitions failed_manual_review = []
allowed_transitions _ = manual_review_transitions

unfoldable pub can_transition_trade : TradeState → TradeState → Bool
unfolding allowed_transitions
can_transition_trade from_state to_state = includes (allowed_transitions from_state) to_state

-- Either the transition is allowed or the call throws, with this message.
pub data TransitionCheck : Type 0 where
  allowed : TransitionCheck
  invalid : String → TransitionCheck

pub assert_trade_transition : TradeState → TradeState → TransitionCheck
unfolding concat
assert_trade_transition from_state to_state =
    if can_transition_trade from_state to_state
    then allowed
    else invalid (
        concat (
          "invalid trade transition: " ∷ state_name from_state ∷ " -> " ∷ state_name to_state ∷ []))

unfoldable pub trade_state_is_terminal : TradeState → Bool
unfolding allowed_transitions
trade_state_is_terminal state = length (allowed_transitions state) == 0

-- A run of the machine: the states that transitions lead through.
pub data Reach (s : TradeState) : TradeState → Type 0 where
  here : Reach s s
  next : {t u : TradeState} → Reach s t → can_transition_trade t u ≡ true → Reach s u
