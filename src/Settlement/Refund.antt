-- ===== src/Settlement/Refund.antt =====
-- When the worker returns the Pearl escrow, and when it gives a trade up to an operator.
use pearl_infra.Prelude.{
  ℕ, String, ◌≡◌, ◌≢◌, ◌↔◌, ◌⊎◌, inl, inr, refl, some, true, false, arith, Option-cases,
}
use pearl_infra.Prelude.Lists.{includes}
use pearl_infra.Prelude.Dates.{earlier, not_later}
use pearl_infra.Sdk.Trade.{TradeState, trade_state_eq}
use pearl_infra.Sdk.States.{trade_state_is_terminal}
use pearl_infra.Settlement.Types.{
  PearlProofStatus, BaseEscrowStatus, pearl_status_eq, base_status_eq, manual_review,
  prepare_prl_refund, SettlementSnapshot,
}
use pearl_infra.Settlement.Decision.{
  is_prl_release_allowed, get_manual_review_reason, evaluate_safe_snapshot,
  evaluate_settlement_snapshot, may_refund_prl, manual_review_trade_states,
}
use pearl_infra.Settlement.Release.{allowed_conditions}

abbrev pub IsFunded : PearlProofStatus → Type 0
IsFunded p = (p ≡ PearlProofStatus.seen) ⊎ (p ≡ PearlProofStatus.confirmed)

abbrev pub IsUnpaid : BaseEscrowStatus → Type 0
IsUnpaid b =
    (b ≡ BaseEscrowStatus.none) ⊎ (b ≡ BaseEscrowStatus.created) ⊎ (b ≡ BaseEscrowStatus.cancelled)

-- What a refund of the Pearl escrow rests on.
pub record RefundConditions (s : SettlementSnapshot) (now : ℕ) : Type 0 where
  pub funded : IsFunded s.pearl.status
  pub unpaid : IsUnpaid s.base.status
  pub available : not_later s.trade.deadlines.refund_available_at (some now) ≡ true
  pub in_time : earlier s.trade.deadlines.pearl_funding_deadline s.pearl.observed_at ≡ false
  pub not_in_review : includes manual_review_trade_states s.trade.state ≡ false
  pub is_open : trade_state_is_terminal s.trade.state ≡ false

not_released : (s : SettlementSnapshot) → IsUnpaid s.base.status → is_prl_release_allowed s ≡ false
not_released s u = ground (arith, allowed_conditions s)

refund_decided :
    (s : SettlementSnapshot) (now : ℕ)
    → (evaluate_settlement_snapshot s now).action ≡ prepare_prl_refund
    → RefundConditions s now
unfolding evaluate_settlement_snapshot evaluate_safe_snapshot get_manual_review_reason
    may_refund_prl
refund_decided s now e = ground arith

RefundConditions-decide :
    (s : SettlementSnapshot) (now : ℕ)
    → RefundConditions s now
    → (evaluate_settlement_snapshot s now).action ≡ prepare_prl_refund
unfolding evaluate_settlement_snapshot evaluate_safe_snapshot get_manual_review_reason
    may_refund_prl
RefundConditions-decide s now c = ground (arith, not_released s c.unpaid)

-- The worker decides to refund the Pearl escrow exactly when the escrow is seen or confirmed
-- and was not observed after its deadline, the Base escrow is absent, only created or
-- cancelled, the refund time is reached, and the trade is neither closed nor under review.
pub prepare_refund_iff :
    (s : SettlementSnapshot) (now : ℕ)
    → ((evaluate_settlement_snapshot s now).action ≡ prepare_prl_refund) ↔ RefundConditions s now
prepare_refund_iff s now = (refund_decided s now, RefundConditions-decide s now)

abbrev with_trade_state : TradeState → SettlementSnapshot → SettlementSnapshot
with_trade_state state s = record s { trade = record s.trade { state = state } }

-- Where a refund is decided, it is decided again once the trade is `refund_pending` and nothing
-- else has changed: the state that the first decision wrote does not stop the second.
pub refund_decided_again :
    (s : SettlementSnapshot) (now : ℕ)
    → RefundConditions s now
    → ((evaluate_settlement_snapshot s now).to_state ≡ some TradeState.refund_pending)
      × ((evaluate_settlement_snapshot (with_trade_state TradeState.refund_pending s) now).action
          ≡ prepare_prl_refund)
unfolding evaluate_settlement_snapshot evaluate_safe_snapshot get_manual_review_reason
    may_refund_prl
refund_decided_again s now c = (
  ground (arith, not_released s c.unpaid),
  RefundConditions-decide (with_trade_state TradeState.refund_pending s) now (record {
    funded = c.funded;
    unpaid = c.unpaid;
    available = c.available;
    in_time = c.in_time;
    not_in_review = refl;
    is_open = unfold trade_state_is_terminal in refl;
  }),
)

-- Observations that no automatic step may follow.
abbrev pub Unsafe : SettlementSnapshot → Type 0
Unsafe s =
    (includes manual_review_trade_states s.trade.state ≡ true)
    ⊎ (s.pearl.status ≡ PearlProofStatus.amount_mismatch)
    ⊎ (s.pearl.status ≡ PearlProofStatus.reorged)
    ⊎ (s.pearl.status ≡ PearlProofStatus.unknown_spend)
    ⊎ (s.pearl.status ≡ PearlProofStatus.late)
    ⊎ (IsFunded s.pearl.status
        × (earlier s.trade.deadlines.pearl_funding_deadline s.pearl.observed_at ≡ true))
    ⊎ (s.base.status ≡ BaseEscrowStatus.reorged)
    ⊎ (s.base.status ≡ BaseEscrowStatus.stale)
    ⊎ ((s.base.status ≡ BaseEscrowStatus.released) × (s.pearl.status ≢ PearlProofStatus.released))
    ⊎ ((s.base.status ≡ BaseEscrowStatus.refunded)
        × (s.pearl.status ≢ PearlProofStatus.refunded)
        × (s.pearl.status ≢ PearlProofStatus.missing))

Unsafe-reviewed :
    (s : SettlementSnapshot) (now : ℕ)
    → Unsafe s
    → (evaluate_settlement_snapshot s now).action ≡ manual_review
unfolding evaluate_settlement_snapshot get_manual_review_reason
Unsafe-reviewed s now u = ground arith

reason-Unsafe :
    (s : SettlementSnapshot) (reason : String) → get_manual_review_reason s ≡ some reason → Unsafe s
unfolding get_manual_review_reason
reason-Unsafe s reason e = ground arith

safe_evaluation :
    (s : SettlementSnapshot) (now : ℕ) → (evaluate_safe_snapshot s now).action ≢ manual_review
unfolding evaluate_safe_snapshot
safe_evaluation s now e = ground arith

-- The worker gives a trade to an operator exactly when its observations are unsafe: the trade is
-- in a review state, the Pearl proof or the Base escrow is unsafe or late, or the USDC has left
-- the escrow while the Pearl leg has not followed. Of the trade's deadlines only the one for the
-- Pearl funding counts: neither a late USDC deposit nor a passed settlement deadline is a reason.
pub manual_review_iff :
    (s : SettlementSnapshot) (now : ℕ)
    → ((evaluate_settlement_snapshot s now).action ≡ manual_review) ↔ Unsafe s
manual_review_iff s now = (
  λ e. elim (Option-cases (get_manual_review_reason s)) [
    | inl safe ↦
        absurd (safe_evaluation s now (unfold evaluate_settlement_snapshot in ground (arith, safe)))
    | inr (reason, found) ↦ reason-Unsafe s reason found
  ],
  Unsafe-reviewed s now,
)
