-- ===== src/Settlement/Release.antt =====
-- When the worker decides to move either leg of a trade.
use pearl_infra.Prelude.{
  ℕ, ◌≤◌, ◌≡◌, ◌↔◌, none, Bool, true, false, not, ◌&&◌, arith, ===_sound, leb→le, if◌then◌else◌,
}
use pearl_infra.Prelude.Lists.{includes}
use pearl_infra.Prelude.Dates.{not_later}
use pearl_infra.Sdk.Trade.{TradeState, trade_state_eq}
use pearl_infra.Sdk.States.{trade_state_is_terminal}
use pearl_infra.Settlement.Types.{
  PearlProofStatus, BaseEscrowStatus, pearl_status_eq, base_status_eq, prepare_prl_release,
  prepare_usdc_release, SettlementSnapshot,
}
use pearl_infra.Settlement.Decision.{
  is_worker_auto_release_authorized, is_prl_release_allowed, get_manual_review_reason,
  evaluate_safe_snapshot, evaluate_settlement_snapshot, manual_review_trade_states,
}

-- What a release of the Pearl escrow rests on.
pub record ReleaseConditions (s : SettlementSnapshot) : Type 0 where
  pub trade_state : s.trade.state ≡ TradeState.usdc_escrow_confirmed
  pub pearl_status : s.pearl.status ≡ PearlProofStatus.confirmed
  pub base_status : s.base.status ≡ BaseEscrowStatus.deposited
  pub pearl_final : s.trade.pearl_escrow.required_confirmations ≤ s.pearl.confirmations
  pub base_final : s.trade.usdc_escrow.required_confirmations ≤ s.base.confirmations
  pub in_time : not_later s.pearl.observed_at s.trade.deadlines.pearl_funding_deadline ≡ true
  pub authorized : is_worker_auto_release_authorized s ≡ true

six_tests :
    (a b c d e f g : Bool)
    → (if not (a && (b && (c && (d && (e && f))))) then false else g) ≡ true
    → (a ≡ true) × (b ≡ true) × (c ≡ true) × (d ≡ true) × (e ≡ true) × (f ≡ true) × (g ≡ true)
six_tests a b c d e f g h = ground arith

pub allowed_conditions :
    (s : SettlementSnapshot) → is_prl_release_allowed s ≡ true → ReleaseConditions s
unfolding is_prl_release_allowed
allowed_conditions s h =
    let p = six_tests _ _ _ _ _ _ _ h in
    record {
      trade_state = ===_sound s.trade.state TradeState.usdc_escrow_confirmed p.0;
      pearl_status = ===_sound s.pearl.status PearlProofStatus.confirmed p.1;
      base_status = ===_sound s.base.status BaseEscrowStatus.deposited p.2;
      pearl_final = leb→le _ _ p.3;
      base_final = leb→le _ _ p.4;
      in_time = p.5;
      authorized = p.6;
    }

conditions_allowed :
    (s : SettlementSnapshot) → ReleaseConditions s → is_prl_release_allowed s ≡ true
unfolding is_prl_release_allowed
conditions_allowed s c = ground arith

conditions_safe : (s : SettlementSnapshot) → ReleaseConditions s → get_manual_review_reason s ≡ none
unfolding get_manual_review_reason
conditions_safe s c = ground arith

-- The worker decides to release the Pearl escrow exactly when the trade is at
-- `usdc_escrow_confirmed`, both legs are funded with the confirmations that the trade asks for, the
-- Pearl funding was seen by its deadline, and the release needs no further consent. Neither the
-- deadline for the USDC deposit nor that for the settlement plays a part.
pub prepare_release_iff :
    (s : SettlementSnapshot) (now : ℕ)
    → ((evaluate_settlement_snapshot s now).action ≡ prepare_prl_release) ↔ ReleaseConditions s
unfolding evaluate_settlement_snapshot evaluate_safe_snapshot trade_state_is_terminal
prepare_release_iff s now = (
  λ e. allowed_conditions s (ground arith),
  λ c. ground (arith, conditions_safe s c, conditions_allowed s c),
)

-- The worker decides to release the USDC exactly when the Pearl release is confirmed, the USDC is
-- still deposited, and the trade is neither closed nor under review, also after the settlement
-- deadline.
pub prepare_usdc_release_iff :
    (s : SettlementSnapshot) (now : ℕ)
    → ((evaluate_settlement_snapshot s now).action ≡ prepare_usdc_release) ↔ (
        (s.pearl.status ≡ PearlProofStatus.released)
        × (s.base.status ≡ BaseEscrowStatus.deposited)
        × (includes manual_review_trade_states s.trade.state ≡ false)
        × (trade_state_is_terminal s.trade.state ≡ false))
unfolding evaluate_settlement_snapshot evaluate_safe_snapshot get_manual_review_reason
prepare_usdc_release_iff s now = (λ e. ground arith, λ c. ground arith)
