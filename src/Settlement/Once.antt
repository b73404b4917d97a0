-- ===== src/Settlement/Once.antt =====
-- Over any number of passes, whatever the chains show, the worker prepares the release of a Pearl
-- escrow at most once.
use pearl_infra.Prelude.{
  ℕ, ◌+◌, ◌≤◌, String, ◌≡◌, refl, some, none, Option, List, [], ◌∷◌, ◌++◌, Bool, true, false, ◌&&◌,
  ◌===◌, string_eq, arith, eq_iff, if◌then◌else◌, Bool-cases, Option-cases, inl, inr, ===_sound,
  sym, or_default,
}
use mathlib.Core.Path.{subst}
use pearl_infra.Prelude.Map.{get, set}
use pearl_infra.Sdk.Trade.{OtcTrade, TradeState, trade_state_eq}
use pearl_infra.Settlement.Types.{
  SettlementDecisionAction, wait, manual_review, prepare_prl_release, prepare_prl_refund,
  prepare_usdc_release, mark_released, mark_refunded, PearlProofState, BaseEscrowEventState,
  SettlementSnapshot, SettlementDecisionRecord, SettlementPreparedAction, Hashing,
}
use pearl_infra.Settlement.Decision.{
  create_settlement_snapshot, create_settlement_decision_record, evaluate_settlement_snapshot,
  evaluate_safe_snapshot,
}
use pearl_infra.Settlement.Release.{prepare_release_iff}
use pearl_infra.Settlement.Loop.{
  World, IterationResult, find_trade, set_trade_state, apply_trade_state, create_prepared_action,
  mark_state, execute_action, execute_settlement_decision, save_decision, act_on_saved,
  process_trade, process_trades, run_settlement_worker_iteration,
}

abbrev is_release : SettlementDecisionAction → Bool
is_release prepare_prl_release = true
is_release _ = false

-- How many releases of the trade the signer was asked for.
abbrev pub releases : String → List SettlementPreparedAction → ℕ
releases x [] = 0
releases x (a ∷ rest) = (if a.trade_id === x && is_release a.action then 1 else 0) + releases x rest

-- Whether the trade may still come to a release: 1 or 0.
abbrev ready_trade : Option OtcTrade → ℕ
ready_trade none = 0
ready_trade (some trade) = if trade.state === TradeState.usdc_escrow_confirmed then 1 else 0

abbrev ready : String → List OtcTrade → ℕ
ready x trades = ready_trade (find_trade x trades)

ready_le_one : (t : Option OtcTrade) → ready_trade t + 0 ≤ 1
ready_le_one t = ground arith

releases-append :
    (x : String) (before added : List SettlementPreparedAction)
    → releases x (before ++ added) ≡ releases x before + releases x added
releases-append x [] added = omega arith
releases-append x (a ∷ rest) added = omega (arith, releases-append x rest added)

find-id :
    (x : String) (ts : List OtcTrade) (t : OtcTrade) → find_trade x ts ≡ some t → t.trade_id ≡ x
unfolding find_trade
find-id x [] t e = ground arith
find-id x (u ∷ ts) t e = ground (arith, eq_iff u.trade_id x, find-id x ts t)

find_self :
    (x : String) (ts : List OtcTrade) (t : OtcTrade)
    → find_trade x ts ≡ some t
    → find_trade t.trade_id ts ≡ some t
find_self x ts t e = subst (λ y. find_trade y ts ≡ some t) (sym (find-id x ts t e)) e

-- Writing a state that is not `usdc_escrow_confirmed` never makes a trade ready.
ready-set :
    (x y : String) (state : TradeState) (d : SettlementDecisionRecord) (ts : List OtcTrade)
    → state === TradeState.usdc_escrow_confirmed ≡ false
    → ready x (set_trade_state y state d ts) ≤ ready x ts
unfolding find_trade set_trade_state
ready-set x y state d [] h = omega arith
ready-set x y state d (t ∷ ts) h =
    ground (arith, eq_iff t.trade_id x, eq_iff t.trade_id y, ready-set x y state d ts)

-- Afterwards the trade itself is not ready.
ready-set_self :
    (x : String) (state : TradeState) (d : SettlementDecisionRecord) (ts : List OtcTrade)
    → state === TradeState.usdc_escrow_confirmed ≡ false
    → ready x (set_trade_state x state d ts) ≡ 0
unfolding find_trade set_trade_state
ready-set_self x state d [] h = refl
ready-set_self x state d (t ∷ ts) h =
    ground (arith, eq_iff t.trade_id x, ready-set_self x state d ts)

-- One chance to release each trade: it is either still to come or used up.
abbrev pub AtMostOnce : World → Type 0
AtMostOnce w = (x : String) → ready x w.trades + releases x w.signer_actions ≤ 1

-- The states that decisions write.
abbrev WritesClosed : SettlementDecisionRecord → Type 0
WritesClosed d =
    (s : TradeState) → d.to_state ≡ some s → s === TradeState.usdc_escrow_confirmed ≡ false

default_closed :
    (d : SettlementDecisionRecord) (fallback : TradeState)
    → WritesClosed d
    → fallback === TradeState.usdc_escrow_confirmed ≡ false
    → or_default d.to_state fallback === TradeState.usdc_escrow_confirmed ≡ false
default_closed d fallback c h = elim (Option-cases d.to_state) [
  | inl e ↦ rw e h
  | inr (s, e) ↦ rw e (c s e)
]

-- The bound of one trade, by which a world is judged.
abbrev Bound : String → World → Type 0
Bound x w = ready x w.trades + releases x w.signer_actions ≤ 1

mark-Bound :
    (to_state : Option TradeState) (t : OtcTrade) (d : SettlementDecisionRecord) (w : World)
    (x : String)
    → ((s : TradeState) → to_state ≡ some s → s === TradeState.usdc_escrow_confirmed ≡ false)
    → Bound x w
    → Bound x (mark_state to_state t d w)
unfolding mark_state apply_trade_state
mark-Bound none t d w x c h = h
mark-Bound (some s) t d w x c h = omega (arith, ready-set x t.trade_id s d w.trades (c s refl))

release-Bound :
    (state : TradeState) (t : OtcTrade) (d : SettlementDecisionRecord) (w : World) (x : String)
    → state === TradeState.usdc_escrow_confirmed ≡ false
    → find_trade t.trade_id w.trades ≡ some t
    → t.state ≡ TradeState.usdc_escrow_confirmed
    → Bound x w
    → ready x (set_trade_state t.trade_id state d w.trades)
        + releases x (w.signer_actions ++ create_prepared_action t d "signer" ∷ [])
      ≤ 1
unfolding create_prepared_action
release-Bound state t d w x c f r h = elim (Bool-cases (t.trade_id === x)) [
  | inl same ↦ ground (
    arith,
    ===_sound t.trade_id x same,
    ready-set_self t.trade_id state d w.trades c,
    releases-append x w.signer_actions (create_prepared_action t d "signer" ∷ []),
  )
  | inr other ↦ ground (
    arith,
    ready-set x t.trade_id state d w.trades c,
    releases-append x w.signer_actions (create_prepared_action t d "signer" ∷ []),
  )
]

refund-Bound :
    (state : TradeState) (t : OtcTrade) (d : SettlementDecisionRecord) (w : World) (x : String)
    → d.action ≡ prepare_prl_refund
    → state === TradeState.usdc_escrow_confirmed ≡ false
    → Bound x w
    → ready x (set_trade_state t.trade_id state d w.trades)
        + releases x (w.signer_actions ++ create_prepared_action t d "signer" ∷ [])
      ≤ 1
unfolding create_prepared_action
refund-Bound state t d w x e c h = ground (
  arith,
  ready-set x t.trade_id state d w.trades c,
  releases-append x w.signer_actions (create_prepared_action t d "signer" ∷ []),
)

execute-Bound :
    (action : SettlementDecisionAction) (t : OtcTrade) (d : SettlementDecisionRecord) (w : World)
    (x : String)
    → d.action ≡ action
    → WritesClosed d
    → find_trade t.trade_id w.trades ≡ some t
    → (action ≡ prepare_prl_release → t.state ≡ TradeState.usdc_escrow_confirmed)
    → Bound x w
    → Bound x (execute_action action t d w).0
unfolding execute_action
execute-Bound wait t d w x e c f r h = h
execute-Bound manual_review t d w x e c f r h =
    omega (arith, ready-set x t.trade_id TradeState.failed_manual_review d w.trades refl)
execute-Bound prepare_prl_release t d w x e c f r h =
    release-Bound _ t d w x (default_closed d TradeState.release_pending c refl) f (r refl) h
execute-Bound prepare_prl_refund t d w x e c f r h =
    refund-Bound _ t d w x e (default_closed d TradeState.refund_pending c refl) h
execute-Bound prepare_usdc_release t d w x e c f r h = h
execute-Bound mark_released t d w x e c f r h = mark-Bound d.to_state t d w x c h
execute-Bound mark_refunded t d w x e c f r h = mark-Bound d.to_state t d w x c h

-- What the decision engine writes is never `usdc_escrow_confirmed`.
evaluation_closed :
    (s : SettlementSnapshot) (now : ℕ) (state : TradeState)
    → (evaluate_settlement_snapshot s now).to_state ≡ some state
    → state === TradeState.usdc_escrow_confirmed ≡ false
unfolding evaluate_settlement_snapshot evaluate_safe_snapshot
evaluation_closed s now state e = ground arith

save_cases {ℓ} :
    (P : World × (SettlementDecisionRecord × Bool) → Type ℓ) (d : SettlementDecisionRecord)
    (w : World)
    → ((existing : SettlementDecisionRecord) → P (w, (existing, false)))
    → P (record w { decisions = set d.idempotency_key d w.decisions }, (d, true))
    → P (save_decision d w)
unfolding save_decision
save_cases P d w known fresh = elim (Option-cases (get d.idempotency_key w.decisions)) [
  | inl e ↦ rw (e, save_decision) fresh
  | inr (old, e) ↦ rw (e, save_decision) (known old)
]

module _ (h : Hashing) (pearl : OtcTrade → PearlProofState)
    (base : OtcTrade → BaseEscrowEventState) where
  process-Bound :
      (now : ℕ) (t : OtcTrade) (w : World) (r : IterationResult) (x : String)
      → find_trade t.trade_id w.trades ≡ some t
      → Bound x w
      → Bound x (process_trade h pearl base now t w r).0
  unfolding process_trade act_on_saved execute_settlement_decision create_settlement_snapshot
  process-Bound now t w r x f b =
      save_cases (λ saved. Bound x (act_on_saved h pearl base t saved r).0) decision w
        (λ existing. b)
        (execute-Bound decision.action t decision _ x refl
          (unfold create_settlement_decision_record in evaluation_closed snapshot now) f
          (unfold create_settlement_decision_record in
            λ e. ((prepare_release_iff snapshot now).0 e).trade_state)
          b)
    where
      snapshot : SettlementSnapshot
      snapshot = create_settlement_snapshot t (pearl t) (base t) now

      decision : SettlementDecisionRecord
      decision = create_settlement_decision_record h snapshot now

  processes-Bound :
      (now : ℕ) (ids : List String) (w : World) (r : IterationResult) (x : String)
      → Bound x w
      → Bound x (process_trades h pearl base now ids w r).0
  unfolding process_trades
  processes-Bound now [] w r x b = b
  processes-Bound now (y ∷ ids) w r x b = elim (Option-cases (find_trade y w.trades)) [
    | inl e ↦ rw (e, process_trades) (processes-Bound now ids w r x b)
    | inr (t, e) ↦
        rw (e, process_trades)
          (processes-Bound now ids _ _ x (process-Bound now t w r x (find_self y w.trades t e) b))
  ]

  pub iteration-Bound :
      (now : ℕ) (w : World) (x : String)
      → Bound x w
      → Bound x (run_settlement_worker_iteration h pearl base now w).0
  unfolding run_settlement_worker_iteration
  iteration-Bound now w x b = processes-Bound now _ w _ x b

-- What the chains show of each trade at one pass, and when the pass runs.
pub record Pass : Type 0 where
  pub now : ℕ
  pub pearl : OtcTrade → PearlProofState
  pub base : OtcTrade → BaseEscrowEventState

unfoldable pub run_passes : Hashing → List Pass → World → World
run_passes h [] w = w
run_passes h (p ∷ passes) w =
    run_passes h passes (run_settlement_worker_iteration h p.pearl p.base p.now w).0

passes-Bound :
    (h : Hashing) (passes : List Pass) (w : World) (x : String)
    → Bound x w
    → Bound x (run_passes h passes w)
unfolding run_passes
passes-Bound h [] w x b = b
passes-Bound h (p ∷ passes) w x b =
    passes-Bound h passes _ x (iteration-Bound h p.pearl p.base p.now w x b)

-- From a world where the signer was asked for nothing, whatever the passes observe and whenever
-- they run, the signer is asked at most once to release the escrow of any one trade.
pub releases_at_most_once :
    (h : Hashing) (passes : List Pass) (w : World) (x : String)
    → w.signer_actions ≡ []
    → releases x (run_passes h passes w).signer_actions ≤ 1
releases_at_most_once h passes w x none_yet =
    omega (arith, passes-Bound h passes w x (rw none_yet (ready_le_one (find_trade x w.trades))))
