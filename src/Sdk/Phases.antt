-- ===== src/Sdk/Phases.antt =====
-- What the trade state machine of packages/pearl-sdk/src/otc.ts guarantees of every run.
use pearl_infra.Prelude.{
  refl, ◌≡◌, [], ◌∷◌, Bool, true, false, not, ◌||◌, arith, leb, leb→le, Bool-cases, if◌then◌else◌,
  ℕ, ◌≤◌, ◌===◌, ===_sound, ===_refl, ◌⊎◌, inl, inr,
}
use pearl_infra.Prelude.Lists.{includes, every}
use pearl_infra.Sdk.Trade.{
  TradeState, trade_states, trade_state_eq, every_pair, every_state, quoted, pearl_escrow_pending,
  pearl_escrow_seen, pearl_escrow_confirmed, usdc_escrow_pending, usdc_escrow_confirmed,
  release_pending, released, refund_available, refund_pending, disputed, failed_manual_review,
  late_prl_funding, usdc_refunded, prl_release_failed, amount_mismatch, reorged, stale_indexer,
  unknown_spend,
}
use pearl_infra.Sdk.States.{can_transition_trade, trade_state_is_terminal, Reach, here, next}

-- How far a trade has come.
abbrev pub phase : TradeState → ℕ
phase quoted = 0
phase pearl_escrow_pending = 1
phase pearl_escrow_seen = 1
phase pearl_escrow_confirmed = 2
phase usdc_escrow_pending = 3
phase usdc_escrow_confirmed = 4
phase release_pending = 5
phase refund_available = 5
phase refund_pending = 5
phase disputed = 5
phase late_prl_funding = 6
phase usdc_refunded = 6
phase prl_release_failed = 6
phase amount_mismatch = 6
phase reorged = 6
phase stale_indexer = 6
phase unknown_spend = 6
phase _ = 7

phase_test : TradeState → TradeState → Bool
phase_test s t = not (can_transition_trade s t) || leb (phase s) (phase t)

phase_table : every (λ s. every (λ t. phase_test s t) trade_states) trade_states ≡ true
unfolding phase_test can_transition_trade
phase_table = refl

phase-can_transition_trade :
    (s t : TradeState) → can_transition_trade s t ≡ true → phase s ≤ phase t
unfolding phase_test
phase-can_transition_trade s t h =
    leb→le (phase s) (phase t) (ground (arith, every_pair phase_test phase_table s t))

-- A run never goes back to an earlier phase: once the USDC leg has begun, the Pearl leg is never
-- repeated, and once settlement has begun, neither leg is.
pub phase-Reach : {s t : TradeState} → Reach s t → phase s ≤ phase t
phase-Reach here = omega arith
phase-Reach (next {t = t} {u = u} r h) =
    omega (arith, phase-Reach r, phase-can_transition_trade t u h)

-- Whether a run has been in a state, its two ends included.
abbrev pub visits : TradeState → {s t : TradeState} → Reach s t → Bool
visits x {s} here = s === x
visits x (next {u = u} r h) = u === x || visits x r

visits_last : {s t : TradeState} (r : Reach s t) → visits t r ≡ true
visits_last {s} here = ===_refl s
visits_last (next {u = u} r h) = rw (===_refl u) refl

abbrev needs_pearl : TradeState → Bool
needs_pearl s =
    includes
      (pearl_escrow_confirmed ∷ usdc_escrow_pending ∷ usdc_escrow_confirmed ∷ release_pending
        ∷ released ∷ [])
      s

abbrev needs_usdc : TradeState → Bool
needs_usdc s = includes (usdc_escrow_confirmed ∷ release_pending ∷ released ∷ []) s

-- A state that needs a leg is entered from one that needs it, from a dispute, or as its first.
pearl_test : TradeState → TradeState → Bool
pearl_test s t =
    not (can_transition_trade s t)
    || (not (needs_pearl t) || (needs_pearl s || (s === disputed || t === pearl_escrow_confirmed)))

usdc_test : TradeState → TradeState → Bool
usdc_test s t =
    not (can_transition_trade s t)
    || (not (needs_usdc t) || (needs_usdc s || (s === disputed || t === usdc_escrow_confirmed)))

pearl_table : every (λ s. every (λ t. pearl_test s t) trade_states) trade_states ≡ true
unfolding pearl_test can_transition_trade
pearl_table = refl

usdc_table : every (λ s. every (λ t. usdc_test s t) trade_states) trade_states ≡ true
unfolding usdc_test can_transition_trade
usdc_table = refl

visits_of_eq :
    (x : TradeState) {s t : TradeState} (r : Reach s t) → (t === x) ≡ true → visits x r ≡ true
visits_of_eq x {t = t} r e = rw (← ===_sound t x e) (visits_last r)

of_not : (b : Bool) → not b ≡ true → b ≡ false
of_not b h = ground arith

both : (d p c : Bool) → (d || p) ≡ true → (d || c) ≡ true → (d ≡ true) ⊎ ((p ≡ true) × (c ≡ true))
both d p c h k = ground arith

-- One step keeps what a state needs of the history, as a fact about the tests alone.
keeps_need :
    (can need need' from_dispute first to_dispute disputed_before first_before : Bool)
    → can ≡ true
    → (not can || (not need' || (need || (from_dispute || first)))) ≡ true
    → (from_dispute ≡ true → disputed_before ≡ true)
    → (need ≡ true → (disputed_before || first_before) ≡ true)
    → need' ≡ true
    → ((to_dispute || disputed_before) || (first || first_before)) ≡ true
keeps_need can need need' from_dispute first to_dispute disputed_before first_before a b c d e =
    ground arith

abbrev History : {s t : TradeState} → Reach s t → Type 0
History {t = t} r =
    (needs_pearl t ≡ true → (visits disputed r || visits pearl_escrow_confirmed r) ≡ true)
    × (needs_usdc t ≡ true → (visits disputed r || visits usdc_escrow_confirmed r) ≡ true)

history : {t : TradeState} (r : Reach quoted t) → History r
history here = (λ e. cc, λ e. cc)
history (next {t = t} {u = u} r h) =
    let before : History r = history r in
    (
      keeps_need (can_transition_trade t u) (needs_pearl t) (needs_pearl u) (t === disputed)
          (u === pearl_escrow_confirmed) (u === disputed) (visits disputed r)
          (visits pearl_escrow_confirmed r) h
          (unfold pearl_test in every_pair pearl_test pearl_table t u) (visits_of_eq disputed r)
          before.0,
      keeps_need (can_transition_trade t u) (needs_usdc t) (needs_usdc u) (t === disputed)
          (u === usdc_escrow_confirmed) (u === disputed) (visits disputed r)
          (visits usdc_escrow_confirmed r) h
          (unfold usdc_test in every_pair usdc_test usdc_table t u) (visits_of_eq disputed r)
          before.1,
    )

-- A trade that started from a quote and is released either was disputed or had both its Pearl
-- escrow and its USDC escrow confirmed.
pub released_history :
    (r : Reach quoted released)
    → (visits disputed r ≡ true)
      ⊎ ((visits pearl_escrow_confirmed r ≡ true) × (visits usdc_escrow_confirmed r ≡ true))
released_history r =
    let needs : History r = history r in
    both (visits disputed r) (visits pearl_escrow_confirmed r) (visits usdc_escrow_confirmed r)
      (needs.0 refl) (needs.1 refl)

terminal_test : TradeState → Bool
terminal_test s =
    if trade_state_is_terminal s
    then every (λ t. not (can_transition_trade s t)) trade_states
    else can_transition_trade s failed_manual_review

terminal_table : every (λ s. terminal_test s) trade_states ≡ true
unfolding terminal_test can_transition_trade trade_state_is_terminal
terminal_table = refl

-- A terminal state has no transition to any state; from every other state an operator can close
-- the trade for manual review.
pub terminal_or_reviewable :
    (s : TradeState)
    → ((trade_state_is_terminal s ≡ true) × ((t : TradeState) → can_transition_trade s t ≡ false))
      ⊎ ((trade_state_is_terminal s ≡ false) × (can_transition_trade s failed_manual_review ≡ true))
unfolding terminal_test
terminal_or_reviewable s = elim (Bool-cases (trade_state_is_terminal s)) [
  | inl e ↦ inl (
    e,
    λ t. of_not (can_transition_trade s t) (
        every_state (λ u. not (can_transition_trade s u))
          (ground (arith, every_state terminal_test terminal_table s)) t),
  )
  | inr e ↦ inr (e, ground (arith, every_state terminal_test terminal_table s))
]
