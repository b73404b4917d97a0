-- ===== src/Otc/Fills.antt =====
-- services/otc-api: what the fills and the sweeps of an order add up to.
use pearl_infra.Prelude.{
  ℕ, ◌+◌, ◌-◌, String, ◌≡◌, refl, sym, ap, ◌∙◌, inl, inr, some, none, Option, List, [], ◌∷◌, true,
  false, ◌||◌, ◌===◌, arith, Option-cases, Bool-cases, ltb, ◌==◌,
}
use mathlib.Core.Path.{subst}
use pearl_infra.Prelude.Equality.{string_eq}
use pearl_infra.Prelude.Map.{get, has}
use pearl_infra.Prelude.Digits.{digits_of}
use pearl_infra.Otc.Types.{
  Text, OtcOrderPrefundMode, OtcOrderPrefundState, pending_funding, refund_pending, prefund_eq,
  cancelled, OtcOrder, OtcOrderSweep, done,
}
use pearl_infra.Otc.Orders.{
  OrderRepository, update_order, in_state, is_spendable, funded_order,
  apply_prefund_funded_observation, expired_prefund, apply_prefund_expired, swept_order,
  apply_order_prefund_sweep_progress, refunding_order, apply_prefund_refund_pending, cut_off_order,
  cancel_order_for_cltv_cutoff, refunded_order, apply_prefund_refunded, save_order_sweep,
}
use pearl_infra.Otc.Sweeps.{
  big_units, remaining_of, state_after_sweep, check_sweep, new_sweep, write_sweep,
  initiate_order_sweep,
}
use pearl_infra.Otc.Units.{big_units-digits_of}
use pearl_infra.Otc.Calls.{
  OrderCall, fill_call, funded_call, expired_call, sweep_call, refund_call, refunded_call,
  cutoff_call, counted, request, sweep_stored, run_order_call, run_order_calls,
}
use pearl_infra.Otc.Accounts.{
  Checked-cases, Account, Facts, Step, put-Account, update-Account, guarded-Account, same_amounts,
  fill-Step,
}

module _ (order_id : String) where
  sweep_checked :
      (p : ℕ) (sweep_id trade_id : String) (grains : Text) (order : OtcOrder)
      (checked : OtcOrderPrefundMode × (String × ℕ))
      → remaining_of order ≡ some p
      → check_sweep (request sweep_id trade_id grains order) ≡ done checked
      → (swept : ℕ) × (big_units grains ≡ some swept)
        × (checked.1.1 + swept ≡ p)
        × (is_spendable order.prefund_state ≡ true)
  unfolding check_sweep
  sweep_checked p sweep_id trade_id grains order checked e d =
      elim (Option-cases order.prefund_mode) [
        | inl n ↦ absurd (ground (arith, rw (check_sweep, n) at d))
        | inr (mode, m) ↦ elim (Bool-cases (is_spendable order.prefund_state)) [
          | inr b ↦ absurd (ground (arith, rw (check_sweep, m, b) at d))
          | inl b ↦ elim (Option-cases order.prefund_funded_outpoint) [
            | inl n ↦ absurd (ground (arith, rw (check_sweep, m, b, n) at d))
            | inr (outpoint, o) ↦ elim (Bool-cases (outpoint === "")) [
              | inl empty ↦ absurd (ground (arith, rw (check_sweep, m, b, o, empty) at d))
              | inr some_text ↦ elim (Option-cases (big_units grains)) [
                | inl n ↦ absurd (ground (arith, rw (check_sweep, m, b, o, some_text, e, n) at d))
                | inr (swept, g) ↦ elim (Bool-cases ((swept == 0) || ltb p swept)) [
                  | inl big ↦
                      absurd (ground (arith, rw (check_sweep, m, b, o, some_text, e, g, big) at d))
                  | inr fits ↦
                      let same : done (mode, (outpoint, p - swept)) ≡ done checked =
                        rw (check_sweep, m, b, o, some_text, e, g, fits) at d in
                      (swept, g, ground (arith, same, fits), b)
                ]
              ]
            ]
          ]
        ]
      ]

  saved_orders :
      (now : String) (input : OtcOrderSweep) (repo : OrderRepository)
      → (save_order_sweep now input repo).0.orders ≡ repo.orders
  unfolding save_order_sweep
  saved_orders now input repo =
      elim (Bool-cases (has input.trade_id repo.order_sweep_by_trade_id)) [
        | inl e ↦ rw (save_order_sweep, e) refl
        | inr e ↦ rw (save_order_sweep, e) refl
      ]

  moved-Account :
      (r p : ℕ) (repo later : OrderRepository)
      → later.orders ≡ repo.orders
      → Account order_id r p repo
      → Account order_id r p later
  moved-Account r p repo later e a = record {
    order = a.order;
    stored = ap (get order_id) e ∙ a.stored;
    own = a.own;
    remaining = a.remaining;
    prefund = a.prefund;
    past_funding = a.past_funding;
  }

  spendable_past :
      (state : Option OtcOrderPrefundState)
      → is_spendable state ≡ true
      → in_state pending_funding state ≡ false
  spendable_past none e = refl
  spendable_past (some pending_funding) e = absurd (ground (arith, e))
  spendable_past (some _) e = refl

  after_sweep_past : (n : ℕ) → in_state pending_funding (some (state_after_sweep n)) ≡ false
  after_sweep_past n = elim (Bool-cases (n == 0)) [ inl e ↦ rw e refl | inr e ↦ rw e refl ]

  -- The second write, on the order that the first one left alone.
  progress_done :
      (r p n : ℕ) (now : String) (repo : OrderRepository) (a : Account order_id r p repo)
      → is_spendable a.order.prefund_state ≡ true
      → let after =
          apply_order_prefund_sweep_progress order_id
            (digits_of n)
            (state_after_sweep n)
            now
            repo in
        Account order_id r n after.0 × ((order : OtcOrder) × (after.1 ≡ done order))
  unfolding apply_order_prefund_sweep_progress update_order swept_order
  progress_done r p n now repo a b =
      rw (apply_order_prefund_sweep_progress, update_order, swept_order, a.stored, b)
        (
          put-Account order_id r n _ repo (record {
            own = a.own;
            remaining = a.remaining;
            prefund = big_units-digits_of n;
            past_funding = after_sweep_past n;
          }),
          (_, refl),
        )

  written :
      (r p swept : ℕ) (now sweep_id trade_id : String) (grains : Text)
      (checked : OtcOrderPrefundMode × (String × ℕ)) (repo : OrderRepository)
      (a : Account order_id r p repo)
      → big_units grains ≡ some swept
      → checked.1.1 + swept ≡ p
      → is_spendable a.order.prefund_state ≡ true
      → let after = write_sweep now (request sweep_id trade_id grains a.order) checked repo in
        Step order_id r p (after.0, (0, counted (big_units grains) after.1))
  unfolding write_sweep moved-Account
  written r p swept now sweep_id trade_id grains checked repo a g e b =
      let sweep = new_sweep (request sweep_id trade_id grains a.order) checked.0 checked.1.0 in
      let saved = save_order_sweep now sweep repo in
      let kept = moved-Account r p repo saved.0 (saved_orders now sweep repo) a in
      elim (Checked-cases saved.1) [
        | inl (error, f) ↦ rw (write_sweep, f) (r, p, kept, omega arith, omega arith)
        | inr (stored, f) ↦
            let (account, (order, d)) = progress_done r p checked.1.1 now saved.0 kept b in
            let after =
              apply_order_prefund_sweep_progress order_id (digits_of checked.1.1)
                (state_after_sweep checked.1.1) now saved.0 in
            let here : Step order_id r p (after.0, (0, counted (big_units grains) after.1)) =
              rw (d, g) (r, checked.1.1, account, omega arith, e) in
            rw (write_sweep, f)
              (subst
                (λ id.
                  let done_there =
                    apply_order_prefund_sweep_progress id (digits_of checked.1.1)
                      (state_after_sweep checked.1.1) now saved.0 in
                  Step order_id r p (done_there.0, (0, counted (big_units grains) done_there.1)))
                (sym a.own) here)
      ]

  sweep-Step :
      (r p : ℕ) (now sweep_id trade_id : String) (grains : Text) (repo : OrderRepository)
      → Account order_id r p repo
      → Step order_id r p (run_order_call order_id (sweep_call now sweep_id trade_id grains) repo)
  unfolding sweep_stored initiate_order_sweep
  sweep-Step r p now sweep_id trade_id grains repo a =
      elim (Checked-cases (check_sweep (request sweep_id trade_id grains a.order))) [
        | inl (error, e) ↦
            rw (sweep_stored, initiate_order_sweep, a.stored, e) (r, p, a, omega arith, omega arith)
        | inr (checked, e) ↦
            let (swept, g, sum, b) =
              sweep_checked p sweep_id trade_id grains a.order checked a.prefund e in
            rw (sweep_stored, initiate_order_sweep, a.stored, e)
              (written r p swept now sweep_id trade_id grains checked repo a g sum b)
      ]

  funded_step :
      (r p : ℕ) (outpoint funded_at now : String) (grains : Text) (repo : OrderRepository)
      → Account order_id r p repo
      → Account order_id r p
          (apply_prefund_funded_observation order_id outpoint grains funded_at now repo).0
  unfolding apply_prefund_funded_observation funded_order
  funded_step r p outpoint funded_at now grains repo a =
      guarded-Account order_id r p (in_state pending_funding) _ repo a
        (λ t. absurd (ground (arith, t, a.past_funding)))

  expired_step :
      (r p : ℕ) (now : String) (repo : OrderRepository)
      → Account order_id r p repo
      → Account order_id r p (apply_prefund_expired order_id now repo).0
  unfolding apply_prefund_expired expired_prefund
  expired_step r p now repo a =
      guarded-Account order_id r p (in_state pending_funding) _ repo a
        (λ t. absurd (ground (arith, t, a.past_funding)))

  refund_step :
      (r p : ℕ) (now : String) (repo : OrderRepository)
      → Account order_id r p repo
      → Account order_id r p (apply_prefund_refund_pending order_id now repo).0
  unfolding apply_prefund_refund_pending refunding_order
  refund_step r p now repo a = guarded-Account order_id r p is_spendable _ repo a (λ t. record {
    own = a.own;
    remaining = a.remaining;
    prefund = a.prefund;
    past_funding = refl;
  })

  refunded_step :
      (r p : ℕ) (txid now : String) (repo : OrderRepository)
      → Account order_id r p repo
      → Account order_id r p (apply_prefund_refunded order_id txid now repo).0
  unfolding apply_prefund_refunded refunded_order
  refunded_step r p txid now repo a =
      guarded-Account order_id r p (in_state refund_pending) _ repo a (λ t. record {
        own = a.own;
        remaining = a.remaining;
        prefund = a.prefund;
        past_funding = refl;
      })

  cut_off_done :
      (now : String) (order updated : OtcOrder)
      → cut_off_order now order ≡ done updated
      → record order { status = cancelled; updated_at = now } ≡ updated
  unfolding cut_off_order
  cut_off_done now order updated e = ground (arith, e)

  cutoff_step :
      (r p : ℕ) (now : String) (repo : OrderRepository)
      → Account order_id r p repo
      → Account order_id r p (cancel_order_for_cltv_cutoff order_id now repo).0
  unfolding cancel_order_for_cltv_cutoff
  cutoff_step r p now repo a = update-Account order_id r p (cut_off_order now) repo a (λ order e.
      subst (Facts order_id r p) (cut_off_done now a.order order e) (record {
        own = a.own;
        remaining = a.remaining;
        prefund = a.prefund;
        past_funding = a.past_funding;
      }))

  call-Step :
      (r p : ℕ) (call : OrderCall) (repo : OrderRepository)
      → Account order_id r p repo
      → Step order_id r p (run_order_call order_id call repo)
  call-Step r p (fill_call amount now) repo a = fill-Step order_id r p amount now repo a
  call-Step r p (funded_call outpoint grains funded_at now) repo a =
      same_amounts order_id r p _ (funded_step r p outpoint funded_at now grains repo a)
  call-Step r p (expired_call now) repo a =
      same_amounts order_id r p _ (expired_step r p now repo a)
  call-Step r p (sweep_call now sweep_id trade_id grains) repo a =
      sweep-Step r p now sweep_id trade_id grains repo a
  call-Step r p (refund_call now) repo a = same_amounts order_id r p _ (refund_step r p now repo a)
  call-Step r p (refunded_call txid now) repo a =
      same_amounts order_id r p _ (refunded_step r p txid now repo a)
  call-Step r p (cutoff_call now) repo a = same_amounts order_id r p _ (cutoff_step r p now repo a)

  -- Whatever calls about an order follow one another, refused ones included, the grains that its
  -- fills took and those that are left to fill add up to what was left at first, and the grains
  -- swept from its prefund and those left there add up to what the prefund held. The order no
  -- longer waits for its funding, it stands under its id, and each sweep is given the stored order.
  pub fills_and_sweeps_add_up :
      (r p : ℕ) (calls : List OrderCall) (repo : OrderRepository)
      → Account order_id r p repo
      → (unfilled : ℕ) × (unswept : ℕ) × Account order_id unfilled unswept
          (run_order_calls order_id calls repo).0
        × (unfilled + (run_order_calls order_id calls repo).1.0 ≡ r)
        × (unswept + (run_order_calls order_id calls repo).1.1 ≡ p)
  unfolding run_order_calls
  fills_and_sweeps_add_up r p [] repo a = same_amounts order_id r p repo a
  fills_and_sweeps_add_up r p (call ∷ calls) repo a =
      let (r1, p1, first, fills, sweeps) = call-Step r p call repo a in
      let (r2, p2, last, more_fills, more_sweeps) = fills_and_sweeps_add_up r1 p1 calls _ first in
      (r2, p2, last, omega (arith, fills, more_fills), omega (arith, sweeps, more_sweeps))
