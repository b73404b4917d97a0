-- ===== src/Otc/Calls.antt =====
-- services/otc-api: calls about one order, in any sequence.
use pearl_infra.Prelude.{ℕ, ◌+◌, String, some, none, Option, List, [], ◌∷◌, or_default}
use pearl_infra.Prelude.Equality.{string_eq}
use pearl_infra.Prelude.Map.{get}
use pearl_infra.Otc.Types.{Text, prefund_eq, OtcOrder, Checked, throws, done, order_not_found}
use pearl_infra.Otc.Orders.{
  OrderRepository, reserve_order_fill, apply_prefund_funded_observation, apply_prefund_expired,
  apply_prefund_refund_pending, cancel_order_for_cltv_cutoff, apply_prefund_refunded,
  parse_decimal_units,
}
use pearl_infra.Otc.Sweeps.{big_units, SweepRequest, initiate_order_sweep}

-- A call about one order: a fill, a funding proof, an expiry, a sweep of the stored order, a
-- confirmed refund, and the cutoff.
pub data OrderCall : Type 0 where
  fill_call : Text → String → OrderCall
  funded_call : String → Text → String → String → OrderCall
  expired_call : String → OrderCall
  sweep_call : String → String → String → Text → OrderCall
  refund_call : String → OrderCall
  refunded_call : String → String → OrderCall
  cutoff_call : String → OrderCall

-- What a call came to, in grains, where it did not throw.
abbrev pub counted : Option ℕ → Checked OtcOrder → ℕ
counted amount (throws e) = 0
counted amount (done order) = or_default amount 0

abbrev pub request : String → String → Text → OtcOrder → SweepRequest
request sweep_id trade_id grains order = record {
  sweep_id = sweep_id;
  order = order;
  trade_id = trade_id;
  swept_grains = grains;
}

unfoldable pub sweep_stored :
    String → String → String → String → Text → OrderRepository → OrderRepository × Checked OtcOrder
sweep_stored order_id now sweep_id trade_id grains repo = elim (get order_id repo.orders) [
  | none ↦ (repo, throws order_not_found)
  | some order ↦ initiate_order_sweep now (request sweep_id trade_id grains order) repo
]

module _ (order_id : String) where
  -- The repository after a call, the grains that it filled and those that it swept.
  abbrev pub run_order_call : OrderCall → OrderRepository → OrderRepository × (ℕ × ℕ)
  run_order_call (fill_call amount now) repo =
      let r = reserve_order_fill order_id amount now repo in
      (r.0, (counted (parse_decimal_units amount 8) r.1, 0))
  run_order_call (funded_call outpoint grains funded_at now) repo =
      ((apply_prefund_funded_observation order_id outpoint grains funded_at now repo).0, (0, 0))
  run_order_call (expired_call now) repo = ((apply_prefund_expired order_id now repo).0, (0, 0))
  run_order_call (sweep_call now sweep_id trade_id grains) repo =
      let r = sweep_stored order_id now sweep_id trade_id grains repo in
      (r.0, (0, counted (big_units grains) r.1))
  run_order_call (refund_call now) repo =
      ((apply_prefund_refund_pending order_id now repo).0, (0, 0))
  run_order_call (refunded_call txid now) repo =
      ((apply_prefund_refunded order_id txid now repo).0, (0, 0))
  run_order_call (cutoff_call now) repo =
      ((cancel_order_for_cltv_cutoff order_id now repo).0, (0, 0))

  unfoldable pub run_order_calls : List OrderCall → OrderRepository → OrderRepository × (ℕ × ℕ)
  run_order_calls [] repo = (repo, (0, 0))
  run_order_calls (call ∷ calls) repo =
      let first = run_order_call call repo in
      let rest = run_order_calls calls first.0 in
      (rest.0, (first.1.0 + rest.1.0, first.1.1 + rest.1.1))
