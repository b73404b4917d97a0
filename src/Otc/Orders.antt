-- ===== src/Otc/Orders.antt =====
-- services/otc-api/src/repository.ts, the orders and sweeps of `InMemoryOtcRepository`.
use pearl_infra.Prelude.{
  ℕ, ◌+◌, ◌-◌, ◌*◌, ◌/◌, ◌%◌, ◌^◌, String, some, none, Option, ◌∷◌, ◌++◌, Bool, true, false, not,
  ◌||◌, ◌===◌, if◌then◌else◌, ltb, ◌==◌, or_else,
}
use pearl_infra.Prelude.Lists.{length, every, take}
use pearl_infra.Prelude.Map.{Dict, get, set, has}
use pearl_infra.Prelude.Digits.{is_digit, digits_value, digits_of, pad_start, zeros}
use pearl_infra.Sdk.Amounts.{split, fractional_part, is_empty}
use pearl_infra.Otc.Types.{
  Text, OtcOrderStatus, open_order, partially_filled, filled, cancelled, expired_order,
  OtcOrderPrefundState, pending_funding, funded, partially_swept, refund_pending, refunded, expired,
  prefund_eq, OtcOrder, OtcOrderSweep, OtcOrderSweepStatus, order_not_found, order_not_fillable,
  invalid_amount, remaining_too_small, wrong_prefund_state, already_cancelled, sweep_exists,
  sweep_not_found, Checked, throws, done,
}

-- What stands after a second point is not looked at.
unfoldable pub parse_decimal_units : Text → ℕ → Option ℕ
parse_decimal_units value decimals =
    let parts = split b'.' value in
    let fraction = fractional_part parts.1 in
    if is_empty parts.0
      || (not (every is_digit parts.0)
          || (not (every is_digit fraction) || ltb decimals (length fraction)))
    then none
    else some (
        digits_value 0 parts.0 * 10 ^ decimals
        + digits_value 0 (take decimals (fraction ++ zeros decimals)))

unfoldable pub format_decimal_units : ℕ → ℕ → Text
format_decimal_units value decimals =
    digits_of (value / 10 ^ decimals)
    ++ b'.' ∷ pad_start decimals (digits_of (value % 10 ^ decimals))

pub record OrderRepository : Type 0 where
  pub orders : Dict OtcOrder
  pub order_sweeps : Dict OtcOrderSweep
  pub order_sweep_by_trade_id : Dict String

abbrev pub put_order : String → OtcOrder → OrderRepository → OrderRepository
put_order order_id order repo = record repo { orders = set order_id order repo.orders }

-- The calls that read an order, check it and write it again.
unfoldable pub update_order :
    String → (OtcOrder → Checked OtcOrder) → OrderRepository → OrderRepository × Checked OtcOrder
update_order order_id change repo = elim (get order_id repo.orders) [
  | none ↦ (repo, throws order_not_found)
  | some order ↦ elim (change order) [
    | throws error ↦ (repo, throws error)
    | done updated ↦ (put_order order_id updated repo, done updated)
  ]
]

-- `['open', 'partially_filled'].includes(order.status)`
abbrev pub is_fillable : OtcOrderStatus → Bool
is_fillable open_order = true
is_fillable partially_filled = true
is_fillable _ = false

abbrev pub filled_to : ℕ → String → OtcOrder → OtcOrder
filled_to next_remaining updated_at order = record order {
  remaining_prl = format_decimal_units next_remaining 8;
  status = if next_remaining == 0 then filled else partially_filled;
  updated_at = updated_at;
}

abbrev fill_units : Option ℕ → Option ℕ → String → OtcOrder → Checked OtcOrder
fill_units none fill updated_at order = throws invalid_amount
fill_units (some remaining) none updated_at order = throws invalid_amount
fill_units (some remaining) (some fill) updated_at order =
    if ltb remaining fill
    then throws remaining_too_small
    else done (filled_to (remaining - fill) updated_at order)

unfoldable pub fill_order : Text → String → OtcOrder → Checked OtcOrder
fill_order amount_prl updated_at order =
    if not (is_fillable order.status)
    then throws (order_not_fillable order.status)
    else fill_units (parse_decimal_units order.remaining_prl 8) (parse_decimal_units amount_prl 8)
        updated_at order

unfoldable pub reserve_order_fill :
    String → Text → String → OrderRepository → OrderRepository × Checked OtcOrder
reserve_order_fill order_id amount_prl updated_at =
    update_order order_id (fill_order amount_prl updated_at)

abbrev pub in_state : OtcOrderPrefundState → Option OtcOrderPrefundState → Bool
in_state state none = false
in_state state (some current) = current === state

-- `['funded', 'partially_swept'].includes(order.prefundState ?? '')`
abbrev pub is_spendable : Option OtcOrderPrefundState → Bool
is_spendable state = in_state funded state || in_state partially_swept state

-- A change that asks for a state first.
abbrev pub guarded :
    (Option OtcOrderPrefundState → Bool) → (OtcOrder → OtcOrder) → OtcOrder → Checked OtcOrder
guarded test change order =
    if test order.prefund_state
    then done (change order)
    else throws (wrong_prefund_state order.prefund_state)

unfoldable pub funded_order : String → Text → String → String → OtcOrder → Checked OtcOrder
funded_order outpoint grains funded_at updated_at = guarded (in_state pending_funding) (λ order.
    record order {
      prefund_state = some funded;
      prefund_funded_outpoint = some outpoint;
      prefund_funded_grains = some grains;
      prefund_remaining_grains = some grains;
      prefund_funded_at = some funded_at;
      updated_at = updated_at;
    })

unfoldable pub apply_prefund_funded_observation :
    String → String → Text → String → String → OrderRepository → OrderRepository × Checked OtcOrder
apply_prefund_funded_observation order_id outpoint grains funded_at updated_at =
    update_order order_id (funded_order outpoint grains funded_at updated_at)

unfoldable pub expired_prefund : String → OtcOrder → Checked OtcOrder
expired_prefund updated_at = guarded (in_state pending_funding) (λ order. record order {
  prefund_state = some expired;
  status = expired_order;
  updated_at = updated_at;
})

unfoldable pub apply_prefund_expired :
    String → String → OrderRepository → OrderRepository × Checked OtcOrder
apply_prefund_expired order_id updated_at = update_order order_id (expired_prefund updated_at)

unfoldable pub swept_order : Text → OtcOrderPrefundState → String → OtcOrder → Checked OtcOrder
swept_order new_remaining_grains new_state updated_at = guarded is_spendable (λ order.
    record order {
      prefund_remaining_grains = some new_remaining_grains;
      prefund_state = some new_state;
      updated_at = updated_at;
    })

unfoldable pub apply_order_prefund_sweep_progress :
    String
    → Text
    → OtcOrderPrefundState
    → String
    → OrderRepository
    → OrderRepository × Checked OtcOrder
apply_order_prefund_sweep_progress order_id new_remaining_grains new_state updated_at =
    update_order order_id (swept_order new_remaining_grains new_state updated_at)

unfoldable pub refunding_order : String → OtcOrder → Checked OtcOrder
refunding_order updated_at =
    guarded is_spendable
      (λ order. record order { prefund_state = some refund_pending; updated_at = updated_at })

unfoldable pub apply_prefund_refund_pending :
    String → String → OrderRepository → OrderRepository × Checked OtcOrder
apply_prefund_refund_pending order_id updated_at =
    update_order order_id (refunding_order updated_at)

abbrev pub is_cancelled : OtcOrderStatus → Bool
is_cancelled cancelled = true
is_cancelled _ = false

unfoldable pub cut_off_order : String → OtcOrder → Checked OtcOrder
cut_off_order updated_at order =
    if not (is_spendable order.prefund_state)
    then throws (wrong_prefund_state order.prefund_state)
    else if is_cancelled order.status
    then throws already_cancelled
    else done (record order { status = cancelled; updated_at = updated_at })

unfoldable pub cancel_order_for_cltv_cutoff :
    String → String → OrderRepository → OrderRepository × Checked OtcOrder
cancel_order_for_cltv_cutoff order_id updated_at = update_order order_id (cut_off_order updated_at)

unfoldable pub refunded_order : String → String → OtcOrder → Checked OtcOrder
refunded_order refund_txid updated_at = guarded (in_state refund_pending) (λ order. record order {
  prefund_state = some refunded;
  prefund_refund_txid = some refund_txid;
  status = cancelled;
  updated_at = updated_at;
})

unfoldable pub apply_prefund_refunded :
    String → String → String → OrderRepository → OrderRepository × Checked OtcOrder
apply_prefund_refunded order_id refund_txid updated_at =
    update_order order_id (refunded_order refund_txid updated_at)

-- `now` is the time that the call reads.
unfoldable pub save_order_sweep :
    String → OtcOrderSweep → OrderRepository → OrderRepository × Checked OtcOrderSweep
save_order_sweep now input repo =
    if has input.trade_id repo.order_sweep_by_trade_id
    then (repo, throws sweep_exists)
    else let sweep : OtcOrderSweep = record input {
      sweep_txid = none;
      failure_reason = none;
      created_at = now;
      updated_at = now;
    } in
      (
        record repo {
          order_sweeps = set input.sweep_id sweep repo.order_sweeps;
          order_sweep_by_trade_id = set input.trade_id input.sweep_id repo.order_sweep_by_trade_id;
        },
        done sweep,
      )

-- The fields that `updateOrderSweep` may set.
pub record SweepUpdate : Type 0 where
  pub sweep_psbt_base64 : Option String
  pub sweep_txid : Option String
  pub status : OtcOrderSweepStatus
  pub updated_at : String

-- Every caller gives a status; none gives a change output or a reason of failure.
unfoldable pub update_order_sweep :
    String → SweepUpdate → OrderRepository → OrderRepository × Checked OtcOrderSweep
update_order_sweep sweep_id input repo = elim (get sweep_id repo.order_sweeps) [
  | none ↦ (repo, throws sweep_not_found)
  | some existing ↦
      let updated : OtcOrderSweep = record existing {
        status = input.status;
        sweep_psbt_base64 = or_else input.sweep_psbt_base64 existing.sweep_psbt_base64;
        sweep_txid = or_else input.sweep_txid existing.sweep_txid;
        updated_at = input.updated_at;
      } in
      (record repo { order_sweeps = set sweep_id updated repo.order_sweeps }, done updated)
]
