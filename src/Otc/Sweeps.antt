-- ===== src/Otc/Sweeps.antt =====
-- services/otc-api/src/trade-service.ts: filling an order, and sweeping and refunding its prefund.
-- The repository is that of Otc.Orders; `now` is the time in seconds that a call reads, and
-- `updated_at` its text.
use pearl_infra.Prelude.{
  ℕ, ◌-◌, String, some, none, Option, List, [], ◌∷◌, Bool, true, false, not, ◌||◌, ◌===◌,
  if◌then◌else◌, ltb, ◌==◌, or_default, or_else,
}
use pearl_infra.Prelude.Lists.{every, filter, find, sort}
use pearl_infra.Prelude.Map.{get, values}
use pearl_infra.Prelude.Digits.{is_digit, digits_value, digits_of}
use pearl_infra.Prelude.Text.{text_lt}
use pearl_infra.Prelude.Dates.{Timestamp, not_later}
use pearl_infra.Prelude.Equality.{string_eq}
use pearl_infra.Sdk.Amounts.{parse_decimal_to_units}
use mathlib.Core.List.{reverse}
use pearl_infra.Otc.Types.{
  Text, OtcOrderPrefundMode, auto_sweep, manual_confirm, OtcOrderPrefundState, partially_swept,
  fully_swept, OtcOrder, OtcOrderSweep, OtcOrderSweepStatus, sweep_status_eq, pending,
  awaiting_maker_signature, broadcast, confirmed, order_not_found, order_not_fillable,
  order_expired, remaining_too_small, below_minimum_fill, invalid_amount, wrong_prefund_state,
  sweep_not_found, no_prefund_mode, missing_outpoint, sweep_exceeds_remaining, missing_refund_time,
  refund_not_eligible, nothing_to_refund, wrong_sweep_status, not_auto_sweep, signer_failed,
  Checked, throws, done,
}
use pearl_infra.Otc.Orders.{
  OrderRepository, is_fillable, is_spendable, save_order_sweep, update_order_sweep,
  apply_order_prefund_sweep_progress, apply_prefund_refund_pending,
}

abbrev minimum_met : ℕ → Option Text → Option Bool
minimum_met fill none = some true
minimum_met fill (some []) = some true
minimum_met fill (some (c ∷ text)) = elim (parse_decimal_to_units (c ∷ text) 8) [
  | none ↦ none
  | some minimum ↦ some (not (ltb fill minimum))
]

abbrev pub is_expired : ℕ → Option Timestamp → Bool
is_expired now none = false
is_expired now (some at) = not_later at (some now)

abbrev check_fill : Option ℕ → Option ℕ → Option Text → Checked {0} Unit
check_fill none remaining minimum = throws invalid_amount
check_fill (some fill) none minimum = throws invalid_amount
check_fill (some fill) (some remaining) minimum =
    if ltb remaining fill then throws remaining_too_small else elim (minimum_met fill minimum) [
      | none ↦ throws invalid_amount
      | some met ↦ if met then done tt else throws below_minimum_fill
    ]

-- `now` is in milliseconds here.
unfoldable pub assert_order_fillable : OtcOrder → Text → ℕ → Checked {0} Unit
assert_order_fillable order amount_prl now =
    if not (is_fillable order.status)
    then throws (order_not_fillable order.status)
    else if is_expired now order.expires_at
    then throws order_expired
    else check_fill (parse_decimal_to_units amount_prl 8)
        (parse_decimal_to_units order.remaining_prl 8) order.min_fill_prl

-- `BigInt(text)` on digits; a text below zero is refused by what follows in any case.
unfoldable pub big_units : Text → Option ℕ
big_units text = if every is_digit text then some (digits_value 0 text) else none

abbrev pub remaining_of : OtcOrder → Option ℕ
remaining_of order = big_units (or_default order.prefund_remaining_grains (b'0' ∷ []))

abbrev pub state_after_sweep : ℕ → OtcOrderPrefundState
state_after_sweep new_remaining = if new_remaining == 0 then fully_swept else partially_swept

abbrev pub sweep_status_of : OtcOrderPrefundMode → OtcOrderSweepStatus
sweep_status_of auto_sweep = pending
sweep_status_of manual_confirm = awaiting_maker_signature

pub record SweepRequest : Type 0 where
  pub sweep_id : String
  pub order : OtcOrder
  pub trade_id : String
  pub swept_grains : Text

abbrev pub new_sweep : SweepRequest → OtcOrderPrefundMode → String → OtcOrderSweep
new_sweep input mode outpoint = record {
  sweep_id = input.sweep_id;
  order_id = input.order.order_id;
  trade_id = input.trade_id;
  input_outpoint = outpoint;
  swept_grains = input.swept_grains;
  change_outpoint = none;
  change_grains = none;
  sweep_psbt_base64 = none;
  sweep_txid = none;
  status = sweep_status_of mode;
  failure_reason = none;
  created_at = "";
  updated_at = "";
}

-- The checks before anything is written: the mode, the outpoint and what is left afterwards.
abbrev amounts_of : Option ℕ → Option ℕ → Checked ℕ
amounts_of none swept = throws invalid_amount
amounts_of (some remaining) none = throws invalid_amount
amounts_of (some remaining) (some swept) =
    if (swept == 0) || ltb remaining swept
    then throws sweep_exceeds_remaining
    else done (remaining - swept)

unfoldable pub check_sweep : SweepRequest → Checked (OtcOrderPrefundMode × (String × ℕ))
check_sweep input = elim input.order.prefund_mode [
  | none ↦ throws no_prefund_mode
  | some mode ↦
      if not (is_spendable input.order.prefund_state)
      then throws (wrong_prefund_state input.order.prefund_state)
      else elim input.order.prefund_funded_outpoint [
        | none ↦ throws missing_outpoint
        | some outpoint ↦
            if outpoint === ""
            then throws missing_outpoint
            else elim (amounts_of (remaining_of input.order) (big_units input.swept_grains)) [
              | throws error ↦ throws error
              | done new_remaining ↦ done (mode, (outpoint, new_remaining))
            ]
      ]
]

-- The two writes; the sweep stays written where the second one throws.
unfoldable pub write_sweep :
    String
    → SweepRequest
    → OtcOrderPrefundMode × (String × ℕ)
    → OrderRepository
    → OrderRepository × Checked OtcOrder
write_sweep updated_at input checked repo =
    let saved = save_order_sweep updated_at (new_sweep input checked.0 checked.1.0) repo in
    elim saved.1 [
      | throws error ↦ (saved.0, throws error)
      | done sweep ↦
          apply_order_prefund_sweep_progress input.order.order_id (digits_of checked.1.1)
            (state_after_sweep checked.1.1) updated_at saved.0
    ]

unfoldable pub initiate_order_sweep :
    String → SweepRequest → OrderRepository → OrderRepository × Checked OtcOrder
initiate_order_sweep updated_at input repo = elim (check_sweep input) [
  | throws error ↦ (repo, throws error)
  | done checked ↦ write_sweep updated_at input checked repo
]

-- `listOrderSweepsByOrderId`
abbrev pub list_order_sweeps_by_order_id : String → OrderRepository → List OtcOrderSweep
list_order_sweeps_by_order_id order_id repo =
    sort (λ a b. text_lt a.created_at b.created_at)
      (filter (λ sweep. sweep.order_id === order_id) (values repo.order_sweeps))

abbrev has_change : OtcOrderSweep → Bool
has_change sweep = elim sweep.change_outpoint [
  | none ↦ false
  | some outpoint ↦ sweep.status === confirmed
]

-- The change of the last confirmed sweep that has one, or the funding outpoint.
unfoldable pub live_outpoint : OtcOrder → List OtcOrderSweep → Option String
live_outpoint order sweeps = elim (find has_change (reverse sweeps)) [
  | none ↦ order.prefund_funded_outpoint
  | some sweep ↦ or_else sweep.change_outpoint order.prefund_funded_outpoint
]

pub record RefundRequest : Type 0 where
  pub order : OtcOrder
  pub refund_psbt_base64 : String
  pub remaining_grains : Text

unfoldable pub check_refund : ℕ → OtcOrder → List OtcOrderSweep → Checked (String × ℕ)
check_refund now order sweeps =
    if not (is_spendable order.prefund_state)
    then throws (wrong_prefund_state order.prefund_state)
    else elim order.prefund_refund_eligible_after_unix_time [
      | none ↦ throws missing_refund_time
      | some eligible ↦
          if ltb now eligible then throws refund_not_eligible else elim (remaining_of order) [
            | none ↦ throws invalid_amount
            | some remaining ↦
                if remaining == 0
                then throws nothing_to_refund
                else elim (live_outpoint order sweeps) [
                  | none ↦ throws missing_outpoint
                  | some outpoint ↦
                      if outpoint === ""
                      then throws missing_outpoint
                      else done (outpoint, remaining)
                ]
          ]
    ]

-- The wallet that builds the refund transaction: the order, the grains left and the outpoint.
module _ (build_refund_psbt : OtcOrder → Text → String → Option String) where
  abbrev refund_checked :
      String
      → String
      → OtcOrder
      → Checked (String × ℕ)
      → OrderRepository
      → OrderRepository × Checked RefundRequest
  refund_checked updated_at order_id order (throws error) repo = (repo, throws error)
  refund_checked updated_at order_id order (done (outpoint, remaining)) repo =
      elim (build_refund_psbt order (digits_of remaining) outpoint) [
        | none ↦ (repo, throws signer_failed)
        | some psbt ↦
            let applied = apply_prefund_refund_pending order_id updated_at repo in
            elim applied.1 [
              | throws error ↦ (applied.0, throws error)
              | done updated ↦ (
                applied.0,
                done (record {
                  order = updated;
                  refund_psbt_base64 = psbt;
                  remaining_grains = digits_of remaining;
                }),
              )
            ]
      ]

  unfoldable pub request_prefund_refund :
      ℕ → String → String → OrderRepository → OrderRepository × Checked RefundRequest
  request_prefund_refund now updated_at order_id repo = elim (get order_id repo.orders) [
    | none ↦ (repo, throws order_not_found)
    | some order ↦
        refund_checked updated_at order_id order
          (check_refund now order (list_order_sweeps_by_order_id order_id repo)) repo
  ]

abbrev wrong_status : OtcOrderSweep → OtcOrderSweepStatus → Bool
wrong_status sweep status = not (sweep.status === status)

-- What the signer and the broadcaster return for a sweep: the signed PSBT and the transaction id.
module _ (sign_and_broadcast : OtcOrderSweep → OtcOrder → Option (String × String)) where
  abbrev broadcast_sweep :
      String
      → String
      → OtcOrderSweep
      → OtcOrder
      → OrderRepository
      → OrderRepository × Checked OtcOrderSweep
  broadcast_sweep updated_at sweep_id sweep order repo = elim (sign_and_broadcast sweep order) [
    | none ↦ (repo, throws signer_failed)
    | some (psbt, txid) ↦
        update_order_sweep sweep_id
          (record {
            sweep_psbt_base64 = some psbt;
            sweep_txid = some txid;
            status = broadcast;
            updated_at = updated_at;
          })
          repo
  ]

  -- Mode B, with the PSBT that the maker signed inside `sign_and_broadcast`.
  unfoldable pub apply_maker_sweep_signature :
      String → String → OrderRepository → OrderRepository × Checked OtcOrderSweep
  apply_maker_sweep_signature updated_at sweep_id repo = elim (get sweep_id repo.order_sweeps) [
    | none ↦ (repo, throws sweep_not_found)
    | some sweep ↦
        if wrong_status sweep awaiting_maker_signature
        then (repo, throws (wrong_sweep_status sweep.status))
        else elim (get sweep.order_id repo.orders) [
          | none ↦ (repo, throws order_not_found)
          | some order ↦ broadcast_sweep updated_at sweep_id sweep order repo
        ]
  ]

  abbrev is_auto : Option OtcOrderPrefundMode → Bool
  is_auto (some auto_sweep) = true
  is_auto _ = false

  -- Mode A.
  unfoldable pub auto_sign_and_broadcast_sweep :
      String → String → OrderRepository → OrderRepository × Checked OtcOrderSweep
  auto_sign_and_broadcast_sweep updated_at sweep_id repo = elim (get sweep_id repo.order_sweeps) [
    | none ↦ (repo, throws sweep_not_found)
    | some sweep ↦
        if wrong_status sweep pending
        then (repo, throws (wrong_sweep_status sweep.status))
        else elim (get sweep.order_id repo.orders) [
          | none ↦ (repo, throws order_not_found)
          | some order ↦
              if not (is_auto order.prefund_mode)
              then (repo, throws not_auto_sweep)
              else broadcast_sweep updated_at sweep_id sweep order repo
        ]
  ]

unfoldable pub record_sweep_confirmed :
    String → String → Option String → OrderRepository → OrderRepository × Checked OtcOrderSweep
record_sweep_confirmed updated_at sweep_id sweep_txid repo = elim (get sweep_id repo.order_sweeps) [
  | none ↦ (repo, throws sweep_not_found)
  | some sweep ↦
      if wrong_status sweep broadcast
      then (repo, throws (wrong_sweep_status sweep.status))
      else update_order_sweep sweep_id
          (record {
            sweep_psbt_base64 = none;
            sweep_txid = sweep_txid;
            status = confirmed;
            updated_at = updated_at;
          })
          repo
]
