-- ===== src/Otc/Types.antt =====
-- services/otc-api/src/types.ts: orders and their sweeps. An amount is a text, the list of its code
-- points.
use pearl_infra.Prelude.{ℕ, String, ◌≡◌, refl, some, Option, List, [], ◌∷◌, Eq, enum_eq}
use pearl_infra.Prelude.Equality.{get_elem?}
use pearl_infra.Prelude.Dates.{Timestamp}
use pearl_infra.Sdk.Trade.{OtcQuoteSide}

abbrev pub Text : Type 0
Text = List ℕ

pub data OtcOrderStatus : Type 0 where
  open_order partially_filled filled cancelled expired_order : OtcOrderStatus

pub data OtcOrderPrefundMode : Type 0 where
  auto_sweep manual_confirm : OtcOrderPrefundMode

pub data OtcOrderPrefundState : Type 0 where
  pending_allocation pending_funding funded partially_swept fully_swept refund_pending refunded
        expired :
      OtcOrderPrefundState

abbrev prefund_index : OtcOrderPrefundState → ℕ
prefund_index pending_allocation = 0
prefund_index pending_funding = 1
prefund_index funded = 2
prefund_index partially_swept = 3
prefund_index fully_swept = 4
prefund_index refund_pending = 5
prefund_index refunded = 6
prefund_index expired = 7

abbrev prefund_states : List OtcOrderPrefundState
prefund_states =
    pending_allocation ∷ pending_funding ∷ funded ∷ partially_swept ∷ fully_swept ∷ refund_pending
    ∷ refunded ∷ expired ∷ []

pub prefund_states-index :
    (s : OtcOrderPrefundState) → get_elem? prefund_states (prefund_index s) ≡ some s
prefund_states-index pending_allocation = refl
prefund_states-index _ = refl

instance abbrev pub prefund_eq : Eq OtcOrderPrefundState
prefund_eq = enum_eq prefund_index prefund_states prefund_states-index

pub data OtcOrderSweepStatus : Type 0 where
  pending awaiting_maker_signature broadcast confirmed failed expired_sweep : OtcOrderSweepStatus

abbrev sweep_index : OtcOrderSweepStatus → ℕ
sweep_index pending = 0
sweep_index awaiting_maker_signature = 1
sweep_index broadcast = 2
sweep_index confirmed = 3
sweep_index failed = 4
sweep_index expired_sweep = 5

abbrev sweep_statuses : List OtcOrderSweepStatus
sweep_statuses =
    pending ∷ awaiting_maker_signature ∷ broadcast ∷ confirmed ∷ failed ∷ expired_sweep ∷ []

pub sweep_statuses-index :
    (s : OtcOrderSweepStatus) → get_elem? sweep_statuses (sweep_index s) ≡ some s
sweep_statuses-index pending = refl
sweep_statuses-index _ = refl

instance abbrev pub sweep_status_eq : Eq OtcOrderSweepStatus
sweep_status_eq = enum_eq sweep_index sweep_statuses sweep_statuses-index

-- The terms of an order that no operation here reads are left out: asset, addresses, keys, price.
pub record OtcOrder : Type 0 where
  pub order_id : String
  pub maker_user_id : String
  pub side : OtcQuoteSide
  pub amount_prl : Text
  pub remaining_prl : Text
  pub min_fill_prl : Option Text
  pub status : OtcOrderStatus
  pub expires_at : Option Timestamp
  pub updated_at : String
  pub prefund_mode : Option OtcOrderPrefundMode
  pub prefund_state : Option OtcOrderPrefundState
  pub prefund_funded_outpoint : Option String
  pub prefund_funded_grains : Option Text
  pub prefund_remaining_grains : Option Text
  pub prefund_funded_at : Option String
  pub prefund_refund_eligible_after_unix_time : Option ℕ
  pub prefund_refund_txid : Option String

pub record OtcOrderSweep : Type 0 where
  pub sweep_id : String
  pub order_id : String
  pub trade_id : String
  pub input_outpoint : String
  pub swept_grains : Text
  pub change_outpoint : Option String
  pub change_grains : Option Text
  pub sweep_psbt_base64 : Option String
  pub sweep_txid : Option String
  pub status : OtcOrderSweepStatus
  pub failure_reason : Option String
  pub created_at : String
  pub updated_at : String

-- What the calls throw.
pub data OtcError : Type 0 where
  order_not_found order_expired remaining_too_small below_minimum_fill invalid_amount : OtcError
  order_not_fillable : OtcOrderStatus → OtcError
  wrong_prefund_state : Option OtcOrderPrefundState → OtcError
  already_cancelled sweep_exists sweep_not_found no_prefund_mode missing_outpoint : OtcError
  sweep_exceeds_remaining missing_refund_time refund_not_eligible nothing_to_refund : OtcError
  wrong_sweep_status : OtcOrderSweepStatus → OtcError
  not_auto_sweep signer_failed : OtcError

pub data Checked {ℓ} (A : Type ℓ) : Type ℓ where
  throws : OtcError → Checked A
  done : A → Checked A
