-- ===== src/Settlement/Types.antt =====
-- services/settlement-worker/src/types.ts
use pearl_infra.Prelude.{ℕ, String, Bool, ◌≡◌, refl, some, Option, List, [], ◌∷◌, Eq, enum_eq}
use pearl_infra.Prelude.Equality.{get_elem?}
use pearl_infra.Prelude.Dates.{Timestamp}
use pearl_infra.Sdk.Trade.{OtcTrade, OtcTradeDeadlines, TradeState}

pub data PearlProofStatus : Type 0 where
  missing seen confirmed late amount_mismatch reorged released refunded : PearlProofStatus
  unknown_spend : PearlProofStatus

pub data BaseEscrowStatus : Type 0 where
  none created deposited released refunded cancelled reorged stale : BaseEscrowStatus

pub data SettlementDecisionAction : Type 0 where
  wait manual_review prepare_prl_release prepare_prl_refund prepare_usdc_release mark_released
        mark_refunded :
      SettlementDecisionAction

abbrev pub pearl_index : PearlProofStatus → ℕ
pearl_index PearlProofStatus.missing = 0
pearl_index PearlProofStatus.seen = 1
pearl_index PearlProofStatus.confirmed = 2
pearl_index PearlProofStatus.late = 3
pearl_index PearlProofStatus.amount_mismatch = 4
pearl_index PearlProofStatus.reorged = 5
pearl_index PearlProofStatus.released = 6
pearl_index PearlProofStatus.refunded = 7
pearl_index PearlProofStatus.unknown_spend = 8

abbrev pub pearl_statuses : List PearlProofStatus
pearl_statuses =
    PearlProofStatus.missing ∷ PearlProofStatus.seen ∷ PearlProofStatus.confirmed
    ∷ PearlProofStatus.late ∷ PearlProofStatus.amount_mismatch ∷ PearlProofStatus.reorged
    ∷ PearlProofStatus.released ∷ PearlProofStatus.refunded ∷ PearlProofStatus.unknown_spend ∷ []

pub pearl_statuses-index :
    (s : PearlProofStatus) → get_elem? pearl_statuses (pearl_index s) ≡ some s
pearl_statuses-index PearlProofStatus.missing = refl
pearl_statuses-index _ = refl

instance abbrev pub pearl_status_eq : Eq PearlProofStatus
pearl_status_eq = enum_eq pearl_index pearl_statuses pearl_statuses-index

abbrev pub base_index : BaseEscrowStatus → ℕ
base_index BaseEscrowStatus.none = 0
base_index BaseEscrowStatus.created = 1
base_index BaseEscrowStatus.deposited = 2
base_index BaseEscrowStatus.released = 3
base_index BaseEscrowStatus.refunded = 4
base_index BaseEscrowStatus.cancelled = 5
base_index BaseEscrowStatus.reorged = 6
base_index BaseEscrowStatus.stale = 7

abbrev pub base_statuses : List BaseEscrowStatus
base_statuses =
    BaseEscrowStatus.none ∷ BaseEscrowStatus.created ∷ BaseEscrowStatus.deposited
    ∷ BaseEscrowStatus.released ∷ BaseEscrowStatus.refunded ∷ BaseEscrowStatus.cancelled
    ∷ BaseEscrowStatus.reorged ∷ BaseEscrowStatus.stale ∷ []

pub base_statuses-index : (s : BaseEscrowStatus) → get_elem? base_statuses (base_index s) ≡ some s
base_statuses-index BaseEscrowStatus.none = refl
base_statuses-index _ = refl

instance abbrev pub base_status_eq : Eq BaseEscrowStatus
base_status_eq = enum_eq base_index base_statuses base_statuses-index

unfoldable pub pearl_status_name : PearlProofStatus → String
pearl_status_name PearlProofStatus.missing = "missing"
pearl_status_name PearlProofStatus.seen = "seen"
pearl_status_name PearlProofStatus.confirmed = "confirmed"
pearl_status_name PearlProofStatus.late = "late"
pearl_status_name PearlProofStatus.amount_mismatch = "amount_mismatch"
pearl_status_name PearlProofStatus.reorged = "reorged"
pearl_status_name PearlProofStatus.released = "released"
pearl_status_name PearlProofStatus.refunded = "refunded"
pearl_status_name PearlProofStatus.unknown_spend = "unknown_spend"

unfoldable pub base_status_name : BaseEscrowStatus → String
base_status_name BaseEscrowStatus.none = "none"
base_status_name BaseEscrowStatus.created = "created"
base_status_name BaseEscrowStatus.deposited = "deposited"
base_status_name BaseEscrowStatus.released = "released"
base_status_name BaseEscrowStatus.refunded = "refunded"
base_status_name BaseEscrowStatus.cancelled = "cancelled"
base_status_name BaseEscrowStatus.reorged = "reorged"
base_status_name BaseEscrowStatus.stale = "stale"

unfoldable pub action_name : SettlementDecisionAction → String
action_name wait = "wait"
action_name manual_review = "manual_review"
action_name prepare_prl_release = "prepare_prl_release"
action_name prepare_prl_refund = "prepare_prl_refund"
action_name prepare_usdc_release = "prepare_usdc_release"
action_name mark_released = "mark_released"
action_name mark_refunded = "mark_refunded"

pub record PearlProofState : Type 0 where
  pub status : PearlProofStatus
  pub source_event_id : String
  pub txid : Option String
  pub outpoint : Option String
  pub confirmations : ℕ
  pub observed_at : Timestamp
  pub reason : Option String

pub record BaseEscrowEventState : Type 0 where
  pub status : BaseEscrowStatus
  pub source_event_id : String
  pub tx_hash : Option String
  pub confirmations : ℕ
  pub observed_at : Timestamp
  pub reason : Option String

pub record SettlementSnapshot : Type 0 where
  pub trade : OtcTrade
  pub pearl : PearlProofState
  pub base : BaseEscrowEventState
  pub observed_at : Timestamp

pub record DecisionMetadata : Type 0 where
  pub trade_state : TradeState
  pub pearl_status : PearlProofStatus
  pub base_status : BaseEscrowStatus
  pub pearl_confirmations : ℕ
  pub base_confirmations : ℕ

pub record SettlementDecisionRecord : Type 0 where
  pub decision_id : String
  pub idempotency_key : String
  pub trade_id : String
  pub action : SettlementDecisionAction
  pub to_state : Option TradeState
  pub reason : String
  pub source_event_ids : List String
  pub snapshot_hash : String
  pub created_at : Timestamp
  pub metadata : DecisionMetadata

pub record SettlementPreparedAction : Type 0 where
  pub action_id : String
  pub decision_id : String
  pub trade_id : String
  pub action : SettlementDecisionAction
  pub idempotency_key : String
  pub created_at : Timestamp
  pub adapter : String
  pub live_broadcast : Bool

-- What `createSettlementSnapshotHash` hashes.
pub record SnapshotHashInput : Type 0 where
  pub trade_id : String
  pub trade_state : TradeState
  pub deadlines : OtcTradeDeadlines
  pub pearl : PearlProofState
  pub base : BaseEscrowEventState

-- Node's SHA-256, on a string and on the canonical JSON text of the hashed object.
pub record Hashing : Type 0 where
  pub sha256 : String → String
  pub sha256_json : SnapshotHashInput → String
