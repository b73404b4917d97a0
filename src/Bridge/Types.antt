-- ===== src/Bridge/Types.antt =====
-- services/bridge-service/src/types.ts
use pearl_infra.Prelude.{ℕ, String, ◌≡◌, refl, some, Option, List, [], ◌∷◌, Bool, Eq, enum_eq}
use pearl_infra.Prelude.Equality.{get_elem?}
use pearl_infra.Prelude.Map.{Dict}

-- A value of a metadata record. Numbers are the non-negative integers.
pub data MetadataValue : Type 0 where
  text_value : String → MetadataValue
  number_value : ℕ → MetadataValue
  boolean_value : Bool → MetadataValue
  null_value : MetadataValue

abbrev pub Metadata : Type 0
Metadata = Dict MetadataValue

pub data PearlNetwork : Type 0 where
  mainnet testnet testnet2 simnet regtest : PearlNetwork

pub data BridgeWatchPurpose : Type 0 where
  bridge_deposit bridge_reserve : BridgeWatchPurpose

pub data WatchStatus : Type 0 where
  active closed : WatchStatus

pub data ObservationMatchStatus : Type 0 where
  pending confirmed spent detached : ObservationMatchStatus

abbrev match_index : ObservationMatchStatus → ℕ
match_index pending = 0
match_index confirmed = 1
match_index spent = 2
match_index detached = 3

abbrev match_statuses : List ObservationMatchStatus
match_statuses = pending ∷ confirmed ∷ spent ∷ detached ∷ []

pub match_statuses-index :
    (s : ObservationMatchStatus) → get_elem? match_statuses (match_index s) ≡ some s
match_statuses-index pending = refl
match_statuses-index _ = refl

instance abbrev pub match_eq : Eq ObservationMatchStatus
match_eq = enum_eq match_index match_statuses match_statuses-index

pub record BridgeAddressObservation : Type 0 where
  pub outpoint : String
  pub watch_id : String
  pub block_hash : String
  pub height : ℕ
  pub amount_grains : String
  pub confirmations : ℕ
  pub match_status : ObservationMatchStatus
  pub classification : String
  pub observed_at : String

pub record BridgeAddressSpend : Type 0 where
  pub spend_txid : String
  pub spent_outpoint : String
  pub block_hash : String
  pub height : ℕ
  pub classification : String
  pub classification_data : Option Metadata
  pub observed_at : String

-- `WatchedBridgeAddressWithHistory`, with the fields of `WatchedBridgeAddress`.
pub record WatchedBridgeAddressWithHistory : Type 0 where
  pub watch_id : String
  pub purpose : BridgeWatchPurpose
  pub network : PearlNetwork
  pub address : String
  pub required_confirmations : ℕ
  pub status : WatchStatus
  pub metadata : Metadata
  pub created_at : String
  pub updated_at : String
  pub observations : List BridgeAddressObservation
  pub spends : List BridgeAddressSpend

pub data BridgeExitStatus : Type 0 where
  pending processed released refunded cancelled unknown : BridgeExitStatus

abbrev exit_index : BridgeExitStatus → ℕ
exit_index BridgeExitStatus.pending = 0
exit_index BridgeExitStatus.processed = 1
exit_index BridgeExitStatus.released = 2
exit_index BridgeExitStatus.refunded = 3
exit_index BridgeExitStatus.cancelled = 4
exit_index BridgeExitStatus.unknown = 5

abbrev exit_statuses : List BridgeExitStatus
exit_statuses =
    BridgeExitStatus.pending ∷ BridgeExitStatus.processed ∷ BridgeExitStatus.released
    ∷ BridgeExitStatus.refunded ∷ BridgeExitStatus.cancelled ∷ BridgeExitStatus.unknown ∷ []

pub exit_statuses-index : (s : BridgeExitStatus) → get_elem? exit_statuses (exit_index s) ≡ some s
exit_statuses-index BridgeExitStatus.pending = refl
exit_statuses-index _ = refl

instance abbrev pub exit_eq : Eq BridgeExitStatus
exit_eq = enum_eq exit_index exit_statuses exit_statuses-index

abbrev pub exit_status_name : BridgeExitStatus → String
exit_status_name BridgeExitStatus.pending = "pending"
exit_status_name BridgeExitStatus.processed = "processed"
exit_status_name BridgeExitStatus.released = "released"
exit_status_name BridgeExitStatus.refunded = "refunded"
exit_status_name BridgeExitStatus.cancelled = "cancelled"
exit_status_name BridgeExitStatus.unknown = "unknown"

pub record BridgeExitRequest : Type 0 where
  pub exit_id : String
  pub igra_burn_txid : String
  pub igra_burn_log_index : ℕ
  pub igra_burn_block : ℕ
  pub igra_chain_id : ℕ
  pub requested_amount_grains : String
  pub pearl_recipient : String
  pub status : BridgeExitStatus
  pub pearl_release_txid : Option String
  pub pearl_release_block : Option ℕ
  pub released_at : Option String
  pub metadata : Option Metadata
  pub created_at : String
  pub updated_at : String

pub record BridgePilotLimits : Type 0 where
  pub min_deposit_grains : String
  pub max_deposit_grains : String
  pub max_exit_grains : String
  pub pilot_supply_cap_grains : String
  pub rolling_window_cap_grains : Option String
  pub rolling_window_used_grains : Option String

pub data BridgeRelayerDecisionAction : Type 0 where
  wait manual_review prepare_mint prepare_exit_release mark_exit_released :
      BridgeRelayerDecisionAction

abbrev pub relayer_action_name : BridgeRelayerDecisionAction → String
relayer_action_name wait = "wait"
relayer_action_name manual_review = "manual_review"
relayer_action_name prepare_mint = "prepare_mint"
relayer_action_name prepare_exit_release = "prepare_exit_release"
relayer_action_name mark_exit_released = "mark_exit_released"

pub record BridgeRelayerDecision : Type 0 where
  pub action : BridgeRelayerDecisionAction
  pub reason : String
  pub idempotency_key : String
  pub source_ids : List String
  pub metadata : Option Metadata

-- The snapshot itself is kept and never read.
pub record BridgeReconciliationSnapshotRecord {ℓ} (Snapshot : Type ℓ) : Type ℓ where
  pub snapshot_id : String
  pub snapshot : Snapshot
  pub observed_at : String
  pub created_at : String

pub data IgraBridgeEventType : Type 0 where
  deposit_claimed exit_requested exit_processed exit_refunded caps_updated : IgraBridgeEventType
  entry_paused exit_request_paused exit_processing_paused : IgraBridgeEventType
  relayer_updated operator_updated : IgraBridgeEventType

pub record IgraBridgeEvent : Type 0 where
  pub event_id : String
  pub event_type : IgraBridgeEventType
  pub tx_hash : String
  pub log_index : ℕ
  pub block_number : ℕ
  pub chain_id : ℕ
  pub payload : Metadata
  pub observed_at : String

pub data BridgeApprovalKind : Type 0 where
  mint exit_release rejection pause_recommendation replay : BridgeApprovalKind

pub record BridgeAdminDecision : Type 0 where
  pub decision_id : String
  pub kind : BridgeApprovalKind
  pub target_id : String
  pub actor : String
  pub reason : String
  pub idempotency_key : String
  pub metadata : Metadata
  pub created_at : String
