-- ===== src/Watch/Types.antt =====
-- services/pearl-indexer/src/watched-address-types.ts
use pearl_infra.Prelude.{ℕ, String, ◌≡◌, refl, some, Option, List, [], ◌∷◌, Bool, Eq, enum_eq}
use pearl_infra.Prelude.Equality.{get_elem?}
use pearl_infra.Prelude.Map.{Dict}
use pearl_infra.Prelude.Int.{ℤ}

pub data WatchPurpose : Type 0 where
  otc_escrow bridge_deposit bridge_reserve : WatchPurpose

abbrev purpose_index : WatchPurpose → ℕ
purpose_index otc_escrow = 0
purpose_index bridge_deposit = 1
purpose_index bridge_reserve = 2

abbrev purposes : List WatchPurpose
purposes = otc_escrow ∷ bridge_deposit ∷ bridge_reserve ∷ []

pub purposes-index : (p : WatchPurpose) → get_elem? purposes (purpose_index p) ≡ some p
purposes-index otc_escrow = refl
purposes-index _ = refl

instance abbrev pub purpose_eq : Eq WatchPurpose
purpose_eq = enum_eq purpose_index purposes purposes-index

abbrev pub purpose_name : WatchPurpose → String
purpose_name otc_escrow = "otc_escrow"
purpose_name bridge_deposit = "bridge_deposit"
purpose_name bridge_reserve = "bridge_reserve"

pub data WatchStatus : Type 0 where
  active closed : WatchStatus

pub data PearlNetwork : Type 0 where
  mainnet testnet testnet2 simnet regtest : PearlNetwork

abbrev network_index : PearlNetwork → ℕ
network_index mainnet = 0
network_index testnet = 1
network_index testnet2 = 2
network_index simnet = 3
network_index regtest = 4

abbrev networks : List PearlNetwork
networks = mainnet ∷ testnet ∷ testnet2 ∷ simnet ∷ regtest ∷ []

pub networks-index : (n : PearlNetwork) → get_elem? networks (network_index n) ≡ some n
networks-index mainnet = refl
networks-index _ = refl

instance abbrev pub network_eq : Eq PearlNetwork
network_eq = enum_eq network_index networks networks-index

pub data ObservationMatchStatus : Type 0 where
  pending confirmed spent detached : ObservationMatchStatus

abbrev match_index : ObservationMatchStatus → ℕ
match_index pending = 0
match_index confirmed = 1
match_index spent = 2
match_index detached = 3

abbrev match_statuses : List ObservationMatchStatus
match_statuses = pending ∷ confirmed ∷ spent ∷ detached ∷ []

pub match_statuses-index :
    (s : ObservationMatchStatus) → get_elem? match_statuses (match_index s) ≡ some s
match_statuses-index pending = refl
match_statuses-index _ = refl

instance abbrev pub match_eq : Eq ObservationMatchStatus
match_eq = enum_eq match_index match_statuses match_statuses-index

-- A JSON value of a template output's field: a string, a non-negative integer, a value of another
-- type, or one that is null or not there.
pub data RawField : Type 0 where
  raw_text : String → RawField
  raw_number : ℕ → RawField
  raw_other raw_missing : RawField

-- An element of a template's `outputs`, where it is an object.
pub record RawOutput : Type 0 where
  pub address : RawField
  pub amount_grains_camel : RawField
  pub amount_grains_snake : RawField

-- The output that a classification shows.
pub record ShownOutput : Type 0 where
  pub txid : String
  pub vout : ℕ
  pub address : Option String
  pub amount_grains : String

-- A value of a `Record<string, unknown>`: of metadata, or of a classification's data. An object with
-- an array `outputs` is a template; numbers are the non-negative integers.
pub data MetadataValue : Type 0 where
  text_value : String → MetadataValue
  number_value : ℕ → MetadataValue
  boolean_value : Bool → MetadataValue
  null_value : MetadataValue
  template_value : List RawOutput → MetadataValue
  output_value : ShownOutput → MetadataValue

abbrev pub Metadata : Type 0
Metadata = Dict MetadataValue

pub record RegisterWatchInput : Type 0 where
  pub watch_id : String
  pub purpose : WatchPurpose
  pub network : PearlNetwork
  pub address : String
  pub required_confirmations : ℕ
  pub metadata : Option Metadata

pub record WatchedAddress : Type 0 where
  pub watch_id : String
  pub purpose : WatchPurpose
  pub network : PearlNetwork
  pub address : String
  pub required_confirmations : ℕ
  pub status : WatchStatus
  pub metadata : Metadata
  pub created_at : String
  pub updated_at : String

pub record AddressObservation : Type 0 where
  pub outpoint : String
  pub watch_id : String
  pub block_hash : String
  pub height : ℕ
  pub amount_grains : String
  pub confirmations : ℤ
  pub match_status : ObservationMatchStatus
  pub classification : String
  pub observed_at : String

pub record AddressSpend : Type 0 where
  pub spend_txid : String
  pub spent_outpoint : String
  pub block_hash : String
  pub height : ℕ
  pub classification : String
  pub classification_data : Option Metadata
  pub observed_at : String

pub record ObservedOutpoint : Type 0 where
  pub watch : WatchedAddress
  pub observation : AddressObservation

-- `WatchedAddressWithHistory`
pub record WatchHistory : Type 0 where
  pub watch : WatchedAddress
  pub observations : List AddressObservation
  pub spends : List AddressSpend
