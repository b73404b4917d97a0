-- ===== src/Usdc/Types.antt =====
-- packages/usdc-escrow-client/src/types.ts
use pearl_infra.Prelude.{ℕ, String, ◌≡◌, refl, some, Option, List, [], ◌∷◌, Eq, enum_eq}
use pearl_infra.Prelude.Equality.{get_elem?}
use pearl_infra.Prelude.Dates.{Timestamp}

pub data UsdcEscrowStatus : Type 0 where
  created deposited released refunded cancelled : UsdcEscrowStatus

abbrev pub status_index : UsdcEscrowStatus → ℕ
status_index created = 0
status_index deposited = 1
status_index released = 2
status_index refunded = 3
status_index cancelled = 4

abbrev pub statuses : List UsdcEscrowStatus
statuses = created ∷ deposited ∷ released ∷ refunded ∷ cancelled ∷ []

pub statuses-index : (s : UsdcEscrowStatus) → get_elem? statuses (status_index s) ≡ some s
statuses-index created = refl
statuses-index _ = refl

instance abbrev pub status_eq : Eq UsdcEscrowStatus
status_eq = enum_eq status_index statuses statuses-index

pub data UsdcEscrowNetwork : Type 0 where
  base base_sepolia : UsdcEscrowNetwork

abbrev pub network_index : UsdcEscrowNetwork → ℕ
network_index base = 0
network_index base_sepolia = 1

pub networks-index :
    (n : UsdcEscrowNetwork) → get_elem? (base ∷ base_sepolia ∷ []) (network_index n) ≡ some n
networks-index base = refl
networks-index base_sepolia = refl

instance abbrev pub network_eq : Eq UsdcEscrowNetwork
network_eq = enum_eq network_index (base ∷ base_sepolia ∷ []) networks-index

pub data UsdcEscrowTradeEventName : Type 0 where
  trade_created deposited_event released_event refunded_event cancelled_event :
      UsdcEscrowTradeEventName

-- What the five events add to `UsdcEscrowEventBase`.
pub data EventBody : Type 0 where
  -- buyer, seller, amountMicros, feeMicros, expiryUnixSeconds
  created_body : String → String → String → String → ℕ → EventBody
  -- payer, amountMicros
  deposited_body : String → String → EventBody
  -- seller, sellerAmountMicros, feeAmountMicros
  released_body : String → String → String → EventBody
  -- buyer, amountMicros
  refunded_body : String → String → EventBody
  cancelled_body : EventBody

-- `UsdcEscrowTradeEvent`, a union: the common base and a body.
pub record UsdcEscrowTradeEvent : Type 0 where
  pub network : UsdcEscrowNetwork
  pub chain_id : ℕ
  pub contract_address : String
  pub trade_key : String
  pub tx_hash : String
  pub log_index : ℕ
  pub block_number : ℕ
  pub block_hash : Option String
  pub confirmations : ℕ
  pub observed_at : Timestamp
  pub body : EventBody

-- `event.eventName`
unfoldable pub event_name : EventBody → UsdcEscrowTradeEventName
event_name (created_body buyer seller amount fee expiry) = trade_created
event_name (deposited_body payer amount) = deposited_event
event_name (released_body seller amount fee) = released_event
event_name (refunded_body buyer amount) = refunded_event
event_name cancelled_body = cancelled_event

pub record UsdcEscrowTradeEventState : Type 0 where
  pub network : UsdcEscrowNetwork
  pub chain_id : ℕ
  pub contract_address : String
  pub trade_key : String
  pub status : UsdcEscrowStatus
  pub source_event_id : String
  pub last_event_name : UsdcEscrowTradeEventName
  pub tx_hash : String
  pub block_number : ℕ
  pub block_hash : Option String
  pub confirmations : ℕ
  pub observed_at : Timestamp
  pub buyer : Option String
  pub seller : Option String
  pub payer : Option String
  pub amount_micros : Option String
  pub fee_micros : Option String
  pub expiry_unix_seconds : Option ℕ
  pub seller_amount_micros : Option String
  pub fee_amount_micros : Option String
  pub deposit_tx_hash : Option String
  pub release_tx_hash : Option String
  pub refund_tx_hash : Option String
  pub cancelled_tx_hash : Option String
