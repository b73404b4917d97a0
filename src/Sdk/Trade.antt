-- ===== src/Sdk/Trade.antt =====
-- packages/pearl-sdk/src/otc.ts: the trade and its legs. Numbers that the program keeps as decimal
-- strings are strings here too; the fields of type `unknown` (the two transaction templates) and
-- the script leaves are left out, for nothing that is modelled reads them.
use pearl_infra.Prelude.{ℕ, String, refl, some, Option, List, [], ◌∷◌, ◌≡◌, Bool, true, Eq, enum_eq}
use pearl_infra.Prelude.Equality.{get_elem?}
use pearl_infra.Prelude.Lists.{every, every_sound}
use pearl_infra.Prelude.Dates.{Timestamp}

pub data TradeState : Type 0 where
  quoted quote_expired pearl_escrow_pending pearl_escrow_seen pearl_escrow_confirmed : TradeState
  usdc_escrow_pending usdc_escrow_confirmed release_pending released : TradeState
  refund_available refund_pending refunded disputed cancelled failed_manual_review : TradeState
  late_prl_funding usdc_refunded prl_release_failed amount_mismatch reorged : TradeState
  stale_indexer unknown_spend : TradeState

abbrev pub trade_states : List TradeState
trade_states =
    quoted ∷ quote_expired ∷ pearl_escrow_pending ∷ pearl_escrow_seen ∷ pearl_escrow_confirmed
    ∷ usdc_escrow_pending ∷ usdc_escrow_confirmed ∷ release_pending ∷ released ∷ refund_available
    ∷ refund_pending ∷ refunded ∷ disputed ∷ cancelled ∷ failed_manual_review ∷ late_prl_funding
    ∷ usdc_refunded ∷ prl_release_failed ∷ amount_mismatch ∷ reorged ∷ stale_indexer ∷ unknown_spend
    ∷ []

abbrev pub state_index : TradeState → ℕ
state_index quoted = 0
state_index quote_expired = 1
state_index pearl_escrow_pending = 2
state_index pearl_escrow_seen = 3
state_index pearl_escrow_confirmed = 4
state_index usdc_escrow_pending = 5
state_index usdc_escrow_confirmed = 6
state_index release_pending = 7
state_index released = 8
state_index refund_available = 9
state_index refund_pending = 10
state_index refunded = 11
state_index disputed = 12
state_index cancelled = 13
state_index failed_manual_review = 14
state_index late_prl_funding = 15
state_index usdc_refunded = 16
state_index prl_release_failed = 17
state_index amount_mismatch = 18
state_index reorged = 19
state_index stale_indexer = 20
state_index unknown_spend = 21

pub trade_states-index : (s : TradeState) → get_elem? trade_states (state_index s) ≡ some s
trade_states-index quoted = refl
trade_states-index _ = refl

-- A test that passes on every listed state passes on every state.
pub every_state :
    (p : TradeState → Bool) → every p trade_states ≡ true → (s : TradeState) → p s ≡ true
every_state p h s = every_sound p trade_states (state_index s) s h (trade_states-index s)

pub every_pair :
    (p : TradeState → TradeState → Bool)
    → every (λ s. every (λ t. p s t) trade_states) trade_states ≡ true
    → (s t : TradeState) → p s t ≡ true
every_pair p h s t =
    every_state (λ u. p s u) (every_state (λ v. every (λ u. p v u) trade_states) h s) t

instance abbrev pub trade_state_eq : Eq TradeState
trade_state_eq = enum_eq state_index trade_states trade_states-index

-- The literal that a state is.
unfoldable pub state_name : TradeState → String
state_name quoted = "quoted"
state_name quote_expired = "quote_expired"
state_name pearl_escrow_pending = "pearl_escrow_pending"
state_name pearl_escrow_seen = "pearl_escrow_seen"
state_name pearl_escrow_confirmed = "pearl_escrow_confirmed"
state_name usdc_escrow_pending = "usdc_escrow_pending"
state_name usdc_escrow_confirmed = "usdc_escrow_confirmed"
state_name release_pending = "release_pending"
state_name released = "released"
state_name refund_available = "refund_available"
state_name refund_pending = "refund_pending"
state_name refunded = "refunded"
state_name disputed = "disputed"
state_name cancelled = "cancelled"
state_name failed_manual_review = "failed_manual_review"
state_name late_prl_funding = "late_prl_funding"
state_name usdc_refunded = "usdc_refunded"
state_name prl_release_failed = "prl_release_failed"
state_name amount_mismatch = "amount_mismatch"
state_name reorged = "reorged"
state_name stale_indexer = "stale_indexer"
state_name unknown_spend = "unknown_spend"

pub data OtcQuoteSide : Type 0 where
  buy_prl sell_prl : OtcQuoteSide

pub data PearlEscrowMode : Type 0 where
  coordinator multisig : PearlEscrowMode

pub data PearlReleaseSigningMode : Type 0 where
  preauthorize_release manual_after_base_deposit : PearlReleaseSigningMode

pub data PearlNetwork : Type 0 where
  mainnet testnet testnet2 simnet regtest : PearlNetwork

pub record OtcTradeDeadlines : Type 0 where
  pub quote_expires_at : Timestamp
  pub pearl_funding_deadline : Timestamp
  pub usdc_deposit_deadline : Timestamp
  pub settlement_deadline : Timestamp
  pub refund_available_at : Timestamp

pub record PearlBuyerReleasePresignature : Type 0 where
  pub psbt_base64 : String
  pub buyer_pubkey : String
  pub destination_address : String
  pub output_amount_grains : String
  pub fee_grains : String
  pub funding_outpoint : String
  pub signed_at : Timestamp
  pub revoked_at : Option Timestamp

pub record SignerPubkeys : Type 0 where
  pub buyer : Option String
  pub seller : Option String
  pub arbiter : Option String
  pub desk : Option String

pub record PearlEscrowLeg : Type 0 where
  pub network : PearlNetwork
  pub address : String
  pub expected_amount_grains : String
  pub required_confirmations : ℕ
  pub internal_pubkey_hex : Option String
  pub script_nonce_hex : Option String
  pub taproot_output_script_hex : Option String
  pub derivation_path : Option String
  pub refund_eligible_after_height : Option ℕ
  pub refund_eligible_after_unix_time : Option ℕ
  pub funding_outpoint : Option String
  pub release_txid : Option String
  pub refund_txid : Option String
  pub signer_pubkeys : Option SignerPubkeys
  pub buyer_release_presignature : Option PearlBuyerReleasePresignature

pub record UsdcEscrowLeg : Type 0 where
  pub chain_id : ℕ
  pub contract : String
  pub usdc_token : String
  pub trade_key : String
  pub expected_amount_micros : String
  pub required_confirmations : ℕ
  pub deposit_tx_hash : Option String
  pub release_tx_hash : Option String
  pub refund_tx_hash : Option String
  pub expires_at : Timestamp

pub record OtcTrade : Type 0 where
  pub trade_id : String
  pub quote_id : String
  pub state : TradeState
  pub side : OtcQuoteSide
  pub amount_prl : String
  pub amount_usdc : String
  pub fee_prl : String
  pub fee_usdc : String
  pub buyer_pearl_address : String
  pub buyer_usdc_address : String
  pub seller_pearl_refund_address : String
  pub seller_usdc_receive_address : String
  pub pearl_escrow_mode : Option PearlEscrowMode
  pub pearl_release_signing_mode : Option PearlReleaseSigningMode
  pub buyer_pearl_pubkey : Option String
  pub seller_pearl_pubkey : Option String
  pub pearl_escrow : PearlEscrowLeg
  pub usdc_escrow : UsdcEscrowLeg
  pub deadlines : OtcTradeDeadlines
  pub created_at : Timestamp
  pub updated_at : Timestamp
