-- ===== src/Escrow/Types.antt =====
-- packages/pearl-escrow/src/types.ts. Fields that nothing here reads are left out: signing policies,
-- keys but the output script, and the record of a verification.
use pearl_infra.Prelude.{ℕ, String, ◌≡◌, refl, some, Option, List, [], ◌∷◌, Bool, Eq, enum_eq}
use pearl_infra.Prelude.Equality.{get_elem?}

pub data PearlEscrowTemplateKind : Type 0 where
  release refund : PearlEscrowTemplateKind

abbrev kind_index : PearlEscrowTemplateKind → ℕ
kind_index release = 0
kind_index refund = 1

abbrev kinds : List PearlEscrowTemplateKind
kinds = release ∷ refund ∷ []

pub kinds-index : (k : PearlEscrowTemplateKind) → get_elem? kinds (kind_index k) ≡ some k
kinds-index release = refl
kinds-index refund = refl

instance abbrev pub kind_eq : Eq PearlEscrowTemplateKind
kind_eq = enum_eq kind_index kinds kinds-index

abbrev pub kind_name : PearlEscrowTemplateKind → String
kind_name release = "release"
kind_name refund = "refund"

pub record PearlEscrowOutput : Type 0 where
  pub address : String
  pub amount_grains : String

pub record PearlEscrowInputTemplate : Type 0 where
  pub outpoint : Option String
  pub amount_grains : String
  pub sequence : Option ℕ

pub record PearlEscrowTxTemplate : Type 0 where
  pub kind : PearlEscrowTemplateKind
  pub inputs : List PearlEscrowInputTemplate
  pub outputs : List PearlEscrowOutput
  pub lock_time : Option ℕ

pub record PearlEscrowPackage : Type 0 where
  pub trade_id : String
  pub network : String
  pub escrow_address : String
  pub expected_amount_grains : String
  pub required_confirmations : ℕ
  pub funding_outpoint : Option String
  pub release_template : PearlEscrowTxTemplate
  pub refund_template : PearlEscrowTxTemplate
  pub taproot_output_script_hex : String

pub record PearlEscrowFundingCandidate : Type 0 where
  pub txid : String
  pub vout : ℕ
  pub amount_grains : String
  pub address : Option String
  pub script_pub_key_hex : Option String
  pub block_height : Option ℕ
  pub confirmations : Option ℕ

pub data FundingMatchStatus : Type 0 where
  matched underpaid overpaid script_mismatch outpoint_mismatch : FundingMatchStatus

pub record PearlEscrowFundingMatch : Type 0 where
  pub is_matched : Bool
  pub status : FundingMatchStatus
  pub outpoint : String
  pub expected_amount_grains : String
  pub observed_amount_grains : String
  pub script_pub_key_hex : String
  pub block_height : Option ℕ
  pub confirmations : Option ℕ

pub record CreatePearlEscrowUnsignedTxInput : Type 0 where
  pub escrow : PearlEscrowPackage
  pub kind : PearlEscrowTemplateKind
  pub fee_grains : Option String
  pub sequence : Option ℕ

pub record PearlEscrowUnsignedTx : Type 0 where
  pub kind : PearlEscrowTemplateKind
  pub unsigned_tx_hex : String
  pub input_outpoint : String
  pub input_amount_grains : String
  pub output_amount_grains : String
  pub fee_grains : String
  pub lock_time : ℕ

pub record PearlEscrowSignerPolicyInput : Type 0 where
  pub escrow : PearlEscrowPackage
  pub action : PearlEscrowTemplateKind
  pub unsigned_tx : PearlEscrowUnsignedTx
  pub destination_address : String
  pub fee_grains : String
  pub fee_cap_grains : String
  pub policy_version : String
  pub decision_event_id : String
  pub derivation_path : Option String
  pub signer_key_id : Option String
  pub observed_state_hash : String

pub record PearlEscrowSignerRequest : Type 0 where
  pub trade_id : String
  pub action : PearlEscrowTemplateKind
  pub network : String
  pub funding_outpoint : String
  pub unsigned_tx_hex : String
  pub tx_template_hash : String
  pub policy_version : String
  pub decision_event_id : String
  pub idempotency_key : String
  pub derivation_path : Option String
  pub signer_key_id : Option String
  pub destination_address : String
  pub fee_grains : String
  pub fee_cap_grains : String
  pub output_amount_grains : String
  pub observed_state_hash : String
  pub created_at : String

-- What the functions throw.
pub data EscrowError : Type 0 where
  invalid_txid invalid_amount invalid_hex missing_address invalid_address : EscrowError
  missing_outpoint invalid_outpoint invalid_fee fee_not_below_input missing_output : EscrowError
  unsafe_amount invalid_transaction kind_mismatch fee_mismatch fee_above_cap : EscrowError
  destination_mismatch : EscrowError

pub data EscrowResult {ℓ} (A : Type ℓ) : Type ℓ where
  fails : EscrowError → EscrowResult A
  returns : A → EscrowResult A
