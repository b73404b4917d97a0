-- ===== src/Escrow/SignerRequest.antt =====
-- packages/pearl-escrow/src/broadcast.ts, the request to the signer.
use pearl_infra.Prelude.{
  ℕ, String, some, none, Option, [], ◌∷◌, Bool, false, not, ◌===◌, string_eq, ltb, if◌then◌else◌,
}
use pearl_infra.Prelude.Lists.{head?}
use pearl_infra.Prelude.BigInts.{big_int}
use pearl_infra.Prelude.Text.{join, concat}
use pearl_infra.Escrow.Types.{
  PearlEscrowTemplateKind, kind_eq, kind_name, PearlEscrowOutput, PearlEscrowUnsignedTx,
  PearlEscrowSignerPolicyInput, PearlEscrowSignerRequest, EscrowError, kind_mismatch, fee_mismatch,
  invalid_fee, fee_above_cap, destination_mismatch, invalid_hex, EscrowResult, fails, returns,
}
use pearl_infra.Escrow.Texts.{is_non_negative_integer, normalize_hex}
use pearl_infra.Escrow.UnsignedTx.{select_template}

unfoldable pub create_pearl_escrow_idempotency_key :
    String → PearlEscrowTemplateKind → String → String → String
create_pearl_escrow_idempotency_key trade_id action funding_outpoint tx_template_hash =
    join ":" ("pearl" ∷ trade_id ∷ kind_name action ∷ funding_outpoint ∷ tx_template_hash ∷ [])

abbrev pub above_cap : Option ℕ → Option ℕ → Option EscrowError
above_cap none cap = some invalid_fee
above_cap (some fee) none = some invalid_fee
above_cap (some fee) (some cap) = if ltb cap fee then some fee_above_cap else none

abbrev pub pays_to : Option PearlEscrowOutput → String → Bool
pays_to none destination = false
pays_to (some output) destination = output.address === destination

-- `assertUnsignedTxMatchesPolicy`, `assertFeeWithinCap` and `assertDestination`: what they throw.
unfoldable pub policy_error : PearlEscrowSignerPolicyInput → Option EscrowError
policy_error input =
    if not (input.unsigned_tx.kind === input.action)
    then some kind_mismatch
    else if not (input.unsigned_tx.fee_grains === input.fee_grains)
    then some fee_mismatch
    else if not (is_non_negative_integer input.fee_grains)
    then some invalid_fee
    else if not (is_non_negative_integer input.fee_cap_grains)
    then some invalid_fee
    else elim (above_cap (big_int input.fee_grains) (big_int input.fee_cap_grains)) [
      | some error ↦ some error
      | none ↦
          if pays_to (head? (select_template input.escrow input.action).outputs)
            input.destination_address
          then none
          else some destination_mismatch
    ]

-- `...(text ? { text } : {})`
abbrev kept_text : Option String → Option String
kept_text none = none
kept_text (some text) = if text === "" then none else some text

-- `sha256Json` of the transaction's fields.
module _ (sha256_json : PearlEscrowUnsignedTx → String) where
  unfoldable pub create_pearl_escrow_tx_template_hash : PearlEscrowUnsignedTx → EscrowResult String
  create_pearl_escrow_tx_template_hash tx = elim (normalize_hex tx.unsigned_tx_hex) [
    | none ↦ fails invalid_hex
    | some hex ↦
        returns (concat ("sha256:" ∷ sha256_json (record tx { unsigned_tx_hex = hex }) ∷ []))
  ]

  abbrev pub signer_request :
      PearlEscrowSignerPolicyInput → String → String → PearlEscrowSignerRequest
  signer_request input now hash = record {
    trade_id = input.escrow.trade_id;
    action = input.action;
    network = input.escrow.network;
    funding_outpoint = input.unsigned_tx.input_outpoint;
    unsigned_tx_hex = input.unsigned_tx.unsigned_tx_hex;
    tx_template_hash = hash;
    policy_version = input.policy_version;
    decision_event_id = input.decision_event_id;
    idempotency_key =
        create_pearl_escrow_idempotency_key input.escrow.trade_id input.action
          input.unsigned_tx.input_outpoint hash;
    derivation_path = kept_text input.derivation_path;
    signer_key_id = kept_text input.signer_key_id;
    destination_address = input.destination_address;
    fee_grains = input.fee_grains;
    fee_cap_grains = input.fee_cap_grains;
    output_amount_grains = input.unsigned_tx.output_amount_grains;
    observed_state_hash = input.observed_state_hash;
    created_at = now;
  }

  unfoldable pub create_pearl_escrow_signer_request :
      PearlEscrowSignerPolicyInput → String → EscrowResult PearlEscrowSignerRequest
  create_pearl_escrow_signer_request input now = elim (policy_error input) [
    | some error ↦ fails error
    | none ↦ elim (create_pearl_escrow_tx_template_hash input.unsigned_tx) [
      | fails error ↦ fails error
      | returns hash ↦ returns (signer_request input now hash)
    ]
  ]
